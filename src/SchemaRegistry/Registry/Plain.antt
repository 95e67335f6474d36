-- ===== src/SchemaRegistry/Registry/Plain.antt =====
-- The methods of the registry that panic on no registry.
use golang_journey.Prelude.{ℕ, ◌≢◌, arith, panic}
use golang_journey.Prelude.Text.{Text}
use golang_journey.SchemaRegistry.Schema.{CompatLevel}
use golang_journey.SchemaRegistry.Registry.{
  Registry, get_by_id, versions, set_compat_level, compat_level, delete,
}

module _ {E : Type 0} (r : Registry E) where
  pub get_by_id-ne-panic : (id : ℕ) → get_by_id r id ≢ panic
  unfolding get_by_id
  get_by_id-ne-panic id = ground arith

  pub versions-ne-panic : (k : Text) → versions r k ≢ panic
  unfolding versions
  versions-ne-panic k = ground arith

  pub compat_level-ne-panic : (k : Text) → compat_level r k ≢ panic
  unfolding compat_level
  compat_level-ne-panic k = ground arith

  pub set_compat_level-ne-panic :
      (k : Text) (level : CompatLevel) → (set_compat_level r k level).1 ≢ panic
  unfolding set_compat_level
  set_compat_level-ne-panic k level = ground arith

  pub delete-ne-panic : (k : Text) → (delete r k).1 ≢ panic
  unfolding delete
  delete-ne-panic k = ground arith
