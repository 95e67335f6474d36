-- ===== src/SchemaRegistry/Registry/Calls.antt =====
-- Any sequence of calls on a new registry.
use golang_journey.Prelude.{ℕ, ◌+◌, ◌≤◌, ◌<◌, List, [], ◌∷◌, Option, length, arith}
use golang_journey.Prelude.Int64.{half}
use golang_journey.Prelude.Map.{lookup}
use golang_journey.Prelude.Text.{Text}
use golang_journey.SchemaRegistry.Schema.{Format, CompatLevel}
use golang_journey.SchemaRegistry.Registry.{
  Checker, Registry, new, find_or_create, add_version, register_entry, register, set_compat_level,
  delete,
}
use golang_journey.SchemaRegistry.Registry.Delete.{delete-IsValid}
use golang_journey.SchemaRegistry.Registry.Invariant.{IsValid}
use golang_journey.SchemaRegistry.Registry.Preserve.{register-IsValid, set_compat_level-IsValid}

-- The calls that can change a registry.
pub data Call : Type 0 where
  register_call : Text → Format → Text → ℕ → Call
  set_compat_level_call : Text → CompatLevel → Call
  delete_call : Text → Call

module _ {E : Type 0} (unmarshal : Text → Option Text) where
  unfoldable pub apply : Registry E → Call → Registry E
  apply r (register_call k format content now) = (register unmarshal r k format content now).0
  apply r (set_compat_level_call k level) = (set_compat_level r k level).0
  apply r (delete_call k) = (delete r k).0

  unfoldable pub run : Registry E → List Call → Registry E
  run r [] = r
  run r (c ∷ calls) = run (apply r c) calls

  -- A call hands out at most one id.
  apply-next_id :
      (r : Registry E) (c : Call) → r.next_id + 1 < half → (apply r c).next_id ≤ r.next_id + 1
  unfolding apply register register_entry add_version find_or_create set_compat_level delete
  apply-next_id r (register_call k format content now) room = ground arith
  apply-next_id r (set_compat_level_call k level) room = ground arith
  apply-next_id r (delete_call k) room = ground arith

  apply-IsValid :
      (r : Registry E) (c : Call) → r.next_id + 1 < half → IsValid r → IsValid (apply r c)
  unfolding apply
  apply-IsValid r (register_call k format content now) room v =
      register-IsValid r v unmarshal k format content now room
  apply-IsValid r (set_compat_level_call k level) room v = set_compat_level-IsValid r v k level
  apply-IsValid r (delete_call k) room v = delete-IsValid r k v

  run_from-IsValid :
      (r : Registry E) (calls : List Call)
      → r.next_id + length calls < half
      → IsValid r
      → IsValid (run r calls)
  unfolding run
  run_from-IsValid r [] room v = v
  run_from-IsValid r (c ∷ calls) room v =
      let first = apply-next_id r c (omega arith) in
      run_from-IsValid (apply r c) calls (omega (arith, first)) (apply-IsValid r c (omega arith) v)

  -- Every registry that fewer than 2^63 - 1 calls of Register, `SetCompatLevel` and Delete make
  -- of a new one satisfies the invariant: no subject without a version, versions numbered from
  -- 1 without a gap, and the two maps agreeing on every schema.
  pub run-IsValid :
      (checker : Option (Checker E)) (calls : List Call)
      → length calls + 1 < half
      → IsValid (run (new checker) calls)
  unfolding new lookup
  run-IsValid checker calls room = run_from-IsValid (new checker) calls (omega arith) empty
    where
      empty : IsValid (new checker)
      empty = record {
        nonempty = λ k e h. ground (arith, h);
        within = λ k e h. ground (arith, h);
        numbered = λ k e i s h. ground (arith, h);
        stored = λ id s h. ground (arith, h);
        positive = omega arith;
        fits = omega arith;
      }
