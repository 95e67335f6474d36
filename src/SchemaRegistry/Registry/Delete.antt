-- ===== src/SchemaRegistry/Registry/Delete.antt =====
-- `Delete`: which ids go with the versions of a subject, and that the invariant is kept.
use golang_journey.Prelude.{
  ◌∙◌, ℕ, zero, suc, ◌-◌, ◌≡◌, ◌≢◌, inl, inr, refl, List, [], ◌∷◌, none, some, get_elem?, arith,
  ite, ℕ_discrete, Option-cases,
}
use golang_journey.Prelude.Map.{lookup, remove, lookup-remove}
use golang_journey.Prelude.Text.{Text, Text-discrete}
use golang_journey.SchemaRegistry.Schema.{Schema}
use golang_journey.SchemaRegistry.Registry.{SubjectEntry, Registry, delete_ids, delete}
use golang_journey.SchemaRegistry.Registry.Invariant.{Filed, IsValid}

-- The ids of the deleted versions are gone, and no other id is touched.
delete_ids-hit :
    (vs : List Schema) (m : List (ℕ × Schema)) (id : ℕ)
    → lookup ℕ_discrete id m ≡ none
    → lookup ℕ_discrete id (delete_ids vs m) ≡ none
unfolding delete_ids
delete_ids-hit [] m id h = h
delete_ids-hit (s ∷ vs) m id h =
    delete_ids-hit vs (remove ℕ_discrete s.id m) id
      (ground (arith, lookup-remove ℕ_discrete s.id id m))

pub delete_ids-listed :
    (vs : List Schema) (m : List (ℕ × Schema)) (i : ℕ) {s : Schema}
    → get_elem? vs i ≡ some s
    → lookup ℕ_discrete s.id (delete_ids vs m) ≡ none
unfolding delete_ids
delete_ids-listed [] m i h = cc
delete_ids-listed (x ∷ vs) m zero {s} h =
    delete_ids-hit vs (remove ℕ_discrete x.id m) s.id
      (ground (arith, lookup-remove ℕ_discrete x.id s.id m))
delete_ids-listed (x ∷ vs) m (suc i) h = delete_ids-listed vs (remove ℕ_discrete x.id m) i h

pub delete_ids-kept :
    (vs : List Schema) (m : List (ℕ × Schema)) (id : ℕ)
    → ((i : ℕ) (s : Schema) → get_elem? vs i ≡ some s → s.id ≢ id)
    → lookup ℕ_discrete id (delete_ids vs m) ≡ lookup ℕ_discrete id m
unfolding delete_ids
delete_ids-kept [] m id h = refl
delete_ids-kept (x ∷ vs) m id h =
    delete_ids-kept vs (remove ℕ_discrete x.id m) id (λ i. h (suc i))
    ∙ ground (arith, lookup-remove ℕ_discrete x.id id m, h 0 x refl)

pub delete_ids-subset :
    (vs : List Schema) (m : List (ℕ × Schema)) (id : ℕ) {s : Schema}
    → lookup ℕ_discrete id (delete_ids vs m) ≡ some s
    → lookup ℕ_discrete id m ≡ some s
unfolding delete_ids
delete_ids-subset [] m id h = h
delete_ids-subset (x ∷ vs) m id h = ground (
  arith,
  delete_ids-subset vs (remove ℕ_discrete x.id m) id h,
  lookup-remove ℕ_discrete x.id id m,
)

module _ {E : Type 0} (r : Registry E) (v : IsValid r) (k : Text) (entry : SubjectEntry)
    (e : lookup Text-discrete k r.subjects ≡ some entry) where
  -- An id goes exactly if its schema belongs to the deleted subject.
  pub delete_ids-owner :
      (id : ℕ) (s : Schema)
      → lookup ℕ_discrete id r.by_id ≡ some s
      → lookup ℕ_discrete id (delete_ids entry.versions r.by_id)
        ≡ ite (Text-discrete k s.subject) none (some s)
  delete_ids-owner id s h = elim (Text-discrete k s.subject) [
    | yes same ↦
        let here : get_elem? entry.versions (s.version - 1) ≡ some s =
          ground (arith, p.listed, p.at_version) in
        let gone = delete_ids-listed entry.versions r.by_id (s.version - 1) here in
        ground (arith, p.same_id, gone)
    | no ne ↦
        let foreign : (i : ℕ) (x : Schema) → get_elem? entry.versions i ≡ some x → x.id ≢ id =
          λ i x g c. ne (owners i x g c) in
        ground (arith, delete_ids-kept entry.versions r.by_id id foreign)
  ]
    where
      p : Filed r.subjects r.next_id id s
      p = v.stored id s h

      owners :
          (i : ℕ) (x : Schema) → get_elem? entry.versions i ≡ some x → x.id ≡ id → k ≡ s.subject
      owners i x g c =
          let q = v.numbered k entry i x e g in
          let same : s ≡ x = ground (arith, q.filed) in ground (arith, q.owner, same)

  pub delete_valid : IsValid (record r {
    subjects = remove Text-discrete k r.subjects;
    by_id = delete_ids entry.versions r.by_id;
  })
  delete_valid = record {
    nonempty = λ j x h. v.nonempty j x (removed j x h).1;
    within = λ j x h. v.within j x (removed j x h).1;
    numbered = λ j x i s h g.
        let p = v.numbered j x i s (removed j x h).1 g in
        record {
          number = p.number;
          owner = p.owner;
          filed = ground (arith, delete_ids-owner s.id s p.filed, p.owner, (removed j x h).0);
        };
    stored = λ id s h.
        let before = delete_ids-subset entry.versions r.by_id id h in
        let p = v.stored id s before in
        record {
          same_id = p.same_id;
          below = p.below;
          entry = p.entry;
          listed = ground (
            arith,
            delete_ids-owner id s before,
            lookup-remove Text-discrete k s.subject r.subjects,
            p.listed,
          );
          at_version = p.at_version;
        };
    positive = v.positive;
    fits = v.fits;
  }
    where
      removed :
          (j : Text) (x : SubjectEntry)
          → lookup Text-discrete j (remove Text-discrete k r.subjects) ≡ some x
          → (k ≢ j) × (lookup Text-discrete j r.subjects ≡ some x)
      removed j x h = ground (arith, lookup-remove Text-discrete k j r.subjects)

-- `Delete` keeps the invariant.
pub delete-IsValid : {E : Type 0} (r : Registry E) (k : Text) → IsValid r → IsValid (delete r k).0
unfolding delete
delete-IsValid r k v = elim (Option-cases (lookup Text-discrete k r.subjects)) [
  | inl e ↦ rw (e, delete) v
  | inr (entry, e) ↦ rw (e, delete) (delete_valid r v k entry e)
]
