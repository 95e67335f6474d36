-- ===== src/SchemaRegistry/Registry/Invariant.antt =====
-- What holds of a registry between two calls: the two maps agree, the versions of a subject are
-- numbered from 1 without a gap, and every id in use is below the next one.
use golang_journey.Prelude.{
  ℕ, ◌+◌, ◌-◌, ◌<◌, ◌≡◌, ◌≢◌, ◌⊎◌, inl, inr, refl, List, [], none, some, length, get_elem?, arith,
  ℕ_discrete, Option-cases,
}
use golang_journey.Prelude.Int64.{half}
use golang_journey.Prelude.Map.{lookup, lookup-insert}
use golang_journey.Prelude.Text.{Text, Text-discrete}
use golang_journey.SchemaRegistry.Schema.{Schema, compat_backward}
use golang_journey.SchemaRegistry.Registry.{SubjectEntry, Registry, find_or_create}

-- A schema in its place: number, subject and the entry of the id map.
pub record InPlace (by_id : List (ℕ × Schema)) (subject : Text) (i : ℕ) (s : Schema) : Type 0 where
  pub number : s.version ≡ i + 1
  pub owner : s.subject ≡ subject
  pub filed : lookup ℕ_discrete s.id by_id ≡ some s

-- An entry of the id map, with the subject that lists its schema.
pub record Filed (subjects : List (Text × SubjectEntry)) (next_id id : ℕ) (s : Schema)
    : Type 0 where
  pub same_id : s.id ≡ id
  pub below : id < next_id
  pub entry : SubjectEntry
  pub listed : lookup Text-discrete s.subject subjects ≡ some entry
  pub at_version : get_elem? entry.versions (s.version - 1) ≡ some s

pub record IsValid {E : Type 0} (r : Registry E) : Type 0 where
  pub nonempty :
      (k : Text) (e : SubjectEntry)
      → lookup Text-discrete k r.subjects ≡ some e
      → 0 < length e.versions
  pub within :
      (k : Text) (e : SubjectEntry)
      → lookup Text-discrete k r.subjects ≡ some e
      → length e.versions < r.next_id
  pub numbered :
      (k : Text) (e : SubjectEntry) (i : ℕ) (s : Schema)
      → lookup Text-discrete k r.subjects ≡ some e
      → get_elem? e.versions i ≡ some s
      → InPlace r.by_id k i s
  pub stored :
      (id : ℕ) (s : Schema)
      → lookup ℕ_discrete id r.by_id ≡ some s
      → Filed r.subjects r.next_id id s
  pub positive : 0 < r.next_id
  pub fits : r.next_id < half

abbrev blank : SubjectEntry
blank = record { versions = []; compat = compat_backward }

module _ {E : Type 0} (r : Registry E) where
  -- No id in use is the next one.
  pub fresh_id : IsValid r → lookup ℕ_discrete r.next_id r.by_id ≡ none
  fresh_id v = elim (Option-cases (lookup ℕ_discrete r.next_id r.by_id)) [
    | inl e ↦ e
    | inr (s, e) ↦ absurd (omega (arith, (v.stored r.next_id s e).below))
  ]

  -- What `find_or_create` hands to the rest of `Register`: the entry of the subject, or an empty
  -- one, in a registry that differs at this subject alone.
  pub record Found (k : Text) (r' : Registry E) (entry : SubjectEntry) : Type 0 where
    pub known :
        (lookup Text-discrete k r.subjects ≡ some entry)
        ⊎ ((lookup Text-discrete k r.subjects ≡ none) × (entry.versions ≡ []))
    pub others :
        (j : Text) → k ≢ j → lookup Text-discrete j r'.subjects ≡ lookup Text-discrete j r.subjects
    pub ids : r'.by_id ≡ r.by_id
    pub next : r'.next_id ≡ r.next_id
    pub unchanged : (0 < length entry.versions) → r' ≡ r

  pub find_or_create-Found : (k : Text) → Found k (find_or_create r k).0 (find_or_create r k).1
  unfolding find_or_create
  find_or_create-Found k = elim (Option-cases (lookup Text-discrete k r.subjects)) [
    | inl e ↦
        rw (e, find_or_create)
          (record {
            known = inr (e, refl);
            others = λ j h. ground (arith, lookup-insert Text-discrete k j blank r.subjects);
            ids = refl;
            next = refl;
            unchanged = λ h. absurd (omega arith);
          })
    | inr (entry, e) ↦
        rw (e, find_or_create)
          (record {
            known = inl e;
            others = λ j h. refl;
            ids = refl;
            next = refl;
            unchanged = λ h. refl;
          })
  ]
