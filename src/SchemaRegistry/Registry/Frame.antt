-- ===== src/SchemaRegistry/Registry/Frame.antt =====
-- What the writing methods leave alone: other subjects, and schemas that are filed already.
use golang_journey.Prelude.{
  ℕ, ◌+◌, ◌<◌, ◌≡◌, ◌≢◌, refl, Option, some, arith, ite, Option-cases, inl, inr, ok, err,
  ℕ_discrete,
}
use golang_journey.Prelude.Int64.{half}
use golang_journey.Prelude.Map.{lookup, lookup-remove}
use golang_journey.Prelude.Text.{Text, Text-discrete}
use golang_journey.SchemaRegistry.Schema.{
  Format, Schema, schema_not_found, subject_not_found, validate_syntax,
}
use golang_journey.SchemaRegistry.Registry.{
  SubjectEntry, Registry, find_or_create, add_version, register_entry, register, get_by_id,
  get_latest, delete,
}
use golang_journey.SchemaRegistry.Registry.Add.{add-subject, add-id}
use golang_journey.SchemaRegistry.Registry.Delete.{delete_ids-owner}
use golang_journey.SchemaRegistry.Registry.Invariant.{
  IsValid, Found, find_or_create-Found, fresh_id,
}

module _ {E : Type 0} (r : Registry E) (v : IsValid r) (room : r.next_id + 1 < half) (k : Text)
    (format : Format) (content : Text) (now : ℕ) where
  -- The maps of `r'` hold what those of `r` held, but for the subject `k`.
  pub record Extends (r' : Registry E) : Type 0 where
    pub ids :
        (id : ℕ) (s : Schema)
        → lookup ℕ_discrete id r.by_id ≡ some s
        → lookup ℕ_discrete id r'.by_id ≡ some s
    pub others :
        (j : Text) → k ≢ j → lookup Text-discrete j r'.subjects ≡ lookup Text-discrete j r.subjects

  module _ (r₁ : Registry E) (entry : SubjectEntry) (f : Found r k r₁ entry) where
    added-Extends : Extends (add_version r₁ entry k format content now).0
    added-Extends = record {
      ids = λ id s h.
          ground (arith, add-id r v room k r₁ entry f format content now id, fresh_id r v);
      others = λ j ne. ground (arith, add-subject r v room k r₁ entry f format content now j);
    }

    found-Extends : Extends r₁
    found-Extends = record { ids = λ id s h. ground (arith, f.ids); others = f.others }

    register_entry-Extends : Extends (register_entry r₁ entry k format content now).0
    unfolding register_entry
    register_entry-Extends = ground (arith, added-Extends, found-Extends)

  register-Extends :
      (unmarshal : Text → Option Text) → Extends (register unmarshal r k format content now).0
  unfolding register
  register-Extends unmarshal = elim (Option-cases (validate_syntax unmarshal format content)) [
    | inl e ↦
        rw (e, register)
          (register_entry-Extends (find_or_create r k).0 (find_or_create r k).1
            (find_or_create-Found r k))
    | inr (x, e) ↦ rw (e, register) (record { ids = λ id s h. h; others = λ j ne. refl })
  ]

  -- A registration on a valid registry changes no schema that an id reads, and no other
  -- subject's latest schema.
  pub register-keeps :
      (unmarshal : Text → Option Text)
      → ((id : ℕ) (s : Schema)
          → get_by_id r id ≡ ok s
          → get_by_id (register unmarshal r k format content now).0 id ≡ ok s)
        × ((j : Text)
            → k ≢ j
            → get_latest (register unmarshal r k format content now).0 j ≡ get_latest r j)
  unfolding get_by_id get_latest
  register-keeps unmarshal =
      let e = register-Extends unmarshal in
      (
        (λ id s h.
            let g : lookup ℕ_discrete id r.by_id ≡ some s = ground (arith, h) in
            ground (arith, e.ids id s g)),
        λ j ne. rw (get_latest, e.others j ne),
      )

-- Delete of a subject of a valid registry takes away the subject and exactly the ids of its
-- versions; every other subject keeps its latest schema.
pub delete-owner :
    {E : Type 0} (r : Registry E) (k : Text) {s₀ : Schema}
    → IsValid r
    → get_latest r k ≡ ok s₀
    → (get_latest (delete r k).0 k ≡ err subject_not_found)
      × ((id : ℕ) (s : Schema)
          → get_by_id r id ≡ ok s
          → get_by_id (delete r k).0 id
            ≡ ite (Text-discrete k s.subject) (err schema_not_found) (ok s))
      × ((j : Text) → k ≢ j → get_latest (delete r k).0 j ≡ get_latest r j)
unfolding delete get_latest get_by_id
delete-owner r k {s₀} v h = elim (Option-cases (lookup Text-discrete k r.subjects)) [
  | inl e ↦ absurd (ground (arith, e, h))
  | inr (entry, e) ↦
      rw (e, delete)
        (
          ground (arith, lookup-remove Text-discrete k k r.subjects),
          (λ id s g. ground (arith, delete_ids-owner r v k entry e id s, g)),
          λ j ne. ground (arith, lookup-remove Text-discrete k j r.subjects),
        )
]
