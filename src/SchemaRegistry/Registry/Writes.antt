-- ===== src/SchemaRegistry/Registry/Writes.antt =====
-- What `Register` and `Delete` do to a valid registry, as the reading methods see it.
use golang_journey.Prelude.{
  ap, ℕ, ◌+◌, ◌-◌, ◌<◌, ◌≡◌, ◌⊎◌, refl, sym, subst, List, [], ◌∷◌, ◌++◌, Option, none, some, length,
  arith, if_pos, if_neg, Option-cases, inl, inr, Outcome, ok, err, panic,
}
use golang_journey.Prelude.Int64.{half}
use golang_journey.Prelude.Map.{lookup}
use golang_journey.Prelude.Text.{Text, Text-discrete}
use golang_journey.SchemaRegistry.Schema.{
  Format, Schema, RegistryError, schema_not_found, validate_syntax,
}
use golang_journey.SchemaRegistry.Registry.{
  SubjectEntry, Registry, latest, find_or_create, add_version, check_latest, register_entry,
  register, get_by_id, get_latest,
}
use golang_journey.SchemaRegistry.Registry.Add.{new_schema, add-subject, add-id}
use golang_journey.SchemaRegistry.Registry.Invariant.{
  IsValid, Found, find_or_create-Found, fresh_id,
}
use golang_journey.SchemaRegistry.Registry.Preserve.{latest-some}

latest-append : (vs : List Schema) (s : Schema) → latest (vs ++ s ∷ []) ≡ some s
unfolding latest
latest-append [] s = refl
latest-append (x ∷ []) s = refl
latest-append (x ∷ y ∷ vs) s = latest-append (y ∷ vs) s

-- A subject whose latest schema has the content already: the id is returned and nothing changes.
register_same :
    {E : Type 0} (r : Registry E) (unmarshal : Text → Option Text) (k : Text) (format : Format)
    (content : Text) (now : ℕ) (last : Schema)
    → get_latest r k ≡ ok last
    → last.content ≡ content
    → validate_syntax unmarshal format content ≡ none
    → register unmarshal r k format content now ≡ (r, ok last.id)
unfolding register register_entry get_latest find_or_create
register_same r unmarshal k format content now last h same valid =
    elim (Option-cases (lookup Text-discrete k r.subjects)) [
      | inl e ↦ absurd (ground (arith, e, h))
      | inr (entry, e) ↦ ground (arith, e, h, valid)
    ]

module _ {E : Type 0} (r : Registry E) (v : IsValid r) (room : r.next_id + 1 < half) (k : Text)
    (format : Format) (content : Text) (now : ℕ) where
  -- What a successful registration leaves: the schema with the content is the latest of the
  -- subject and filed under the id; the registry is as before, or the id is new.
  pub record Registered (r' : Registry E) (id : ℕ) : Type 0 where
    pub schema : Schema
    pub same_id : schema.id ≡ id
    pub same_content : schema.content ≡ content
    pub same_subject : schema.subject ≡ k
    pub by_id : get_by_id r' id ≡ ok schema
    pub is_latest : get_latest r' k ≡ ok schema
    pub is_fresh :
        (r' ≡ r)
        ⊎ ((id ≡ r.next_id) × (r'.next_id ≡ id + 1) × (get_by_id r id ≡ err schema_not_found))

  -- The outcome of a registration: an accepted schema, or an error and the registry as it was.
  abbrev pub IsSettled : Registry E × Outcome (RegistryError E) ℕ → Type 0
  IsSettled (r', ok id) = Registered r' id
  IsSettled (r', err e) = r' ≡ r
  IsSettled (r', panic) = ⊥

  module _ (r₁ : Registry E) (entry : SubjectEntry) (f : Found r k r₁ entry) where
    added-Registered : Registered (add_version r₁ entry k format content now).0 r.next_id
    added-Registered = record {
      schema = new_schema r v room k r₁ entry f format content now;
      same_id = f.next;
      same_content = refl;
      same_subject = refl;
      by_id =
          unfold get_by_id in
          ground (arith, add-id r v room k r₁ entry f format content now r.next_id);
      is_latest =
          unfold get_latest in
          ground (
            arith,
            add-subject r v room k r₁ entry f format content now k,
            latest-append entry.versions (new_schema r v room k r₁ entry f format content now),
          );
      is_fresh = inr (
        refl,
        unfold add_version in omega (arith, f.next, v.fits),
        unfold get_by_id in ground (arith, fresh_id r v),
      );
    }

    found_latest :
        (last : Schema)
        → latest entry.versions ≡ some last
        → (get_latest r k ≡ ok last) × (last.subject ≡ k) × (get_by_id r last.id ≡ ok last)
    unfolding get_latest get_by_id
    found_latest last l =
        let (pos, at) = latest-some entry.versions l in
        elim f.known [
          | inl e ↦
              let p = v.numbered k entry (length entry.versions - 1) last e at in
              (ground (arith, e, l), p.owner, ground (arith, p.filed))
          | inr (_, e) ↦ absurd (omega (arith, ap (λ (x : List Schema). length x) e))
        ]

    dedup-Registered :
        (last : Schema)
        → latest entry.versions ≡ some last
        → last.content ≡ content
        → Registered r₁ last.id
    dedup-Registered last l same =
        let (is_latest, owner, filed) = found_latest last l in
        let before = f.unchanged (latest-some entry.versions l).0 in
        record {
          schema = last;
          same_id = refl;
          same_content = same;
          same_subject = owner;
          by_id = rw before filed;
          is_latest = rw before is_latest;
          is_fresh = inl before;
        }

    register_entry-IsSettled : IsSettled (register_entry r₁ entry k format content now)
    unfolding register_entry add_version
    register_entry-IsSettled = elim (Option-cases (latest entry.versions)) [
      | inl l ↦ rw (l, register_entry) added
      | inr (last, l) ↦ elim (Text-discrete last.content content) [
        | yes same ↦ rw (l, register_entry, if_pos _ same) (dedup-Registered last l same)
        | no ne ↦ elim (Option-cases (check_latest r₁ entry last format content)) [
          | inl c ↦ rw (l, register_entry, if_neg _ ne, c) added
          | inr (e, c) ↦
              rw (l, register_entry, if_neg _ ne, c) (f.unchanged (latest-some entry.versions l).0)
        ]
      ]
    ]
      where
        added : IsSettled (add_version r₁ entry k format content now)
        added =
            subst (λ id. IsSettled ((add_version r₁ entry k format content now).0, ok id))
              (sym f.next) added-Registered

  -- On a valid registry with a further id left, Register never panics, an error leaves the
  -- registry as it was, and an accepted content is that of the latest schema of the subject,
  -- filed under the returned id, which was the latest one before with nothing changed, or is
  -- the next id, not in use before.
  pub register-IsSettled :
      (unmarshal : Text → Option Text) → IsSettled (register unmarshal r k format content now)
  unfolding register
  register-IsSettled unmarshal = elim (Option-cases (validate_syntax unmarshal format content)) [
    | inl e ↦
        rw (e, register)
          (register_entry-IsSettled (find_or_create r k).0 (find_or_create r k).1
            (find_or_create-Found r k))
    | inr (x, e) ↦ rw (e, register) refl
  ]

-- On a valid registry with a further id left, a content that Register has just accepted is
-- registered again, under any format that accepts it and at any time, with the id of the first
-- time and no change.
pub register_again :
    {E : Type 0} (r : Registry E) (unmarshal : Text → Option Text) (k : Text)
    (format format' : Format) (content : Text) (now now' : ℕ) (r' : Registry E) (id : ℕ)
    → IsValid r
    → r.next_id + 1 < half
    → register unmarshal r k format content now ≡ (r', ok id)
    → validate_syntax unmarshal format' content ≡ none
    → register unmarshal r' k format' content now' ≡ (r', ok id)
register_again r unmarshal k format format' content now now' r' id v room h valid =
    let p : Registered r v room k format content now r' id =
      subst (IsSettled r v room k format content now) h
        (register-IsSettled r v room k format content now unmarshal) in
    rw (← p.same_id)
      (register_same r' unmarshal k format' content now' p.schema p.is_latest p.same_content valid)
