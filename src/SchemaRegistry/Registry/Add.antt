-- ===== src/SchemaRegistry/Registry/Add.antt =====
-- `add_version` keeps the invariant: what it does to each of the two maps, and to each field.
use golang_journey.Prelude.{
  ℕ, ◌+◌, ◌-◌, ◌<◌, ◌≡◌, inl, inr, List, [], ◌∷◌, ◌++◌, some, length, get_elem?, arith, ℕ_discrete,
  length-append, get_elem?-append_one, get_elem?_lt, get_elem?-append_left, get_elem?-append_length,
  ite, subst, ◌∙◌, ap,
}
use golang_journey.Prelude.Int64.{half}
use golang_journey.Prelude.Map.{lookup, lookup-insert}
use golang_journey.Prelude.Text.{Text, Text-discrete}
use golang_journey.SchemaRegistry.Schema.{Format, Schema, content_hash}
use golang_journey.SchemaRegistry.Registry.{SubjectEntry, Registry, add_version}
use golang_journey.SchemaRegistry.Registry.Invariant.{InPlace, Filed, IsValid, fresh_id, Found}

module _ {E : Type 0} (r : Registry E) (v : IsValid r) (room : r.next_id + 1 < half) (k : Text)
    (r' : Registry E) (entry : SubjectEntry) (f : Found r k r' entry) (format : Format)
    (content : Text) (now : ℕ) where
  abbrev pub new_schema : Schema
  new_schema = record {
    subject = k;
    version = length entry.versions + 1;
    id = r'.next_id;
    format = format;
    content = content;
    hash = content_hash content;
    created = now;
    metadata = [];
  }

  abbrev pub after_add : Registry E
  after_add = (add_version r' entry k format content now).0

  abbrev grown : SubjectEntry
  grown = record entry { versions = entry.versions ++ new_schema ∷ [] }

  pub add-subject :
      (j : Text)
      → lookup Text-discrete j after_add.subjects
        ≡ ite (Text-discrete k j) (some grown) (lookup Text-discrete j r.subjects)
  unfolding add_version
  add-subject j = ground (arith, lookup-insert Text-discrete k j grown r'.subjects, f.others j)

  pub add-id :
      (id : ℕ)
      → lookup ℕ_discrete id after_add.by_id
        ≡ ite (ℕ_discrete r.next_id id) (some new_schema) (lookup ℕ_discrete id r.by_id)
  unfolding add_version
  add-id id =
      ground (arith, lookup-insert ℕ_discrete r'.next_id id new_schema r'.by_id, f.next, f.ids)

  old_version : (i : ℕ) (s : Schema) → get_elem? entry.versions i ≡ some s → InPlace r.by_id k i s
  old_version i s h = elim f.known [
    | inl e ↦ v.numbered k entry i s e h
    | inr (_, e) ↦ absurd (ground (arith, e))
  ]

  -- What was filed stays filed, under an id below the new one.
  still_filed :
      (id : ℕ) (s : Schema)
      → lookup ℕ_discrete id r.by_id ≡ some s
      → lookup ℕ_discrete id after_add.by_id ≡ some s
  still_filed id s h = ground (arith, add-id id, fresh_id r v)

  still-InPlace :
      (j : Text) (i : ℕ) (s : Schema) → InPlace r.by_id j i s → InPlace after_add.by_id j i s
  still-InPlace j i s p = record {
    number = p.number;
    owner = p.owner;
    filed = still_filed s.id s p.filed;
  }

  grown_version :
      (i : ℕ) (s : Schema) → get_elem? grown.versions i ≡ some s → InPlace after_add.by_id k i s
  grown_version i s g = elim (get_elem?-append_one entry.versions new_schema i g) [
    | inl old ↦ still-InPlace k i s (old_version i s old)
    | inr (at, is_new) ↦ record {
      number = ground arith;
      owner = ground arith;
      filed = ground (arith, add-id r'.next_id, f.next);
    }
  ]

  add-numbered :
      (j : Text) (e : SubjectEntry) (i : ℕ) (s : Schema)
      → lookup Text-discrete j after_add.subjects ≡ some e
      → get_elem? e.versions i ≡ some s
      → InPlace after_add.by_id j i s
  add-numbered j e i s h g = elim (Text-discrete k j) [
    | yes same ↦
        subst (λ q. InPlace after_add.by_id q i s) same
          (grown_version i s (ground (arith, add-subject j)))
    | no ne ↦ still-InPlace j i s (v.numbered j e i s (ground (arith, add-subject j)) g)
  ]

  old_at :
      (id : ℕ) (s : Schema) (p : Filed r.subjects r.next_id id s)
      → k ≡ s.subject
      → get_elem? entry.versions (s.version - 1) ≡ some s
  old_at id s p same = elim f.known [
    | inl e ↦ ground (arith, p.listed, p.at_version)
    | inr (e, _) ↦ absurd (ground (arith, p.listed))
  ]

  grown_at :
      (i : ℕ) (s : Schema)
      → get_elem? entry.versions i ≡ some s
      → get_elem? grown.versions i ≡ some s
  grown_at i s h =
      get_elem?-append_left entry.versions (new_schema ∷ []) i (get_elem?_lt entry.versions i h) ∙ h

  listed_before :
      (id : ℕ) (s : Schema)
      → Filed r.subjects r.next_id id s
      → Filed after_add.subjects after_add.next_id id s
  unfolding add_version
  listed_before id s p = elim (Text-discrete k s.subject) [
    | yes same ↦ record {
      same_id = p.same_id;
      below = omega (arith, p.below, f.next);
      entry = grown;
      listed = ground (arith, add-subject s.subject);
      at_version = grown_at (s.version - 1) s (old_at id s p same);
    }
    | no ne ↦ record {
      same_id = p.same_id;
      below = omega (arith, p.below, f.next);
      entry = p.entry;
      listed = ground (arith, add-subject s.subject, p.listed);
      at_version = p.at_version;
    }
  ]

  new-Filed : Filed after_add.subjects after_add.next_id r.next_id new_schema
  unfolding add_version
  new-Filed = record {
    same_id = f.next;
    below = omega (arith, f.next, v.fits);
    entry = grown;
    listed = ground (arith, add-subject k);
    at_version =
        let e : length entry.versions + 1 - 1 ≡ length entry.versions = omega arith in
        rw e (get_elem?-append_length entry.versions new_schema);
  }

  add-stored :
      (id : ℕ) (s : Schema)
      → lookup ℕ_discrete id after_add.by_id ≡ some s
      → Filed after_add.subjects after_add.next_id id s
  add-stored id s h = elim (ℕ_discrete r.next_id id) [
    | yes same ↦
        subst (λ q. Filed after_add.subjects after_add.next_id q s) same
          (subst (Filed after_add.subjects after_add.next_id r.next_id) (ground (arith, add-id id))
            new-Filed)
    | no ne ↦ listed_before id s (v.stored id s (ground (arith, add-id id)))
  ]

  add-nonempty :
      (j : Text) (e : SubjectEntry)
      → lookup Text-discrete j after_add.subjects ≡ some e
      → 0 < length e.versions
  add-nonempty j e h = elim (Text-discrete k j) [
    | yes same ↦
        let g : grown ≡ e = ground (arith, add-subject j) in
        omega (
          arith,
          ap (λ (x : SubjectEntry). length x.versions) g,
          length-append entry.versions (new_schema ∷ []),
        )
    | no ne ↦ v.nonempty j e (ground (arith, add-subject j))
  ]

  add-within :
      (j : Text) (e : SubjectEntry)
      → lookup Text-discrete j after_add.subjects ≡ some e
      → length e.versions < after_add.next_id
  unfolding add_version
  add-within j e h = elim (Text-discrete k j) [
    | yes same ↦
        let g : grown ≡ e = ground (arith, add-subject j) in
        omega (
          arith,
          ap (λ (x : SubjectEntry). length x.versions) g,
          length-append entry.versions (new_schema ∷ []),
          old_within,
          f.next,
          v.fits,
        )
    | no ne ↦ omega (arith, v.within j e (ground (arith, add-subject j)), f.next, v.fits)
  ]
    where
      old_within : length entry.versions < r.next_id
      old_within = elim f.known [
        | inl e ↦ v.within k entry e
        | inr (_, e) ↦ omega (arith, ap (λ (l : List Schema). length l) e, v.positive)
      ]

  -- A new version keeps the invariant.
  pub add_version-IsValid : IsValid after_add
  add_version-IsValid = record {
    nonempty = add-nonempty;
    within = add-within;
    numbered = add-numbered;
    stored = add-stored;
    positive = unfold add_version in omega (arith, f.next);
    fits = unfold add_version in omega (arith, f.next);
  }
