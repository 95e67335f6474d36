-- ===== src/SchemaRegistry/Registry/Reads.antt =====
-- What the reading methods return on a valid registry.
use golang_journey.Prelude.{
  ℕ, zero, suc, ◌+◌, ◌-◌, ◌<◌, ◌≡◌, ◌≢◌, ◌↔◌, refl, List, [], ◌∷◌, some, length, arith,
  Option-cases, inl, inr, ok, panic, ℕ_discrete, get_elem?_total, get_elem?_lt,
}
use golang_journey.Prelude.Int64.{modulus, sub_int}
use golang_journey.Prelude.Map.{lookup}
use golang_journey.Prelude.Text.{Text, Text-discrete}
use golang_journey.SchemaRegistry.Schema.{Schema}
use golang_journey.SchemaRegistry.Registry.{
  SubjectEntry, Registry, version_numbers, get_by_id, get_latest, get_version, versions,
}
use golang_journey.SchemaRegistry.Registry.Invariant.{IsValid}
use golang_journey.SchemaRegistry.Registry.Preserve.{latest-some, latest_total}

-- The numbers from `i + 1` on.
abbrev pub count_up : ℕ → ℕ → List ℕ
count_up i zero = []
count_up i (suc n) = (i + 1) ∷ count_up (i + 1) n

version_numbers-count_up :
    (i : ℕ) (vs : List Schema) → version_numbers i vs ≡ count_up i (length vs)
unfolding version_numbers
version_numbers-count_up i [] = refl
version_numbers-count_up i (s ∷ vs) = rw (version_numbers-count_up (i + 1) vs)

length-count_up : (i n : ℕ) → length (count_up i n) ≡ n
length-count_up i zero = refl
length-count_up i (suc n) = rw (length-count_up (i + 1) n)

module _ {E : Type 0} (r : Registry E) (v : IsValid r) where
  get_latest-ne-panic : (k : Text) → get_latest r k ≢ panic
  unfolding get_latest
  get_latest-ne-panic k = elim (Option-cases (lookup Text-discrete k r.subjects)) [
    | inl e ↦ ground (arith, e)
    | inr (entry, e) ↦
        let (s, l) = latest_total entry.versions (v.nonempty k entry e) in ground (arith, e, l)
  ]

  get_version-ne-panic : (k : Text) (n : ℕ) → n < modulus → get_version r k n ≢ panic
  unfolding get_version
  get_version-ne-panic k n small c = elim (Option-cases (lookup Text-discrete k r.subjects)) [
    | inl e ↦ ground (arith, e, c)
    | inr (entry, e) ↦
        ground
          (arith, e, c, v.within k entry e, v.fits, get_elem?_total entry.versions (sub_int n 1))
  ]

  -- On a valid registry `GetLatest` and `GetVersion` never panic, for any subject and any int
  -- as version.
  pub reads-ne-panic :
      (k : Text) (n : ℕ) → n < modulus → (get_latest r k ≢ panic) × (get_version r k n ≢ panic)
  reads-ne-panic k n small = (get_latest-ne-panic k, get_version-ne-panic k n small)

  -- On a valid registry a version that is read carries its number and its subject, and its id
  -- reads it back.
  pub get_version-get_by_id :
      (k : Text) (n : ℕ) {s : Schema}
      → n < modulus
      → get_version r k n ≡ ok s
      → (s.version ≡ n) × (s.subject ≡ k) × (get_by_id r s.id ≡ ok s)
  unfolding get_version get_by_id
  get_version-get_by_id k n {s} small h = elim (Option-cases (lookup Text-discrete k r.subjects)) [
    | inl e ↦ ground (arith, e, h)
    | inr (entry, e) ↦
        ground (arith, e, h, v.within k entry e, v.fits, v.numbered k entry (sub_int n 1) s e)
  ]

  -- On a valid registry a schema that is read by its id carries this id, and its subject has it
  -- under its version.
  pub get_by_id-get_version :
      (id : ℕ) {s : Schema}
      → get_by_id r id ≡ ok s
      → (s.id ≡ id) × (get_version r s.subject s.version ≡ ok s)
  unfolding get_version get_by_id
  get_by_id-get_version id {s} h =
      let e : lookup ℕ_discrete id r.by_id ≡ some s = ground (arith, h) in
      let p = v.stored id s e in
      let number = v.numbered s.subject p.entry (s.version - 1) s p.listed p.at_version in
      (
        p.same_id,
        ground (
          arith,
          p.listed,
          p.at_version,
          number.number,
          v.within s.subject p.entry p.listed,
          v.fits,
          get_elem?_lt p.entry.versions (s.version - 1) p.at_version,
        ),
      )

  -- On a valid registry `GetVersion` of a subject and an int returns a schema just when the
  -- schema carries this number and this subject and GetByID of its id returns it.
  pub get_version_iff :
      (k : Text) (n : ℕ) (s : Schema)
      → n < modulus
      → (get_version r k n ≡ ok s) ↔ ((s.version ≡ n) × (s.subject ≡ k) × (get_by_id r s.id ≡ ok s))
  get_version_iff k n s small =
      (get_version-get_by_id k n small, λ h. rw (← h.0, ← h.1) (get_by_id-get_version s.id h.2).1)

  latest_version :
      (k : Text) (entry : SubjectEntry)
      → lookup Text-discrete k r.subjects ≡ some entry
      → get_latest r k ≡ get_version r k (length entry.versions)
  unfolding get_latest get_version
  latest_version k entry e =
      let (s, l) = latest_total entry.versions (v.nonempty k entry e) in
      ground (arith, e, l, latest-some entry.versions l, v.within k entry e, v.fits)

  -- On a valid registry Versions lists the numbers from 1 up, at least one, and the latest
  -- schema is the one under the last of them.
  pub versions-get_latest :
      (k : Text) {ns : List ℕ}
      → versions r k ≡ ok ns
      → (ns ≡ count_up 0 (length ns))
        × (0 < length ns)
        × (get_latest r k ≡ get_version r k (length ns))
  unfolding versions
  versions-get_latest k {ns} h = elim (Option-cases (lookup Text-discrete k r.subjects)) [
    | inl e ↦ absurd (ground (arith, e, h))
    | inr (entry, e) ↦
        let n : ns ≡ count_up 0 (length entry.versions) =
          ground (arith, e, h, version_numbers-count_up 0 entry.versions) in
        let size : length ns ≡ length entry.versions = rw (n, length-count_up) in
        (rw size n, omega (arith, size, v.nonempty k entry e), rw size (latest_version k entry e))
  ]
