-- ===== src/SchemaRegistry/Registry.antt =====
-- The registry of projects/10-schema-registry/registry/schema/schema.go. Every method holds the
-- mutex for its whole body, so a method is one step from a registry to a registry. A schema is
-- never written to once it is made, so the two maps hold its value. A `time.Now()` is an argument.
pub mod Invariant
pub mod Add
pub mod Preserve
pub mod Delete
pub mod Calls
pub mod Reads
pub mod Writes
pub mod Frame
pub mod Plain
mod Tests
use golang_journey.Prelude.{
  ℕ, ◌+◌, List, [], ◌∷◌, ◌++◌, Option, none, some, ite, ◌||◌, map, length, get_elem?, if◌then◌else◌,
  Outcome, ok, err, panic, ℕ_discrete,
}
use golang_journey.Prelude.Int64.{add_int, sub_int, lt_int}
use golang_journey.Prelude.Map.{lookup, insert, remove}
use golang_journey.Prelude.Text.{Text, Text-discrete}
use golang_journey.SchemaRegistry.Schema.{
  Format, CompatLevel, compat_none, compat_backward, Schema, RegistryError, subject_not_found,
  schema_not_found, incompatible_schema, invalid_schema, content_hash, validate_syntax,
}

pub record SubjectEntry : Type 0 where
  pub versions : List Schema
  pub compat : CompatLevel

-- `CompatChecker.Check`; `none` is the nil error.
abbrev pub Checker : Type 0 → Type 0
Checker E = Format → Text → Text → CompatLevel → Option E

pub record Registry (E : Type 0) : Type 0 where
  pub subjects : List (Text × SubjectEntry)
  pub by_id : List (ℕ × Schema)
  pub next_id : ℕ
  pub checker : Option (Checker E)

-- `versions[len(versions)-1]`, where there is one.
unfoldable pub latest : List Schema → Option Schema
latest [] = none
latest (x ∷ xs) = get_elem? (x ∷ xs) (length xs)

-- The loop of `Versions`.
pub version_numbers : ℕ → List Schema → List ℕ
version_numbers i [] = []
version_numbers i (s ∷ vs) = (i + 1) ∷ version_numbers (i + 1) vs

-- The loop of `Delete`.
pub delete_ids : List Schema → List (ℕ × Schema) → List (ℕ × Schema)
delete_ids [] m = m
delete_ids (s ∷ vs) m = delete_ids vs (remove ℕ_discrete s.id m)

module _ {E : Type 0} where
  unfoldable pub new : Option (Checker E) → Registry E
  new checker = record { subjects = []; by_id = []; next_id = 1; checker = checker }

  unfoldable pub find_or_create : Registry E → Text → Registry E × SubjectEntry
  find_or_create r subject = elim (lookup Text-discrete subject r.subjects) [
    | some entry ↦ (r, entry)
    | none ↦
        let entry : SubjectEntry = record { versions = []; compat = compat_backward } in
        (record r { subjects = insert Text-discrete subject entry r.subjects }, entry)
  ]

  -- The compatibility check of `Register`.
  unfoldable pub check_latest : Registry E → SubjectEntry → Schema → Format → Text → Option E
  check_latest r entry last format content = elim r.checker [
    | none ↦ none
    | some check ↦ elim entry.compat [
      | compat_none ↦ none
      | level ↦ check format last.content content level
    ]
  ]

  unfoldable pub add_version :
      Registry E
      → SubjectEntry
      → Text
      → Format
      → Text
      → ℕ
      → Registry E × Outcome (RegistryError E) ℕ
  add_version r entry subject format content now =
      let s : Schema = record {
        subject = subject;
        version = length entry.versions + 1;
        id = r.next_id;
        format = format;
        content = content;
        hash = content_hash content;
        created = now;
        metadata = [];
      } in
      let entry' : SubjectEntry = record entry { versions = entry.versions ++ s ∷ [] } in
      (
        record r {
          subjects = insert Text-discrete subject entry' r.subjects;
          by_id = insert ℕ_discrete r.next_id s r.by_id;
          next_id = add_int r.next_id 1;
        },
        ok r.next_id,
      )

  -- `Register` from the deduplication on.
  unfoldable pub register_entry :
      Registry E
      → SubjectEntry
      → Text
      → Format
      → Text
      → ℕ
      → Registry E × Outcome (RegistryError E) ℕ
  register_entry r entry subject format content now = elim (latest entry.versions) [
    | none ↦ add_version r entry subject format content now
    | some last ↦
        ite (Text-discrete last.content content) (r, ok last.id)
          (elim (check_latest r entry last format content) [
            | some e ↦ (r, err (incompatible_schema e))
            | none ↦ add_version r entry subject format content now
          ])
  ]

  unfoldable pub register :
      (Text → Option Text)
      → Registry E
      → Text
      → Format
      → Text
      → ℕ
      → Registry E × Outcome (RegistryError E) ℕ
  register unmarshal r subject format content now =
      elim (validate_syntax unmarshal format content) [
        | some e ↦ (r, err (invalid_schema e))
        | none ↦
            let (r', entry) = find_or_create r subject in
            register_entry r' entry subject format content now
      ]

  pub get_by_id : Registry E → ℕ → Outcome (RegistryError E) Schema
  get_by_id r id = elim (lookup ℕ_discrete id r.by_id) [
    | none ↦ err schema_not_found
    | some s ↦ ok s
  ]

  pub get_latest : Registry E → Text → Outcome (RegistryError E) Schema
  get_latest r subject = elim (lookup Text-discrete subject r.subjects) [
    | none ↦ err subject_not_found
    | some entry ↦ elim (latest entry.versions) [ none ↦ panic | some s ↦ ok s ]
  ]

  pub get_version : Registry E → Text → ℕ → Outcome (RegistryError E) Schema
  get_version r subject version = elim (lookup Text-discrete subject r.subjects) [
    | none ↦ err subject_not_found
    | some entry ↦
        if lt_int version 1 || lt_int (length entry.versions) version
        then err schema_not_found
        else elim (get_elem? entry.versions (sub_int version 1)) [ none ↦ panic | some s ↦ ok s ]
  ]

  pub subjects : Registry E → List Text
  subjects r = map (λ e. e.0) r.subjects

  pub versions : Registry E → Text → Outcome (RegistryError E) (List ℕ)
  versions r subject = elim (lookup Text-discrete subject r.subjects) [
    | none ↦ err subject_not_found
    | some entry ↦ ok (version_numbers 0 entry.versions)
  ]

  unfoldable pub set_compat_level :
      Registry E → Text → CompatLevel → Registry E × Outcome (RegistryError E) (Unit {0})
  set_compat_level r subject level = elim (lookup Text-discrete subject r.subjects) [
    | none ↦ (r, err subject_not_found)
    | some entry ↦ (
      record r {
        subjects = insert Text-discrete subject (record entry { compat = level }) r.subjects;
      },
      ok tt,
    )
  ]

  pub compat_level : Registry E → Text → Outcome (RegistryError E) CompatLevel
  compat_level r subject = elim (lookup Text-discrete subject r.subjects) [
    | none ↦ err subject_not_found
    | some entry ↦ ok entry.compat
  ]

  pub delete : Registry E → Text → Registry E × Outcome (RegistryError E) (Unit {0})
  delete r subject = elim (lookup Text-discrete subject r.subjects) [
    | none ↦ (r, err subject_not_found)
    | some entry ↦ (
      record r {
        subjects = remove Text-discrete subject r.subjects;
        by_id = delete_ids entry.versions r.by_id;
      },
      ok tt,
    )
  ]
