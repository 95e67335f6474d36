-- ===== src/SchemaRegistry/Compat.antt =====
-- The compatibility checker, projects/10-schema-registry/registry/compat/checker.go. The field
-- `Enum`, a list of arbitrary JSON values that no code reads, is left out of a schema. A map is an
-- association list, and a loop over a map meets the entries in the order of the list.
pub mod Rules
pub mod Changes
mod Tests
use golang_journey.Prelude.{
  Bool, true, false, ◌&&◌, List, [], ◌∷◌, ◌++◌, Option, none, some, ite, not, if◌then◌else◌,
}
use golang_journey.Prelude.Map.{lookup, insert}
use golang_journey.Prelude.Text.{Text, Text-discrete}
use golang_journey.SchemaRegistry.Schema.{
  Format, CompatLevel, json_schema, avro, protobuf, compat_none, compat_backward, compat_forward,
  compat_full, compat_backward_transitive, compat_forward_transitive, compat_full_transitive,
}

-- `jsonSchema`. A pointer to a schema is a list of at most one, `Properties` is a map.
mutual
  pub data JsonSchema : Type 0 where
    schema :
        (type : Text) (properties : Properties) (required : List Text)
        (additional_properties : Option Bool) (items : Schemas) (all_of : Schemas)
        (any_of : Schemas) (one_of : Schemas)
        → JsonSchema

  pub data Properties : Type 0 where
    no_properties : Properties
    property : Text → JsonSchema → Properties → Properties

  pub data Schemas : Type 0 where
    no_schemas : Schemas
    one_more : JsonSchema → Schemas → Schemas

abbrev pub type_of : JsonSchema → Text
type_of (schema type _ _ _ _ _ _ _) = type

abbrev pub required_of : JsonSchema → List Text
required_of (schema _ _ required _ _ _ _ _) = required

abbrev pub entries : Properties → List (Text × JsonSchema)
entries no_properties = []
entries (property name s ps) = (name, s) ∷ entries ps

abbrev pub properties_of : JsonSchema → List (Text × JsonSchema)
properties_of (schema _ properties _ _ _ _ _ _) = entries properties

-- The errors of the checker, with the texts of the decoder's.
pub data CheckError : Type 0 where
  parse_existing parse_proposed : Text → CheckError
  not_implemented : Format → CheckError
  backward_required forward_required : Text → CheckError
  backward_type : Text → Text → Text → CheckError

-- What `parseJSON` gives: a schema, or the text of the decoder's error.
pub data Parsed : Type 0 where
  parsed : JsonSchema → Parsed
  parse_error : Text → Parsed

-- `a != ""`
abbrev pub is_set : Text → Bool
is_set [] = false
is_set (c ∷ cs) = true

-- `pType != "" && eType != "" && pType != eType`
pub type_changed : Text → Text → Bool
type_changed p e = is_set p && (is_set e && ite (Text-discrete p e) false true)

-- The first loop of `checkBackward`, and the loop of `checkForward`: a required field of the
-- proposed schema that the existing one lacks.
pub missing_required : List Text → List (Text × JsonSchema) → Option Text
missing_required [] existing = none
missing_required (f ∷ fs) existing = elim (lookup Text-discrete f existing) [
  | none ↦ some f
  | some _ ↦ missing_required fs existing
]

-- The second loop of `checkBackward`.
pub changed_type : List (Text × JsonSchema) → List (Text × JsonSchema) → Option (Text × Text × Text)
changed_type [] existing = none
changed_type ((name, p) ∷ ps) existing = elim (lookup Text-discrete name existing) [
  | none ↦ changed_type ps existing
  | some e ↦
      let rest = changed_type ps existing in
      if type_changed (type_of p) (type_of e) then some (name, type_of e, type_of p) else rest
]

pub check_backward : JsonSchema → JsonSchema → Option CheckError
check_backward existing proposed =
    elim (missing_required (required_of proposed) (properties_of existing)) [
      | some f ↦ some (backward_required f)
      | none ↦ elim (changed_type (properties_of proposed) (properties_of existing)) [
        | some (name, e, p) ↦ some (backward_type name e p)
        | none ↦ none
      ]
    ]

pub check_forward : JsonSchema → JsonSchema → Option CheckError
check_forward existing proposed =
    elim (missing_required (required_of proposed) (properties_of existing)) [
      | some f ↦ some (forward_required f)
      | none ↦ none
    ]

-- The `switch` on the level in `checkJSON`.
pub check_level : CompatLevel → JsonSchema → JsonSchema → Option CheckError
check_level compat_backward e p = check_backward e p
check_level compat_backward_transitive e p = check_backward e p
check_level compat_forward e p = check_forward e p
check_level compat_forward_transitive e p = check_forward e p
check_level compat_full e p = elim (check_backward e p) [
  | some x ↦ some x
  | none ↦ check_forward e p
]
check_level compat_full_transitive e p = elim (check_backward e p) [
  | some x ↦ some x
  | none ↦ check_forward e p
]
check_level compat_none e p = none
check_level (CompatLevel.other l) e p = none

-- The JSON decoder is a parameter.
module _ (parse_json : Text → Parsed) where
  pub check_json : Text → Text → CompatLevel → Option CheckError
  check_json existing proposed level = elim (parse_json existing) [
    | parse_error x ↦ some (parse_existing x)
    | parsed e ↦ elim (parse_json proposed) [
      | parse_error x ↦ some (parse_proposed x)
      | parsed p ↦ check_level level e p
    ]
  ]

  pub check : Format → Text → Text → CompatLevel → Option CheckError
  check json_schema existing proposed level = check_json existing proposed level
  check avro existing proposed level = check_json existing proposed level
  check protobuf existing proposed level = none
  check (Format.other f) existing proposed level = some (not_implemented (Format.other f))
