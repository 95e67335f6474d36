-- ===== src/SchemaRegistry/Schema.antt =====
-- The data of projects/10-schema-registry/registry/schema/schema.go: formats, compatibility
-- levels, schemas, errors and the two helpers at the end of the file. A string that is none of the
-- named constants is `other`. A `time.Time` is the number of its nanoseconds.
use mathlib.Core.Option
use golang_journey.Prelude.{
  ℕ, zero, suc, ◌+◌, ◌/◌, ◌%◌, List, [], ◌∷◌, ◌++◌, Option, none, some, ltb, if◌then◌else◌, length,
}
use golang_journey.Prelude.Text.{Text, bytes}

pub data Format : Type 0 where
  json_schema avro protobuf : Format
  other : Text → Format

pub data CompatLevel : Type 0 where
  compat_none compat_backward compat_forward compat_full : CompatLevel
  compat_backward_transitive compat_forward_transitive compat_full_transitive : CompatLevel
  other : Text → CompatLevel

pub record Schema : Type 0 where
  pub subject : Text
  pub version : ℕ
  pub id : ℕ
  pub format : Format
  pub content : Text
  pub hash : Text
  pub created : ℕ
  pub metadata : List (Text × Text)

-- What `validate_syntax` finds: an error of the JSON decoder, or one of its own.
pub data SyntaxError : Type 0 where
  malformed : Text → SyntaxError
  empty_protobuf : SyntaxError
  unsupported_format : Format → SyntaxError

-- The errors of the registry. A wrapped error keeps the one that it wraps; those of the
-- compatibility checker are of its own type `E`.
pub data RegistryError (E : Type 0) : Type 0 where
  subject_not_found schema_not_found : RegistryError E
  incompatible_schema : E → RegistryError E
  invalid_schema : SyntaxError → RegistryError E

-- The digits of `n` put in front of `acc`, with fuel above the number of digits.
decimal_from : ℕ → ℕ → Text → Text
decimal_from zero n acc = acc
decimal_from (suc fuel) n acc =
    let digits = (n % 10 + b'0') ∷ acc in
    let rest = decimal_from fuel (n / 10) digits in if ltb n 10 then digits else rest

-- `fmt.Sprintf("%d", n)` at a non-negative `n`.
decimal : ℕ → Text
unfolding decimal_from
decimal n = decimal_from (suc n) n []

unfoldable pub content_hash : Text → Text
unfolding decimal
content_hash content = bytes "sha256:" ++ decimal (length content)

-- `unmarshal` is `json.Unmarshal` into an `interface{}`: the text of its error, if there is one.
unfoldable pub validate_syntax : (Text → Option Text) → Format → Text → Option SyntaxError
validate_syntax unmarshal json_schema content = Option.map malformed (unmarshal content)
validate_syntax unmarshal avro content = Option.map malformed (unmarshal content)
validate_syntax unmarshal protobuf [] = some empty_protobuf
validate_syntax unmarshal protobuf (c ∷ cs) = none
validate_syntax unmarshal (Format.other f) content = some (unsupported_format (Format.other f))
