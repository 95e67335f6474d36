-- ===== src/SchemaRegistry/Compat/Tests.antt =====
-- Schemas that the checker compares, and its theorems at them.
use golang_journey.Prelude.{◌≡◌, refl, List, [], ◌∷◌, none, some, ℕ_discrete}
use golang_journey.Prelude.Map.{lookup, insert}
use golang_journey.Prelude.Text.{Text, Text-discrete, bytes}
use golang_journey.SchemaRegistry.Schema.{
  compat_full, compat_backward, compat_forward, compat_backward_transitive,
  compat_forward_transitive, compat_full_transitive,
}
use golang_journey.SchemaRegistry.Compat.{
  JsonSchema, schema, Properties, no_properties, property, no_schemas, backward_type, type_changed,
  missing_required, changed_type, check_backward, check_forward, check_level,
}
use golang_journey.SchemaRegistry.Compat.Changes
use golang_journey.SchemaRegistry.Compat.Changes.{
  missing_from, retyped, to_set, is_member, not_among, diff_schemas, became_optional,
}
use golang_journey.SchemaRegistry.Compat.Rules

abbrev leaf : Text → JsonSchema
leaf type = schema type no_properties [] none no_schemas no_schemas no_schemas no_schemas

abbrev object : Properties → List Text → JsonSchema
object ps required =
    schema (bytes "object") ps required none no_schemas no_schemas no_schemas no_schemas

abbrev user : JsonSchema
user =
    object
      (property (bytes "id") (leaf (bytes "string"))
        (property (bytes "age") (leaf []) no_properties))
      (bytes "id" ∷ [])

-- `age` is required twice, and `id` once.
abbrev strict : JsonSchema
strict =
    object
      (property (bytes "id") (leaf (bytes "string"))
        (property (bytes "age") (leaf (bytes "number")) no_properties))
      (bytes "age" ∷ bytes "id" ∷ bytes "age" ∷ [])

abbrev retyped_id : JsonSchema
retyped_id = object (property (bytes "id") (leaf (bytes "number")) no_properties) []

program : Unit {0}
unfolding lookup insert Text-discrete ℕ_discrete type_changed missing_required changed_type
    check_backward check_forward check_level missing_from retyped to_set is_member not_among
    diff_schemas
program = tt

strict_accepted : check_backward user strict ≡ none
unfolding program
strict_accepted = refl

retyped_refused :
    check_backward user retyped_id
    ≡ some (backward_type (bytes "id") (bytes "string") (bytes "number"))
unfolding program
retyped_refused = refl

-- A field that the proposal drops is no error, at the level FULL either.
dropped_accepted : check_level compat_full user (object no_properties []) ≡ none
unfolding program
dropped_accepted = refl

check_level-collapse_example :
    (check_level compat_full user retyped_id ≡ check_level compat_backward user retyped_id)
    × (check_level compat_backward user retyped_id ≡ none
        → check_level compat_forward user retyped_id ≡ none)
    × (check_level compat_backward_transitive user retyped_id
        ≡ check_level compat_backward user retyped_id)
    × (check_level compat_forward_transitive user retyped_id
        ≡ check_level compat_forward user retyped_id)
    × (check_level compat_full_transitive user retyped_id ≡ check_level compat_full user retyped_id)
check_level-collapse_example = Rules.check_level-collapse user retyped_id

-- Another order, and a field twice: no change, in the eyes of `Diff`.
abbrev reordered : JsonSchema
reordered =
    object
      (property (bytes "age") (leaf (bytes "number"))
        (property (bytes "id") (leaf (bytes "string")) no_properties))
      (bytes "id" ∷ bytes "id" ∷ [])

diff_optional : diff_schemas strict reordered ≡ became_optional (bytes "age") ∷ []
unfolding program
diff_optional = refl

diff_schemas-nil_accepted_example : check_backward user reordered ≡ none
diff_schemas-nil_accepted_example =
    Changes.diff_schemas-nil_accepted user reordered (unfold program in refl)
      (unfold program in refl)
