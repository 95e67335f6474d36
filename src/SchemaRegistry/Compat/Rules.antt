-- ===== src/SchemaRegistry/Compat/Rules.antt =====
-- What each compatibility level accepts.
use golang_journey.Prelude.{
  ◌≡◌, ◌≢◌, subst, ◌↔◌, ◌⊎◌, inl, inr, refl, List, [], ◌∷◌, none, some, Option-cases, false, arith,
  All,
}
use golang_journey.Prelude.Map.{lookup}
use golang_journey.Prelude.Text.{Text, Text-discrete}
use golang_journey.SchemaRegistry.Schema.{
  compat_backward, compat_forward, compat_full, compat_backward_transitive,
  compat_forward_transitive, compat_full_transitive,
}
use golang_journey.SchemaRegistry.Compat.{
  JsonSchema, type_of, required_of, properties_of, type_changed, missing_required, changed_type,
  check_backward, check_forward, check_level,
}

-- The fields are among the properties of the existing schema.
abbrev pub Known : List (Text × JsonSchema) → Text → Type 0
Known existing f = lookup Text-discrete f existing ≢ none

-- A property that the existing schema has too keeps its type, or one of the two types is empty.
abbrev pub KeepsType : List (Text × JsonSchema) → Text × JsonSchema → Type 0
KeepsType existing (name, p) =
    (e : JsonSchema)
    → lookup Text-discrete name existing ≡ some e
    → (type_of p ≡ []) ⊎ (type_of e ≡ []) ⊎ (type_of p ≡ type_of e)

pub record IsBackward (existing proposed : JsonSchema) : Type 0 where
  pub required : All (Known (properties_of existing)) (required_of proposed)
  pub types : All (KeepsType (properties_of existing)) (properties_of proposed)

missing_required-Known :
    (fs : List Text) (existing : List (Text × JsonSchema))
    → missing_required fs existing ≡ none
    → All (Known existing) fs
unfolding missing_required
missing_required-Known [] existing h = tt
missing_required-Known (f ∷ fs) existing h = elim (Option-cases (lookup Text-discrete f existing)) [
  | inl e ↦ absurd (ground (arith, e, h))
  | inr (s, e) ↦
      ((λ c. ground (arith, e, c)), missing_required-Known fs existing (ground (arith, e, h)))
]

Known-missing_required :
    (fs : List Text) (existing : List (Text × JsonSchema))
    → All (Known existing) fs
    → missing_required fs existing ≡ none
unfolding missing_required
Known-missing_required [] existing h = refl
Known-missing_required (f ∷ fs) existing h = elim (Option-cases (lookup Text-discrete f existing)) [
  | inl e ↦ absurd (h.0 e)
  | inr (s, e) ↦ ground (arith, e, Known-missing_required fs existing h.1)
]

type_changed-false : (p e : Text) → (type_changed p e ≡ false) ↔ ((p ≡ []) ⊎ (e ≡ []) ⊎ (p ≡ e))
unfolding type_changed
type_changed-false [] e = ((λ h. inl refl), λ h. refl)
type_changed-false (c ∷ p) [] = ((λ h. inr (inl refl)), λ h. refl)
type_changed-false (c ∷ p) (d ∷ e) = ground arith

pub changed_type-KeepsType :
    (ps existing : List (Text × JsonSchema))
    → changed_type ps existing ≡ none
    → All (KeepsType existing) ps
unfolding changed_type
changed_type-KeepsType [] existing h = tt
changed_type-KeepsType ((name, p) ∷ ps) existing h =
    elim (Option-cases (lookup Text-discrete name existing)) [
      | inl e ↦ (
        (λ s f. absurd (ground (arith, e, f))),
        changed_type-KeepsType ps existing (ground (arith, e, h)),
      )
      | inr (s, e) ↦
          let same : type_changed (type_of p) (type_of s) ≡ false = ground (arith, e, h) in
          (
            (λ s' f.
                let same_entry : s ≡ s' = ground (arith, e, f) in
                subst (λ q. (type_of p ≡ []) ⊎ (type_of q ≡ []) ⊎ (type_of p ≡ type_of q))
                  same_entry ((type_changed-false (type_of p) (type_of s)).0 same)),
            changed_type-KeepsType ps existing (ground (arith, e, h, same)),
          )
    ]

KeepsType-changed_type :
    (ps existing : List (Text × JsonSchema))
    → All (KeepsType existing) ps
    → changed_type ps existing ≡ none
unfolding changed_type
KeepsType-changed_type [] existing h = refl
KeepsType-changed_type ((name, p) ∷ ps) existing h =
    elim (Option-cases (lookup Text-discrete name existing)) [
      | inl e ↦ ground (arith, e, KeepsType-changed_type ps existing h.1)
      | inr (s, e) ↦
          let same = (type_changed-false (type_of p) (type_of s)).1 (h.0 s e) in
          ground (arith, e, same, KeepsType-changed_type ps existing h.1)
    ]

pub check_backward-IsBackward :
    (existing proposed : JsonSchema)
    → (check_backward existing proposed ≡ none) ↔ IsBackward existing proposed
unfolding check_backward
check_backward-IsBackward existing proposed = (
  (λ h. record {
    required = missing_required-Known fs es (ground (arith, h));
    types = changed_type-KeepsType ps es (ground (arith, h));
  }),
  λ b.
      ground (arith, Known-missing_required fs es b.required, KeepsType-changed_type ps es b.types),
)
  where
    fs : List Text
    fs = required_of proposed

    es : List (Text × JsonSchema)
    es = properties_of existing

    ps : List (Text × JsonSchema)
    ps = properties_of proposed

-- FULL gives the answer of BACKWARD, error for error, FORWARD accepts whatever BACKWARD does, and
-- each transitive level gives the answer of the level it is named for.
pub check_level-collapse :
    (existing proposed : JsonSchema)
    → (check_level compat_full existing proposed ≡ check_level compat_backward existing proposed)
      × (check_level compat_backward existing proposed ≡ none
          → check_level compat_forward existing proposed ≡ none)
      × (check_level compat_backward_transitive existing proposed
          ≡ check_level compat_backward existing proposed)
      × (check_level compat_forward_transitive existing proposed
          ≡ check_level compat_forward existing proposed)
      × (check_level compat_full_transitive existing proposed
          ≡ check_level compat_full existing proposed)
unfolding check_level check_backward check_forward
check_level-collapse existing proposed = (ground arith, (λ h. ground (arith, h)), refl, refl, refl)
