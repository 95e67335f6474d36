-- ===== src/SchemaRegistry/Compat/Changes.antt =====
-- `Diff` of projects/10-schema-registry/registry/compat/checker.go. A change is a value in place
-- of its printed line.
use golang_journey.Prelude.{
  ◌≡◌, ◌⊎◌, inl, inr, refl, All, All-map, subst, List, [], ◌∷◌, ◌++◌, none, some, true, false,
  arith, if◌then◌else◌, Bool-cases, Bool,
}
use golang_journey.Prelude.Map.{lookup, insert, lookup-insert}
use golang_journey.Prelude.Text.{Text, Text-discrete}
use golang_journey.SchemaRegistry.Compat.{
  JsonSchema, type_of, required_of, properties_of, type_changed, changed_type, check_backward,
  Parsed, parsed, parse_error,
}
use golang_journey.SchemaRegistry.Compat.Rules.{
  Known, changed_type-KeepsType, check_backward-IsBackward,
}

pub data Change : Type 0 where
  field_added field_removed became_required became_optional : Text → Change
  field_type_changed : Text → Text → Text → Change

-- The names of `m` that `other` lacks, each as the change `c`: the loops over added and removed
-- fields.
unfoldable pub missing_from :
    (Text → Change) → List (Text × JsonSchema) → List (Text × JsonSchema) → List Change
missing_from c other [] = []
missing_from c other ((name, v) ∷ m) =
    let rest = missing_from c other m in
    elim (lookup Text-discrete name other) [ none ↦ c name ∷ rest | some _ ↦ rest ]

-- The loop over the changed types.
unfoldable pub retyped : List (Text × JsonSchema) → List (Text × JsonSchema) → List Change
retyped [] existing = []
retyped ((name, p) ∷ ps) existing =
    let rest = retyped ps existing in
    elim (lookup Text-discrete name existing) [
      | none ↦ rest
      | some e ↦
          if type_changed (type_of p) (type_of e)
          then field_type_changed name (type_of e) (type_of p) ∷ rest
          else rest
    ]

-- The loop of `toSet`, and `toSet`.
to_set_from : List (Text × Bool) → List Text → List (Text × Bool)
to_set_from m [] = m
to_set_from m (s ∷ ss) = to_set_from (insert Text-discrete s true m) ss

unfoldable pub to_set : List Text → List (Text × Bool)
unfolding to_set_from
to_set = to_set_from []

-- `m[f]`, where a missing key reads as false.
unfoldable pub is_member : List (Text × Bool) → Text → Bool
is_member m f = elim (lookup Text-discrete f m) [ none ↦ false | some b ↦ b ]

-- The names of `m` that are no members of `other`, each as the change `c`: the last two loops.
unfoldable pub not_among : (Text → Change) → List (Text × Bool) → List (Text × Bool) → List Change
not_among c other [] = []
not_among c other ((f, b) ∷ m) =
    let rest = not_among c other m in if is_member other f then rest else c f ∷ rest

unfoldable pub diff_schemas : JsonSchema → JsonSchema → List Change
diff_schemas e p =
    missing_from field_added (properties_of e) (properties_of p)
    ++ (missing_from field_removed (properties_of p) (properties_of e)
        ++ (retyped (properties_of p) (properties_of e)
            ++ (not_among became_required (to_set (required_of e)) (to_set (required_of p))
                ++ not_among became_optional (to_set (required_of p)) (to_set (required_of e)))))

-- `Diff`: the changes, or the text of the decoder's error.
pub diff : (Text → Parsed) → Text → Text → List Change ⊎ Text
diff parse_json existing proposed = elim (parse_json existing) [
  | parse_error x ↦ inr x
  | parsed e ↦ elim (parse_json proposed) [
    | parse_error x ↦ inr x
    | parsed p ↦ inl (diff_schemas e p)
  ]
]

append-eq-nil : {A : Type 0} (xs ys : List A) → xs ++ ys ≡ [] → (xs ≡ []) × (ys ≡ [])
append-eq-nil [] ys h = (refl, h)
append-eq-nil (x ∷ xs) ys h = cc

retyped-changed_type :
    (ps existing : List (Text × JsonSchema))
    → retyped ps existing ≡ []
    → changed_type ps existing ≡ none
unfolding retyped changed_type
retyped-changed_type [] existing h = refl
retyped-changed_type ((name, p) ∷ ps) existing h = ground (arith, retyped-changed_type ps existing)

not_among-nil :
    (c : Text → Change) (other m : List (Text × Bool)) (f : Text) (v : Bool)
    → not_among c other m ≡ []
    → lookup Text-discrete f m ≡ some v
    → is_member other f ≡ true
unfolding not_among lookup
not_among-nil c other [] f v h l = cc
not_among-nil c other ((g, b) ∷ m) f v h l = elim (Bool-cases (is_member other g)) [
  | inl e ↦ ground (arith, e, h, l, not_among-nil c other m f v)
  | inr e ↦ absurd (ground (arith, e, h))
]

to_set_from-keeps :
    (m : List (Text × Bool)) (ss : List Text) (f : Text)
    → lookup Text-discrete f m ≡ some true
    → lookup Text-discrete f (to_set_from m ss) ≡ some true
unfolding to_set_from
to_set_from-keeps m [] f h = h
to_set_from-keeps m (s ∷ ss) f h =
    to_set_from-keeps (insert Text-discrete s true m) ss f
      (ground (arith, lookup-insert Text-discrete s f true m))

to_set_from-All :
    (m : List (Text × Bool)) (ss : List Text)
    → All (λ f. lookup Text-discrete f (to_set_from m ss) ≡ some true) ss
unfolding to_set_from
to_set_from-All m [] = tt
to_set_from-All m (s ∷ ss) = (
  to_set_from-keeps (insert Text-discrete s true m) ss s
      (ground (arith, lookup-insert Text-discrete s s true m)),
  to_set_from-All (insert Text-discrete s true m) ss,
)

-- What holds of every string of a list holds of every member of its set.
to_set_from-elim :
    (P : Text → Type 0) (m : List (Text × Bool)) (ss : List Text) (f : Text)
    → All P ss
    → ((g : Text) → lookup Text-discrete g m ≡ some true → P g)
    → lookup Text-discrete f (to_set_from m ss) ≡ some true
    → P f
unfolding to_set_from
to_set_from-elim P m [] f a h l = h f l
to_set_from-elim P m (s ∷ ss) f a h l =
    to_set_from-elim P (insert Text-discrete s true m) ss f a.1
      (λ g e. elim (Text-discrete s g) [
        | yes same ↦ subst P same a.0
        | no ne ↦ h g (ground (arith, lookup-insert Text-discrete s g true m))
      ])
      l

is_member-true :
    (m : List (Text × Bool)) (f : Text)
    → is_member m f ≡ true
    → lookup Text-discrete f m ≡ some true
unfolding is_member
is_member-true m f h = ground (arith, h)

lookup-nil : (g : Text) → ¬ (lookup {V = Bool} Text-discrete g [] ≡ some true)
unfolding lookup
lookup-nil g h = cc

-- If Diff reports no change and the existing schema is compatible with itself, `checkBackward`
-- accepts the proposal.
pub diff_schemas-nil_accepted :
    (existing proposed : JsonSchema)
    → diff_schemas existing proposed ≡ []
    → check_backward existing existing ≡ none
    → check_backward existing proposed ≡ none
unfolding diff_schemas to_set
diff_schemas-nil_accepted e p h self =
    let own = (check_backward-IsBackward e e).0 self in
    let after_added = (append-eq-nil _ _ h).1 in
    let after_removed = (append-eq-nil _ _ after_added).1 in
    let (types, sets) = append-eq-nil _ _ after_removed in
    let required = (append-eq-nil _ _ sets).0 in
    (check_backward-IsBackward e p).1 (record {
      required =
          All-map (required_of p)
            (λ f m.
              to_set_from-elim (Known (properties_of e)) [] (required_of e) f own.required
                (λ g l. absurd (lookup-nil g l))
                (is_member-true (to_set (required_of e)) f (
                  not_among-nil became_required (to_set (required_of e)) (to_set (required_of p)) f
                    true required m)))
            (to_set_from-All [] (required_of p));
      types =
          changed_type-KeepsType (properties_of p) (properties_of e)
            (retyped-changed_type (properties_of p) (properties_of e) types);
    })
