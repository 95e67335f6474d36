-- ===== src/Observability/Filter.antt =====
-- `AttributeFilter` of projects/08-observability-pipeline/processor/processor.go. The batch that it
-- writes to is the one that it returns.
use golang_journey.Prelude.{
  Bool, true, false, ◌≡◌, refl, ◌↔◌, ◌⊎◌, inl, inr, List, [], ◌∷◌, none, some, ite, All, arith,
  Selects, done, take_one, skip_one, Bool-cases, if_pos, if_neg, if◌then◌else◌, Option-cases, ◌≢◌,
}
use golang_journey.Prelude.Map.{lookup, insert, lookup-insert}
use golang_journey.Prelude.Text.{Text, Text-discrete}
use golang_journey.Observability.Signal.{Attribute, Span, Batch, traces}

-- The loop over the required keys.
all_present : List Text → List (Text × Unit {0}) → Bool
all_present [] m = true
all_present (key ∷ keys) m =
    let rest = all_present keys m in
    elim (lookup Text-discrete key m) [ none ↦ false | some u ↦ rest ]

module _ {V : Type 0} where
  -- The loop that builds `attrSet`.
  attr_set : List (Attribute V) → List (Text × Unit {0}) → List (Text × Unit {0})
  attr_set [] m = m
  attr_set (a ∷ attrs) m = attr_set attrs (insert Text-discrete a.key tt m)

  span_has_all_keys : List Text → Span V → Bool
  span_has_all_keys keys s = all_present keys (attr_set s.attributes [])

  -- The loop of `Process`.
  pub kept : List Text → List (Span V) → List (Span V)
  kept keys [] = []
  kept keys (s ∷ ss) =
      let rest = kept keys ss in if span_has_all_keys keys s then s ∷ rest else rest

unfoldable pub process : {V F : Type 0} → List Text → Batch V F → Batch V F
process keys b = ite (Text-discrete b.kind traces) (record b { spans = kept keys b.spans }) b

module _ {V : Type 0} where
  abbrev pub HasKey : List (Attribute V) → Text → Type 0
  HasKey [] k = ⊥
  HasKey (a ∷ attrs) k = (a.key ≡ k) ⊎ HasKey attrs k

  -- The span has an attribute under each of the keys.
  abbrev pub HasKeys : List Text → Span V → Type 0
  HasKeys keys s = All (HasKey s.attributes) keys

  lookup-attr_set :
      (attrs : List (Attribute V)) (m : List (Text × Unit)) (k : Text)
      → (lookup Text-discrete k (attr_set attrs m) ≢ none)
        ↔ (HasKey attrs k ⊎ (lookup Text-discrete k m ≢ none))
  unfolding attr_set
  lookup-attr_set [] m k = ground arith
  lookup-attr_set (a ∷ attrs) m k = ground (
    arith,
    lookup-attr_set attrs (insert Text-discrete a.key tt m) k,
    lookup-insert Text-discrete a.key k tt m,
  )

  all_present-All :
      (keys : List Text) (attrs : List (Attribute V))
      → (all_present keys (attr_set attrs []) ≡ true) ↔ All (HasKey attrs) keys
  unfolding all_present lookup
  all_present-All [] attrs = ground arith
  all_present-All (k ∷ keys) attrs =
      elim (Option-cases (lookup Text-discrete k (attr_set attrs []))) [
        | inl e ↦ ground (arith, e, lookup-attr_set attrs [] k)
        | inr (u, e) ↦ ground (arith, e, lookup-attr_set attrs [] k, all_present-All keys attrs)
      ]

  kept-Selects : (keys : List Text) (ss : List (Span V)) → Selects (HasKeys keys) ss (kept keys ss)
  unfolding kept span_has_all_keys
  kept-Selects keys [] = done
  kept-Selects keys (s ∷ ss) = elim (Bool-cases (span_has_all_keys keys s)) [
    | inl e ↦ rw (e) (take_one ((all_present-All keys s.attributes).0 e) (kept-Selects keys ss))
    | inr e ↦ rw (e) (
        skip_one (λ h. ground (arith, e, (all_present-All keys s.attributes).1 h))
          (kept-Selects keys ss))
  ]

process-traces :
    {V F : Type 0} (keys : List Text) (b : Batch V F)
    → b.kind ≡ traces
    → process keys b ≡ record b { spans = kept keys b.spans }
unfolding process
process-traces keys b e = if_pos (Text-discrete b.kind traces) e _ _

-- The attribute filter keeps of a batch of traces exactly the spans that have an attribute under
-- each required key, in order, and the rest of the batch as it is; a batch of another kind passes
-- unchanged.
pub process-Selects :
    {V F : Type 0} (keys : List Text) (b : Batch V F)
    → ((b.kind ≡ traces)
        → Selects (HasKeys keys) b.spans (process keys b).spans
          × (process keys b ≡ record b { spans = (process keys b).spans }))
      × ((b.kind ≢ traces) → process keys b ≡ b)
unfolding process
process-Selects keys b = (
  (λ e. rw (process-traces keys b e) (kept-Selects keys b.spans, refl)),
  λ h. if_neg (Text-discrete b.kind traces) h _ _,
)
