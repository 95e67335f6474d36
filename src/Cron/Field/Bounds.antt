-- ===== src/Cron/Field/Bounds.antt =====
-- What a field that parses holds: at least one value, and none outside its range.
use golang_journey.Prelude.{
  ℕ, zero, suc, ◌+◌, ◌≤◌, ◌<◌, ◌≡◌, ◌⊎◌, ◌↔◌, replicate, Bool-cases, ◌==◌, refl, subst, true, false,
  List, [], ◌∷◌, Option, none, some, Option-cases, Outcome-cases, arith, ok, panic, length, inl,
  inr, dec_lt, if_neg,
}
use golang_journey.Prelude.Int64.{half, modulus}
use golang_journey.Prelude.Text.{Text, Text-discrete, bytes}
use golang_journey.Cron.Syntax.{split, cut, atoi, atoi-lt}
use golang_journey.Cron.Field.{
  Field, mark, parse_step, range_of, value_of, parse_range, slash_parts, parse_field_part,
  parse_parts, parse_field, active, no_values,
}
use golang_journey.Cron.Field.Marks.{is_marked_first, mark_lem, mark_overflow}

parse_step-pos : (s : Text) (step : ℕ) → parse_step s ≡ ok step → (0 < step) × (step < half)
unfolding parse_step
parse_step-pos [] step h = ground arith
parse_step-pos (c ∷ s) step h = elim (Option-cases (atoi (c ∷ s))) [
  | inl e ↦ absurd (ground (arith, e, h))
  | inr (n, e) ↦ ground (arith, e, h, atoi-lt (c ∷ s) n e)
]

split-cons :
    (sep : ℕ) (s : Text) → (part : Text) × (parts : List Text) × (split sep s ≡ part ∷ parts)
unfolding split
split-cons sep [] = ([], [], refl)
split-cons sep (c ∷ s) =
    let (part, parts, e) = split-cons sep s in
    elim (Bool-cases (c == sep)) [
      | inl t ↦ ([], part ∷ parts, rw (t, e))
      | inr t ↦ (c ∷ part, parts, rw (t, e))
    ]

no_values_size : length no_values ≡ 60
unfolding no_values
no_values_size = refl

active-replicate : (n i : ℕ) → active (replicate n false) i ≡ false
unfolding active
active-replicate zero i = refl
active-replicate (suc n) zero = refl
active-replicate (suc n) (suc i) = active-replicate n i

no_values_inactive : (i : ℕ) → active no_values i ≡ false
unfolding no_values
no_values_inactive i = active-replicate 60 i

-- The values of a field: some, and all of them in range.
pub record IsInRange (min max : ℕ) (f : Field) : Type 0 where
  pub bounds : (i : ℕ) → active f i ≡ true → (min ≤ i) × (i ≤ max)
  pub value : ℕ
  pub value_active : active f value ≡ true

module _ (min max : ℕ) (p : min ≤ max) (q : max < 60) where
  range_of_bounds :
      (part : Text) (a b : Option ℕ) (lo hi : ℕ)
      → ((n : ℕ) → a ≡ some n → n < modulus)
      → ((n : ℕ) → b ≡ some n → n < modulus)
      → range_of part min max a b ≡ ok (lo, hi)
      → (min ≤ lo) × (lo ≤ hi) × (hi ≤ max)
  unfolding range_of
  range_of_bounds part none b lo hi s t h = absurd (ground (arith, h))
  range_of_bounds part (some x) none lo hi s t h = absurd (ground (arith, h))
  range_of_bounds part (some x) (some y) lo hi s t h = ground (arith, h, s x refl, t y refl)

  value_of_bounds :
      (part : Text) (a : Option ℕ) (lo hi : ℕ)
      → ((n : ℕ) → a ≡ some n → n < modulus)
      → value_of part min max a ≡ ok (lo, hi)
      → (min ≤ lo) × (lo ≤ hi) × (hi ≤ max)
  unfolding value_of
  value_of_bounds part none lo hi s h = absurd (ground (arith, h))
  value_of_bounds part (some x) lo hi s h = ground (arith, h, s x refl)

  parse_range_bounds :
      (part : Text) (lo hi : ℕ)
      → parse_range part min max ≡ ok (lo, hi)
      → (min ≤ lo) × (lo ≤ hi) × (hi ≤ max)
  unfolding parse_range
  parse_range_bounds part lo hi h = elim (Text-discrete part (bytes "*")) [
    | yes e ↦ ground (arith, e, h)
    | no ne ↦ elim (Option-cases (cut b'-' part)) [
      | inl e ↦
          value_of_bounds part (atoi part) lo hi (atoi-lt part)
            (rw (parse_range, if_neg _ ne, e) at h)
      | inr ((before, after), e) ↦
          range_of_bounds part (atoi before) (atoi after) lo hi (atoi-lt before) (atoi-lt after)
            (rw (parse_range, if_neg _ ne, e) at h)
    ]
  ]

  -- What a part of a field does to the values: none is lost, the new ones are in range, and there
  -- is a new one.
  pub record Extends (f f' : Field) : Type 0 where
    pub size : length f' ≡ 60
    pub keeps : (i : ℕ) → active f i ≡ true → active f' i ≡ true
    pub in_range : (i : ℕ) → active f' i ≡ true → (active f i ≡ true) ⊎ ((min ≤ i) × (i ≤ max))
    pub value : ℕ
    pub value_active : active f' value ≡ true

  mark-Extends :
      (lo hi step : ℕ) (f f' : Field)
      → (min ≤ lo) × (lo ≤ hi) × (hi ≤ max)
      → (0 < step) × (step < half)
      → length f ≡ 60
      → mark 61 lo hi step f ≡ ok f'
      → Extends f f'
  mark-Extends lo hi step f f' b s len h = elim (dec_lt (lo + step) half) [
    | yes room ↦
        let (g, e, size, act) =
          mark_lem 61 lo hi step f s.0 (omega arith) (omega arith) (λ _. room) (omega arith) len in
        let same : g ≡ f' = ground (arith, e, h) in
        subst (Extends f) same (record {
          size = size;
          keeps = λ i a. ground (arith, act i);
          in_range = λ i a. ground (arith, act i);
          value = lo;
          value_active = ground (arith, act lo, is_marked_first lo hi step b.1);
        })
    | no over ↦
        let p : mark 61 lo hi step f ≡ panic =
          mark_overflow 59 lo hi step f b.1 (omega arith) s.1 (omega arith) in
        absurd (ground (arith, p, h))
  ]

  parse_field_part-Extends :
      (part : Text) (f f' : Field)
      → length f ≡ 60
      → parse_field_part part min max f ≡ ok f'
      → Extends f f'
  unfolding parse_field_part
  parse_field_part-Extends part f f' len h =
      let (range, step_text) = slash_parts part in
      elim (Outcome-cases (parse_step step_text)) [
        | inl (step, e) ↦ elim (Outcome-cases (parse_range range min max)) [
          | inl ((lo, hi), r) ↦
              mark-Extends lo hi step f f' (parse_range_bounds range lo hi r)
                (parse_step-pos step_text step e) len (rw (parse_field_part, e, r) at h)
          | inr (inl (x, r)) ↦ absurd (ground (arith, e, r, h))
          | inr (inr r) ↦ absurd (ground (arith, e, r, h))
        ]
        | inr (inl (x, e)) ↦ absurd (ground (arith, e, h))
        | inr (inr e) ↦ absurd (ground (arith, e, h))
      ]

  parse_parts-Extends :
      (part : Text) (parts : List Text) (f f' : Field)
      → length f ≡ 60
      → parse_parts (part ∷ parts) min max f ≡ ok f'
      → Extends f f'
  unfolding parse_parts
  parse_parts-Extends part [] f f' len h = elim (Outcome-cases (parse_field_part part min max f)) [
    | inl (g, e) ↦
        subst (Extends f) (ground (arith, e, h)) (parse_field_part-Extends part f g len e)
    | inr (inl (x, e)) ↦ absurd (ground (arith, e, h))
    | inr (inr e) ↦ absurd (ground (arith, e, h))
  ]
  parse_parts-Extends part (next ∷ parts) f f' len h =
      elim (Outcome-cases (parse_field_part part min max f)) [
        | inl (g, e) ↦
            let first = parse_field_part-Extends part f g len e in
            let rest = parse_parts-Extends next parts g f' first.size (rw (parse_parts, e) at h) in
            record {
              size = rest.size;
              keeps = λ i a. rest.keeps i (first.keeps i a);
              in_range = λ i a. ground (arith, rest.in_range i a, first.in_range i);
              value = rest.value;
              value_active = rest.value_active;
            }
        | inr (inl (x, e)) ↦ absurd (ground (arith, e, h))
        | inr (inr e) ↦ absurd (ground (arith, e, h))
      ]

  pub parse_field-IsInRange :
      (expr : Text) (f : Field) → parse_field expr min max ≡ ok f → IsInRange min max f
  unfolding parse_field
  parse_field-IsInRange expr f h =
      let (part, parts, e) = split-cons b',' expr in
      let x = parse_parts-Extends part parts no_values f no_values_size (rw e at h) in
      record {
        bounds = λ i a. ground (arith, x.in_range i a, no_values_inactive i);
        value = x.value;
        value_active = x.value_active;
      }

  -- A part of a cron field with a step and a range in bounds panics exactly if the first
  -- addition of the step to the lower end of the range overflows int.
  pub parse_field_part-eq-panic_iff :
      (part : Text) (f : Field) (step lo hi : ℕ)
      → length f ≡ 60
      → parse_step (slash_parts part).1 ≡ ok step
      → parse_range (slash_parts part).0 min max ≡ ok (lo, hi)
      → (parse_field_part part min max f ≡ panic) ↔ (half ≤ lo + step)
  unfolding parse_field_part
  parse_field_part-eq-panic_iff part f step lo hi len e r =
      let b = parse_range_bounds (slash_parts part).0 lo hi r in
      let s = parse_step-pos (slash_parts part).1 step e in
      rw (parse_field_part, e, r)
        (
          (λ h. elim (dec_lt (lo + step) half) [
            | yes room ↦
                let marked =
                  mark_lem 61 lo hi step f s.0 (omega arith) (omega arith) (λ _. room) (omega arith)
                    len in
                absurd (ground (arith, marked.1, h))
            | no over ↦ omega arith
          ]),
          λ over. mark_overflow 59 lo hi step f b.1 (omega arith) s.1 over,
        )
