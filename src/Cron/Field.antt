-- ===== src/Cron/Field.antt =====
-- The field parser of projects/02-distributed-task-scheduler/scheduler/cron/parser.go.
pub mod Marks
pub mod Bounds
pub mod Next
use golang_journey.Prelude.{
  ℕ, zero, suc, ◌+◌, ◌-◌, Bool, true, false, ◌||◌, List, [], ◌∷◌, Option, none, some, ltb, ◌==◌,
  if◌then◌else◌, Outcome, ok, err, panic, get_elem?, set, replicate, ite,
}
use golang_journey.Prelude.Int64.{modulus, add_int, le_int, lt_int}
use golang_journey.Prelude.Text.{Text, Text-discrete, bytes}
use golang_journey.Cron.Syntax.{split, cut, atoi}

-- `field`: the 60 flags of its array.
abbrev pub Field : Type 0
Field = List Bool

unfoldable pub no_values : Field
no_values = replicate 60 false

-- An error keeps the text or the numbers that its message shows.
pub data FieldError : Type 0 where
  invalid_step invalid_range invalid_value : Text → FieldError
  range_out_of_bounds : ℕ → ℕ → ℕ → ℕ → FieldError
  value_out_of_bounds : ℕ → ℕ → ℕ → FieldError

-- `for v := rangeMin; v <= rangeMax; v += step { f.values[v] = true }` on fuel: an index outside
-- the array panics, and `v += step` wraps.
unfoldable pub mark : ℕ → ℕ → ℕ → ℕ → Field → Outcome FieldError Field
mark zero v hi step f = ok f
mark (suc fuel) v hi step f =
    let rest = mark fuel (add_int v step) hi step (set f v true) in
    if le_int v hi then (if ltb v 60 then rest else panic) else ok f

-- The step, of the text behind the slash.
unfoldable pub parse_step : Text → Outcome FieldError ℕ
parse_step [] = ok 1
parse_step (c ∷ s) = elim (atoi (c ∷ s)) [
  | none ↦ err (invalid_step (c ∷ s))
  | some step ↦ if le_int step 0 then err (invalid_step (c ∷ s)) else ok step
]

-- A range `n-m`, of the results of the two calls of `Atoi`.
unfoldable pub range_of : Text → ℕ → ℕ → Option ℕ → Option ℕ → Outcome FieldError (ℕ × ℕ)
range_of part min max (some lo) (some hi) =
    if lt_int lo min || lt_int max hi || lt_int hi lo
    then err (range_out_of_bounds lo hi min max)
    else ok (lo, hi)
range_of part min max (some lo) none = err (invalid_range part)
range_of part min max none hi = err (invalid_range part)

-- A single value, of the result of `Atoi`.
unfoldable pub value_of : Text → ℕ → ℕ → Option ℕ → Outcome FieldError (ℕ × ℕ)
value_of part min max (some n) =
    if lt_int n min || lt_int max n then err (value_out_of_bounds n min max) else ok (n, n)
value_of part min max none = err (invalid_value part)

-- The bounds of the part before the slash.
unfoldable pub parse_range : Text → ℕ → ℕ → Outcome FieldError (ℕ × ℕ)
parse_range part min max =
    ite (Text-discrete part (bytes "*")) (ok (min, max)) (elim (cut b'-' part) [
      | some (before, after) ↦ range_of part min max (atoi before) (atoi after)
      | none ↦ value_of part min max (atoi part)
    ])

-- The part of the field before its slash, and the text behind it.
abbrev pub slash_parts : Text → Text × Text
slash_parts part = elim (cut b'/' part) [
  | none ↦ (part, [])
  | some (before, after) ↦ (before, after)
]

-- 61 rounds are enough: see `mark_lem`.
unfoldable pub parse_field_part : Text → ℕ → ℕ → Field → Outcome FieldError Field
parse_field_part part min max f =
    let (range, step_text) = slash_parts part in
    elim (parse_step step_text) [
      | err e ↦ err e
      | panic ↦ panic
      | ok step ↦ elim (parse_range range min max) [
        | err e ↦ err e
        | panic ↦ panic
        | ok (lo, hi) ↦ mark 61 lo hi step f
      ]
    ]

-- The loop of `parseField`.
unfoldable pub parse_parts : List Text → ℕ → ℕ → Field → Outcome FieldError Field
parse_parts [] min max f = ok f
parse_parts (part ∷ parts) min max f = elim (parse_field_part part min max f) [
  | err e ↦ err e
  | panic ↦ panic
  | ok f' ↦ parse_parts parts min max f'
]

unfoldable pub parse_field : Text → ℕ → ℕ → Outcome FieldError Field
parse_field expr min max = parse_parts (split b',' expr) min max no_values

-- `f.active(v)`: the pattern of a negative int is beyond the 60 values.
unfoldable pub active : Field → ℕ → Bool
active f v = elim (get_elem? f v) [ none ↦ false | some b ↦ b ]

abbrev pub minus_one : ℕ
minus_one = modulus - 1

-- `f.nextActive(v, max)` for a number of rounds of its loop, which is not over at `none`.
unfoldable pub next_active : ℕ → Field → ℕ → ℕ → Option ℕ
next_active zero f v max = none
next_active (suc n) f v max =
    let rest = next_active n f (add_int v 1) max in
    if le_int v max then (if active f v then some v else rest) else some minus_one
