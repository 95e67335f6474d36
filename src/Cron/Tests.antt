-- ===== src/Cron/Tests.antt =====
-- Expressions that the cron parser reads, and its theorems at them.
use mathlib.Core.Option
use golang_journey.Prelude.{
  ℕ, ◌+◌, ◌-◌, ◌≤◌, ◌≡◌, ◌↔◌, refl, none, some, arith, ok, panic, ℕ_discrete,
}
use golang_journey.Prelude.Int64.{half}
use golang_journey.Prelude.Text.{Text, Text-discrete, bytes}
use golang_journey.Cron.Field.{
  no_values, mark, parse_step, range_of, value_of, parse_range, parse_field_part, parse_parts,
  parse_field, active, next_active,
}
use golang_journey.Cron.Field.Bounds
use golang_journey.Cron.Field.Next
use golang_journey.Cron.Field.Next.{IsLeastActive}
use golang_journey.Cron.Schedule.{Schedule, parse, expand}
use golang_journey.Cron.Schedule.Ranges
use golang_journey.Cron.Schedule.Ranges.{IsValid}
use golang_journey.Cron.Syntax.{trim_space, split, fields, cut, atoi}

program : Unit {0}
unfolding Text-discrete ℕ_discrete no_values mark parse_step range_of value_of parse_range
    parse_field_part parse_parts parse_field active next_active parse expand trim_space split fields
    cut atoi
program = tt

-- Working days at 8:00 and 8:30.
abbrev office : Text
office = bytes "*/30 8 * * 1-5"

office_parses : (s : Schedule) × (parse office ≡ ok s) × (s.expr ≡ office)
unfolding program
office_parses = (_, refl, refl)

next_half_hour :
    Option.map
      (λ (s : Schedule). next_active 60 s.minute 1 59)
      (elim (parse office) [ ok s ↦ some s | _ ↦ none ])
    ≡ some (some 30)
unfolding program
next_half_hour = refl

parse-IsValid_example : IsValid office_parses.0
parse-IsValid_example = Ranges.parse-IsValid office office_parses.0 office_parses.1

-- The largest step: the first value is 1, and the second would be 2^63.
abbrev overflowing : Text
overflowing = bytes "1-5/9223372036854775807"

overflow_panics : parse_field overflowing 0 59 ≡ panic
unfolding program
overflow_panics = refl

parse_field_part-eq-panic_iff_example :
    (parse_field_part overflowing 0 59 no_values ≡ panic) ↔ (half ≤ 1 + 9223372036854775807)
parse_field_part-eq-panic_iff_example =
    Bounds.parse_field_part-eq-panic_iff 0 59 (omega arith) (omega arith) overflowing no_values
      9223372036854775807 1 5 (unfold program in refl) (unfold program in refl)
      (unfold program in refl)

next_active-IsLeastActive_example :
    (r : ℕ) × (next_active 60 no_values 3 59 ≡ some r) × IsLeastActive no_values 3 59 r
next_active-IsLeastActive_example =
    Next.next_active-IsLeastActive 60 no_values 3 59 (unfold program in refl) (omega arith)
      (omega arith) (λ e. omega (arith, e)) (omega arith) (omega arith)

-- The counter wraps around at the largest int, below which every int is.
wraps : next_active 3 no_values (half - 1) (half - 1) ≡ none
unfolding program
wraps = refl
