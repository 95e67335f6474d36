-- ===== src/Cron/Schedule.antt =====
-- `Parse` of projects/02-distributed-task-scheduler/scheduler/cron/parser.go. `Next` of a schedule
-- panics at every input in the source and is left out.
pub mod Ranges
use golang_journey.Prelude.{ℕ, List, [], ◌∷◌, ite, Outcome, ok, err, panic, length}
use golang_journey.Prelude.Text.{Text, Text-discrete, bytes}
use golang_journey.Cron.Syntax.{trim_space, fields}
use golang_journey.Cron.Field.{Field, FieldError, parse_field}

pub record Schedule : Type 0 where
  pub minute : Field
  pub hour : Field
  pub dom : Field
  pub month : Field
  pub dow : Field
  pub expr : Text

pub data ParseError : Type 0 where
  field_count : ℕ → Text → ParseError
  in_minute in_hour in_dom in_month in_dow : FieldError → ParseError

infixl 5 ◌>>=◌
abbrev pub ◌>>=◌ : {E A B : Type 0} → Outcome E A → (A → Outcome E B) → Outcome E B
ok a >>= k = k a
err e >>= k = err e
panic >>= k = panic

-- The error of a field, wrapped with the field's name.
abbrev pub within_field :
    {A : Type 0} → (FieldError → ParseError) → Outcome FieldError A → Outcome ParseError A
within_field wrap (ok a) = ok a
within_field wrap (err e) = err (wrap e)
within_field wrap panic = panic

-- `Parse` behind the shorthands.
parse_five : Text → List Text → Outcome ParseError Schedule
parse_five expr (p₀ ∷ p₁ ∷ p₂ ∷ p₃ ∷ p₄ ∷ []) = do
  minute ← within_field in_minute (parse_field p₀ 0 59)
  hour ← within_field in_hour (parse_field p₁ 0 23)
  dom ← within_field in_dom (parse_field p₂ 1 31)
  month ← within_field in_month (parse_field p₃ 1 12)
  dow ← within_field in_dow (parse_field p₄ 0 6)
  ok (record { minute = minute; hour = hour; dom = dom; month = month; dow = dow; expr = expr })
parse_five expr parts = err (field_count (length parts) expr)

-- The expression that a shorthand stands for; any other text stands for itself.
unfoldable pub expand : Text → Text
expand expr =
    let t = trim_space expr in
    ite (Text-discrete t (bytes "@hourly")) (bytes "0 * * * *") (
      ite (Text-discrete t (bytes "@daily")) (bytes "0 0 * * *") (
        ite (Text-discrete t (bytes "@midnight")) (bytes "0 0 * * *") (
          ite (Text-discrete t (bytes "@weekly")) (bytes "0 0 * * 0") (
            ite (Text-discrete t (bytes "@monthly")) (bytes "0 0 1 * *") (
              ite (Text-discrete t (bytes "@yearly")) (bytes "0 0 1 1 *")
                (ite (Text-discrete t (bytes "@annually")) (bytes "0 0 1 1 *") expr))))))

unfoldable pub parse : Text → Outcome ParseError Schedule
unfolding parse_five
parse expr = let e = expand expr in parse_five e (fields e)
