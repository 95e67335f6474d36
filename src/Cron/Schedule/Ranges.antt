-- ===== src/Cron/Schedule/Ranges.antt =====
-- What a schedule that parses holds.
use golang_journey.Prelude.{◌≡◌, refl, subst, List, [], ◌∷◌, Outcome, ok, err, panic, arith}
use golang_journey.Prelude.Text.{Text}
use golang_journey.Cron.Syntax.{fields}
use golang_journey.Cron.Field.{FieldError, parse_field}
use golang_journey.Cron.Field.Bounds.{IsInRange, parse_field-IsInRange}
use golang_journey.Cron.Schedule.{
  Schedule, ParseError, ◌>>=◌, within_field, expand, parse_five, parse,
}

-- Each field of the schedule has a value, and all of them are of its unit.
pub record IsValid (s : Schedule) : Type 0 where
  pub minute : IsInRange 0 59 s.minute
  pub hour : IsInRange 0 23 s.hour
  pub dom : IsInRange 1 31 s.dom
  pub month : IsInRange 1 12 s.month
  pub dow : IsInRange 0 6 s.dow

>>=-eq-ok :
    {A B : Type 0} (wrap : FieldError → ParseError) (m : Outcome FieldError A)
    (k : A → Outcome ParseError B) {b : B}
    → (within_field wrap m >>= k) ≡ ok b
    → (a : A) × (m ≡ ok a) × (k a ≡ ok b)
>>=-eq-ok wrap (ok a) k h = (a, refl, h)
>>=-eq-ok wrap (err e) k h = cc
>>=-eq-ok wrap panic k h = cc

ok-injective : {s t : Schedule} → ◌≡◌ {A = Outcome ParseError Schedule} (ok s) (ok t) → s ≡ t
ok-injective h = cc

parse_five-IsValid :
    (expr : Text) (parts : List Text) (s : Schedule) → parse_five expr parts ≡ ok s → IsValid s
unfolding parse_five
parse_five-IsValid expr (p₀ ∷ p₁ ∷ p₂ ∷ p₃ ∷ p₄ ∷ []) s h₀ =
    let (minute, e₀, h₁) = >>=-eq-ok _ (parse_field p₀ 0 59) _ h₀ in
    let (hour, e₁, h₂) = >>=-eq-ok _ (parse_field p₁ 0 23) _ h₁ in
    let (dom, e₂, h₃) = >>=-eq-ok _ (parse_field p₂ 1 31) _ h₂ in
    let (month, e₃, h₄) = >>=-eq-ok _ (parse_field p₃ 1 12) _ h₃ in
    let (dow, e₄, h₅) = >>=-eq-ok _ (parse_field p₄ 0 6) _ h₄ in
    subst IsValid (ok-injective h₅) (record {
      minute = parse_field-IsInRange 0 59 (omega arith) (omega arith) p₀ minute e₀;
      hour = parse_field-IsInRange 0 23 (omega arith) (omega arith) p₁ hour e₁;
      dom = parse_field-IsInRange 1 31 (omega arith) (omega arith) p₂ dom e₂;
      month = parse_field-IsInRange 1 12 (omega arith) (omega arith) p₃ month e₃;
      dow = parse_field-IsInRange 0 6 (omega arith) (omega arith) p₄ dow e₄;
    })
parse_five-IsValid expr _ s h = cc

-- In a schedule that Parse returns each field has an active value, and every active value is a
-- minute from 0 to 59, an hour from 0 to 23, a day from 1 to 31, a month from 1 to 12, a day of
-- the week from 0 to 6.
pub parse-IsValid : (expr : Text) (s : Schedule) → parse expr ≡ ok s → IsValid s
unfolding parse
parse-IsValid expr s h = parse_five-IsValid (expand expr) (fields (expand expr)) s h
