-- ===== src/Cron/Field/Marks.antt =====
-- The loop that marks the values of a field.
use native.Mathlib.Nat.{mod-eq_of_lt, mod-eq-sub-mod, zero-mod}
use golang_journey.Prelude.{
  ℕ, zero, suc, ◌+◌, ◌-◌, ◌%◌, ◌≤◌, ◌<◌, ◌≡◌, refl, ◌∙◌, Bool, true, ◌&&◌, ◌||◌, [], ◌∷◌, leb, ◌==◌,
  arith, ok, panic, length, set, length-set, dec_lt, dec_le,
}
use golang_journey.Prelude.Int64.{half}
use golang_journey.Cron.Field.{Field, mark, active}

-- `i` is one of `lo`, `lo + step`, … up to `hi`.
abbrev pub is_marked : ℕ → ℕ → ℕ → ℕ → Bool
is_marked lo hi step i = leb lo i && (leb i hi && (i - lo) % step == 0)

active-set : (f : Field) (v i : ℕ) → v < length f → active (set f v true) i ≡ (v == i || active f i)
unfolding active
active-set [] v i h = absurd (omega arith)
active-set (b ∷ f) zero zero h = refl
active-set (b ∷ f) zero (suc i) h = ground arith
active-set (b ∷ f) (suc v) zero h = ground arith
active-set (b ∷ f) (suc v) (suc i) h = ground (arith, active-set f v i (omega arith))

-- Below the next value only the first one is marked.
mod_below : (x step : ℕ) → x < step → (x % step == 0) ≡ (x == 0)
mod_below x step h = ground (arith, mod-eq_of_lt h)

mod_above : (x step : ℕ) → step ≤ x → x % step ≡ (x - step) % step
mod_above x step h = mod-eq-sub-mod h

is_marked-next :
    (lo hi step i : ℕ)
    → 0 < step
    → lo ≤ hi
    → is_marked lo hi step i ≡ (lo == i || is_marked (lo + step) hi step i)
is_marked-next lo hi step i p q = elim (dec_lt i (lo + step)) [
  | yes h ↦ ground (arith, mod_below (i - lo) step)
  | no h ↦
      let e : i - lo - step ≡ i - (lo + step) = omega arith in
      ground (arith, mod_above (i - lo) step (omega arith), e)
]

-- With no overflow at the first value, and fuel above the number of values, the marking loop ends
-- without a panic, marks exactly the values of the range that the step meets, and keeps the marks
-- that were there.
pub mark_lem :
    (n v hi step : ℕ) (f : Field)
    → 0 < step
    → hi < 60
    → v < half
    → (v ≤ hi → v + step < half)
    → hi < n + v
    → length f ≡ 60
    → (f' : Field) × (mark n v hi step f ≡ ok f')
      × (length f' ≡ 60)
      × ((i : ℕ) → active f' i ≡ (active f i || is_marked v hi step i))
unfolding mark
mark_lem zero v hi step f p q small room fuel len = (f, refl, len, λ i. ground arith)
mark_lem (suc n) v hi step f p q small room fuel len = elim (dec_le v hi) [
  | yes h ↦
      let (f', e, len', act) =
        mark_lem n (v + step) hi step (set f v true) p q (omega arith) (λ h'. omega arith)
          (omega arith) (length-set f v true ∙ len) in
      let wraps : (v + step) % 18446744073709551616 ≡ v + step = omega (arith, room h) in
      (
        f',
        ground (arith, e, wraps),
        len',
        λ i. ground (arith, act i, active-set f v i (omega arith), is_marked-next v hi step i p h),
      )
  | no h ↦ (f, ground arith, len, λ i. ground arith)
]

-- Where the first addition overflows the loop comes back with a negative index and panics.
pub mark_overflow :
    (n lo hi step : ℕ) (f : Field)
    → lo ≤ hi
    → hi < 60
    → step < half
    → half ≤ lo + step
    → mark (suc (suc n)) lo hi step f ≡ panic
unfolding mark
mark_overflow n lo hi step f h q small over = ground arith

pub is_marked_first : (lo hi step : ℕ) → lo ≤ hi → is_marked lo hi step lo ≡ true
is_marked_first lo hi step h = let e : lo - lo ≡ 0 = omega arith in ground (arith, e, zero-mod step)
