-- ===== src/Cron/Field/Next.antt =====
-- `nextActive` returns the least active value in the range.
use golang_journey.Prelude.{
  ℕ, zero, suc, ◌+◌, ◌-◌, ◌%◌, ◌≤◌, ◌<◌, ◌≡◌, ◌≢◌, ◌⊎◌, refl, sym, true, false, some, arith,
  Bool-cases, inl, inr, ℕ_discrete, subst, length, get_elem?, get_elem?_lt, Option-cases,
}
use golang_journey.Prelude.Int64.{modulus, half, add_int, le_int}
use golang_journey.Cron.Field.{Field, active, minus_one, next_active}

-- The place of an int in the order of the ints.
abbrev pub rank : ℕ → ℕ
rank a = (a + half) % modulus

-- Every int from `v` on, up to the bound, is inactive.
abbrev pub Inactive : Field → ℕ → (ℕ → Type 0) → Type 0
Inactive f v bound = (i : ℕ) → i < modulus → rank v ≤ rank i → bound (rank i) → active f i ≡ false

-- What a search from `v` up to `max` returns: -1 where none is active, or the least active value.
abbrev pub IsLeastActive : Field → ℕ → ℕ → ℕ → Type 0
IsLeastActive f v max r =
    ((r ≡ minus_one) × Inactive f v (λ i. i ≤ rank max))
    ⊎ ((r < 60)
        × (rank v ≤ rank r)
        × (rank r ≤ rank max)
        × (active f r ≡ true)
        × Inactive f v (λ i. i < rank r))

active-lt : (f : Field) (v : ℕ) → length f ≡ 60 → active f v ≡ true → v < 60
unfolding active
active-lt f v size on = elim (Option-cases (get_elem? f v)) [
  | inl e ↦ ground (arith, e, on)
  | inr (b, e) ↦ omega (arith, size, get_elem?_lt f v e)
]

rank-next :
    (v max : ℕ)
    → max < modulus
    → max ≢ half - 1
    → rank v ≤ rank max
    → rank (add_int v 1) ≡ rank v + 1
rank-next v max small other le = omega (arith, small, other, le)

rank_first :
    (v i : ℕ) → v < modulus → i < modulus → rank v ≤ rank i → (v ≡ i) ⊎ (rank v + 1 ≤ rank i)
rank_first v i a b le = elim (ℕ_discrete v i) [
  | yes same ↦ inl same
  | no ne ↦ inr (omega (arith, a, b, le, ne))
]

-- An inactive value in front of inactive ones.
Inactive-next :
    (f : Field) (v w : ℕ) (bound : ℕ → Type 0)
    → v < modulus
    → rank w ≡ rank v + 1
    → active f v ≡ false
    → Inactive f w bound
    → Inactive f v bound
Inactive-next f v w bound small next off rest i a b c = elim (rank_first v i small a b) [
  | inl same ↦ subst (λ j. active f j ≡ false) same off
  | inr above ↦ rest i a (subst (λ k. k ≤ rank i) (sym next) above) c
]

-- For any two ints v and max, the second not the largest int, `nextActive` ends within two rounds
-- more than there are steps from v to max, and within one round if v is above max; it returns the
-- least active value from v to max, or -1 where none is active.
pub next_active-IsLeastActive :
    (n : ℕ) (f : Field) (v max : ℕ)
    → length f ≡ 60
    → v < modulus
    → max < modulus
    → max ≢ half - 1
    → 0 < n
    → rank max + 1 < rank v + n
    → (r : ℕ) × (next_active n f v max ≡ some r) × IsLeastActive f v max r
unfolding next_active
next_active-IsLeastActive zero f v max size sv sm other some_rounds enough = absurd (omega arith)
next_active-IsLeastActive (suc n) f v max size sv sm other some_rounds enough =
    elim (Bool-cases (le_int v max)) [
      | inr past ↦
          let gone : rank max < rank v = ground (arith, past) in
          (minus_one, rw (past) refl, inl (refl, λ i a b c. absurd (omega (arith, gone, b, c))))
      | inl within ↦
          let le : rank v ≤ rank max = ground (arith, within) in
          elim (Bool-cases (active f v)) [
            | inl on ↦ (
              v,
              rw (within, on) refl,
              inr (
                active-lt f v size on,
                omega arith,
                le,
                on,
                λ i a b c. absurd (omega (arith, b, c)),
              ),
            )
            | inr off ↦
                let w : ℕ = add_int v 1 in
                let next : rank w ≡ rank v + 1 = rank-next v max sm other le in
                let (r, found, least) =
                  next_active-IsLeastActive n f w max size (omega arith) sm other
                    (omega (arith, enough, le)) (omega (arith, enough, next)) in
                (
                  r,
                  rw (within, off, found) refl,
                  elim least [
                    | inl (e, rest) ↦
                        inl (e, Inactive-next f v w (λ i. i ≤ rank max) sv next off rest)
                    | inr (b60, b, c, on, rest) ↦ inr (
                      b60,
                      omega (arith, next, b),
                      c,
                      on,
                      Inactive-next f v w (λ i. i < rank r) sv next off rest,
                    )
                  ],
                )
          ]
    ]
