-- ===== src/Tsdb/Chunk/Bits.antt =====
-- Setting one bit of a byte, as an addition.
use Prim.Native.Nat.{bit_or}
use golang_journey.Prelude.{
  ℕ, zero, suc, ◌+◌, ◌*◌, ◌%◌, ◌^◌, ◌<◌, ◌≡◌, Bool, true, false, refl, arith, ◌==◌, if◌then◌else◌,
  ℕ_discrete,
}

-- The test holds of the numbers before `n`.
holds_to : (ℕ → Bool) → ℕ → Bool
holds_to test zero = true
holds_to test (suc n) = let earlier = holds_to test n in if test n then earlier else false

holds_to-at : (test : ℕ → Bool) (n : ℕ) {k : ℕ} → k < n → holds_to test n ≡ true → test k ≡ true
unfolding holds_to
holds_to-at test zero small all = elim small [ ]
holds_to-at test (suc n) {k} small all = elim (ℕ_discrete k n) [
  | yes last ↦ ground (arith, all, last)
  | no before ↦ holds_to-at test n (omega (arith, small, before)) (ground (arith, all))
]

-- To set a bit with no lower ones is to add its value.
or_adds : ℕ → ℕ → Bool
or_adds r x = if x % (2 * 2 ^ r) == 0 then bit_or x (2 ^ r) == x + 2 ^ r else true

or_row : ℕ → Bool
or_row r = holds_to (or_adds r) 256

or_rows : holds_to or_row 8 ≡ true
unfolding holds_to or_row or_adds
or_rows = refl

pub or_lem : (r x : ℕ) → r < 8 → x < 256 → x % (2 * 2 ^ r) ≡ 0 → bit_or x (2 ^ r) ≡ x + 2 ^ r
unfolding or_adds or_row
or_lem r x hr hx e =
    let cell = holds_to-at (or_adds r) 256 hx (holds_to-at or_row 8 hr or_rows) in
    ground (arith, cell, e)

pub record Room (m n r x : ℕ) : Type 0 where
  pub low : x % (2 * 2 ^ r) ≡ 0
  pub small : x + 2 ^ r < 256
  pub set : m * 256 + (x + 2 ^ r) ≡ (2 * n + 1) * 2 ^ r
  pub unset : m * 256 + x ≡ 2 * n * 2 ^ r

-- In the last byte, with `r + 1` free bits, the first of them can be set.
pub byte-Room : (r m n x : ℕ) → r < 8 → x < 256 → m * 256 + x ≡ n * (2 * 2 ^ r) → Room m n r x
byte-Room zero m n x h s e = record {
  low = omega arith;
  small = omega arith;
  set = omega arith;
  unset = omega arith;
}
byte-Room (suc zero) m n x h s e = record {
  low = omega arith;
  small = omega arith;
  set = omega arith;
  unset = omega arith;
}
byte-Room (suc (suc zero)) m n x h s e = record {
  low = omega arith;
  small = omega arith;
  set = omega arith;
  unset = omega arith;
}
byte-Room (suc (suc (suc zero))) m n x h s e = record {
  low = omega arith;
  small = omega arith;
  set = omega arith;
  unset = omega arith;
}
byte-Room (suc (suc (suc (suc zero)))) m n x h s e = record {
  low = omega arith;
  small = omega arith;
  set = omega arith;
  unset = omega arith;
}
byte-Room (suc (suc (suc (suc (suc zero))))) m n x h s e = record {
  low = omega arith;
  small = omega arith;
  set = omega arith;
  unset = omega arith;
}
byte-Room (suc (suc (suc (suc (suc (suc zero)))))) m n x h s e = record {
  low = omega arith;
  small = omega arith;
  set = omega arith;
  unset = omega arith;
}
byte-Room (suc (suc (suc (suc (suc (suc (suc zero))))))) m n x h s e = record {
  low = omega arith;
  small = omega arith;
  set = omega arith;
  unset = omega arith;
}
byte-Room (suc (suc (suc (suc (suc (suc (suc (suc r)))))))) m n x h s e = absurd (omega arith)
