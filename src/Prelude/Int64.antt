-- ===== src/Prelude/Int64.antt =====
-- Go's 64-bit `int` as its two's complement bit pattern, a number below 2^64: the patterns from
-- 2^63 on stand for the negative integers.
use Prim.Native.Nat.{ℕ, ◌+◌, ◌-◌, ◌%◌, ◌≤◌, ◌<◌}
use mathlib.Core.Path.{◌≡◌}
use mathlib.Core.Bool.{Bool, true}
use mathlib.Core.Logic.{◌↔◌}
use native.Mathlib.Omega.{arith}
use golang_journey.Prelude.Tests.{ltb, leb}

abbrev pub modulus : ℕ
modulus = 18446744073709551616

abbrev pub half : ℕ
half = 9223372036854775808

abbrev pub add_int : ℕ → ℕ → ℕ
add_int a b = (a + b) % modulus

abbrev pub sub_int : ℕ → ℕ → ℕ
sub_int a b = (a + modulus - b) % modulus

-- The signed order on patterns.
abbrev pub lt_int : ℕ → ℕ → Bool
lt_int a b = ltb ((a + half) % modulus) ((b + half) % modulus)

abbrev pub le_int : ℕ → ℕ → Bool
le_int a b = leb ((a + half) % modulus) ((b + half) % modulus)

-- On the non-negative integers the signed order is that of the numbers.
pub lt_int_iff : (a b : ℕ) → a < half → b < half → (lt_int a b ≡ true) ↔ (a < b)
lt_int_iff a b ha hb = ground arith

pub le_int_iff : (a b : ℕ) → a < half → b < half → (le_int a b ≡ true) ↔ (a ≤ b)
le_int_iff a b ha hb = ground arith
