-- ===== src/Tsdb/Chunk/Buffer.antt =====
-- The buffer as one number: its first `bit_pos` bits are what was written, the rest are zeros.
use Prim.Native.Nat.{bit_or}
use native.Mathlib.Omega.{pow_step}
use native.Mathlib.Nat.{pow-suc, div-div-eq-div-mul, mul_comm, mul_assoc}
use golang_journey.Prelude.{
  ℕ, zero, suc, ◌+◌, ◌-◌, ◌*◌, ◌/◌, ◌%◌, ◌^◌, ◌<◌, ◌≡◌, true, false, refl, sym, ap, subst, ◌∙◌,
  List, [], ◌∷◌, ◌++◌, some, arith, ◌==◌, ==_iff, get_elem?, set, length, length-append, All,
  if◌then◌else◌, ℕ_discrete,
}
use golang_journey.Tsdb.Chunk.{Chunk, Done, returned, and_then, set_bit, write_bit, write_bits}
use golang_journey.Tsdb.Chunk.Bits.{or_lem, Room, byte-Room}

-- The bytes as one number, the first the most significant.
abbrev pub value_from : ℕ → List ℕ → ℕ
value_from n [] = n
value_from n (x ∷ xs) = value_from (n * 256 + x) xs

value_from-append :
    (n : ℕ) (xs : List ℕ) (x : ℕ) → value_from n (xs ++ x ∷ []) ≡ value_from n xs * 256 + x
value_from-append n [] x = refl
value_from-append n (y ∷ xs) x = value_from-append (n * 256 + y) xs x

-- The first `pos` bits of a buffer are the number `n`, and the rest of its last byte is zero.
pub record Holds (buf : List ℕ) (pos n : ℕ) : Type 0 where
  pub rest : ℕ
  pub below : rest < 8
  pub size : 8 * length buf ≡ pos + rest
  pub are_bytes : All (λ x. x < 256) buf
  pub number : value_from 0 buf ≡ n * 2 ^ rest

get_elem?-last : (xs : List ℕ) (x : ℕ) → get_elem? (xs ++ x ∷ []) (length xs) ≡ some x
get_elem?-last [] x = refl
get_elem?-last (y ∷ xs) x = get_elem?-last xs x

set-last : (xs : List ℕ) (x y : ℕ) → set (xs ++ x ∷ []) (length xs) y ≡ xs ++ y ∷ []
set-last [] x y = refl
set-last (z ∷ xs) x y = ap (◌∷◌ z) (set-last xs x y)

All-last :
    (xs : List ℕ) (x y : ℕ)
    → All (λ n. n < 256) (xs ++ x ∷ [])
    → y < 256
    → (x < 256) × All (λ n. n < 256) (xs ++ y ∷ [])
All-last [] x y (h, _) s = (h, (s, tt))
All-last (z ∷ xs) x y (h, a) s = let (p, q) = All-last xs x y a s in (p, (h, q))

unsnoc : (xs : List ℕ) → 0 < length xs → (ys : List ℕ) × (y : ℕ) × (xs ≡ ys ++ y ∷ [])
unsnoc [] h = absurd (omega arith)
unsnoc (x ∷ []) h = ([], x, refl)
unsnoc (x ∷ y ∷ xs) h = let (ys, z, e) = unsnoc (y ∷ xs) (omega arith) in (x ∷ ys, z, ap (◌∷◌ x) e)

set_bit_at :
    (buf : List ℕ) (i off : ℕ) {x : ℕ}
    → get_elem? buf i ≡ some x
    → set_bit buf i off ≡ some (set buf i (bit_or x (2 ^ off)))
unfolding set_bit
set_bit_at buf i off e = rw (set_bit, e) refl

-- A buffer whose last byte has `r + 1` free bits takes one more.
module _ (xs : List ℕ) (x pos n r : ℕ) (h : r < 8)
    (size : 8 * length (xs ++ x ∷ []) ≡ pos + (r + 1))
    (are_bytes : All (λ n. n < 256) (xs ++ x ∷ []))
    (number : value_from 0 (xs ++ x ∷ []) ≡ n * (2 * 2 ^ r)) where
  room : Room (value_from 0 xs) n r x
  room =
      byte-Room r (value_from 0 xs) n x h (All-last xs x 0 are_bytes (omega arith)).0
        (sym (value_from-append 0 xs x) ∙ number)

  place : (pos / 8 ≡ length xs) × (7 - pos % 8 ≡ r)
  place =
      let l = length-append xs (x ∷ []) in (omega (arith, size, h, l), omega (arith, size, h, l))

  set_bit_lem : set_bit (xs ++ x ∷ []) (pos / 8) (7 - pos % 8) ≡ some (xs ++ (x + 2 ^ r) ∷ [])
  set_bit_lem =
      let small = (All-last xs x 0 are_bytes (omega arith)).0 in
      rw (place.0, place.1)
        (set_bit_at (xs ++ x ∷ []) (length xs) r (get_elem?-last xs x)
          ∙ ap some (
              ap (set (xs ++ x ∷ []) (length xs)) (or_lem r x h small room.low)
              ∙ set-last xs x (x + 2 ^ r)))

  zero-Holds : Holds (xs ++ x ∷ []) (pos + 1) (2 * n)
  zero-Holds = record {
    rest = r;
    below = h;
    size = omega (arith, size);
    are_bytes = are_bytes;
    number = value_from-append 0 xs x ∙ room.unset;
  }

  one-Holds : Holds (xs ++ (x + 2 ^ r) ∷ []) (pos + 1) (2 * n + 1)
  one-Holds = record {
    rest = r;
    below = h;
    size = omega (arith, size, length-append xs (x ∷ []), length-append xs ((x + 2 ^ r) ∷ []));
    are_bytes = (All-last xs x (x + 2 ^ r) are_bytes room.small).1;
    number = value_from-append 0 xs (x + 2 ^ r) ∙ room.set;
  }

-- What a call leaves: the buffer and the position, and nothing else changes.
pub record Wrote (c : Chunk) (result : Done Chunk) (pos n : ℕ) : Type 0 where
  pub buf : List ℕ
  pub ends : result ≡ returned (record c { buf = buf; bit_pos = pos })
  pub holds : Holds buf pos n

grown : Chunk → List ℕ
grown c = if c.bit_pos % 8 == 0 then c.buf ++ 0 ∷ [] else c.buf

-- The buffer with room for a bit, by its last byte.
record Grown (c : Chunk) (n : ℕ) : Type 0 where
  init : List ℕ
  last : ℕ
  free : ℕ
  below : free < 8
  is_grown : grown c ≡ init ++ last ∷ []
  size : 8 * length (init ++ last ∷ []) ≡ c.bit_pos + (free + 1)
  are_bytes : All (λ x. x < 256) (init ++ last ∷ [])
  number : value_from 0 (init ++ last ∷ []) ≡ n * (2 * 2 ^ free)

All-append_zero : (xs : List ℕ) → All (λ x. x < 256) xs → All (λ x. x < 256) (xs ++ 0 ∷ [])
All-append_zero [] h = (omega arith, tt)
All-append_zero (x ∷ xs) (p, h) = (p, All-append_zero xs h)

grow : (c : Chunk) (n : ℕ) → Holds c.buf c.bit_pos n → Grown c n
unfolding grown
grow c n h =
    elim h.rest
        as (λ r.
          r < 8 → 8 * length c.buf ≡ c.bit_pos + r → value_from 0 c.buf ≡ n * 2 ^ r → Grown c n) [
            | zero ↦ λ s z e.
                let full : (c.bit_pos % 8 == 0) ≡ true = (==_iff _ 0).1 (omega (arith, z)) in
                record {
                  init = c.buf;
                  last = 0;
                  free = 7;
                  below = omega arith;
                  is_grown = rw (grown, full) refl;
                  size = omega (arith, z, length-append c.buf (0 ∷ []));
                  are_bytes = All-append_zero c.buf h.are_bytes;
                  number = value_from-append 0 c.buf 0 ∙ omega (arith, e);
                }
            | suc r ↦ λ s z e.
                let (xs, x, same) = unsnoc c.buf (omega (arith, z)) in
                record {
                  init = xs;
                  last = x;
                  free = r;
                  below = omega (arith, s);
                  is_grown = ground (arith, z, s, same);
                  size = subst (λ b. 8 * length b ≡ c.bit_pos + (r + 1)) same (omega (arith, z));
                  are_bytes = subst (All (λ x. x < 256)) same h.are_bytes;
                  number =
                      subst (λ b. value_from 0 b ≡ n * (2 * 2 ^ r)) same
                        (e ∙ ap (◌*◌ n) (pow_step 2 r));
                }
          ]
      h.below h.size h.number

pub write_bit-Wrote :
    (c : Chunk) (n b : ℕ)
    → Holds c.buf c.bit_pos n
    → b < 2
    → Wrote c (write_bit c b) (c.bit_pos + 1) (2 * n + b)
unfolding write_bit grown
write_bit-Wrote c n b h small =
    let g = grow c n h in
    elim (ℕ_discrete b 0) [
      | yes e ↦
          let zero_bit : (b == 0) ≡ true = (==_iff b 0).1 e in
          record {
            buf = g.init ++ g.last ∷ [];
            ends = rw (write_bit, zero_bit, g.is_grown) refl;
            holds =
                subst (Holds (g.init ++ g.last ∷ []) (c.bit_pos + 1)) (omega (arith, e))
                  (zero-Holds g.init g.last c.bit_pos n g.free g.below g.size g.are_bytes g.number);
          }
      | no ne ↦
          let one_bit : (b == 0) ≡ false = ground (arith, ne) in
          let one : b ≡ 1 = omega (arith, small) in
          record {
            buf = g.init ++ (g.last + 2 ^ g.free) ∷ [];
            ends =
                rw
                  (
                    write_bit,
                    one_bit,
                    g.is_grown,
                    set_bit_lem g.init g.last c.bit_pos n g.free g.below g.size g.are_bytes
                        g.number,
                  )
                  refl;
            holds =
                rw one
                  (one-Holds g.init g.last c.bit_pos n g.free g.below g.size g.are_bytes g.number);
          }
    ]

div_half : (v k : ℕ) → v / 2 ^ suc k ≡ v / 2 ^ k / 2
div_half v k = ap (◌/◌ v) (pow-suc 2 k) ∙ sym (div-div-eq-div-mul v (2 ^ k) 2)

write_bits-step :
    (c c' : Chunk) (v k : ℕ)
    → write_bit c (v / 2 ^ k % 2) ≡ returned c'
    → write_bits c v (suc k) ≡ write_bits c' v k
unfolding write_bits and_then
write_bits-step c c' v k e = rw (write_bits, e) refl

-- Written behind the bits of `base` and of the digits of `v` above the k-th, the k digits below
-- complete the number.
pub write_bits-Wrote :
    (c : Chunk) (base v k : ℕ)
    → Holds c.buf c.bit_pos (base + v / 2 ^ k)
    → Wrote c (write_bits c v k) (c.bit_pos + k) (base * 2 ^ k + v)
unfolding write_bits
write_bits-Wrote c base v zero h =
    let same : c.bit_pos ≡ c.bit_pos + 0 = omega arith in
    record {
      buf = c.buf;
      ends = ap (λ n. returned (record c { bit_pos = n })) same;
      holds =
          subst (λ n. Holds c.buf n (base * 1 + v)) same
            (subst (Holds c.buf c.bit_pos) (omega arith) h);
    }
write_bits-Wrote c base v (suc k) h =
    let bit = v / 2 ^ k % 2 in
    let first = write_bit-Wrote c (base + v / 2 ^ suc k) bit h (omega arith) in
    let value : 2 * (base + v / 2 ^ suc k) + bit ≡ 2 * base + v / 2 ^ k =
      omega (arith, div_half v k) in
    let c' : Chunk = record c { buf = first.buf; bit_pos = c.bit_pos + 1 } in
    let later =
      write_bits-Wrote c' (2 * base) v k
        (subst (Holds first.buf (c.bit_pos + 1)) value first.holds) in
    let place : c.bit_pos + 1 + k ≡ c.bit_pos + suc k = omega arith in
    let number : 2 * base * 2 ^ k + v ≡ base * 2 ^ suc k + v =
      ap (λ n. n + v)
        (ap (λ n. n * 2 ^ k) (mul_comm 2 base)
          ∙ mul_assoc base 2 (2 ^ k)
          ∙ ap (◌*◌ base) (sym (pow_step 2 k))) in
    record {
      buf = later.buf;
      ends =
          write_bits-step c c' v k first.ends
          ∙ later.ends
          ∙ ap (λ n. returned (record c { buf = later.buf; bit_pos = n })) place;
      holds =
          subst (λ n. Holds later.buf n (base * 2 ^ suc k + v)) place
            (subst (Holds later.buf _) number later.holds);
    }
