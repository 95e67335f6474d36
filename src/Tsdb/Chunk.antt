-- ===== src/Tsdb/Chunk.antt =====
-- projects/06-timeseries-db/tsdb/head/chunk.go. A timestamp and the bits of a float64 are 64-bit
-- patterns. The two encoders that the source leaves to be written panic; a call that panics has
-- changed the chunk all the same, so the result keeps it.
pub mod Bits
pub mod Buffer
pub mod First
mod Tests
use Prim.Native.Nat.{bit_or, bit_xor}
use golang_journey.Prelude.{
  ◌≡◌, ◌⊎◌, inl, inr, refl, ℕ, zero, suc, ◌+◌, ◌-◌, ◌*◌, ◌/◌, ◌%◌, ◌^◌, Bool, true, false, List, [],
  ◌∷◌, ◌++◌, Option, none, some, ◌==◌, leb, get_elem?, set, if◌then◌else◌,
}
use golang_journey.Prelude.Int64.{sub_int, add_int}

pub record Chunk : Type 0 where
  pub buf : List ℕ
  pub bit_pos : ℕ
  pub num_samples : ℕ
  pub t_last : ℕ
  pub t_delta_last : ℕ
  pub v_last : ℕ

-- How a call ends, with the state that it leaves.
pub data Done (S : Type 0) : Type 0 where
  returned panicked : S → Done S

pub Done-cases :
    {S : Type 0} (d : Done S) → ((s : S) × (d ≡ returned s)) ⊎ ((s : S) × (d ≡ panicked s))
Done-cases (returned s) = inl (s, refl)
Done-cases (panicked s) = inr (s, refl)

unfoldable pub and_then : {S : Type 0} → Done S → (S → Done S) → Done S
and_then (returned s) rest = rest s
and_then (panicked s) rest = panicked s

pub new_chunk : Chunk
new_chunk = record {
  buf = [];
  bit_pos = 0;
  num_samples = 0;
  t_last = 0;
  t_delta_last = 0;
  v_last = 0;
}

-- `buf[i] |= 1 << off`, out of range a panic.
pub set_bit : List ℕ → ℕ → ℕ → Option (List ℕ)
set_bit buf i off = elim (get_elem? buf i) [
  | none ↦ none
  | some x ↦ some (set buf i (bit_or x (2 ^ off)))
]

pub write_bit : Chunk → ℕ → Done Chunk
write_bit c b =
    let buf : List ℕ = if c.bit_pos % 8 == 0 then c.buf ++ 0 ∷ [] else c.buf in
    let grown : Chunk = record c { buf = buf } in
    let after : Chunk = record grown { bit_pos = c.bit_pos + 1 } in
    if b == 0 then returned after else elim (set_bit buf (c.bit_pos / 8) (7 - c.bit_pos % 8)) [
      | none ↦ panicked grown
      | some buf' ↦ returned (record after { buf = buf' })
    ]

-- The loop of `writeBits` from the bit `n - 1` down.
pub write_bits : Chunk → ℕ → ℕ → Done Chunk
write_bits c v zero = returned c
write_bits c v (suc n) = and_then (write_bit c (v / 2 ^ n % 2)) (λ c'. write_bits c' v n)

pub append_first : Chunk → ℕ → ℕ → Done Chunk
append_first c ts v =
    and_then (write_bits c ts 64)
      (λ c₁. and_then (write_bits c₁ v 64) (λ c₂. returned (record c₂ { t_last = ts; v_last = v })))

pub append_value : Chunk → ℕ → Done Chunk
append_value c v =
    let c' : Chunk = record c { v_last = v } in
    if bit_xor c.v_last v == 0
    then write_bit c' 0
    else and_then (write_bit c' 1) (λ c''. panicked c'')

pub append_second : Chunk → ℕ → ℕ → Done Chunk
append_second c ts v =
    let delta = sub_int ts c.t_last in
    and_then (write_bits c delta 14) (λ c₁.
      and_then (append_value c₁ v)
        (λ c₂. returned (record c₂ { t_delta_last = delta; t_last = ts })))

-- The first thing that `appendDelta` calls, `encodeTimestampDoD`, panics.
pub append_delta : Chunk → ℕ → ℕ → Done Chunk
append_delta c ts v = panicked c

pub append : Chunk → ℕ → ℕ → Done Chunk
append c ts v =
    let first = append_first c ts v in
    let second = append_second c ts v in
    let later = append_delta c ts v in
    and_then (if c.num_samples == 0 then first else if c.num_samples == 1 then second else later)
      (λ c'. returned (record c' { num_samples = add_int c'.num_samples 1 }))

pub record Iterator : Type 0 where
  pub chunk : Chunk
  pub idx : ℕ
  pub cur_ts : ℕ
  pub cur_val : ℕ
  pub failed : Bool

pub new_iterator : Chunk → Iterator
new_iterator c = record { chunk = c; idx = 0; cur_ts = 0; cur_val = 0; failed = false }

-- `Next`: past the end, or not yet implemented, which sets `Err`.
unfoldable pub next_sample : Iterator → Iterator × Bool
next_sample it =
    if leb it.chunk.num_samples it.idx then (it, false) else (record it { failed = true }, false)
