-- ===== src/Tsdb/Chunk/First.antt =====
-- The first sample of a chunk.
use golang_journey.Prelude.{
  ℕ, ◌+◌, ◌*◌, ◌/◌, ◌^◌, ◌<◌, ◌≡◌, refl, ap, subst, ◌∙◌, [], length, arith,
}
use golang_journey.Prelude.Int64.{modulus}
use golang_journey.Tsdb.Chunk.{Chunk, returned, new_chunk, and_then, append_first, append}
use golang_journey.Tsdb.Chunk.Buffer.{value_from, Holds, write_bits-Wrote}

empty-Holds : Holds [] 0 0
empty-Holds = record { rest = 0; below = omega arith; size = refl; are_bytes = tt; number = refl }

-- A chunk of sixteen bytes, those of the timestamp and those of the value.
pub record HasFirst (ts v : ℕ) (c : Chunk) : Type 0 where
  pub sixteen : length c.buf ≡ 16
  pub bytes : value_from 0 c.buf ≡ ts * modulus + v
  pub position : c.bit_pos ≡ 128
  pub counted : c.num_samples ≡ 1
  pub time : c.t_last ≡ ts
  pub value : c.v_last ≡ v

-- The first Append on a new chunk returns for any timestamp and any bits of a float64, and leaves
-- sixteen bytes that are, read as a big-endian number, the timestamp followed by the value, the
-- write position behind them, one sample, and both as the last ones.
pub append-HasFirst :
    (ts v : ℕ)
    → ts < modulus
    → v < modulus
    → (c : Chunk) × (append new_chunk ts v ≡ returned c) × HasFirst ts v c
unfolding append append_first new_chunk and_then empty-Holds
append-HasFirst ts v small_ts small_v =
    let start : Holds [] 0 (0 + ts / 2 ^ 64) =
      subst (Holds [] 0) (omega (arith, small_ts)) empty-Holds in
    let first = write_bits-Wrote new_chunk 0 ts 64 start in
    let c₁ : Chunk = record new_chunk { buf = first.buf; bit_pos = 64 } in
    let behind : Holds first.buf 64 (ts + v / 2 ^ 64) =
      subst (Holds first.buf 64) (omega (arith, small_v)) first.holds in
    let second = write_bits-Wrote c₁ ts v 64 behind in
    let h = second.holds in
    let whole : h.rest ≡ 0 = omega (arith, h.size, h.below) in
    (
      record new_chunk {
        buf = second.buf;
        bit_pos = 128;
        num_samples = 1;
        t_last = ts;
        v_last = v;
      },
      rw (first.ends, and_then, second.ends) refl,
      record {
        sixteen = omega (arith, h.size, h.below);
        bytes = h.number ∙ ap (λ r. (ts * 2 ^ 64 + v) * 2 ^ r) whole ∙ omega arith;
        position = refl;
        counted = refl;
        time = refl;
        value = refl;
      },
    )
