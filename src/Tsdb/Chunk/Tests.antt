-- ===== src/Tsdb/Chunk/Tests.antt =====
-- The chunk on concrete samples.
use golang_journey.Prelude.{◌≡◌, ◌<◌, refl, [], ◌∷◌, arith}
use golang_journey.Prelude.Int64.{modulus}
use golang_journey.Tsdb.Chunk.{
  Chunk, returned, panicked, and_then, new_chunk, set_bit, write_bit, write_bits, append_first,
  append_value, append_second, append_delta, append,
}
use golang_journey.Tsdb.Chunk.First.{HasFirst, append-HasFirst}

small : 1700000000000 < modulus
small = omega arith

append-HasFirst_example :
    (c : Chunk) × (append new_chunk 1700000000000 7 ≡ returned c) × HasFirst 1700000000000 7 c
append-HasFirst_example = append-HasFirst 1700000000000 7 small (omega arith)

-- A chunk with one sample, three bits in a byte for short.
abbrev one_sample : Chunk
one_sample = record {
  buf = 160 ∷ [];
  bit_pos = 3;
  num_samples = 1;
  t_last = 1000;
  t_delta_last = 0;
  v_last = 7;
}

-- The same value again takes fourteen bits for the difference of the times and a zero bit.
second_same :
    append one_sample 1005 7
    ≡ returned record {
      buf = 160 ∷ 2 ∷ 128 ∷ [];
      bit_pos = 18;
      num_samples = 2;
      t_last = 1005;
      t_delta_last = 5;
      v_last = 7;
    }
unfolding append append_second append_value append_delta append_first write_bits write_bit set_bit
    and_then
second_same = refl

-- Another value panics, with fifteen bits written that no sample counts.
second_other :
    append one_sample 1005 8
    ≡ panicked record {
      buf = 160 ∷ 2 ∷ 192 ∷ [];
      bit_pos = 18;
      num_samples = 1;
      t_last = 1000;
      t_delta_last = 0;
      v_last = 8;
    }
unfolding append append_second append_value append_delta append_first write_bits write_bit set_bit
    and_then
second_other = refl
