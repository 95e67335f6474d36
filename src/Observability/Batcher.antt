-- ===== src/Observability/Batcher.antt =====
-- `BatchProcessor` of projects/08-observability-pipeline/processor/processor.go. `Process` holds
-- the mutex, so it is one step. The maximal size is not negative; the interval, the ticker and the
-- channel are never used and are left out.
pub mod Batches
use golang_journey.Prelude.{
  ℕ, Bool, true, false, List, [], ◌∷◌, Option, none, some, leb, if◌then◌else◌,
}
use golang_journey.Prelude.Text.{Text}
use golang_journey.Observability.Signal.{Batch, len, empty_batch, joined}

pub record Batcher (V F : Type 0) : Type 0 where
  pub max_size : ℕ
  pub pending : Batch V F

-- `if b.pending.Kind == "" { b.pending.Kind = batch.Kind }`
unfoldable pub first_kind : Text → Text → Text
first_kind [] kind = kind
first_kind (c ∷ pending) kind = c ∷ pending

module _ {V F : Type 0} where
  pub new_batch : ℕ → Batcher V F
  new_batch max_size = record { max_size = max_size; pending = empty_batch [] }

  -- `none` is the nil batch.
  unfoldable pub process : Batcher V F → Batch V F → Batcher V F × Option (Batch V F)
  process b batch =
      let out = joined (first_kind b.pending.kind batch.kind) b.pending batch in
      if leb b.max_size (len out)
      then (record b { pending = empty_batch batch.kind }, some out)
      else (record b { pending = out }, none)
