-- ===== src/Observability/Flow.antt =====
-- `Pipeline.processBatch` of projects/08-observability-pipeline/pipeline/pipeline.go, and the
-- pipeline that projects/08-observability-pipeline/cmd/cmd.go builds. The receivers, the channel
-- and the goroutine that reads it are left out: the batches come in the channel's order.
pub mod Spans
pub mod Exports
use golang_journey.Prelude.{
  ℕ, suc, Bool, true, false, ◌⊎◌, inl, inr, List, [], ◌∷◌, Option, none, some, if◌then◌else◌, ◌==◌,
}
use golang_journey.Prelude.Text.{Text}
use golang_journey.Observability.Signal.{Batch, len}
use golang_journey.Observability.Batcher.{Batcher, new_batch}
use golang_journey.Observability.Batcher
use golang_journey.Observability.Filter
use golang_journey.Observability.Sampler.{
  TailSampler, default_tail_sampler_config, new_tail_sampler,
}
use golang_journey.Observability.Sampler

-- Any processors and exporters: `step` and `export` are their methods `Process` and `Export`. What
-- `Process` returns is an error, or a batch, where `none` is the nil batch; `T` is what it reads of
-- the clock, for each of the processors on its own.
module _ {T P E V F : Type 0} (step : T → P → Batch V F → P × (E ⊎ Option (Batch V F))) where
  -- The first loop: the processors afterwards, and the batch for the exporters, if it gets there.
  pub process_all : List P → (ℕ → T) → Batch V F → List P × Option (Batch V F)
  process_all [] times b = ([], some b)
  process_all (p ∷ ps) times b =
      let rest = process_all ps (λ i. times (suc i)) in
      let next = step (times 0) p b in
      elim next.1 [
        | inl e ↦ (next.0 ∷ ps, none)
        | inr none ↦ (next.0 ∷ ps, none)
        | inr (some c) ↦
            if len c == 0 then (next.0 ∷ ps, none) else (next.0 ∷ (rest c).0, (rest c).1)
      ]

module _ {X E V F : Type 0} (export : X → Batch V F → X × Option E) where
  -- The second loop, in which an error is only logged.
  pub export_all : List X → Batch V F → List X
  export_all [] b = []
  export_all (x ∷ xs) b = (export x b).0 ∷ export_all xs b

module _ {T P X E V F : Type 0} (step : T → P → Batch V F → P × (E ⊎ Option (Batch V F)))
    (export : X → Batch V F → X × Option E) where
  pub process_batch : List P × List X → (ℕ → T) → Batch V F → List P × List X
  process_batch p times b =
      let next = process_all step p.0 times b in
      elim next.1 [ none ↦ (next.0, p.1) | some c ↦ (next.0, export_all export p.1 c) ]

-- The processors of the package processor.
pub data Processor (V F R : Type 0) : Type 0 where
  batcher : Batcher V F → Processor V F R
  sampler : TailSampler V R → Processor V F R
  filter : List Text → Processor V F R

-- Their `Process`, which never returns an error, at the readings of the clock.
pub process :
    {V F R E : Type 0}
    → (ℕ → ℕ)
    → Processor V F R
    → Batch V F
    → Processor V F R × (E ⊎ Option (Batch V F))
process clock (batcher b) batch = let next = Batcher.process b batch in (batcher next.0, inr next.1)
process clock (sampler ts) batch =
    let next = Sampler.process clock ts batch in (sampler next.0, inr next.1)
process clock (filter keys) batch = (filter keys, inr (some (Filter.process keys batch)))

-- The processors of the program's pipeline, at the sampling rate 0.10.
pub built : {V F R : Type 0} → R → List (Processor V F R)
built rate =
    sampler (new_tail_sampler (default_tail_sampler_config rate)) ∷ batcher (new_batch 500) ∷ []
