-- ===== src/Observability/Flow/Exports.antt =====
-- What the exporters have received after a run of the pipeline.
use golang_journey.Prelude.{
  ℕ, ◌≡◌, inl, inr, List, [], ◌∷◌, ◌++◌, Option, All, All-map, Option-cases, ap,
}
use golang_journey.Observability.Signal.{Span, Batch, traces}
use golang_journey.Observability.Flow.{Processor, process, process_all, export_all, process_batch}
use golang_journey.Observability.Flow.Spans.{held_by, IsReady, process_all-PassesAll}
use golang_journey.Observability.Sampler.Calls.{released, sent}
use golang_journey.Observability.Sampler.Traces.{of_trace, of_trace-append}
use mathlib.Core.List.{append_assoc, append-nil}

module _ {V F : Type 0} where
  -- An exporter that keeps the spans that it is given, and returns any error that it likes.
  abbrev pub keep :
      {E : Type 0} → (Batch V F → Option E) → List (Span V) → Batch V F → List (Span V) × Option E
  keep fails log b = (log ++ b.spans, fails b)

  export_all-All :
      {E : Type 0} (fails : Batch V F → Option E) (P Q : List (Span V) → Type 0)
      (logs : List (List (Span V))) (c : Batch V F)
      → ((log : List (Span V)) → P log → Q (log ++ c.spans))
      → All P logs
      → All Q (export_all (keep fails) logs c)
  unfolding export_all
  export_all-All fails P Q [] c f a = tt
  export_all-All fails P Q (log ∷ logs) c f a = (f log a.0, export_all-All fails P Q logs c f a.1)

module _ {V F R E : Type 0} (fails : Batch V F → Option E) where
  -- The batches, each with the clock of every call of `Process`, one after the other.
  unfoldable pub run :
      List (Processor V F R) × List (List (Span V))
      → List ((ℕ → ℕ → ℕ) × Batch V F)
      → List (Processor V F R) × List (List (Span V))
  run p [] = p
  run p ((clocks, batch) ∷ calls) =
      run (process_batch (process {E = E}) (keep fails) p clocks batch) calls

  module _ (t : List ℕ) where
    -- Every exporter has the spans of the trace that the processors do not hold.
    abbrev Accounts : List (Span V) → List (Processor V F R) × List (List (Span V)) → Type 0
    Accounts spans p = All (λ log. of_trace t log ++ held_by t p.0 ≡ spans) p.1

    process_batch-Accounts :
        (clocks : ℕ → ℕ → ℕ) (p : List (Processor V F R) × List (List (Span V))) (batch : Batch V F)
        (spans : List (Span V))
        → All IsReady p.0
        → batch.kind ≡ traces
        → Accounts spans p
        → All IsReady (process_batch (process {E = E}) (keep fails) p clocks batch).0
          × Accounts
              (spans ++ of_trace t batch.spans)
              (process_batch (process {E = E}) (keep fails) p clocks batch)
    unfolding process_batch
    process_batch-Accounts clocks p batch spans r e a =
        let next = process_all (process {E = E}) p.0 clocks batch in
        let pass = process_all-PassesAll E p.0 clocks batch r e in
        let conserved = pass.conserved t in
        elim (Option-cases next.1) [
          | inl none_out ↦
              rw (process_batch, none_out)
                (
                  pass.ready,
                  All-map p.1
                      (λ log h. cc (
                        conserved,
                        ap released none_out,
                        h,
                        append_assoc (of_trace t log) (held_by t p.0) (of_trace t batch.spans),
                      ))
                      a,
                )
          | inr (c, some_out) ↦
              rw (process_batch, some_out)
                (
                  pass.ready,
                  export_all-All fails (λ log. of_trace t log ++ held_by t p.0 ≡ spans)
                      (λ log. of_trace t log ++ held_by t next.0 ≡ spans ++ of_trace t batch.spans)
                      p.1 c
                      (λ log h. cc (
                        conserved,
                        ap released some_out,
                        h,
                        of_trace-append t log c.spans,
                        append_assoc (of_trace t log) (of_trace t c.spans) (held_by t next.0),
                        append_assoc (of_trace t log) (held_by t p.0) (of_trace t batch.spans),
                      ))
                      a,
                )
        ]

    run-Accounts :
        (p : List (Processor V F R) × List (List (Span V))) (calls : List ((ℕ → ℕ → ℕ) × Batch V F))
        (spans : List (Span V))
        → All IsReady p.0
        → All (λ c. c.1.kind ≡ traces) calls
        → Accounts spans p
        → Accounts (spans ++ of_trace t (sent calls)) (run p calls)
    unfolding run
    run-Accounts p [] spans r e a = All-map p.1 (λ log h. cc (h, append-nil spans)) a
    run-Accounts p ((clocks, batch) ∷ calls) spans r e a =
        let next = process_batch (process {E = E}) (keep fails) p clocks batch in
        let step = process_batch-Accounts clocks p batch spans r e.0 a in
        All-map (run next calls).1
          (λ log h. cc (
            h,
            of_trace-append t batch.spans (sent calls),
            append_assoc spans (of_trace t batch.spans) (of_trace t (sent calls)),
          ))
          (run-Accounts next calls (spans ++ of_trace t batch.spans) step.0 e.1 step.1)

  -- In any run of batches of traces through tail samplers and batch processors, in any number
  -- and order, each sampler with its buffer in order and each batch processor with nothing but
  -- traces waiting, what every exporter that keeps its spans and had none has received of a
  -- trace, followed by what the processors still hold, is what they held before followed by
  -- what was sent, in order.
  pub run-exports :
      (ps : List (Processor V F R)) (exporters : List (List (Span V)))
      (calls : List ((ℕ → ℕ → ℕ) × Batch V F)) (t : List ℕ)
      → All IsReady ps
      → All (λ log. log ≡ []) exporters
      → All (λ c. c.1.kind ≡ traces) calls
      → All
          (λ log.
            of_trace t log ++ held_by t (run (ps, exporters) calls).0
            ≡ held_by t ps ++ of_trace t (sent calls))
          (run (ps, exporters) calls).1
  run-exports ps exporters calls t r fresh e =
      run-Accounts t (ps, exporters) calls (held_by t ps) r e
        (All-map exporters (λ log h. cc (h)) fresh)
