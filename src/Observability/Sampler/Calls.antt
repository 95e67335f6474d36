-- ===== src/Observability/Sampler/Calls.antt =====
-- Runs of calls of the tail sampler.
use golang_journey.Prelude.{
  ℕ, ◌+◌, ◌<◌, ◌≡◌, refl, sym, List, [], ◌∷◌, ◌++◌, Option, none, some, All, length, if_pos,
}
use golang_journey.Prelude.Text.{Text-discrete}
use golang_journey.Observability.Signal.{Span, Batch, traces}
use golang_journey.Observability.Sampler.{
  TraceBuffer, TailSampler, buffer_spans, flush_traces, sampled_batch, process,
}
use golang_journey.Observability.Sampler.Traces.{
  of_trace, held, IsKeyed, of_trace-append, held-buffer_spans, buffer_spans-IsKeyed,
}
use golang_journey.Observability.Sampler.Flush.{
  flush_traces-IsKeyed, flush_traces-young, flush_traces-held,
}
use mathlib.Core.List.{append_assoc, append-nil}

-- The spans of what `Process` returns.
abbrev pub released : {V F : Type 0} → Option (Batch V F) → List (Span V)
released none = []
released (some b) = b.spans

-- A batch of traces, if there is one.
abbrev pub OfTraces : {V F : Type 0} → Option (Batch V F) → Type 0
OfTraces none = Unit
OfTraces (some b) = b.kind ≡ traces

-- The spans of the batches of a run.
abbrev pub sent : {C V F : Type 0} → List (C × Batch V F) → List (Span V)
sent [] = []
sent ((clock, batch) ∷ calls) = batch.spans ++ sent calls

released-sampled_batch :
    {V : Type 0} (F : Type 0) (ss : List (Span V)) → released (sampled_batch {F = F} ss) ≡ ss
unfolding sampled_batch
released-sampled_batch F [] = refl
released-sampled_batch F (s ∷ ss) = refl

sampled_batch-OfTraces :
    {V : Type 0} (F : Type 0) (ss : List (Span V)) → OfTraces (sampled_batch {F = F} ss)
unfolding sampled_batch
sampled_batch-OfTraces F [] = tt
sampled_batch-OfTraces F (s ∷ ss) = refl

module _ {V F R : Type 0} where
  -- The sampler after calls with their clocks, and the spans that they have returned.
  unfoldable pub run :
      TailSampler V R → List ((ℕ → ℕ) × Batch V F) → TailSampler V R × List (Span V)
  run ts [] = (ts, [])
  run ts ((clock, batch) ∷ calls) =
      let next = process clock ts batch in
      let rest = run next.0 calls in (rest.0, released next.1 ++ rest.1)

  module _ (clock : ℕ → ℕ) (ts : TailSampler V R) (batch : Batch V F)
      (e : batch.kind ≡ traces) where
    abbrev now : ℕ
    now = clock (length batch.spans)

    abbrev buffered : List (List ℕ × TraceBuffer V)
    buffered = buffer_spans clock 0 batch.spans ts.buf

    process_traces : process clock ts batch ≡ (
      record ts { buf = (flush_traces ts.cfg now buffered).1 },
      sampled_batch (flush_traces ts.cfg now buffered).0,
    )
    unfolding process
    process_traces = if_pos (Text-discrete batch.kind traces) e _ _

    pub process-IsKeyed : IsKeyed ts.buf → IsKeyed (process clock ts batch).0.buf
    process-IsKeyed k = rw (process_traces) (
        flush_traces-IsKeyed ts.cfg now buffered
          (buffer_spans-IsKeyed clock 0 batch.spans ts.buf k))

    -- After a call of the tail sampler on a batch of traces, every trace that is still held
    -- arrived less than the decision wait before the end of the call; the configuration
    -- stays.
    pub process-young :
        (process clock ts batch).0.cfg ≡ ts.cfg
        × All
            (λ e. clock (length batch.spans) < e.1.arrived_at + ts.cfg.decision_wait)
            (process clock ts batch).0.buf
    process-young = rw (process_traces) (refl, flush_traces-young ts.cfg now buffered)

    pub process-OfTraces : OfTraces (process clock ts batch).1
    process-OfTraces =
        rw (process_traces) (sampled_batch-OfTraces F (flush_traces ts.cfg now buffered).0)

    pub process-held :
        (t : List ℕ)
        → IsKeyed ts.buf
        → of_trace t (released (process clock ts batch).1) ++ held t (process clock ts batch).0.buf
          ≡ held t ts.buf ++ of_trace t batch.spans
    process-held t k =
        rw
          (
            process_traces,
            released-sampled_batch F (flush_traces ts.cfg now buffered).0,
            flush_traces-held ts.cfg t now buffered
                (buffer_spans-IsKeyed clock 0 batch.spans ts.buf k),
          )
          (held-buffer_spans t clock 0 batch.spans ts.buf)

  -- In any run of a tail sampler on batches of traces, from a buffer where each trace has one
  -- entry with its own spans alone, the spans of a trace that were returned, followed by those
  -- held, are those held before followed by those sent, in order.
  pub run-trace :
      (ts : TailSampler V R) (calls : List ((ℕ → ℕ) × Batch V F)) (t : List ℕ)
      → IsKeyed ts.buf
      → All (λ c. c.1.kind ≡ traces) calls
      → of_trace t (run ts calls).1 ++ held t (run ts calls).0.buf
        ≡ held t ts.buf ++ of_trace t (sent calls)
  unfolding run
  run-trace ts [] t k a = sym (append-nil (held t ts.buf))
  run-trace ts ((clock, batch) ∷ calls) t k a =
      let next = process clock ts batch in
      let out = released next.1 in
      let rest = run next.0 calls in
      cc (
        of_trace-append t out rest.1,
        append_assoc (of_trace t out) (of_trace t rest.1) (held t rest.0.buf),
        run-trace next.0 calls t (process-IsKeyed clock ts batch a.0 k) a.1,
        append_assoc (of_trace t out) (held t next.0.buf) (of_trace t (sent calls)),
        process-held clock ts batch a.0 t k,
        append_assoc (held t ts.buf) (of_trace t batch.spans) (of_trace t (sent calls)),
        of_trace-append t batch.spans (sent calls),
      )
