-- ===== src/Observability/Sampler.antt =====
-- `TailSampler` of projects/08-observability-pipeline/processor/processor.go. `Process` holds the
-- mutex, so it is one step. `clock` gives the readings of the monotonic clock during one call, one
-- for each span at most and a last one; the waiting time is not negative. `R` is the type of the
-- sampling rate, `float64`, which no code reads.
pub mod Traces
pub mod Flush
pub mod Calls
use golang_journey.Prelude.{
  ℕ, ◌+◌, Bool, true, false, ◌&&◌, ◌||◌, List, [], ◌∷◌, ◌++◌, Option, none, some, ite, ltb, length,
  if◌then◌else◌,
}
use golang_journey.Prelude.Int64.{le_int}
use golang_journey.Prelude.Map.{lookup, insert}
use golang_journey.Prelude.Text.{Text, Text-discrete}
use golang_journey.Observability.Signal.{Span, Batch, traces}

pub record TailSamplerConfig (R : Type 0) : Type 0 where
  pub decision_wait : ℕ
  pub num_traces : ℕ
  pub sampling_rate : R
  pub always_sample_errors : Bool

-- `DefaultTailSamplerConfig`, at the rate 0.10.
pub default_tail_sampler_config : {R : Type 0} → R → TailSamplerConfig R
default_tail_sampler_config rate = record {
  decision_wait = 5000000000;
  num_traces = 50000;
  sampling_rate = rate;
  always_sample_errors = true;
}

pub record TraceBuffer (V : Type 0) : Type 0 where
  pub spans : List (Span V)
  pub arrived_at : ℕ
  pub has_error : Bool

pub record TailSampler (V R : Type 0) : Type 0 where
  pub cfg : TailSamplerConfig R
  pub buf : List (List ℕ × TraceBuffer V)

pub new_tail_sampler : {V R : Type 0} → TailSamplerConfig R → TailSampler V R
new_tail_sampler cfg = record { cfg = cfg; buf = [] }

module _ {V : Type 0} where
  -- `ts.buf[span.TraceID]`, or a new buffer.
  pub find_or_start : List (List ℕ × TraceBuffer V) → List ℕ → ℕ → TraceBuffer V
  find_or_start buf id now = elim (lookup Text-discrete id buf) [
    | some tb ↦ tb
    | none ↦ record { spans = []; arrived_at = now; has_error = false }
  ]

  -- The buffer with one more span.
  pub grown : TraceBuffer V → Span V → TraceBuffer V
  grown tb span = record {
    spans = tb.spans ++ span ∷ [];
    arrived_at = tb.arrived_at;
    has_error = tb.has_error || le_int 2 span.status_code;
  }

  -- The body of the loop over the batch's spans.
  pub add_span : List (List ℕ × TraceBuffer V) → Span V → ℕ → List (List ℕ × TraceBuffer V)
  add_span buf span now =
      insert Text-discrete span.trace_id (grown (find_or_start buf span.trace_id now) span) buf

  -- That loop, from the `i`-th span on.
  pub buffer_spans :
      (ℕ → ℕ) → ℕ → List (Span V) → List (List ℕ × TraceBuffer V) → List (List ℕ × TraceBuffer V)
  buffer_spans clock i [] buf = buf
  buffer_spans clock i (s ∷ ss) buf = buffer_spans clock (i + 1) ss (add_span buf s (clock i))

  pub should_sample : {R : Type 0} → TailSamplerConfig R → TraceBuffer V → Bool
  should_sample cfg tb = if cfg.always_sample_errors && tb.has_error then true else true

  -- `now.Sub(tb.arrivedAt) < ts.cfg.DecisionWait`
  abbrev pub is_young : {R : Type 0} → TailSamplerConfig R → ℕ → TraceBuffer V → Bool
  is_young cfg now tb = ltb now (tb.arrived_at + cfg.decision_wait)

  -- The loop over the buffered traces: the sampled spans, and what stays in the map. A trace is
  -- deleted only in its own round.
  pub flush_traces :
      {R : Type 0}
      → TailSamplerConfig R
      → ℕ
      → List (List ℕ × TraceBuffer V)
      → List (Span V) × List (List ℕ × TraceBuffer V)
  flush_traces cfg now [] = ([], [])
  flush_traces cfg now ((id, tb) ∷ buf) =
      let rest = flush_traces cfg now buf in
      if is_young cfg now tb
      then (rest.0, (id, tb) ∷ rest.1)
      else ((if should_sample cfg tb then tb.spans ++ rest.0 else rest.0), rest.1)

-- The batch that `Process` returns for the sampled spans.
pub sampled_batch : {V F : Type 0} → List (Span V) → Option (Batch V F)
sampled_batch [] = none
sampled_batch (s ∷ ss) = some (record { kind = traces; spans = s ∷ ss; points = []; log_recs = [] })

-- A buffer with too many traces is left as it is.
pub process :
    {V F R : Type 0} → (ℕ → ℕ) → TailSampler V R → Batch V F → TailSampler V R × Option (Batch V F)
process clock ts batch =
    let buf = buffer_spans clock 0 batch.spans ts.buf in
    let flushed = flush_traces ts.cfg (clock (length batch.spans)) buf in
    ite (Text-discrete batch.kind traces) (record ts { buf = flushed.1 }, sampled_batch flushed.0)
      (ts, some batch)
