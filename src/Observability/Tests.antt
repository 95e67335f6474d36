-- ===== src/Observability/Tests.antt =====
-- A few batches of spans on their way through the processors, and the theorems at them.
use golang_journey.Prelude.{
  ℕ, ◌+◌, ◌*◌, ◌≤◌, ◌≡◌, inl, refl, List, [], ◌∷◌, ◌++◌, Option, none, All, Selects, arith, false,
}
use golang_journey.Prelude.Text.{Text, bytes}
use golang_journey.Observability.Signal.{
  internal, Span, Batch, len, empty_batch, joined, traces, logs,
}
use golang_journey.Observability.Batcher
use golang_journey.Observability.Batcher.{Batcher, new_batch}
use golang_journey.Observability.Batcher.Batches
use golang_journey.Observability.Filter
use golang_journey.Observability.Flow.{Processor, sampler, batcher}
use golang_journey.Observability.Flow.Exports
use golang_journey.Observability.Flow.Spans
use golang_journey.Observability.Sampler.{TailSampler}
use golang_journey.Observability.Sampler.Calls
use golang_journey.Observability.Sampler.Traces.{of_trace, held}

abbrev span : List ℕ → ℕ → Span ℕ
span id status = record {
  trace_id = id;
  span_id = 7 ∷ [];
  parent_id = [];
  name = bytes "GET";
  kind = internal;
  start_ns = 10;
  end_ns = 25;
  attributes = record { key = bytes "host"; value = 3 } ∷ [];
  status_code = status;
  status_msg = [];
  events = [];
}

abbrev bare : Span ℕ
bare = record (span (2 ∷ []) 0) { attributes = [] }

abbrev batch_of : Text → List (Span ℕ) → Batch ℕ ℕ
batch_of kind ss = record { kind = kind; spans = ss; points = []; log_recs = [] }

abbrev pair : Batch ℕ ℕ
pair = batch_of traces (span (1 ∷ []) 0 ∷ bare ∷ [])

abbrev single : Batch ℕ ℕ
single = batch_of traces (span (1 ∷ []) 2 ∷ [])

process-Selects_example :
    Selects
      (Filter.HasKeys (bytes "host" ∷ []))
      pair.spans
      (Filter.process (bytes "host" ∷ []) pair).spans
    × (Filter.process (bytes "host" ∷ []) pair
        ≡ record pair { spans = (Filter.process (bytes "host" ∷ []) pair).spans })
process-Selects_example = (Filter.process-Selects (bytes "host" ∷ []) pair).0 refl

abbrev two : Batcher ℕ ℕ
two = record { max_size = 2; pending = empty_batch [] }

abbrev batches : List (Batch ℕ ℕ)
batches = single ∷ pair ∷ single ∷ []

run-keeps_example :
    (joined [] (Batches.total (Batches.run two batches).1) (Batches.run two batches).0.pending
      ≡ joined [] two.pending (Batches.total batches))
    × Batches.IsWaiting (Batches.run two batches).0
    × Batches.IsOfKind traces (Batches.run two batches).0
    × All (λ c. (two.max_size ≤ len c) × (c.kind ≡ traces)) (Batches.run two batches).1
run-keeps_example =
    Batches.run-keeps traces two batches (omega arith, omega arith) (inl refl)
      (refl, (refl, (refl, tt)))

-- The mark of the kind is the first batch's, so log records travel under `traces`.
mixed_kinds :
    (Batches.run two (single ∷ record (empty_batch logs) { spans = bare ∷ [] } ∷ [])).1
    ≡ batch_of traces (span (1 ∷ []) 2 ∷ bare ∷ []) ∷ []
unfolding Batches.run Batcher.process Batcher.first_kind
mixed_kinds = refl

abbrev waiting_sampler : TailSampler ℕ ℕ
waiting_sampler = record {
  cfg = record {
    decision_wait = 5;
    num_traces = 10;
    sampling_rate = 1;
    always_sample_errors = false;
  };
  buf = [];
}

abbrev early : ℕ → ℕ
early i = 100 + i

abbrev late : ℕ → ℕ
late i = 200 + i

abbrev calls : List ((ℕ → ℕ) × Batch ℕ ℕ)
calls = (early, pair) ∷ (late, single) ∷ []

run-trace_example :
    of_trace (1 ∷ []) (Calls.run waiting_sampler calls).1
      ++ held (1 ∷ []) (Calls.run waiting_sampler calls).0.buf
    ≡ held (1 ∷ []) waiting_sampler.buf ++ of_trace (1 ∷ []) (Calls.sent calls)
run-trace_example = Calls.run-trace waiting_sampler calls (1 ∷ []) tt (refl, (refl, tt))

abbrev processors : List (Processor ℕ ℕ ℕ)
processors = sampler waiting_sampler ∷ batcher two ∷ []

-- The two processors read the clock apart.
abbrev timed_calls : List ((ℕ → ℕ → ℕ) × Batch ℕ ℕ)
timed_calls = ((λ p i. early (10 * p + i)), pair) ∷ ((λ p i. late (10 * p + i)), single) ∷ []

abbrev silent : Batch ℕ ℕ → Option ℕ
silent b = none

run-exports_example :
    All
      (λ log.
        of_trace (1 ∷ []) log
          ++ Spans.held_by (1 ∷ []) (Exports.run silent (processors, [] ∷ []) timed_calls).0
        ≡ Spans.held_by (1 ∷ []) processors ++ of_trace (1 ∷ []) (Calls.sent timed_calls))
      (Exports.run silent (processors, [] ∷ []) timed_calls).1
run-exports_example =
    Exports.run-exports silent processors ([] ∷ []) timed_calls (1 ∷ []) (tt, (inl refl, tt))
      (refl, tt) (refl, (refl, tt))
