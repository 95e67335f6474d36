-- ===== src/Observability/Signal.antt =====
-- The signals of projects/08-observability-pipeline/pipeline/pipeline.go. `V` is the type of an
-- attribute's value (`any`), `F` that of the numbers of a metric (`float64`). A 64-bit integer is
-- its bit pattern, an id the list of its bytes. A signal is never written to once it is received,
-- so a pointer to it stands for its value.
use golang_journey.Prelude.{ℕ, ◌+◌, List, [], ◌++◌, length}
use golang_journey.Prelude.Int64.{sub_int}
use golang_journey.Prelude.Text.{Text, bytes}

-- The constants of `SignalKind`, which is a type of strings; a new batch has the empty string.
abbrev pub traces : Text
traces = bytes "traces"

abbrev pub metrics : Text
metrics = bytes "metrics"

abbrev pub logs : Text
logs = bytes "logs"

pub data SpanKind : Type 0 where
  internal : SpanKind
  server : SpanKind
  client : SpanKind
  producer : SpanKind
  consumer : SpanKind

pub record Attribute (V : Type 0) : Type 0 where
  pub key : Text
  pub value : V

pub record SpanEvent (V : Type 0) : Type 0 where
  pub time_ns : ℕ
  pub name : Text
  pub attributes : List (Attribute V)

pub record Span (V : Type 0) : Type 0 where
  pub trace_id : List ℕ
  pub span_id : List ℕ
  pub parent_id : List ℕ
  pub name : Text
  pub kind : SpanKind
  pub start_ns : ℕ
  pub end_ns : ℕ
  pub attributes : List (Attribute V)
  pub status_code : ℕ
  pub status_msg : Text
  pub events : List (SpanEvent V)

pub record DataPoint (F : Type 0) : Type 0 where
  pub name : Text
  pub ts : ℕ
  pub value : F
  pub labels : List (Text × Text)
  pub metric_kind : Text

pub record LogRecord (V : Type 0) : Type 0 where
  pub ts : ℕ
  pub severity : ℕ
  pub body : Text
  pub attributes : List (Attribute V)
  pub trace_id : List ℕ
  pub span_id : List ℕ

pub record Batch (V F : Type 0) : Type 0 where
  pub kind : Text
  pub spans : List (Span V)
  pub points : List (DataPoint F)
  pub log_recs : List (LogRecord V)

pub duration_ns : {V : Type 0} → Span V → ℕ
duration_ns s = sub_int s.end_ns s.start_ns

module _ {V F : Type 0} where
  -- `Batch.Len`
  abbrev pub len : Batch V F → ℕ
  len b = length b.spans + length b.points + length b.log_recs

  abbrev pub empty_batch : Text → Batch V F
  empty_batch kind = record { kind = kind; spans = []; points = []; log_recs = [] }

  -- The items of two batches, the first batch's first, under a kind.
  abbrev pub joined : Text → Batch V F → Batch V F → Batch V F
  joined kind b c = record {
    kind = kind;
    spans = b.spans ++ c.spans;
    points = b.points ++ c.points;
    log_recs = b.log_recs ++ c.log_recs;
  }
