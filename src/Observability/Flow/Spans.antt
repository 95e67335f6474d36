-- ===== src/Observability/Flow/Spans.antt =====
-- The spans of a trace on their way through samplers and batch processors to the exporters.
use golang_journey.Prelude.{
  ℕ, suc, ◌≡◌, ◌⊎◌, inl, inr, refl, List, [], ◌∷◌, ◌++◌, Option, none, some, All, arith, ◌==◌,
  Option-cases, true, Bool-cases, length, ap, subst,
}
use golang_journey.Observability.Signal.{Span, Batch, len, traces}
use golang_journey.Observability.Batcher.{Batcher}
use golang_journey.Observability.Batcher
use golang_journey.Observability.Batcher.Batches.{emitted, total, process-total, process-kind}
use golang_journey.Observability.Flow.{Processor, batcher, sampler, filter, process, process_all}
use golang_journey.Observability.Sampler
use golang_journey.Observability.Sampler.{sampled_batch}
use golang_journey.Observability.Sampler.Calls.{
  OfTraces, process-OfTraces, released, process-held, process-IsKeyed,
}
use golang_journey.Observability.Sampler.Traces.{of_trace, of_trace-append, held, IsKeyed}
use mathlib.Core.List.{append_assoc, append-nil}

total-emitted : {V F : Type 0} (o : Option (Batch V F)) → (total (emitted o)).spans ≡ released o
total-emitted none = refl
total-emitted (some b) = append-nil b.spans

emitted-OfTraces :
    {V F : Type 0} (o : Option (Batch V F)) → All (λ c. c.kind ≡ traces) (emitted o) → OfTraces o
emitted-OfTraces none a = tt
emitted-OfTraces (some b) a = a.0

batcher_conserved :
    {V F : Type 0} (b : Batcher V F) (batch : Batch V F) (t : List ℕ)
    → of_trace t (released (Batcher.process b batch).1)
        ++ of_trace t (Batcher.process b batch).0.pending.spans
      ≡ of_trace t b.pending.spans ++ of_trace t batch.spans
batcher_conserved b batch t =
    let next = Batcher.process b batch in
    cc (
      ap (λ c. of_trace t c.spans) (process-total b batch),
      total-emitted next.1,
      of_trace-append t (released next.1) next.0.pending.spans,
      of_trace-append t b.pending.spans batch.spans,
    )

length_zero : {A : Type 0} (xs : List A) → length xs ≡ 0 → xs ≡ []
length_zero [] h = refl
length_zero (x ∷ xs) h = absurd (omega (arith, h))

no_spans : {V F : Type 0} (b : Batch V F) → (len b == 0) ≡ true → b.spans ≡ []
no_spans b h = length_zero b.spans (ground (arith, h))

module _ {V F R : Type 0} where
  -- The spans of a trace that a processor holds back.
  abbrev pub waiting : List ℕ → Processor V F R → List (Span V)
  waiting t (batcher b) = of_trace t b.pending.spans
  waiting t (sampler ts) = held t ts.buf
  waiting t (filter keys) = []

  -- The same of a sequence of processors: what is further on was sent before.
  abbrev pub held_by : List ℕ → List (Processor V F R) → List (Span V)
  held_by t [] = []
  held_by t (p ∷ ps) = held_by t ps ++ waiting t p

  -- A sampler whose buffer is in order, or a batch processor that has seen traces alone.
  abbrev pub IsReady : Processor V F R → Type 0
  IsReady (batcher b) = (b.pending.kind ≡ []) ⊎ (b.pending.kind ≡ traces)
  IsReady (sampler ts) = IsKeyed ts.buf
  IsReady (filter keys) = ⊥

  -- What a call of `Process` does with the spans of every trace.
  record Passes {E : Type 0} (p : Processor V F R) (batch : Batch V F)
      (result : Processor V F R × (E ⊎ Option (Batch V F))) : Type 0 where
    out : Option (Batch V F)
    returned : result.1 ≡ inr out
    ready : IsReady result.0
    of_traces : OfTraces out
    conserved :
        (t : List ℕ)
        → of_trace t (released out) ++ waiting t result.0 ≡ waiting t p ++ of_trace t batch.spans

  -- A sampler and a batch processor pass a batch of traces on without loss.
  process-Passes :
      {E : Type 0} (clock : ℕ → ℕ) (p : Processor V F R) (batch : Batch V F)
      → IsReady p
      → batch.kind ≡ traces
      → Passes p batch (process {E = E} clock p batch)
  unfolding process
  process-Passes clock (batcher b) batch r e = record {
    out = (Batcher.process b batch).1;
    returned = refl;
    ready = (process-kind traces b batch r e).0;
    of_traces = emitted-OfTraces (Batcher.process b batch).1 (process-kind traces b batch r e).1;
    conserved = batcher_conserved b batch;
  }
  process-Passes clock (sampler ts) batch r e = record {
    out = (Sampler.process clock ts batch).1;
    returned = refl;
    ready = process-IsKeyed clock ts batch e r;
    of_traces = process-OfTraces clock ts batch e;
    conserved = λ t. process-held clock ts batch e t r;
  }
  process-Passes clock (filter keys) batch r e = elim r [ ]

  -- What is left of a trace and what comes out of the processors, after the first loop.
  pub record PassesAll (ps : List (Processor V F R)) (batch : Batch V F)
      (result : List (Processor V F R) × Option (Batch V F)) : Type 0 where
    pub ready : All IsReady result.0
    pub conserved :
        (t : List ℕ)
        → of_trace t (released result.1) ++ held_by t result.0
          ≡ held_by t ps ++ of_trace t batch.spans

  -- A processor that hands on no span is the last one.
  stopped :
      (p p' : Processor V F R) (ps : List (Processor V F R)) (batch : Batch V F)
      (out : Option (Batch V F))
      → All IsReady ps
      → IsReady p'
      → released out ≡ []
      → ((t : List ℕ)
          → of_trace t (released out) ++ waiting t p' ≡ waiting t p ++ of_trace t batch.spans)
      → PassesAll (p ∷ ps) batch (p' ∷ ps, none)
  stopped p p' ps batch out r ready nothing conserved = record {
    ready = (ready, r);
    conserved = λ t.
        cc (
          conserved t,
          nothing,
          append_assoc (held_by t ps) (waiting t p) (of_trace t batch.spans),
        );
  }

  -- Otherwise the rest of the processors goes on with its batch.
  went_on :
      (p p' : Processor V F R) (ps : List (Processor V F R)) (batch c : Batch V F)
      (rest : List (Processor V F R) × Option (Batch V F))
      → IsReady p'
      → ((t : List ℕ) → of_trace t c.spans ++ waiting t p' ≡ waiting t p ++ of_trace t batch.spans)
      → PassesAll ps c rest
      → PassesAll (p ∷ ps) batch (p' ∷ rest.0, rest.1)
  went_on p p' ps batch c rest ready conserved after = record {
    ready = (ready, after.ready);
    conserved = λ t. cc (
      append_assoc (of_trace t (released rest.1)) (held_by t rest.0) (waiting t p'),
      after.conserved t,
      append_assoc (held_by t ps) (of_trace t c.spans) (waiting t p'),
      conserved t,
      append_assoc (held_by t ps) (waiting t p) (of_trace t batch.spans),
    );
  }

  module _ (E : Type 0) where
    pub process_all-PassesAll :
        (ps : List (Processor V F R)) (clocks : ℕ → ℕ → ℕ) (batch : Batch V F)
        → All IsReady ps
        → batch.kind ≡ traces
        → PassesAll ps batch (process_all (process {E = E}) ps clocks batch)
    unfolding process_all
    process_all-PassesAll [] clocks batch r e = record {
      ready = tt;
      conserved = λ t. append-nil (of_trace t batch.spans);
    }
    process_all-PassesAll (p ∷ ps) clocks batch r e =
        let clock = clocks 0 in
        let later : ℕ → ℕ → ℕ = λ i. clocks (suc i) in
        let pass = process-Passes {E = E} clock p batch r.0 e in
        let p' = (process {E = E} clock p batch).0 in
        elim (Option-cases pass.out) [
          | inl none_out ↦
              let returned : (process {E = E} clock p batch).1 ≡ inr none =
                cc (pass.returned, none_out) in
              rw (process_all, returned)
                (stopped p p' ps batch pass.out r.1 pass.ready (rw (none_out)) pass.conserved)
          | inr (c, some_out) ↦
              let returned : (process {E = E} clock p batch).1 ≡ inr (some c) =
                cc (pass.returned, some_out) in
              let conserved =
                subst
                  (λ o.
                    (t : List ℕ)
                    → of_trace t (released o) ++ waiting t p'
                      ≡ waiting t p ++ of_trace t batch.spans)
                  some_out pass.conserved in
              elim (Bool-cases (len c == 0)) [
                | inl empty ↦
                    rw (process_all, returned, empty)
                      (stopped p p' ps batch (some c) r.1 pass.ready (no_spans c empty) conserved)
                | inr full ↦
                    rw (process_all, returned, full)
                      (went_on p p' ps batch c (process_all (process {E = E}) ps later c) pass.ready
                        conserved
                        (process_all-PassesAll ps later c r.1
                          (subst OfTraces some_out pass.of_traces)))
              ]
        ]
