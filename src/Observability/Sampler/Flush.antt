-- ===== src/Observability/Sampler/Flush.antt =====
-- What one call of the tail sampler, and a run of calls, do with the spans of each trace.
use golang_journey.Prelude.{
  ℕ, ◌+◌, ◌<◌, ◌≡◌, refl, ◌∙◌, ap, List, [], ◌∷◌, ◌++◌, none, All, arith, ltb→lt, Bool-cases, inl,
  inr, subst, true, false,
}
use golang_journey.Prelude.Map.{lookup}
use golang_journey.Prelude.Text.{Text-discrete}
use golang_journey.Observability.Signal.{Span}
use golang_journey.Observability.Sampler.{
  TailSamplerConfig, TraceBuffer, should_sample, flush_traces, is_young,
}
use golang_journey.Observability.Sampler.Traces.{
  held_same, held_other, of_trace, spans_in, held, IsKeyed, of_trace-append, of_trace_same,
  of_trace_other,
}
use mathlib.Core.List.{append-nil}

nil_of_append : {V : Type 0} (xs ys : List (Span V)) → xs ++ ys ≡ [] → xs ≡ []
nil_of_append [] ys h = refl
nil_of_append (x ∷ xs) ys h = absurd (ground (arith, h))

module _ {V R : Type 0} (cfg : TailSamplerConfig R) where
  sampled_always : (tb : TraceBuffer V) → should_sample cfg tb ≡ true
  unfolding should_sample
  sampled_always tb = ground arith

  flush_traces-none :
      (now : ℕ) (id : List ℕ) (buf : List (List ℕ × TraceBuffer V))
      → lookup Text-discrete id buf ≡ none
      → lookup Text-discrete id (flush_traces cfg now buf).1 ≡ none
  unfolding flush_traces lookup
  flush_traces-none now id [] h = refl
  flush_traces-none now id ((j, tb) ∷ buf) h = ground (arith, h, flush_traces-none now id buf)

  pub flush_traces-IsKeyed :
      (now : ℕ) (buf : List (List ℕ × TraceBuffer V))
      → IsKeyed buf
      → IsKeyed (flush_traces cfg now buf).1
  unfolding flush_traces lookup
  flush_traces-IsKeyed now [] k = tt
  flush_traces-IsKeyed now ((id, tb) ∷ buf) k =
      let rest = flush_traces-IsKeyed now buf k.2 in
      elim (Bool-cases (is_young cfg now tb)) [
        | inl e ↦ rw (e) (k.0, flush_traces-none now id buf k.1, rest)
        | inr e ↦ rw (e) rest
      ]

  -- The traces that stay have not waited long enough.
  pub flush_traces-young :
      (now : ℕ) (buf : List (List ℕ × TraceBuffer V))
      → All (λ e. now < e.1.arrived_at + cfg.decision_wait) (flush_traces cfg now buf).1
  unfolding flush_traces
  flush_traces-young now [] = tt
  flush_traces-young now ((id, tb) ∷ buf) = elim (Bool-cases (is_young cfg now tb)) [
    | inl e ↦ rw (e) (ltb→lt now (tb.arrived_at + cfg.decision_wait) e, flush_traces-young now buf)
    | inr e ↦ rw (e) (flush_traces-young now buf)
  ]

  flush_traces_young :
      (now : ℕ) (id : List ℕ) (tb : TraceBuffer V) (buf : List (List ℕ × TraceBuffer V))
      → is_young cfg now tb ≡ true
      → flush_traces cfg now ((id, tb) ∷ buf)
        ≡ ((flush_traces cfg now buf).0, (id, tb) ∷ (flush_traces cfg now buf).1)
  unfolding flush_traces
  flush_traces_young now id tb buf e = rw (e)

  flush_traces_old :
      (now : ℕ) (id : List ℕ) (tb : TraceBuffer V) (buf : List (List ℕ × TraceBuffer V))
      → is_young cfg now tb ≡ false
      → flush_traces cfg now ((id, tb) ∷ buf)
        ≡ (tb.spans ++ (flush_traces cfg now buf).0, (flush_traces cfg now buf).1)
  unfolding flush_traces
  flush_traces_old now id tb buf e = rw (e, sampled_always tb)

  -- The other buffers hold no span of the trace, and none of them comes out.
  flush_traces_without :
      (t : List ℕ) (now : ℕ) (buf : List (List ℕ × TraceBuffer V))
      → lookup Text-discrete t buf ≡ none
      → of_trace t (flush_traces cfg now buf).0 ++ held t (flush_traces cfg now buf).1 ≡ held t buf
      → (of_trace t (flush_traces cfg now buf).0 ≡ []) × (held t (flush_traces cfg now buf).1 ≡ [])
  flush_traces_without t now buf h ih = (
    nil_of_append (of_trace t (flush_traces cfg now buf).0) (held t (flush_traces cfg now buf).1)
        (ih ∙ ap spans_in h),
    ap spans_in (flush_traces-none now t buf h),
  )

  -- Flushing takes the spans of a trace out of the buffer, in order.
  pub flush_traces-held :
      (t : List ℕ) (now : ℕ) (buf : List (List ℕ × TraceBuffer V))
      → IsKeyed buf
      → of_trace t (flush_traces cfg now buf).0 ++ held t (flush_traces cfg now buf).1 ≡ held t buf
  unfolding flush_traces lookup
  flush_traces-held t now [] k = refl
  flush_traces-held t now ((id, tb) ∷ buf) k =
      let out = (flush_traces cfg now buf).0 in
      let rest = (flush_traces cfg now buf).1 in
      let ih : of_trace t out ++ held t rest ≡ held t buf = flush_traces-held t now buf k.2 in
      elim (Bool-cases (is_young cfg now tb)) [
        | inl e ↦ rw (flush_traces_young now id tb buf e) (elim (Text-discrete id t) [
          | yes same ↦
              let gone =
                flush_traces_without t now buf
                  (subst (λ j. lookup Text-discrete j buf ≡ none) same k.1) ih in
              rw (held_same t id tb rest same, held_same t id tb buf same, gone.0)
          | no other ↦ rw (held_other t id tb rest other, held_other t id tb buf other) ih
        ])
        | inr e ↦
            rw (flush_traces_old now id tb buf e, of_trace-append t tb.spans out)
              (elim (Text-discrete id t) [
                | yes same ↦
                    let gone =
                      flush_traces_without t now buf
                        (subst (λ j. lookup Text-discrete j buf ≡ none) same k.1) ih in
                    rw
                      (
                        held_same t id tb buf same,
                        gone.0,
                        gone.1,
                        of_trace_same t tb.spans
                            (subst (λ j. All (λ s. s.trace_id ≡ j) tb.spans) same k.0),
                      )
                      (simp (append-nil))
                | no other ↦
                    rw (held_other t id tb buf other, of_trace_other t id tb.spans other k.0) ih
              ])
      ]
