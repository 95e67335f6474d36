-- ===== src/Observability/Sampler/Traces.antt =====
-- Where the spans of one trace are before and after a call of the tail sampler.
use golang_journey.Prelude.{
  ℕ, ◌+◌, ◌≡◌, ◌≢◌, refl, sym, ap, List, [], ◌∷◌, ◌++◌, Option, none, some, ite, All, All-append,
  arith, Option-cases, inl, inr, if_pos, if_neg, subst,
}
use golang_journey.Prelude.Map.{lookup, insert, lookup-insert}
use golang_journey.Prelude.Text.{Text-discrete}
use golang_journey.Observability.Signal.{Span}
use golang_journey.Observability.Sampler.{TraceBuffer, find_or_start, grown, add_span, buffer_spans}
use mathlib.Core.List.{append_assoc, append-nil}

module _ {V : Type 0} where
  -- The spans of a trace, in order.
  abbrev pub of_trace : List ℕ → List (Span V) → List (Span V)
  of_trace t [] = []
  of_trace t (s ∷ ss) = let rest = of_trace t ss in ite (Text-discrete s.trace_id t) (s ∷ rest) rest

  -- The spans of a trace that a buffer holds.
  abbrev pub spans_in : Option (TraceBuffer V) → List (Span V)
  spans_in none = []
  spans_in (some tb) = tb.spans

  abbrev pub held : List ℕ → List (List ℕ × TraceBuffer V) → List (Span V)
  held t buf = spans_in (lookup Text-discrete t buf)

  -- Every trace has one buffer, with its own spans alone.
  abbrev pub IsKeyed : List (List ℕ × TraceBuffer V) → Type 0
  IsKeyed [] = Unit
  IsKeyed ((id, tb) ∷ buf) =
      All (λ s. s.trace_id ≡ id) tb.spans × (lookup Text-discrete id buf ≡ none) × IsKeyed buf

  pub of_trace-append :
      (t : List ℕ) (xs ys : List (Span V)) → of_trace t (xs ++ ys) ≡ of_trace t xs ++ of_trace t ys
  of_trace-append t [] [] = refl
  of_trace-append t [] (y ∷ ys) = refl
  of_trace-append t (s ∷ xs) ys = elim (Text-discrete s.trace_id t) [
    | yes e ↦ ground (arith, e, of_trace-append t xs ys)
    | no e ↦ ground (arith, e, of_trace-append t xs ys)
  ]

  pub of_trace_same :
      (t : List ℕ) (xs : List (Span V)) → All (λ s. s.trace_id ≡ t) xs → of_trace t xs ≡ xs
  of_trace_same t [] h = refl
  of_trace_same t (s ∷ xs) h = ground (arith, h.0, of_trace_same t xs h.1)

  pub of_trace_other :
      (t id : List ℕ) (xs : List (Span V))
      → id ≢ t
      → All (λ s. s.trace_id ≡ id) xs
      → of_trace t xs ≡ []
  of_trace_other t id [] n h = refl
  of_trace_other t id (s ∷ xs) n h = ground (arith, n, h.0, of_trace_other t id xs n h.1)

  pub held_same :
      (t id : List ℕ) (tb : TraceBuffer V) (buf : List (List ℕ × TraceBuffer V))
      → id ≡ t
      → held t ((id, tb) ∷ buf) ≡ tb.spans
  unfolding lookup
  held_same t id tb buf e = ap spans_in (if_pos (Text-discrete id t) e _ _)

  pub held_other :
      (t id : List ℕ) (tb : TraceBuffer V) (buf : List (List ℕ × TraceBuffer V))
      → id ≢ t
      → held t ((id, tb) ∷ buf) ≡ held t buf
  unfolding lookup
  held_other t id tb buf n = ap spans_in (if_neg (Text-discrete id t) n _ _)

  lookup-IsKeyed :
      (t : List ℕ) (buf : List (List ℕ × TraceBuffer V))
      → IsKeyed buf
      → All (λ s. s.trace_id ≡ t) (held t buf)
  unfolding lookup
  lookup-IsKeyed t [] k = tt
  lookup-IsKeyed t ((id, tb) ∷ buf) k = elim (Text-discrete id t) [
    | yes e ↦
        rw (if_pos (Text-discrete id t) e) (subst (λ j. All (λ s. s.trace_id ≡ j) tb.spans) e k.0)
    | no e ↦ rw (if_neg (Text-discrete id t) e) (lookup-IsKeyed t buf k.2)
  ]

  insert-IsKeyed :
      (t : List ℕ) (tb : TraceBuffer V) (buf : List (List ℕ × TraceBuffer V))
      → All (λ s. s.trace_id ≡ t) tb.spans
      → IsKeyed buf
      → IsKeyed (insert Text-discrete t tb buf)
  unfolding lookup insert
  insert-IsKeyed t tb [] a k = (a, refl, tt)
  insert-IsKeyed t tb ((id, ub) ∷ buf) a k = elim (Text-discrete id t) [
    | yes e ↦
        rw (if_pos (Text-discrete id t) e)
          (a, subst (λ j. lookup Text-discrete j buf ≡ none) e k.1, k.2)
    | no e ↦ rw (if_neg (Text-discrete id t) e) (
      k.0,
      rw (lookup-insert Text-discrete t id tb buf) (ground (arith, e, k.1)),
      insert-IsKeyed t tb buf a k.2,
    )
  ]

  held-add_span :
      (t : List ℕ) (buf : List (List ℕ × TraceBuffer V)) (s : Span V) (now : ℕ)
      → held t (add_span buf s now) ≡ held t buf ++ of_trace t (s ∷ [])
  unfolding add_span find_or_start grown
  held-add_span t buf s now =
      rw (lookup-insert Text-discrete s.trace_id t (grown (find_or_start buf s.trace_id now) s) buf)
        (elim (Option-cases (lookup Text-discrete s.trace_id buf)) [
          | inl none_yet ↦ elim (Text-discrete s.trace_id t) [
            | yes e ↦ ground (arith, e, none_yet)
            | no e ↦ ground (arith, e, append-nil (held t buf))
          ]
          | inr (tb, found) ↦ elim (Text-discrete s.trace_id t) [
            | yes e ↦ ground (arith, e, found)
            | no e ↦ ground (arith, e, append-nil (held t buf))
          ]
        ])

  find_or_start-spans :
      (buf : List (List ℕ × TraceBuffer V)) (id : List ℕ) (now : ℕ)
      → (find_or_start buf id now).spans ≡ held id buf
  unfolding find_or_start
  find_or_start-spans buf id now = elim (Option-cases (lookup Text-discrete id buf)) [
    | inl e ↦ ground (arith, e)
    | inr (tb, e) ↦ ground (arith, e)
  ]

  add_span-IsKeyed :
      (buf : List (List ℕ × TraceBuffer V)) (s : Span V) (now : ℕ)
      → IsKeyed buf
      → IsKeyed (add_span buf s now)
  unfolding add_span grown
  add_span-IsKeyed buf s now k =
      insert-IsKeyed s.trace_id (grown (find_or_start buf s.trace_id now) s) buf
        (All-append (λ x. x.trace_id ≡ s.trace_id) (find_or_start buf s.trace_id now).spans (s ∷ [])
          (rw (find_or_start-spans buf s.trace_id now) (lookup-IsKeyed s.trace_id buf k))
          (refl, tt))
        k

  -- Buffering adds the spans of a trace, in order, to those held before.
  pub held-buffer_spans :
      (t : List ℕ) (clock : ℕ → ℕ) (i : ℕ) (ss : List (Span V))
      (buf : List (List ℕ × TraceBuffer V))
      → held t (buffer_spans clock i ss buf) ≡ held t buf ++ of_trace t ss
  unfolding buffer_spans
  held-buffer_spans t clock i [] buf = sym (append-nil (held t buf))
  held-buffer_spans t clock i (s ∷ ss) buf = cc (
    held-buffer_spans t clock (i + 1) ss (add_span buf s (clock i)),
    held-add_span t buf s (clock i),
    append_assoc (held t buf) (of_trace t (s ∷ [])) (of_trace t ss),
    of_trace-append t (s ∷ []) ss,
  )

  pub buffer_spans-IsKeyed :
      (clock : ℕ → ℕ) (i : ℕ) (ss : List (Span V)) (buf : List (List ℕ × TraceBuffer V))
      → IsKeyed buf
      → IsKeyed (buffer_spans clock i ss buf)
  unfolding buffer_spans
  buffer_spans-IsKeyed clock i [] buf k = k
  buffer_spans-IsKeyed clock i (s ∷ ss) buf k =
      buffer_spans-IsKeyed clock (i + 1) ss (add_span buf s (clock i))
        (add_span-IsKeyed buf s (clock i) k)
