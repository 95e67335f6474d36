-- ===== src/Observability/Batcher/Batches.antt =====
-- What the batches of a run of the batch processor hold.
use golang_journey.Prelude.{
  ◌<◌, ◌⊎◌, ◌≤◌, ◌≡◌, refl, List, [], ◌∷◌, ◌++◌, Option, none, some, All, All-append, All-both,
  subst, arith, Bool-cases, inl, inr, leb, leb→le,
}
use mathlib.Core.List.{append_assoc, append-nil}
use golang_journey.Prelude.Text.{Text}
use golang_journey.Observability.Signal.{Batch, len, empty_batch, joined}
use golang_journey.Observability.Batcher.{Batcher, first_kind, process}

first_kind-eq : (k p : Text) (kind : Text) → (p ≡ []) ⊎ (p ≡ k) → kind ≡ k → first_kind p kind ≡ k
unfolding first_kind
first_kind-eq k [] kind h e = e
first_kind-eq k (c ∷ p) kind (inl h) e = cc
first_kind-eq k (c ∷ p) kind (inr h) e = h

module _ {V F : Type 0} where
  -- What a processor hands on: the batch, if there is one.
  abbrev pub emitted : Option (Batch V F) → List (Batch V F)
  emitted none = []
  emitted (some b) = b ∷ []

  -- The processor after the batches, and the batches it has handed on.
  unfoldable pub run : Batcher V F → List (Batch V F) → Batcher V F × List (Batch V F)
  run b [] = (b, [])
  run b (batch ∷ batches) =
      let next = process b batch in
      let rest = run next.0 batches in (rest.0, emitted next.1 ++ rest.1)

  -- The items of a list of batches, one batch after the other.
  abbrev pub total : List (Batch V F) → Batch V F
  total [] = empty_batch []
  total (b ∷ bs) = joined [] b (total bs)

  joined_assoc :
      (i j : Text) (a b c : Batch V F) → joined [] (joined i a b) c ≡ joined [] a (joined j b c)
  joined_assoc i j a b c = cc (
    append_assoc a.spans b.spans c.spans,
    append_assoc a.points b.points c.points,
    append_assoc a.log_recs b.log_recs c.log_recs,
  )

  total-append : (xs ys : List (Batch V F)) → total (xs ++ ys) ≡ joined [] (total xs) (total ys)
  total-append [] [] = refl
  total-append [] (y ∷ ys) = refl
  total-append (x ∷ xs) ys = cc (total-append xs ys, joined_assoc [] [] x (total xs) (total ys))

  -- One call keeps every item: those handed on, and then those that wait.
  pub process-total :
      (b : Batcher V F) (batch : Batch V F)
      → joined [] (total (emitted (process b batch).1)) (process b batch).0.pending
        ≡ joined [] b.pending batch
  unfolding process
  process-total b batch =
      let out = joined (first_kind b.pending.kind batch.kind) b.pending batch in
      elim (Bool-cases (leb b.max_size (len out))) [
        | inl e ↦ rw (e) (simp (append-nil))
        | inr e ↦ rw (e)
      ]

  -- The items of the batches that a run of the batch processor hands on, followed by those that
  -- still wait, are those that waited before followed by those that came in, in order, for
  -- spans, points and log records alike.
  pub run-total :
      (b : Batcher V F) (batches : List (Batch V F))
      → joined [] (total (run b batches).1) (run b batches).0.pending
        ≡ joined [] b.pending (total batches)
  unfolding run
  run-total b [] =
      cc (append-nil b.pending.spans, append-nil b.pending.points, append-nil b.pending.log_recs)
  run-total b (batch ∷ batches) =
      let next = process b batch in
      let rest = run next.0 batches in
      let out = total (emitted next.1) in
      cc (
        total-append (emitted next.1) rest.1,
        joined_assoc [] [] out (total rest.1) rest.0.pending,
        run-total next.0 batches,
        joined_assoc [] [] out next.0.pending (total batches),
        process-total b batch,
        joined_assoc [] [] b.pending batch (total batches),
      )

  -- Room for at least one item, and fewer items waiting than it takes to hand them on.
  abbrev pub IsWaiting : Batcher V F → Type 0
  IsWaiting b = (0 < b.max_size) × (len b.pending < b.max_size)

  process-IsWaiting :
      (b : Batcher V F) (batch : Batch V F)
      → IsWaiting b
      → IsWaiting (process b batch).0
        × ((process b batch).0.max_size ≡ b.max_size)
        × All (λ c. b.max_size ≤ len c) (emitted (process b batch).1)
  unfolding process
  process-IsWaiting b batch h =
      let out = joined (first_kind b.pending.kind batch.kind) b.pending batch in
      elim (Bool-cases (leb b.max_size (len out))) [
        | inl e ↦ rw (e) ((h.0, h.0), refl, (leb→le b.max_size (len out) e, tt))
        | inr e ↦ rw (e) ((h.0, ground (arith, e)), refl, tt)
      ]

  -- From a batch processor with a positive maximal size and fewer items waiting than it, any
  -- run ends with fewer items waiting than the maximal size, and each batch handed on has at
  -- least that many.
  pub run-IsWaiting :
      (b : Batcher V F) (batches : List (Batch V F))
      → IsWaiting b
      → IsWaiting (run b batches).0 × All (λ c. b.max_size ≤ len c) (run b batches).1
  unfolding run
  run-IsWaiting b [] h = (h, tt)
  run-IsWaiting b (batch ∷ batches) h =
      let step = process-IsWaiting b batch h in
      let rest = run-IsWaiting (process b batch).0 batches step.0 in
      (
        rest.0,
        All-append (λ c. b.max_size ≤ len c) (emitted (process b batch).1)
            (run (process b batch).0 batches).1 step.2
            (subst (λ m. All (λ c. m ≤ len c) (run (process b batch).0 batches).1) step.1 rest.1),
      )

  -- Every batch waiting or handed on is of the kind, or nothing has come yet.
  abbrev pub IsOfKind : Text → Batcher V F → Type 0
  IsOfKind k b = (b.pending.kind ≡ []) ⊎ (b.pending.kind ≡ k)

  pub process-kind :
      (k : Text) (b : Batcher V F) (batch : Batch V F)
      → IsOfKind k b
      → batch.kind ≡ k
      → IsOfKind k (process b batch).0 × All (λ c. c.kind ≡ k) (emitted (process b batch).1)
  unfolding process
  process-kind k b batch h e =
      let kind = first_kind b.pending.kind batch.kind in
      let out = joined kind b.pending batch in
      let same = first_kind-eq k b.pending.kind batch.kind h e in
      elim (Bool-cases (leb b.max_size (len out))) [
        | inl s ↦ rw (s) (inr e, (same, tt))
        | inr s ↦ rw (s) (inr same, tt)
      ]

  -- If every batch that comes in has the same kind, and the waiting batch has this kind or
  -- none, then every batch that is handed on has it, and so does the waiting batch or it has
  -- none.
  pub run-kind :
      (k : Text) (b : Batcher V F) (batches : List (Batch V F))
      → IsOfKind k b
      → All (λ c. c.kind ≡ k) batches
      → IsOfKind k (run b batches).0 × All (λ c. c.kind ≡ k) (run b batches).1
  unfolding run
  run-kind k b [] h a = (h, tt)
  run-kind k b (batch ∷ batches) h a =
      let step = process-kind k b batch h a.0 in
      let rest = run-kind k (process b batch).0 batches step.0 a.1 in
      (
        rest.0,
        All-append (λ c. c.kind ≡ k) (emitted (process b batch).1)
            (run (process b batch).0 batches).1 step.1 rest.1,
      )

  -- From a batch processor with a positive maximal size and fewer items waiting than it, and
  -- for batches of one kind, the waiting batch being of this kind or of none, any run keeps
  -- every item: those handed on, followed by those that still wait, are those that waited
  -- followed by those that came in, in order. It ends with fewer items waiting than the maximal
  -- size, of the kind or of none, and each batch handed on has at least that many items and the
  -- kind.
  pub run-keeps :
      (k : Text) (b : Batcher V F) (batches : List (Batch V F))
      → IsWaiting b
      → IsOfKind k b
      → All (λ c. c.kind ≡ k) batches
      → (joined [] (total (run b batches).1) (run b batches).0.pending
          ≡ joined [] b.pending (total batches))
        × IsWaiting (run b batches).0
        × IsOfKind k (run b batches).0
        × All (λ c. (b.max_size ≤ len c) × (c.kind ≡ k)) (run b batches).1
  run-keeps k b batches waiting kind kinds =
      let sizes = run-IsWaiting b batches waiting in
      let marks = run-kind k b batches kind kinds in
      (
        run-total b batches,
        sizes.0,
        marks.0,
        All-both (λ c. b.max_size ≤ len c) (λ c. c.kind ≡ k) (run b batches).1 sizes.1 marks.1,
      )
