-- ===== src/Scheduler/Pool/Lost.antt =====
-- A running task that no worker has, over a store that keeps its promises.
use golang_journey.Prelude.{
  ℕ, zero, suc, ◌≡◌, ◌≢◌, ◌⊎◌, inl, inr, refl, sym, ap, ◌∙◌, List, [], ◌∷◌, Option, none, some,
  get_elem?, set, arith, Option-cases, Sum-cases, if-both,
}
use golang_journey.Prelude.Map.{lookup}
use golang_journey.Prelude.Text.{Text, Text-discrete, same_text}
use golang_journey.Scheduler.Pool.{
  TaskStatus, pending, running, Task, Store, Handler, Pool, State, Place, idle, executing, ended,
  claim, execute, mark, finish, step, steps,
}

-- What a store promises, by a status for each id: ClaimNext sets a pending task to running and
-- returns it, or leaves every status; MarkDone and MarkFailed leave the other tasks.
pub record Laws {W : Type 0} (store : Store W) (status : W → Text → TaskStatus) : Type 0 where
  pub was_pending :
      (w : W) (n : Text) {t : Task}
      → (store.claim_next w n).1 ≡ inr (some t)
      → status w t.id ≡ pending
  pub now_running :
      (w : W) (n : Text) {t : Task}
      → (store.claim_next w n).1 ≡ inr (some t)
      → status (store.claim_next w n).0 t.id ≡ running
  pub others :
      (w : W) (n : Text) {t : Task} (k : Text)
      → (store.claim_next w n).1 ≡ inr (some t)
      → t.id ≢ k
      → status (store.claim_next w n).0 k ≡ status w k
  pub idle :
      (w : W) (n k : Text)
      → (store.claim_next w n).1 ≡ inr none
      → status (store.claim_next w n).0 k ≡ status w k
  pub error :
      (w : W) (n k : Text) {e : Text}
      → (store.claim_next w n).1 ≡ inl e
      → status (store.claim_next w n).0 k ≡ status w k
  pub done_others : (w : W) (id k : Text) → id ≢ k → status (store.mark_done w id).0 k ≡ status w k
  pub failed_others :
      (w : W) (id e k : Text) → id ≢ k → status (store.mark_failed w id e).0 k ≡ status w k

-- What a handler of a pool is expected to do: it keeps the id of its task, and the tasks that run
-- still run when it ends. It may change anything else, of its task, of the other tasks and beside.
pub record IsTame {W : Type 0} (status : W → Text → TaskStatus) (h : Handler W) : Type 0 where
  pub keeps_id : (w : W) (t : Task) → (h w t).task.id ≡ t.id
  pub keeps_running :
      (w : W) (t : Task) (k : Text) → status w k ≡ running → status (h w t).world k ≡ running

pub get_elem?-set :
    {A : Type 0} (xs : List A) (i j : ℕ) (v : A) {y : A}
    → get_elem? (set xs i v) j ≡ some y
    → ((i ≡ j) × (v ≡ y)) ⊎ ((i ≢ j) × (get_elem? xs j ≡ some y))
get_elem?-set [] i j v h = cc
get_elem?-set (x ∷ xs) zero zero v h = inl (refl, cc)
get_elem?-set (x ∷ xs) zero (suc j) v h = inr ((λ e. omega (arith, e)), h)
get_elem?-set (x ∷ xs) (suc i) zero v h = inr ((λ e. omega (arith, e)), h)
get_elem?-set (x ∷ xs) (suc i) (suc j) v h = elim (get_elem?-set xs i j v h) [
  | inl (e, f) ↦ inl (ap suc e, f)
  | inr (ne, f) ↦ inr ((λ e. ne (omega (arith, e))), f)
]

pub pending≢running : pending ≢ running
pending≢running e = cc

pub none≢some : {A : Type 0} {x : A} → none ≢ some x
none≢some e = cc

-- The task that a worker has.
abbrev pub task_at : Place → Option Task
task_at idle = none
task_at (executing t) = some t
task_at (ended t e) = some t

-- No worker has a task with the id.
abbrev pub Free : Text → List Place → Type 0
Free k places =
    (j : ℕ) (x : Place) (t : Task) → get_elem? places j ≡ some x → task_at x ≡ some t → t.id ≢ k

set-Free :
    (k : Text) (places : List Place) (i : ℕ) (y : Place)
    → Free k places
    → ((t : Task) → task_at y ≡ some t → t.id ≢ k)
    → Free k (set places i y)
set-Free k places i y free new j x t h e = elim (get_elem?-set places i j y h) [
  | inl (same, g) ↦ new t (ap task_at g ∙ e)
  | inr (ne, g) ↦ free j x t g e
]

module _ {W : Type 0} (p : Pool W) (status : W → Text → TaskStatus) (laws : Laws p.store status)
    (tame : (kind : Text) (h : Handler W)
      → lookup Text-discrete kind p.handlers ≡ some h
      → IsTame status h) where
  pub mark-others :
      (w : W) (t : Task) (e : Option Text) (k : Text)
      → t.id ≢ k
      → status w k ≡ running
      → status (mark p w t e) k ≡ running
  unfolding mark
  mark-others w t (some e) k ne runs = laws.failed_others w t.id e k ne ∙ runs
  mark-others w t none k ne runs =
      if-both (λ x. status x k ≡ running) (same_text t.schedule [])
        (laws.done_others w t.id k ne ∙ runs) runs

  -- A running task that no worker has.
  pub record IsLost (k : Text) (s : State W) : Type 0 where
    pub runs : status s.world k ≡ running
    pub free : Free k s.places

  claim-IsLost : (k : Text) (s : State W) (i : ℕ) → IsLost k s → IsLost k (claim p s i)
  unfolding claim
  claim-IsLost k s i l =
      let name = p.worker_name i in
      elim (Sum-cases (p.store.claim_next s.world name).1) [
        | inl (e, eq) ↦
            rw (claim, eq) (record { runs = laws.error s.world name k eq ∙ l.runs; free = l.free })
        | inr (o, eq) ↦ elim (Option-cases o) [
          | inl f ↦
              let none_left = eq ∙ ap inr f in
              rw (claim, none_left)
                (record { runs = laws.idle s.world name k none_left ∙ l.runs; free = l.free })
          | inr (t, f) ↦
              let got = eq ∙ ap inr f in
              let other : t.id ≢ k = λ same.
                pending≢running
                  (sym (laws.was_pending s.world name got) ∙ ap (status s.world) same ∙ l.runs) in
              rw (claim, got)
                (record {
                  runs = laws.others s.world name k got other ∙ l.runs;
                  free =
                      set-Free k s.places i (executing t) l.free (λ u e same. other (cc (e, same)));
                })
        ]
      ]

  execute-IsLost :
      (k : Text) (s : State W) (i : ℕ) (t : Task)
      → get_elem? s.places i ≡ some (executing t)
      → IsLost k s
      → IsLost k (execute p s i t)
  unfolding execute
  execute-IsLost k s i t has l =
      let other = l.free i (executing t) t has refl in
      elim (Option-cases (lookup Text-discrete t.kind p.handlers)) [
        | inl e ↦
            rw (execute, e)
              (record {
                runs = laws.failed_others s.world t.id _ k other ∙ l.runs;
                free = set-Free k s.places i idle l.free (λ u e. cc);
              })
        | inr (h, e) ↦
            let polite = tame t.kind h e in
            rw (execute, e)
              (record {
                runs = polite.keeps_running s.world t k l.runs;
                free =
                    set-Free k s.places i (ended (h s.world t).task (h s.world t).error) l.free
                      (λ u e same. other (cc (e, same, polite.keeps_id s.world t)));
              })
      ]

  finish-IsLost :
      (k : Text) (s : State W) (i : ℕ) (t : Task) (e : Option Text)
      → get_elem? s.places i ≡ some (ended t e)
      → IsLost k s
      → IsLost k (finish p s i t e)
  unfolding finish
  finish-IsLost k s i t e has l = record {
    runs = mark-others s.world t e k (l.free i (ended t e) t has refl) l.runs;
    free = set-Free k s.places i idle l.free (λ u f. cc);
  }

  step-IsLost_at :
      (k : Text) (s : State W) (i : ℕ) (x : Place)
      → get_elem? s.places i ≡ some x
      → IsLost k s
      → IsLost k (step p s i)
  unfolding step
  step-IsLost_at k s i idle has l = rw (step, has) (claim-IsLost k s i l)
  step-IsLost_at k s i (executing t) has l = rw (step, has) (execute-IsLost k s i t has l)
  step-IsLost_at k s i (ended t e) has l = rw (step, has) (finish-IsLost k s i t e has l)

  step-IsLost : (k : Text) (s : State W) (i : ℕ) → IsLost k s → IsLost k (step p s i)
  unfolding step
  step-IsLost k s i l = elim (Option-cases (get_elem? s.places i)) [
    | inl e ↦ rw (step, e) l
    | inr (x, e) ↦ step-IsLost_at k s i x e l
  ]

  pub steps-IsLost : (is : List ℕ) (k : Text) (s : State W) → IsLost k s → IsLost k (steps p s is)
  unfolding steps
  steps-IsLost [] k s l = l
  steps-IsLost (i ∷ is) k s l = steps-IsLost is k (step p s i) (step-IsLost k s i l)
