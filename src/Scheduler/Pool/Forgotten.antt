-- ===== src/Scheduler/Pool/Forgotten.antt =====
-- What becomes of a task with a schedule whose handler has succeeded.
use golang_journey.Prelude.{
  ℕ, zero, suc, ◌≡◌, ◌≢◌, inl, inr, refl, sym, ap, ◌∙◌, List, [], ◌∷◌, Option, none, some,
  get_elem?, set, replicate, arith, Option-cases, Sum-cases,
}
use golang_journey.Prelude.Map.{lookup}
use golang_journey.Prelude.Text.{Text, Text-discrete}
use golang_journey.Scheduler.Pool.{
  TaskStatus, running, Task, Handler, Pool, State, Place, idle, executing, ended, start, claim,
  execute, mark, finish, step, steps,
}
use golang_journey.Scheduler.Pool.Lost.{
  Laws, IsTame, get_elem?-set, pending≢running, none≢some, task_at, mark-others, IsLost,
  steps-IsLost,
}

-- What holds of every task that a worker has.
abbrev Held : (Task → Type 0) → List Place → Type 0
Held P places =
    (j : ℕ) (x : Place) (t : Task) → get_elem? places j ≡ some x → task_at x ≡ some t → P t

-- The tasks of different workers have different ids.
abbrev Apart : List Place → Type 0
Apart places =
    (i j : ℕ) (x y : Place) (t u : Task)
    → i ≢ j
    → get_elem? places i ≡ some x
    → task_at x ≡ some t
    → get_elem? places j ≡ some y
    → task_at y ≡ some u
    → t.id ≢ u.id

-- The tasks of the other workers have an id other than this.
abbrev Others : List Place → ℕ → Text → Type 0
Others places i k =
    (j : ℕ) (x : Place) (u : Task)
    → i ≢ j
    → get_elem? places j ≡ some x
    → task_at x ≡ some u
    → k ≢ u.id

set-Apart :
    (places : List Place) (i : ℕ) (y : Place)
    → Apart places
    → ((t : Task) → task_at y ≡ some t → Others places i t.id)
    → Apart (set places i y)
set-Apart places i y apart new a b x x' t u ne h e k f = elim (get_elem?-set places i a y h) [
  | inl (m, g) ↦ elim (get_elem?-set places i b y k) [
    | inl (m', g') ↦ absurd (ne (sym m ∙ m'))
    | inr (nb, g') ↦ new t (ap task_at g ∙ e) b x' u nb g' f
  ]
  | inr (na, g) ↦ elim (get_elem?-set places i b y k) [
    | inl (m', g') ↦ λ same. new u (ap task_at g' ∙ f) a x t na g e (sym same)
    | inr (nb, g') ↦ apart a b x x' t u ne g e g' f
  ]
]

set-Held :
    (P : Task → Type 0) (places : List Place) (i : ℕ) (y : Place)
    → ((t : Task) → task_at y ≡ some t → P t)
    → ((j : ℕ) (x : Place) (t : Task)
        → i ≢ j
        → get_elem? places j ≡ some x
        → task_at x ≡ some t
        → P t)
    → Held P (set places i y)
set-Held P places i y new old j x t h e = elim (get_elem?-set places i j y h) [
  | inl (m, g) ↦ new t (ap task_at g ∙ e)
  | inr (ne, g) ↦ old j x t ne g e
]

idle_at :
    (n j : ℕ) (x : Place) (t : Task) → get_elem? (replicate n idle) j ≡ some x → task_at x ≢ some t
idle_at zero j x t h e = cc
idle_at (suc n) zero x t h e = cc
idle_at (suc n) (suc j) x t h e = idle_at n j x t h e

module _ {W : Type 0} (p : Pool W) (status : W → Text → TaskStatus) (laws : Laws p.store status)
    (tame : (kind : Text) (h : Handler W)
      → lookup Text-discrete kind p.handlers ≡ some h
      → IsTame status h) where
  -- A worker's task runs, and no other worker has it.
  record IsValid (s : State W) : Type 0 where
    pub runs : Held (λ t. status s.world t.id ≡ running) s.places
    pub apart : Apart s.places

  claim-IsValid : (s : State W) (i : ℕ) → IsValid s → IsValid (claim p s i)
  unfolding claim
  claim-IsValid s i v =
      let name = p.worker_name i in
      elim (Sum-cases (p.store.claim_next s.world name).1) [
        | inl (e, eq) ↦
            rw (claim, eq)
              (record {
                runs = λ j x t h f. laws.error s.world name t.id eq ∙ v.runs j x t h f;
                apart = v.apart;
              })
        | inr (o, eq) ↦ elim (Option-cases o) [
          | inl f ↦
              let none_left = eq ∙ ap inr f in
              rw (claim, none_left)
                (record {
                  runs = λ j x t h f. laws.idle s.world name t.id none_left ∙ v.runs j x t h f;
                  apart = v.apart;
                })
          | inr (t, f) ↦
              let got = eq ∙ ap inr f in
              let fresh : Others s.places i t.id = λ j x u ne h e same. pending≢running (
                sym (laws.was_pending s.world name got)
                ∙ ap (status s.world) same
                ∙ v.runs j x u h e) in
              let mine : (u : Task) → task_at (executing t) ≡ some u → t ≡ u = λ u e. cc in
              rw (claim, got)
                (record {
                  runs =
                      set-Held _ s.places i (executing t)
                        (λ u e.
                          ap (λ (r : Task). status (p.store.claim_next s.world name).0 r.id)
                            (sym (mine u e))
                          ∙ laws.now_running s.world name got)
                        (λ j x u ne h e.
                          laws.others s.world name u.id got (fresh j x u ne h e)
                          ∙ v.runs j x u h e);
                  apart = set-Apart s.places i (executing t) v.apart (λ u e j x r ne h f same.
                      fresh j x r ne h f (ap (λ (r : Task). r.id) (mine u e) ∙ same));
                })
        ]
      ]

  -- A worker that goes on from its task, with the same id or with none.
  moved-IsValid :
      (s : State W) (i : ℕ) (x y : Place) (t : Task) (w : W)
      → IsValid s
      → get_elem? s.places i ≡ some x
      → task_at x ≡ some t
      → ((u : Task) → task_at y ≡ some u → (u.id ≡ t.id) × (status w u.id ≡ running))
      → ((k : Text) → t.id ≢ k → status s.world k ≡ running → status w k ≡ running)
      → IsValid (record { world = w; places = set s.places i y })
  moved-IsValid s i x y t w v has e mine others = record {
    runs =
        set-Held _ s.places i y (λ u f. (mine u f).1)
          (λ j z u ne h f. others u.id (v.apart i j x z t u ne has e h f) (v.runs j z u h f));
    apart =
        set-Apart s.places i y v.apart
          (λ u f j z r ne h g same. v.apart i j x z t r ne has e h g (sym (mine u f).0 ∙ same));
  }

  execute-IsValid :
      (s : State W) (i : ℕ) (t : Task)
      → get_elem? s.places i ≡ some (executing t)
      → IsValid s
      → IsValid (execute p s i t)
  unfolding execute
  execute-IsValid s i t has v = elim (Option-cases (lookup Text-discrete t.kind p.handlers)) [
    | inl e ↦
        rw (execute, e)
          (moved-IsValid s i (executing t) idle t _ v has refl (λ u f. absurd (none≢some f))
            (λ k ne runs. laws.failed_others s.world t.id _ k ne ∙ runs))
    | inr (h, e) ↦
        let polite = tame t.kind h e in
        let after = h s.world t in
        let same : after.task.id ≡ t.id = polite.keeps_id s.world t in
        let still = polite.keeps_running s.world t t.id (v.runs i (executing t) t has refl) in
        rw (execute, e)
          (moved-IsValid s i (executing t) (ended after.task after.error) t _ v has refl
            (λ u f.
              let one : u.id ≡ t.id = cc (f, same) in (one, ap (status after.world) one ∙ still))
            (λ k ne runs. polite.keeps_running s.world t k runs))
  ]

  finish-IsValid :
      (s : State W) (i : ℕ) (t : Task) (e : Option Text)
      → get_elem? s.places i ≡ some (ended t e)
      → IsValid s
      → IsValid (finish p s i t e)
  unfolding finish
  finish-IsValid s i t e has v =
      moved-IsValid s i (ended t e) idle t _ v has refl (λ u f. absurd (none≢some f))
        (λ k ne runs. mark-others p status laws tame s.world t e k ne runs)

  step-IsValid_at :
      (s : State W) (i : ℕ) (x : Place)
      → get_elem? s.places i ≡ some x
      → IsValid s
      → IsValid (step p s i)
  unfolding step
  step-IsValid_at s i idle has v = rw (step, has) (claim-IsValid s i v)
  step-IsValid_at s i (executing t) has v = rw (step, has) (execute-IsValid s i t has v)
  step-IsValid_at s i (ended t e) has v = rw (step, has) (finish-IsValid s i t e has v)

  step-IsValid : (s : State W) (i : ℕ) → IsValid s → IsValid (step p s i)
  unfolding step
  step-IsValid s i v = elim (Option-cases (get_elem? s.places i)) [
    | inl e ↦ rw (step, e) v
    | inr (x, e) ↦ step-IsValid_at s i x e v
  ]

  steps-IsValid : (is : List ℕ) (s : State W) → IsValid s → IsValid (steps p s is)
  unfolding steps
  steps-IsValid [] s v = v
  steps-IsValid (i ∷ is) s v = steps-IsValid is (step p s i) (step-IsValid s i v)

  start-IsValid : (n : ℕ) (w : W) → IsValid (start p n w)
  unfolding start
  start-IsValid n w = record {
    runs = λ j x t h e. absurd (idle_at n j x t h e);
    apart = λ a b x y t u ne h e k f. absurd (idle_at n a x t h e);
  }

  mark-forgets : (w : W) (t : Task) → t.schedule ≢ [] → mark p w t none ≡ w
  unfolding mark
  mark-forgets w t scheduled = ground (arith, scheduled)

  -- For any store in which ClaimNext sets a pending task to running and returns it, or else
  -- leaves every status, and MarkDone and MarkFailed leave the other tasks, and for handlers
  -- that keep the id of their task and leave the tasks that run running, whatever else they
  -- change: when, after any interleaving of the claims, handlers and marks of any number of
  -- workers, a handler has succeeded and left its task with a schedule, the rest of executeTask
  -- leaves the task running, and so it stays whatever steps any workers take.
  pub steps-forgotten :
      (n : ℕ) (w : W) (is js : List ℕ) (i : ℕ) {t : Task}
      → get_elem? (steps p (start p n w) is).places i ≡ some (ended t none)
      → t.schedule ≢ []
      → status (steps p (step p (steps p (start p n w) is) i) js).world t.id ≡ running
  unfolding step finish
  steps-forgotten n w is js i {t} has scheduled =
      let s = steps p (start p n w) is in
      let v = steps-IsValid is (start p n w) (start-IsValid n w) in
      let lost : IsLost p status laws tame t.id (finish p s i t none) = record {
        runs = rw (mark-forgets s.world t scheduled) (v.runs i (ended t none) t has refl);
        free = λ j x u h e. elim (get_elem?-set s.places i j idle h) [
          | inl (m, g) ↦ absurd (none≢some (ap task_at g ∙ e))
          | inr (ne, g) ↦ λ same. v.apart i j (ended t none) x t u ne has refl g e (sym same)
        ];
      } in
      let after : IsLost p status laws tame t.id (step p s i) = rw (step, has) lost in
      (steps-IsLost p status laws tame js t.id (step p s i) after).runs
