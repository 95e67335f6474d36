-- ===== src/Scheduler/Pool/Tests.antt =====
-- A store of one task with a schedule, and two workers.
use golang_journey.Prelude.{
  ◌≡◌, ◌≢◌, refl, subst, arith, [], ◌∷◌, Option, none, some, ◌⊎◌, inl, inr, ite, if_pos,
}
use golang_journey.Prelude.Map.{lookup}
use golang_journey.Prelude.Text.{Text, Text-discrete, bytes}
use golang_journey.Scheduler.Pool.{
  TaskStatus, pending, running, done, failed, dead, Task, Handler, Store, Pool, step, steps, start,
  execute, claim,
}
use golang_journey.Scheduler.Pool.Lost.{Laws, IsTame}
use golang_journey.Scheduler.Pool.Forgotten.{steps-forgotten}

abbrev report : Task
report = record {
  id = bytes "r";
  kind = bytes "mail";
  payload = [];
  status = pending;
  schedule = bytes "* * * * *";
  next_run_at = 0;
  attempts = 0;
  max_attempts = 3;
  last_error = [];
  worker_id = [];
  created_at = 0;
  updated_at = 0;
}

-- The store is the status of the task.
claim_one : TaskStatus → TaskStatus × (Text ⊎ Option Task)
claim_one pending = (running, inr (some report))
claim_one running = (running, inr none)
claim_one done = (done, inr none)
claim_one failed = (failed, inr none)
claim_one dead = (dead, inr none)

abbrev one_task : Store TaskStatus
one_task = record {
  claim_next = λ w n. claim_one w;
  mark_done = λ w id. (ite (Text-discrete id report.id) done w, none);
  mark_failed = λ w id e. (ite (Text-discrete id report.id) dead w, none);
}

abbrev status_of : TaskStatus → Text → TaskStatus
status_of w k = ite (Text-discrete k report.id) w dead

-- A write at an id leaves the status of another.
write-others :
    (w v : TaskStatus) (id k : Text)
    → id ≢ k
    → status_of (ite (Text-discrete id report.id) v w) k ≡ status_of w k
write-others w v id k ne = ground (arith, ne)

claim-report :
    (w : TaskStatus) {t : Task} → (claim_one w).1 ≡ inr (some t) → (w ≡ pending) × (report ≡ t)
unfolding claim_one
claim-report pending h = (refl, cc)
claim-report running h = cc
claim-report done h = cc
claim-report failed h = cc
claim-report dead h = cc

claim-idle : (w : TaskStatus) → (claim_one w).1 ≡ inr none → (claim_one w).0 ≡ w
unfolding claim_one
claim-idle pending h = cc
claim-idle running h = refl
claim-idle done h = refl
claim-idle failed h = refl
claim-idle dead h = refl

claim-error : (w : TaskStatus) {e : Text} → (claim_one w).1 ≡ inl e → (claim_one w).0 ≡ w
unfolding claim_one
claim-error pending h = cc
claim-error running h = refl
claim-error done h = refl
claim-error failed h = refl
claim-error dead h = refl

other_status : (w v : TaskStatus) (k : Text) → report.id ≢ k → status_of w k ≡ status_of v k
other_status w v k ne = ground (arith, ne)

status_of-report : (w : TaskStatus) → status_of w report.id ≡ w
status_of-report w = if_pos (Text-discrete report.id report.id) refl w dead

claimed :
    (w : TaskStatus) {t : Task}
    → (claim_one w).1 ≡ inr (some t)
    → (status_of w t.id ≡ pending)
      × (status_of (claim_one w).0 t.id ≡ running)
      × ((k : Text) → t.id ≢ k → status_of (claim_one w).0 k ≡ status_of w k)
unfolding claim_one
claimed pending h =
    subst
      (λ (u : Task).
        (status_of pending u.id ≡ pending)
        × (status_of running u.id ≡ running)
        × ((k : Text) → u.id ≢ k → status_of running k ≡ status_of pending k))
      (claim-report pending h).1
      (
        status_of-report pending,
        status_of-report running,
        λ k ne. other_status running pending k ne,
      )
claimed running h = cc
claimed done h = cc
claimed failed h = cc
claimed dead h = cc

one_task-Laws : Laws one_task status_of
unfolding claim_one
one_task-Laws = record {
  was_pending = λ w n h. (claimed w h).0;
  now_running = λ w n h. (claimed w h).1;
  others = λ w n k h ne. (claimed w h).2 k ne;
  idle = λ w n k h. rw (claim-idle w h) refl;
  error = λ w n k h. rw (claim-error w h) refl;
  done_others = λ w id k ne. write-others w done id k ne;
  failed_others = λ w id e k ne. write-others w dead id k ne;
}

-- It counts itself as an attempt.
abbrev mail : Handler TaskStatus
mail w t = record { world = w; task = record t { attempts = 1 }; error = none }

abbrev pool : Pool TaskStatus
pool = record {
  store = one_task;
  handlers = (bytes "mail", mail) ∷ [];
  quote = λ t. t;
  worker_name = λ i. [];
}

mail-IsTame : IsTame status_of mail
mail-IsTame = record { keeps_id = λ w t. refl; keeps_running = λ w t k runs. runs }

only_one : {P A : Type 0} (d : Dec P) (x y : A) → ite d (some x) none ≡ some y → x ≡ y
only_one (yes e) x y h = cc
only_one (no ne) x y h = cc

pool-IsTame :
    (kind : Text) (h : Handler TaskStatus)
    → lookup Text-discrete kind pool.handlers ≡ some h
    → IsTame status_of h
unfolding lookup
pool-IsTame kind h e =
    subst (IsTame status_of) (only_one (Text-discrete (bytes "mail") kind) mail h e) mail-IsTame

-- Worker 0 has claimed the task and run its handler; it marks nothing, and no later step does.
steps-forgotten_example :
    status_of
      (steps pool
        (step pool (steps pool (start pool 2 pending) (0 ∷ 1 ∷ 0 ∷ [])) 0)
        (1 ∷ 0 ∷ 1 ∷ [])).world
      report.id
    ≡ running
unfolding steps step start claim execute claim_one lookup Text-discrete
steps-forgotten_example =
    steps-forgotten pool status_of one_task-Laws pool-IsTame 2 pending (0 ∷ 1 ∷ 0 ∷ [])
      (1 ∷ 0 ∷ 1 ∷ []) 0 {t = record report { attempts = 1 }} refl (λ e. cc)
