-- ===== src/Scheduler/Pool.antt =====
-- scheduler/worker/pool.go, and the types of scheduler/store/store.go. The store is an interface of
-- which the pool calls three methods, and ignores the errors of two. A handler gets the task by its
-- address: it may change the task, the store and whatever else it reaches. `%q` is a parameter. A step
-- of a worker is a claim, a handler, or the mark that follows it. The waits between the polls are not
-- modelled.
pub mod Lost
pub mod Forgotten
mod Tests
use golang_journey.Prelude.{
  ℕ, zero, suc, List, [], ◌∷◌, ◌++◌, Option, none, some, ◌⊎◌, inl, inr, get_elem?, set, replicate,
  if◌then◌else◌,
}
use golang_journey.Prelude.Map.{lookup, insert}
use golang_journey.Prelude.Text.{Text, Text-discrete, bytes, same_text}

pub data TaskStatus : Type 0 where
  pending running done failed dead : TaskStatus

pub record Task : Type 0 where
  pub id : Text
  pub kind : Text
  pub payload : Text
  pub status : TaskStatus
  pub schedule : Text
  pub next_run_at : ℕ
  pub attempts : ℕ
  pub max_attempts : ℕ
  pub last_error : Text
  pub worker_id : Text
  pub created_at : ℕ
  pub updated_at : ℕ

-- `Store`: each method with its error, if any.
pub record Store (W : Type 0) : Type 0 where
  pub claim_next : W → Text → W × (Text ⊎ Option Task)
  pub mark_done : W → Text → W × Option Text
  pub mark_failed : W → Text → Text → W × Option Text

-- What a handler leaves of the world and of its task, and its error.
pub record Handled (W : Type 0) : Type 0 where
  pub world : W
  pub task : Task
  pub error : Option Text

-- `HandlerFunc`
abbrev pub Handler : Type 0 → Type 0
Handler W = W → Task → Handled W

-- The part of `Pool` that the workers share, and the names `worker-0`, `worker-1`, ...
pub record Pool (W : Type 0) : Type 0 where
  pub store : Store W
  pub handlers : List (Text × Handler W)
  pub quote : Text → Text
  pub worker_name : ℕ → Text

pub register : {W : Type 0} → Pool W → Text → Handler W → Pool W
register p kind h = record p { handlers = insert Text-discrete kind h p.handlers }

-- Where a worker is: before a claim, with a task that it has claimed, or with the task and the error
-- that a handler has left.
pub data Place : Type 0 where
  idle : Place
  executing : Task → Place
  ended : Task → Option Text → Place

-- The state of the world with the store, and of the workers.
pub record State (W : Type 0) : Type 0 where
  pub world : W
  pub places : List Place

module _ {W : Type 0} (p : Pool W) where
  -- `Start` with a concurrency.
  pub start : ℕ → W → State W
  start n w = record { world = w; places = replicate n idle }

  -- What `ClaimNext` gives to the worker; on an error and on no task it polls again.
  pub claim : State W → ℕ → State W
  claim s i =
      let (w, claimed) = p.store.claim_next s.world (p.worker_name i) in
      elim claimed [
        | inl e ↦ record s { world = w }
        | inr none ↦ record s { world = w }
        | inr (some t) ↦ record { world = w; places = set s.places i (executing t) }
      ]

  -- `executeTask` up to the end of the handler, or to its end if there is none.
  pub execute : State W → ℕ → Task → State W
  execute s i t = elim (lookup Text-discrete t.kind p.handlers) [
    | none ↦
        let message = bytes "no handler registered for type " ++ p.quote t.kind in
        record {
          world = (p.store.mark_failed s.world t.id message).0;
          places = set s.places i idle;
        }
    | some h ↦
        let after = h s.world t in
        record { world = after.world; places = set s.places i (ended after.task after.error) }
  ]

  -- `executeTask` behind the handler, at the task that it has left.
  pub mark : W → Task → Option Text → W
  mark w t (some e) = (p.store.mark_failed w t.id e).0
  mark w t none = if same_text t.schedule [] then (p.store.mark_done w t.id).0 else w

  pub finish : State W → ℕ → Task → Option Text → State W
  finish s i t e = record { world = mark s.world t e; places = set s.places i idle }

  -- One step of the loop of `runWorker` of the worker `i`.
  pub step : State W → ℕ → State W
  step s i = elim (get_elem? s.places i) [
    | none ↦ s
    | some idle ↦ claim s i
    | some (executing t) ↦ execute s i t
    | some (ended t e) ↦ finish s i t e
  ]

  -- The workers' steps in any order.
  pub steps : State W → List ℕ → State W
  steps s [] = s
  steps s (i ∷ is) = steps (step s i) is
