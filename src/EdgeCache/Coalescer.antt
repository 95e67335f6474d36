-- ===== src/EdgeCache/Coalescer.antt =====
-- `coalescer.do` of projects/09-edge-cache-cdn/edge/proxy.go, run by any number of goroutines. A step
-- is what one goroutine does between two points where another can be seen to act: a region under
-- the mutex, the end of its fetch with the closing of the channel, or the receive from it. A fetch is
-- expected to return.
pub mod Invariant
pub mod Finish
pub mod Enter
pub mod Leave
pub mod Steps
pub mod Runs
pub mod Returns
mod Tests
use golang_journey.Prelude.{ℕ, ◌+◌, List, [], ◌∷◌, ◌++◌, Option, none, some, length, get_elem?, set}
use golang_journey.Prelude.Map.{lookup, insert, remove}
use golang_journey.Prelude.Text.{Text, Text-discrete}

module _ (R : Type 0) where
  -- `inflightCall` with its key: before and after `close(done)`, with what `fn` has returned.
  pub data Call : Type 0 where
    pending : Text → Call
    closed : Text → R → Call

  -- Where a goroutine is in `do`: before it, fetching as the maker of a call, after the close of
  -- its channel, waiting for another's call, or back from it with the result.
  pub data Place : Type 0 where
    calling : Text → Place
    fetching : Text → ℕ → Place
    leaving : Text → ℕ → Place
    waiting : Text → ℕ → Place
    returned : Text → ℕ → R → Place

  -- The addresses of the calls are their numbers in the order in which they are made.
  pub record Coalescer : Type 0 where
    pub inflight : List (Text × ℕ)
    pub calls : List Call
    pub places : List Place

module _ {R : Type 0} where
  abbrev pub callers : List Text → List (Place R)
  callers [] = []
  callers (k ∷ ks) = calling k ∷ callers ks

  -- The goroutines before their calls.
  pub start : List Text → Coalescer R
  start keys = record { inflight = []; calls = []; places = callers keys }

  pub move : Coalescer R → ℕ → Place R → Coalescer R
  move s i place = record s { places = set s.places i place }

  -- The first region under the mutex.
  pub enter : Coalescer R → ℕ → Text → Coalescer R
  enter s i key = elim (lookup Text-discrete key s.inflight) [
    | some c ↦ move s i (waiting key c)
    | none ↦
        let c = length s.calls in
        move
          (record s {
            calls = s.calls ++ pending key ∷ [];
            inflight = insert Text-discrete key c s.inflight;
          })
          i (fetching key c)
  ]

  -- `call.resp, call.err = fn()` and `close(call.done)`
  pub finish : Coalescer R → ℕ → Text → ℕ → R → Coalescer R
  finish s i key c result =
      move (record s { calls = set s.calls c (closed key result) }) i (leaving key c)

  -- `return call.resp, call.err`, once the channel is closed.
  pub return_result : Coalescer R → ℕ → Text → ℕ → Option (Coalescer R)
  return_result s i key c = elim (get_elem? s.calls c) [
    | some (closed k result) ↦ some (move s i (returned key c result))
    | other ↦ none
  ]

  -- A step of the goroutine `i`, whose fetch would return `result` now; `none` if it is blocked or
  -- has returned.
  pub step : Coalescer R → ℕ → R → Option (Coalescer R)
  step s i result = elim (get_elem? s.places i) [
    | none ↦ none
    | some (calling key) ↦ some (enter s i key)
    | some (fetching key c) ↦ some (finish s i key c result)
    | some (leaving key c) ↦
        return_result (record s { inflight = remove Text-discrete key s.inflight }) i key c
    | some (waiting key c) ↦ return_result s i key c
    | some (returned key c r) ↦ none
  ]

  -- The steps of a schedule; a goroutine that cannot move is passed over.
  pub run : Coalescer R → List (ℕ × R) → Coalescer R
  run s [] = s
  run s ((i, result) ∷ schedule) = elim (step s i result) [
    | none ↦ run s schedule
    | some s' ↦ run s' schedule
  ]
