-- ===== src/EdgeCache/Store/Runs.antt =====
-- Any sequence of calls of the store, against the plain list.
use golang_journey.Prelude.{ℕ, ◌≡◌, refl, List, [], ◌∷◌, Option, none, arith, subst}
use golang_journey.Prelude.Text.{Text}
use golang_journey.EdgeCache.Elements.{View, view, without}
use golang_journey.EdgeCache.Response.{CachedResponse}
use golang_journey.EdgeCache.Store.{Store, new, get, evict, push, set, delete}
use golang_journey.EdgeCache.Store.Refinement.{
  plain_get, plain_set, Refines, get-plain_get, set-plain_set, delete-without, new-Refines,
}

pub data Operation : Type 0 where
  getting : Text → ℕ → Operation
  setting : Text → CachedResponse → Operation
  deleting : Text → Operation

pub operate : Store → Operation → Store × Option CachedResponse
operate s (getting k now) = get s k now
operate s (setting k r) = (set s k r, none)
operate s (deleting k) = (delete s k, none)

-- The calls in their order, and what they return.
pub operate_all : Store → List Operation → Store × List (Option CachedResponse)
operate_all s [] = (s, [])
operate_all s (o ∷ os) =
    let (s', r) = operate s o in let (s'', rs) = operate_all s' os in (s'', r ∷ rs)

pub plain : ℕ → View → Operation → View × Option CachedResponse
plain capacity v (getting k now) = plain_get v k now
plain capacity v (setting k r) = (plain_set capacity v k r, none)
plain capacity v (deleting k) = (without k v, none)

pub plain_all : ℕ → View → List Operation → View × List (Option CachedResponse)
plain_all capacity v [] = (v, [])
plain_all capacity v (o ∷ os) =
    let (v', r) = plain capacity v o in let (v'', rs) = plain_all capacity v' os in (v'', r ∷ rs)

capacity-get : (s : Store) (k : Text) (now : ℕ) → (get s k now).0.capacity ≡ s.capacity
unfolding get
capacity-get s k now = ground arith

capacity-evict : (s : Store) → (evict s).capacity ≡ s.capacity
unfolding evict
capacity-evict s = ground arith

capacity-set : (s : Store) (k : Text) (r : CachedResponse) → (set s k r).capacity ≡ s.capacity
unfolding set push
capacity-set s k r = ground (arith, capacity-evict s)

capacity-delete : (s : Store) (k : Text) → (delete s k).capacity ≡ s.capacity
unfolding delete
capacity-delete s k = ground arith

-- One call on a store and on the list that it shows.
record Follows (capacity : ℕ) (v : View) (r : Option CachedResponse)
    (t : Store × Option CachedResponse) : Type 0 where
  pub refines : Refines t.0 v
  pub room : t.0.capacity ≡ capacity
  pub answer : t.1 ≡ r

operate-Follows :
    (s : Store) (o : Operation) (v : View)
    → Refines s v
    → Follows s.capacity (plain s.capacity v o).0 (plain s.capacity v o).1 (operate s o)
unfolding operate plain
operate-Follows s (getting k now) v h =
    let step = get-plain_get s h.valid k now in
    rw (← h.shows) (record { refines = step.0; room = capacity-get s k now; answer = step.1 })
operate-Follows s (setting k r) v h =
    rw (← h.shows)
      (record { refines = set-plain_set s h.valid k r; room = capacity-set s k r; answer = refl })
operate-Follows s (deleting k) v h =
    rw (← h.shows)
      (record { refines = delete-without s h.valid k; room = capacity-delete s k; answer = refl })

operate_from :
    (os : List Operation) (capacity : ℕ) (s : Store) (v : View)
    → s.capacity ≡ capacity
    → Refines s v
    → ((operate_all s os).1 ≡ (plain_all capacity v os).1)
      × (view (operate_all s os).0.lru ≡ (plain_all capacity v os).0)
unfolding operate_all plain_all
operate_from [] capacity s v room h = (refl, h.shows)
operate_from (o ∷ os) capacity s v room h =
    let step : Follows capacity (plain capacity v o).0 (plain capacity v o).1 (operate s o) =
      subst (λ c. Follows c (plain c v o).0 (plain c v o).1 (operate s o)) room
        (operate-Follows s o v h) in
    let rest =
      operate_from os capacity (operate s o).0 (plain capacity v o).0 step.room step.refines in
    (rw (step.answer, rest.0) refl, rest.1)

-- From a new store of any capacity, any sequence of Get, Set and Delete returns the responses
-- that the plain list of keys and responses, most recently used first, returns, and leaves the
-- cache showing that list: a response that is got or set moves to the front, a dead one goes, and
-- a new key in a full cache drops the last.
pub operate_all-plain_all :
    (capacity : ℕ) (os : List Operation)
    → ((operate_all (new capacity) os).1 ≡ (plain_all capacity [] os).1)
      × (view (operate_all (new capacity) os).0.lru ≡ (plain_all capacity [] os).0)
unfolding new
operate_all-plain_all capacity os =
    operate_from os capacity (new capacity) [] refl (new-Refines capacity)
