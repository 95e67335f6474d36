-- ===== src/EdgeCache/Store.antt =====
-- The store of projects/09-edge-cache-cdn/edge/cache/store.go. Every method holds the mutex, so it
-- is one step; the time of a call is an argument, and the capacity is an int. The map takes
-- a key to the address of its list element.
pub mod Invariant
pub mod Refinement
pub mod Runs
pub mod Lifetimes
mod Tests
use golang_journey.Prelude.{
  ℕ, ◌+◌, Bool, not, ◌&&◌, List, [], ◌∷◌, Option, none, some, if◌then◌else◌, length,
}
use golang_journey.Prelude.Int64.{le_int}
use golang_journey.Prelude.Map.{lookup, insert, remove}
use golang_journey.Prelude.Text.{Text, Text-discrete, starts_with}
use golang_journey.EdgeCache.Elements.{Entry, Elements, value_of, remove_element, back}
use golang_journey.EdgeCache.Response.{CachedResponse, is_expired, is_stale}

pub record Store : Type 0 where
  pub capacity : ℕ
  pub items : List (Text × ℕ)
  pub lru : Elements
  pub next : ℕ  -- the next free address

unfoldable pub new : ℕ → Store
new capacity = record { capacity = capacity; items = []; lru = []; next = 0 }

-- `l.MoveToFront(el)`
unfoldable pub move_to_front : ℕ → Elements → Elements
move_to_front el l = elim (value_of el l) [ none ↦ l | some e ↦ (el, e) ∷ remove_element el l ]

-- Neither fresh nor within the stale window.
unfoldable pub is_dead : CachedResponse → ℕ → Bool
is_dead r now = not (is_stale r now) && is_expired r now

-- `Get`; `none` is the nil response. A key whose element is not in the list does not occur.
unfoldable pub get : Store → Text → ℕ → Store × Option CachedResponse
get s key now = elim (lookup Text-discrete key s.items) [
  | none ↦ (s, none)
  | some el ↦ elim (value_of el s.lru) [
    | none ↦ (s, none)
    | some e ↦
        if is_dead e.resp now
        then (
          record s { items = remove Text-discrete key s.items; lru = remove_element el s.lru },
          none,
        )
        else (record s { lru = move_to_front el s.lru }, some e.resp)
  ]
]

-- `el.Value.(*entry).resp = resp`, at an element that has been moved to the front.
unfoldable pub set_front : CachedResponse → Elements → Elements
set_front resp [] = []
set_front resp ((a, e) ∷ l) = (a, record e { resp = resp }) ∷ l

-- The eviction of `Set`.
unfoldable pub evict : Store → Store
evict s =
    if le_int s.capacity (length s.lru)
    then (elim (back s.lru) [
      | none ↦ s
      | some (a, oldest) ↦ record s {
        items = remove Text-discrete oldest.key s.items;
        lru = remove_element a s.lru;
      }
    ])
    else s

-- `PushFront`, and the map's new entry.
unfoldable pub push : Store → Text → CachedResponse → Store
push s key resp = record s {
  items = insert Text-discrete key s.next s.items;
  lru = (s.next, record { key = key; resp = resp }) ∷ s.lru;
  next = s.next + 1;
}

unfoldable pub set : Store → Text → CachedResponse → Store
set s key resp = elim (lookup Text-discrete key s.items) [
  | some el ↦ record s { lru = set_front resp (move_to_front el s.lru) }
  | none ↦ push (evict s) key resp
]

pub delete : Store → Text → Store
delete s key = elim (lookup Text-discrete key s.items) [
  | none ↦ s
  | some el ↦ record s { items = remove Text-discrete key s.items; lru = remove_element el s.lru }
]

-- The loop of `Purge` over the entries of the map, with its counter.
pub purge_from : Text → List (Text × ℕ) → Store → ℕ → Store × ℕ
purge_from prefix [] s count = (s, count)
purge_from prefix ((key, el) ∷ entries) s count =
    let rest = purge_from prefix entries in
    if starts_with prefix key
    then rest (record s { items = remove Text-discrete key s.items; lru = remove_element el s.lru })
        (count + 1)
    else rest s count

pub purge : Store → Text → Store × ℕ
purge s prefix = purge_from prefix s.items s 0

pub stats : Store → ℕ × ℕ
stats s = (length s.lru, s.capacity)
