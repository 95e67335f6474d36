-- ===== src/EdgeCache/Store/Lifetimes.antt =====
-- When the store answers, and how much it holds.
use golang_journey.Prelude.{
  ℕ, suc, ◌-◌, ◌≡◌, ◌↔◌, ◌⊎◌, ◌≤◌, ◌<◌, sym, ap, ◌∙◌, [], ◌∷◌, some, arith, true, length,
  Option-cases, Bool-cases, inl, inr,
}
use golang_journey.Prelude.Int64.{half, le_int}
use golang_journey.Prelude.Text.{Text}
use golang_journey.EdgeCache.Elements.{View, view, find, without}
use golang_journey.EdgeCache.Response.{CachedResponse, is_expired, is_stale}
use golang_journey.EdgeCache.Store.{Store, is_dead, get, set}
use golang_journey.EdgeCache.Store.Invariant.{IsValid, drop_last, length-view}
use golang_journey.EdgeCache.Store.Refinement.{plain_get, plain_set, get-plain_get, set-plain_set}

is_dead_iff :
    (r : CachedResponse) (now : ℕ)
    → (is_dead r now ≡ true) ↔ ((r.expires < now) × (r.stale_until ≤ now))
unfolding is_dead is_stale is_expired
is_dead_iff r now = ground arith

plain_get_iff :
    (v : View) (k : Text) (now : ℕ) (r : CachedResponse)
    → ((plain_get v k now).1 ≡ some r)
      ↔ ((find k v ≡ some r) × ((now ≤ r.expires) ⊎ (now < r.stale_until)))
unfolding plain_get
plain_get_iff v k now r = elim (Option-cases (find k v)) [
  | inl e ↦ ground (arith, e)
  | inr (x, e) ↦ ground (arith, e, is_dead_iff x now)
]

-- On a valid cache Get answers with exactly the responses that it shows under the key and that
-- have not expired, or are still in their stale window.
pub get_iff :
    (s : Store) (k : Text) (now : ℕ) (r : CachedResponse)
    → IsValid s
    → ((get s k now).1 ≡ some r)
      ↔ ((find k (view s.lru) ≡ some r) × ((now ≤ r.expires) ⊎ (now < r.stale_until)))
get_iff s k now r valid = rw ((get-plain_get s valid k now).1) (plain_get_iff (view s.lru) k now r)

find-plain_set :
    (capacity : ℕ) (v : View) (k : Text) (r : CachedResponse)
    → find k (plain_set capacity v k r) ≡ some r
unfolding plain_set find
find-plain_set capacity v k r = elim (Option-cases (find k v)) [
  | inl e ↦ ground (arith, e)
  | inr (x, e) ↦ ground (arith, e)
]

-- A response that is stored in a valid cache is read back as long as it has not expired or is in
-- its stale window.
pub get-set :
    (s : Store) (k : Text) (now : ℕ) (r : CachedResponse)
    → IsValid s
    → (now ≤ r.expires) ⊎ (now < r.stale_until)
    → (get (set s k r) k now).1 ≡ some r
get-set s k now r valid live =
    let after = set-plain_set s valid k r in
    (get_iff (set s k r) k now r after.valid).1
      (rw (after.shows) (find-plain_set s.capacity (view s.lru) k r), live)

length-drop_last : (v : View) → length (drop_last v) ≤ length v - 1
length-drop_last [] = omega arith
length-drop_last (x ∷ []) = omega arith
length-drop_last (x ∷ y ∷ v) = omega (arith, length-drop_last (y ∷ v))

length-without :
    (k : Text) (v : View) {r : CachedResponse}
    → find k v ≡ some r
    → suc (length (without k v)) ≡ length v
unfolding find without
length-without k [] h = cc
length-without k ((j, x) ∷ v) {r} h = ground (arith, h, length-without k v {r = r})

length-plain_set :
    (n capacity : ℕ) (v : View) (k : Text) (r : CachedResponse)
    → n < half
    → le_int capacity n ≡ true
    → 1 ≤ n
    → length v ≤ n
    → length (plain_set capacity v k r) ≤ n
unfolding plain_set
length-plain_set n capacity v k r small c p h = elim (Option-cases (find k v)) [
  | inl e ↦ elim (Bool-cases (le_int capacity (length v))) [
    | inl full ↦ rw (plain_set, e, full) (omega (arith, length-drop_last v))
    | inr fits ↦ rw (plain_set, e, fits) (ground (arith, fits, c, small, h))
  ]
  | inr (x, e) ↦ ground (arith, e, length-without k v e)
]

-- Set never makes a valid cache hold more than its capacity, or one response if the capacity is 0
-- or negative.
pub length-set_le :
    (n : ℕ) (s : Store) (k : Text) (r : CachedResponse)
    → IsValid s
    → n < half
    → le_int s.capacity n ≡ true
    → 1 ≤ n
    → length s.lru ≤ n
    → length (set s k r).lru ≤ n
length-set_le n s k r valid small c p h =
    let after = set-plain_set s valid k r in
    let size : length (set s k r).lru ≡ length (plain_set s.capacity (view s.lru) k r) =
      sym (length-view _) ∙ ap (λ (v : View). length v) after.shows in
    rw size (length-plain_set n s.capacity (view s.lru) k r small c p (rw (length-view s.lru) h))
