-- ===== src/EdgeCache/Store/Refinement.antt =====
-- The store as its users see it: a list of keys and responses, most recently used first. Each
-- method of the store with its map and its list does what the plain operation does.
use golang_journey.Prelude.{
  ℕ, ◌≡◌, refl, ap, if_neg, [], ◌∷◌, Option, none, some, arith, if◌then◌else◌, length, Option-cases,
  inl, inr, Bool-cases,
}
use golang_journey.Prelude.Int64.{le_int}
use golang_journey.Prelude.Map.{lookup}
use golang_journey.Prelude.Text.{Text, Text-discrete}
use golang_journey.EdgeCache.Elements.{
  Entry, Elements, address_of-remove, value_of, remove_element, back, address_of, View, view, find,
  without, value_of-All, address_of-view, address_of-none,
}
use golang_journey.EdgeCache.Response.{CachedResponse}
use golang_journey.EdgeCache.Store.{
  Store, new, move_to_front, set_front, is_dead, get, evict, push, set, delete,
}
use golang_journey.EdgeCache.Store.Invariant.{
  IsValid, drop_last, length-view, back-address_of, removed-IsValid, fronted-IsValid, push-IsValid,
}

-- A live response moves to the front, a dead one goes.
unfoldable pub plain_get : View → Text → ℕ → View × Option CachedResponse
plain_get v key now = elim (find key v) [
  | none ↦ (v, none)
  | some r ↦ if is_dead r now then (without key v, none) else ((key, r) ∷ without key v, some r)
]

-- A new key goes to the front; the last entry of a full cache makes room for it.
unfoldable pub plain_set : ℕ → View → Text → CachedResponse → View
plain_set capacity v key r = elim (find key v) [
  | none ↦ (key, r) ∷ (if le_int capacity (length v) then drop_last v else v)
  | some _ ↦ (key, r) ∷ without key v
]

-- A store that does to its list what the plain operation does to the view.
pub record Refines (s : Store) (v : View) : Type 0 where
  pub valid : IsValid s
  pub shows : view s.lru ≡ v

back-none : (l : Elements) → back l ≡ none → view l ≡ drop_last (view l)
unfolding back
back-none [] h = refl
back-none (x ∷ []) h = absurd (ground (arith, h))
back-none (x ∷ y ∷ l) h = ap (◌∷◌ (x.1.key, x.1.resp)) (back-none (y ∷ l) h)

-- A key that the list lacks is missing from every part of it that `evict` leaves.
evict_absent :
    (s : Store) (k : Text)
    → IsValid s
    → address_of k s.lru ≡ none
    → address_of k (evict s).lru ≡ none
unfolding evict
evict_absent s k valid h = elim (Option-cases (back s.lru)) [
  | inl e ↦ ground (arith, e, h)
  | inr ((a, o), e) ↦
      let (found, _) = back-address_of s.lru a o valid.distinct e in
      ground (arith, e, h, address_of-remove o.key k s.lru a valid.distinct found)
]

moved_to_front :
    (a : ℕ) (l : Elements) {x : Entry}
    → value_of a l ≡ some x
    → move_to_front a l ≡ (a, x) ∷ remove_element a l
unfolding move_to_front
moved_to_front a l v = rw (v, move_to_front)

-- What the eviction of `Set` leaves.
evict-Refines :
    (s : Store)
    → IsValid s
    → Refines
        (evict s)
        (if le_int s.capacity (length (view s.lru)) then drop_last (view s.lru) else view s.lru)
unfolding evict
evict-Refines s valid = elim (Bool-cases (le_int s.capacity (length s.lru))) [
  | inr fits ↦ rw (fits, evict, length-view s.lru, fits) (record { valid = valid; shows = refl })
  | inl full ↦ elim (Option-cases (back s.lru)) [
    | inl e ↦
        rw (full, evict, e, length-view s.lru, full)
          (record { valid = valid; shows = back-none s.lru e })
    | inr ((a, o), e) ↦
        let (found, shown) = back-address_of s.lru a o valid.distinct e in
        rw (full, evict, e, length-view s.lru, full)
          (record { valid = removed-IsValid s valid o.key a found; shows = shown })
  ]
]

without_absent : (k : Text) (v : View) → find k v ≡ none → v ≡ without k v
unfolding find without
without_absent k [] h = refl
without_absent k ((j, r) ∷ v) h = elim (Text-discrete j k) [
  | yes same ↦ absurd (ground (arith, h, same))
  | no ne ↦ rw (if_neg _ ne) (ap (◌∷◌ (j, r)) (without_absent k v (ground (arith, h, ne))))
]

module _ (s : Store) (valid : IsValid s) (k : Text) where
  -- Get keeps the invariant of the cache, shows the list of the plain operation, with the key
  -- in front or a dead response gone, and returns its response.
  pub get-plain_get :
      (now : ℕ)
      → Refines (get s k now).0 (plain_get (view s.lru) k now).0
        × ((get s k now).1 ≡ (plain_get (view s.lru) k now).1)
  unfolding get plain_get
  get-plain_get now = elim (Option-cases (address_of k s.lru)) [
    | inl e ↦
        let missing = address_of-none k s.lru e in
        let absent : lookup Text-discrete k s.items ≡ none = ground (arith, valid.agree k, e) in
        rw (absent, get, missing, plain_get) (record { valid = valid; shows = refl }, refl)
    | inr (a, e) ↦
        let there : lookup Text-discrete k s.items ≡ some a = ground (arith, valid.agree k, e) in
        let (x, v, same, f, w) = address_of-view k s.lru a valid.distinct e in
        elim (Bool-cases (is_dead x.resp now)) [
          | inl dead ↦
              rw (there, get, v, f, plain_get, dead)
                (record { valid = removed-IsValid s valid k a e; shows = w }, refl)
          | inr live ↦
              rw (there, get, v, f, plain_get, live, moved_to_front a s.lru v)
                (
                  record {
                    valid =
                        fronted-IsValid s valid k a x e same (value_of-All _ s.lru a valid.fresh v);
                    shows = ground (arith, same, w);
                  },
                  refl,
                )
        ]
  ]

  -- Set keeps the invariant of the cache, and the list that the cache shows becomes that of the
  -- plain operation: the key first, and the least recently used entry gone if a new key came to
  -- a full cache.
  pub set-plain_set :
      (r : CachedResponse) → Refines (set s k r) (plain_set s.capacity (view s.lru) k r)
  unfolding set plain_set
  set-plain_set r = elim (Option-cases (address_of k s.lru)) [
    | inl e ↦
        let missing = address_of-none k s.lru e in
        let absent : lookup Text-discrete k s.items ≡ none = ground (arith, valid.agree k, e) in
        let room = evict-Refines s valid in
        rw (absent, set, missing, plain_set)
          (record {
            valid = push-IsValid (evict s) room.valid k r (evict_absent s k valid e);
            shows = unfold push in ap (◌∷◌ (k, r)) room.shows;
          })
    | inr (a, e) ↦
        let there : lookup Text-discrete k s.items ≡ some a = ground (arith, valid.agree k, e) in
        let (x, v, same, f, w) = address_of-view k s.lru a valid.distinct e in
        let small = value_of-All _ s.lru a valid.fresh v in
        rw (there, set, moved_to_front a s.lru v, f, plain_set)
          (unfold set_front in
            record {
              valid = fronted-IsValid s valid k a (record x { resp = r }) e same small;
              shows = ground (arith, same, w);
            })
  ]

  -- Delete keeps the invariant of the cache and shows the list without the key.
  pub delete-without : Refines (delete s k) (without k (view s.lru))
  unfolding delete
  delete-without = elim (Option-cases (address_of k s.lru)) [
    | inl e ↦
        let absent : lookup Text-discrete k s.items ≡ none = ground (arith, valid.agree k, e) in
        rw (absent, delete)
          (record {
            valid = valid;
            shows = without_absent k (view s.lru) (address_of-none k s.lru e);
          })
    | inr (a, e) ↦
        let there : lookup Text-discrete k s.items ≡ some a = ground (arith, valid.agree k, e) in
        let (x, v, same, f, w) = address_of-view k s.lru a valid.distinct e in
        rw (there, delete) (record { valid = removed-IsValid s valid k a e; shows = w })
  ]

-- A new store is valid and empty.
pub new-Refines : (capacity : ℕ) → Refines (new capacity) []
unfolding new lookup address_of
new-Refines capacity = record {
  valid = record { distinct = tt; agree = λ k. refl; fresh = tt };
  shows = refl;
}
