-- ===== src/EdgeCache/Coalescer/Invariant.antt =====
-- What holds of the calls and of the goroutines at any time.
use golang_journey.Prelude.{
  ℕ, ◌≡◌, ◌≢◌, ◌⊎◌, inl, inr, sym, subst, ◌∙◌, List, Option, none, some, get_elem?, set, ℕ_discrete,
  get_elem?-set_self, get_elem?-set_ne, get_elem?_lt,
}
use golang_journey.Prelude.Map.{lookup}
use golang_journey.Prelude.Text.{Text, Text-discrete}
use golang_journey.EdgeCache.Coalescer.{
  Call, pending, closed, Place, calling, fetching, leaving, waiting, returned, Coalescer,
}

module _ {R : Type 0} where
  -- The call that a goroutine has made and not yet taken out of the map.
  abbrev pub made : Place R → Option (Text × ℕ)
  made (fetching k c) = some (k, c)
  made (leaving k c) = some (k, c)
  made place = none

  abbrev pub IsClosed : List (Call R) → Text → ℕ → Type 0
  IsClosed calls k c = (result : R) × (get_elem? calls c ≡ some (closed k result))

  -- The call of a goroutine is as its place says.
  abbrev pub Fits : List (Call R) → Place R → Type 0
  Fits calls (calling k) = Unit
  Fits calls (fetching k c) = get_elem? calls c ≡ some (pending k)
  Fits calls (leaving k c) = IsClosed calls k c
  Fits calls (waiting k c) = (get_elem? calls c ≡ some (pending k)) ⊎ IsClosed calls k c
  Fits calls (returned k c result) = get_elem? calls c ≡ some (closed k result)

  pub record Maker (s : Coalescer R) (k : Text) (c : ℕ) : Type 0 where
    pub thread : ℕ
    pub place : Place R
    pub at_place : get_elem? s.places thread ≡ some place
    pub made_it : made place ≡ some (k, c)

  pub record IsSound (s : Coalescer R) : Type 0 where
    pub fits : (i : ℕ) (place : Place R) → get_elem? s.places i ≡ some place → Fits s.calls place
    pub listed :
        (c : ℕ) (k : Text)
        → get_elem? s.calls c ≡ some (pending k)
        → lookup Text-discrete k s.inflight ≡ some c
    pub maker : (k : Text) (c : ℕ) → lookup Text-discrete k s.inflight ≡ some c → Maker s k c
    pub held :
        (i : ℕ) (place : Place R) (k : Text) (c : ℕ)
        → get_elem? s.places i ≡ some place
        → made place ≡ some (k, c)
        → lookup Text-discrete k s.inflight ≡ some c
    pub single :
        (i j : ℕ) (place place' : Place R) (k : Text) (c c' : ℕ)
        → get_elem? s.places i ≡ some place
        → get_elem? s.places j ≡ some place'
        → made place ≡ some (k, c)
        → made place' ≡ some (k, c')
        → i ≡ j

  -- What a place comes to after the goroutine `i` has moved.
  pub moved :
      (places : List (Place R)) (i j : ℕ) {place new other : Place R}
      → get_elem? places i ≡ some place
      → get_elem? (set places i new) j ≡ some other
      → ((i ≡ j) × (other ≡ new)) ⊎ ((i ≢ j) × (get_elem? places j ≡ some other))
  moved places i j {place} {new} {other} at h = elim (ℕ_discrete i j) [
    | yes e ↦ inl (
      e,
      cc (
        subst (λ n. get_elem? (set places i new) n ≡ some other) (sym e) h,
        get_elem?-set_self places i new (get_elem?_lt places i at),
      ),
    )
    | no ne ↦ inr (ne, sym (get_elem?-set_ne places i j new ne) ∙ h)
  ]

  pub moved_self :
      (places : List (Place R)) (i : ℕ) {place new : Place R}
      → get_elem? places i ≡ some place
      → get_elem? (set places i new) i ≡ some new
  moved_self places i {place} {new} at = get_elem?-set_self places i new (get_elem?_lt places i at)
