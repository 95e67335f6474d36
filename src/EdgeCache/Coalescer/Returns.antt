-- ===== src/EdgeCache/Coalescer/Returns.antt =====
-- After any schedule every goroutine can still come back: no receive waits for ever.
use golang_journey.Prelude.{
  ℕ, zero, suc, ◌+◌, ◌*◌, ◌≤◌, ◌<◌, ◌≡◌, ◌⊎◌, inl, inr, refl, sym, ap, List, [], ◌∷◌, some, arith,
  length, get_elem?, set, All, Option-cases,
}
use golang_journey.Prelude.Map.{lookup, remove}
use golang_journey.Prelude.Text.{Text, Text-discrete}
use golang_journey.EdgeCache.Coalescer.{
  pending, closed, Place, calling, fetching, leaving, waiting, returned, Coalescer, callers, start,
  move, enter, finish, return_result, step, run,
}
use golang_journey.EdgeCache.Coalescer.Invariant.{made, Fits, IsSound}
use golang_journey.EdgeCache.Coalescer.Steps.{step-IsSound}
use golang_journey.EdgeCache.Coalescer.Runs.{run-IsSound}

module _ {R : Type 0} where
  abbrev pub IsReturned : Place R → Type 0
  IsReturned (returned k c r) = Unit
  IsReturned place = ⊥

  -- The steps that a goroutine has still to make.
  abbrev pub cost : Place R → ℕ
  cost (calling k) = 3
  cost (fetching k c) = 2
  cost (leaving k c) = 1
  cost (waiting k c) = 1
  cost (returned k c r) = 0

  abbrev pub work : List (Place R) → ℕ
  work [] = 0
  work (place ∷ places) = cost place + work places

  work-set :
      (places : List (Place R)) (i : ℕ) (new : Place R) {place : Place R}
      → get_elem? places i ≡ some place
      → cost new < cost place
      → work (set places i new) < work places
  work-set [] i new h less = cc
  work-set (x ∷ xs) zero new {place} h less =
      let same : cost x ≡ cost place = ap cost (cc h) in omega (arith, less, same)
  work-set (x ∷ xs) (suc i) new h less = omega (arith, work-set xs i new h less)

  same_places : {a b : Coalescer R} → some a ≡ some b → b.places ≡ a.places
  same_places {a} {b} h = let e : a ≡ b = cc h in ap (λ (s : Coalescer R). s.places) (sym e)

  step-work :
      (s : Coalescer R) (i : ℕ) (result : R) (s' : Coalescer R)
      → step s i result ≡ some s'
      → work s'.places < work s.places
  unfolding step enter finish return_result move
  step-work s i result s' h = elim (Option-cases (get_elem? s.places i)) [
    | inl at ↦ absurd (cc (rw (step, at) at h))
    | inr (calling k, at) ↦ elim (Option-cases (lookup Text-discrete k s.inflight)) [
      | inl free ↦
          less (fetching k (length s.calls)) at (omega arith)
            (same_places (rw (step, at, enter, free) at h))
      | inr (c, there) ↦
          less (waiting k c) at (omega arith) (same_places (rw (step, at, enter, there) at h))
    ]
    | inr (fetching k c, at) ↦
        less (leaving k c) at (omega arith) (same_places (rw (step, at) at h))
    | inr (leaving k c, at) ↦ back _ k c at (omega arith) (rw (step, at) at h)
    | inr (waiting k c, at) ↦ back _ k c at (omega arith) (rw (step, at) at h)
    | inr (returned k c r, at) ↦ absurd (cc (rw (step, at) at h))
  ]
    where
      less :
          {place : Place R} (new : Place R)
          → get_elem? s.places i ≡ some place
          → cost new < cost place
          → s'.places ≡ set s.places i new
          → work s'.places < work s.places
      less new at w e = rw e (work-set s.places i new at w)

      back :
          {place : Place R} (inflight : List (Text × ℕ)) (k : Text) (c : ℕ)
          → get_elem? s.places i ≡ some place
          → 0 < cost place
          → return_result (record s { inflight = inflight }) i k c ≡ some s'
          → work s'.places < work s.places
      back {place} inflight k c at pos g = elim (Option-cases (get_elem? s.calls c)) [
        | inl e ↦ absurd (cc (rw (return_result, e) at g))
        | inr (pending k', e) ↦ absurd (cc (rw (return_result, e) at g))
        | inr (closed k' r, e) ↦
            less (returned k c r) at pos (same_places (rw (return_result, e) at g))
      ]

  unreturned :
      (places : List (Place R))
      → All IsReturned places
        ⊎ ((i : ℕ) × (place : Place R) × (get_elem? places i ≡ some place) × (IsReturned place → ⊥))
  unreturned [] = inl tt
  unreturned (place ∷ places) = elim (decide place) [
    | inr no_return ↦ inr (zero, place, refl, no_return)
    | inl back ↦ elim (unreturned places) [
      | inl rest ↦ inl (back, rest)
      | inr (i, other, at, no_return) ↦ inr (suc i, other, at, no_return)
    ]
  ]
    where
      decide : (place : Place R) → IsReturned place ⊎ (IsReturned place → ⊥)
      decide (returned k c r) = inl tt
      decide (calling k) = inr (λ x. x)
      decide (fetching k c) = inr (λ x. x)
      decide (leaving k c) = inr (λ x. x)
      decide (waiting k c) = inr (λ x. x)

  -- A goroutine that can take a step, whatever its fetch returns.
  abbrev pub CanMove : Coalescer R → ℕ → Type 0
  CanMove s i = (result : R) → (s' : Coalescer R) × (step s i result ≡ some s')

  maker-CanMove :
      (s : Coalescer R)
      → IsSound s
      → (k : Text) (c : ℕ) → get_elem? s.calls c ≡ some (pending k)
      → (i : ℕ) × CanMove s i
  unfolding step
  maker-CanMove s v k c p =
      let m = v.maker k c (v.listed c k p) in
      (
        m.thread,
        λ result. (
          finish s m.thread k c result,
          rw (step, m.at_place, fetches m.place m.made_it (v.fits m.thread m.place m.at_place))
              refl,
        ),
      )
    where
      fetches :
          (place : Place R) → made place ≡ some (k, c) → Fits s.calls place → place ≡ fetching k c
      fetches (fetching k' c') m f = cc m
      fetches (leaving k' c') m (r, f) = absurd (cc (m, f, p))
      fetches (calling k') m f = absurd (cc m)
      fetches (waiting k' c') m f = absurd (cc m)
      fetches (returned k' c' r) m f = absurd (cc m)

  place-CanMove :
      (s : Coalescer R)
      → IsSound s
      → (i : ℕ) (place : Place R) → get_elem? s.places i ≡ some place
      → (IsReturned place → ⊥)
      → (j : ℕ) × CanMove s j
  unfolding step return_result
  place-CanMove s v i (calling k) at e = (i, λ result. (enter s i k, rw (step, at) refl))
  place-CanMove s v i (fetching k c) at e =
      (i, λ result. (finish s i k c result, rw (step, at) refl))
  place-CanMove s v i (leaving k c) at e =
      let (r, done) = v.fits i (leaving k c) at in
      (
        i,
        λ result. (
          move (record s { inflight = remove Text-discrete k s.inflight }) i (returned k c r),
          rw (step, at, return_result, done) refl,
        ),
      )
  place-CanMove s v i (waiting k c) at e = elim (v.fits i (waiting k c) at) [
    | inl p ↦ maker-CanMove s v k c p
    | inr (r, done) ↦
        (i, λ result. (move s i (returned k c r), rw (step, at, return_result, done) refl))
  ]
  place-CanMove s v i (returned k c r) at e = absurd (e tt)

  -- The steps that are left bring every goroutine back.
  pub record Returns (s : Coalescer R) (n : ℕ) : Type 0 where
    pub schedule : List (ℕ × R)
    pub short : length schedule ≤ n
    pub returns : All IsReturned (run s schedule).places

  -- Every goroutine is back, or a step of one leaves less to do.
  next :
      (s : Coalescer R)
      → IsSound s
      → R
      → All IsReturned s.places
        ⊎ ((j : ℕ) × (r : R) × (s' : Coalescer R) × (step s j r ≡ some s')
            × IsSound s'
            × (work s'.places < work s.places))
  next s v result = elim (unreturned s.places) [
    | inl back ↦ inl back
    | inr (i, place, at, e) ↦
        let (j, can) = place-CanMove s v i place at e in
        let (s', moves) = can result in
        inr
          (j, result, s', moves, step-IsSound s j result s' v moves, step-work s j result s' moves)
  ]

  sound-Returns : (n : ℕ) (s : Coalescer R) → IsSound s → work s.places ≤ n → R → Returns s n
  unfolding run
  sound-Returns zero s v small result = elim (next s v result) [
    | inl back ↦ record { schedule = []; short = omega arith; returns = back }
    | inr (j, r, s', moves, v', less) ↦ absurd (omega (arith, less))
  ]
  sound-Returns (suc n) s v small result = elim (next s v result) [
    | inl back ↦ record { schedule = []; short = omega arith; returns = back }
    | inr (j, r, s', moves, v', less) ↦
        let rest = sound-Returns n s' v' (omega (arith, less)) result in
        record {
          schedule = (j, r) ∷ rest.schedule;
          short = omega (arith, rest.short);
          returns = rw (run, moves) rest.returns;
        }
  ]

  run-work :
      (s : Coalescer R) (schedule : List (ℕ × R)) → work (run s schedule).places ≤ work s.places
  unfolding run
  run-work s [] = omega arith
  run-work s ((i, result) ∷ schedule) = elim (Option-cases (step s i result)) [
    | inl e ↦ rw (run, e) (run-work s schedule)
    | inr (s', e) ↦ rw (run, e) (omega (arith, run-work s' schedule, step-work s i result s' e))
  ]

work-callers : (R : Type 0) (keys : List Text) → work (callers {R = R} keys) ≡ 3 * length keys
work-callers R [] = refl
work-callers R (k ∷ ks) = omega (arith, work-callers R ks)

module _ {R : Type 0} where
  -- After any interleaving of n goroutines that call coalescer.do, a schedule of at most 3n
  -- further steps lets every one of them return, whatever the others are waiting for.
  pub run-Returns :
      (keys : List Text) (schedule : List (ℕ × R))
      → R
      → Returns (run (start keys) schedule) (3 * length keys)
  unfolding start
  run-Returns keys schedule =
      sound-Returns (3 * length keys) (run (start keys) schedule) (run-IsSound keys schedule)
        (omega (arith, run-work (start keys) schedule, work-callers R keys))
