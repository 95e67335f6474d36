-- ===== src/EdgeCache/Coalescer/Steps.antt =====
-- Every step keeps the invariant.
use golang_journey.Prelude.{ℕ, ◌≡◌, ◌⊎◌, inl, inr, refl, subst, some, get_elem?, Option-cases}
use golang_journey.Prelude.Map.{lookup}
use golang_journey.Prelude.Text.{Text, Text-discrete}
use golang_journey.EdgeCache.Coalescer.{
  pending, Place, calling, fetching, leaving, waiting, returned, Coalescer, enter, return_result,
  step,
}
use golang_journey.EdgeCache.Coalescer.Invariant.{made, IsClosed, Fits, IsSound}
use golang_journey.EdgeCache.Coalescer.Finish.{finish-IsSound}
use golang_journey.EdgeCache.Coalescer.Enter.{new_call, new_call-IsSound}
use golang_journey.EdgeCache.Coalescer.Leave.{left, left-IsSound, quiet-IsSound}

-- Every step of a goroutine keeps the invariant.
pub step-IsSound :
    {R : Type 0} (s : Coalescer R) (i : ℕ) (result : R) (s' : Coalescer R)
    → IsSound s
    → step s i result ≡ some s'
    → IsSound s'
unfolding step enter return_result left new_call
step-IsSound {R = R} s i result s' v h = elim (Option-cases (get_elem? s.places i)) [
  | inl at ↦ absurd (cc (rw (step, at) at h))
  | inr (calling k, at) ↦ subst IsSound (cc (rw (step, at) at h)) (entered k at)
  | inr (fetching k c, at) ↦
      subst IsSound (cc (rw (step, at) at h)) (finish-IsSound s v i k c result at)
  | inr (leaving k c, at) ↦
      let (r, done) = v.fits i (leaving k c) at in
      subst IsSound (cc (rw (step, at, return_result, done) at h))
        (left-IsSound s v i k c r at done)
  | inr (waiting k c, at) ↦ elim (v.fits i (waiting k c) at) [
    | inl open_still ↦ absurd (cc (rw (step, at, return_result, open_still) at h))
    | inr (r, done) ↦
        subst IsSound (cc (rw (step, at, return_result, done) at h))
          (quiet-IsSound s v i (waiting k c) (returned k c r) at refl refl done)
  ]
  | inr (returned k c r, at) ↦ absurd (cc (rw (step, at) at h))
]
  where
    entered : (k : Text) → get_elem? s.places i ≡ some (calling k) → IsSound (enter s i k)
    entered k at = elim (Option-cases (lookup Text-discrete k s.inflight)) [
      | inl free ↦ rw (enter, free) (new_call-IsSound s v i k at free)
      | inr (c, there) ↦
          let m = v.maker k c there in
          rw (enter, there)
            (quiet-IsSound s v i (calling k) (waiting k c) at refl refl
              (called m.place m.made_it (v.fits m.thread m.place m.at_place)))
    ]
      where
        called :
            {c : ℕ} (place : Place R)
            → made place ≡ some (k, c)
            → Fits s.calls place
            → (get_elem? s.calls c ≡ some (pending k)) ⊎ IsClosed s.calls k c
        called {c} (fetching k' c') m f = inl (cc (m, f))
        called {c} (leaving k' c') m (r, f) = inr (r, cc (m, f))
        called {c} (calling k') m f = absurd (cc m)
        called {c} (waiting k' c') m f = absurd (cc m)
        called {c} (returned k' c' r) m f = absurd (cc m)
