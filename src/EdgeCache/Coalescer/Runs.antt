-- ===== src/EdgeCache/Coalescer/Runs.antt =====
-- What holds after any schedule of the goroutines.
use golang_journey.Prelude.{
  ℕ, zero, suc, ◌≡◌, ◌≢◌, ◌∙◌, ℕ_discrete, ◌⊎◌, inl, inr, refl, sym, ap, subst, List, [], ◌∷◌, some,
  get_elem?, Option-cases,
}
use golang_journey.Prelude.Map.{lookup}
use golang_journey.Prelude.Text.{Text, Text-discrete}
use golang_journey.EdgeCache.Coalescer.{
  closed, Place, calling, fetching, returned, Coalescer, callers, start, step, run,
}
use golang_journey.EdgeCache.Coalescer.Invariant.{made, Fits, IsSound}
use golang_journey.EdgeCache.Coalescer.Steps.{step-IsSound}

module _ {R : Type 0} where
  callers_calling :
      (keys : List Text) (i : ℕ) (place : Place R)
      → get_elem? (callers keys) i ≡ some place
      → (k : Text) × (place ≡ calling k)
  callers_calling [] i place h = cc
  callers_calling (k ∷ ks) zero place h = (k, cc h)
  callers_calling (k ∷ ks) (suc i) place h = callers_calling ks i place h

  start-IsSound : (keys : List Text) → IsSound (start {R = R} keys)
  unfolding start lookup
  start-IsSound keys = record {
    fits = λ i place h. let (k, e) = callers_calling keys i place h in subst (Fits []) (sym e) tt;
    listed = λ c k h. cc h;
    maker = λ k c h. cc h;
    held = λ i place k c h m.
        let (k', e) = callers_calling keys i place h in
        absurd (cc (subst (λ x. made {R = R} x ≡ some (k, c)) e m));
    single = λ i j place place' k c c' h h' m m'.
        let (k', e) = callers_calling keys i place h in
        absurd (cc (subst (λ x. made {R = R} x ≡ some (k, c)) e m));
  }

  run_from-IsSound :
      (s : Coalescer R) (schedule : List (ℕ × R)) → IsSound s → IsSound (run s schedule)
  unfolding run
  run_from-IsSound s [] v = v
  run_from-IsSound s ((i, result) ∷ schedule) v = elim (Option-cases (step s i result)) [
    | inl e ↦ rw (run, e) (run_from-IsSound s schedule v)
    | inr (s', e) ↦ rw (run, e) (run_from-IsSound s' schedule (step-IsSound s i result s' v e))
  ]

  pub run-IsSound :
      (keys : List Text) (schedule : List (ℕ × R)) → IsSound (run (start keys) schedule)
  run-IsSound keys schedule = run_from-IsSound (start keys) schedule (start-IsSound keys)

  -- Two goroutines that fetch do so for two keys, or are one; two that are back from one call
  -- have asked for one key and have one result.
  abbrev pub Agree : ℕ → Place R → ℕ → Place R → Type 0
  Agree i (fetching k c) j (fetching k' c') = (k ≢ k') ⊎ (i ≡ j)
  Agree i (returned k c r) j (returned k' c' r') = (c ≢ c') ⊎ ((k ≡ k') × (r ≡ r'))
  Agree i place j place' = Unit

  sound-Agree :
      (s : Coalescer R)
      → IsSound s
      → (i j : ℕ) (place place' : Place R) → get_elem? s.places i ≡ some place
      → get_elem? s.places j ≡ some place'
      → Agree i place j place'
  sound-Agree s v i j (fetching k c) (fetching k' c') h h' = elim (Text-discrete k k') [
    | yes e ↦ inr (v.single i j _ _ k c c' h h' refl (cc e))
    | no ne ↦ inl ne
  ]
  sound-Agree s v i j (returned k c r) (returned k' c' r') h h' = elim (ℕ_discrete c c') [
    | yes e ↦
        let same : some (closed k r) ≡ some (closed k' r') =
          sym (v.fits i (returned k c r) h)
          ∙ ap (get_elem? s.calls) e
          ∙ v.fits j (returned k' c' r') h' in
        inr (cc same, cc same)
    | no ne ↦ inl ne
  ]
  sound-Agree s v i j place place' h h' = tt

  -- However goroutines that call coalescer.do are interleaved, with any keys and fetch results,
  -- two of them that are in their fetches have different keys or are the same goroutine, and
  -- two that have returned from one call have asked for the same key and have the same result.
  pub run-Agree :
      (keys : List Text) (schedule : List (ℕ × R)) (i j : ℕ) (place place' : Place R)
      → get_elem? (run (start keys) schedule).places i ≡ some place
      → get_elem? (run (start keys) schedule).places j ≡ some place'
      → Agree i place j place'
  run-Agree keys schedule i j place place' =
      sound-Agree (run (start keys) schedule) (run-IsSound keys schedule) i j place place'
