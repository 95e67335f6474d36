-- ===== src/EdgeCache/Coalescer/Leave.antt =====
-- A goroutine that has made no call moves, or the maker of one takes it out of the map and returns.
use golang_journey.Prelude.{
  ℕ, ◌≡◌, ◌≢◌, inl, inr, refl, sym, ap, subst, ◌∙◌, none, some, arith, get_elem?, set,
  get_elem?-set_ne,
}
use golang_journey.Prelude.Map.{lookup, remove, lookup-remove}
use golang_journey.Prelude.Text.{Text, Text-discrete}
use golang_journey.EdgeCache.Coalescer.{closed, Place, leaving, returned, Coalescer, move}
use golang_journey.EdgeCache.Coalescer.Invariant.{made, Fits, Maker, IsSound, moved}

module _ {R : Type 0} (s : Coalescer R) (v : IsSound s) (i : ℕ) where
  -- A goroutine that has made no call goes to such a place again.
  pub quiet-IsSound :
      (place new : Place R)
      → get_elem? s.places i ≡ some place
      → made place ≡ none
      → made new ≡ none
      → Fits s.calls new
      → IsSound (move s i new)
  unfolding move
  quiet-IsSound place new at silent still fits = record {
    fits = λ j other h. elim (moved s.places i j at h) [
      | inl (e, same) ↦ subst (Fits s.calls) (sym same) fits
      | inr (ne, before) ↦ v.fits j other before
    ];
    listed = v.listed;
    maker = λ k c h.
        let m = v.maker k c h in
        record {
          thread = m.thread;
          place = m.place;
          at_place = get_elem?-set_ne s.places i m.thread new (apart m) ∙ m.at_place;
          made_it = m.made_it;
        };
    held = λ j other k c h m. v.held j other k c (kept j other k c h m) m;
    single = λ j j' a b k c c' h h' m m'.
        v.single j j' a b k c c' (kept j a k c h m) (kept j' b k c' h' m') m m';
  }
    where
      apart : {k : Text} {c : ℕ} (m : Maker s k c) → i ≢ m.thread
      apart m e =
          let same : some place ≡ some m.place = sym at ∙ ap (get_elem? s.places) e ∙ m.at_place in
          cc (same, m.made_it, silent)

      kept :
          (j : ℕ) (other : Place R) (k : Text) (c : ℕ)
          → get_elem? (set s.places i new) j ≡ some other
          → made other ≡ some (k, c)
          → get_elem? s.places j ≡ some other
      kept j other k c h m = elim (moved s.places i j at h) [
        | inl (e, same) ↦ absurd (cc (same, m, still))
        | inr (ne, before) ↦ before
      ]

module _ {R : Type 0} (s : Coalescer R) (v : IsSound s) (i : ℕ) (k : Text) (c : ℕ) (result : R)
    (at : get_elem? s.places i ≡ some (leaving k c))
    (done : get_elem? s.calls c ≡ some (closed k result)) where
  unfoldable pub left : Coalescer R
  left = move (record s { inflight = remove Text-discrete k s.inflight }) i (returned k c result)

  removed :
      (k' : Text) (c' : ℕ)
      → lookup Text-discrete k' (remove Text-discrete k s.inflight) ≡ some c'
      → (k ≢ k') × (lookup Text-discrete k' s.inflight ≡ some c')
  removed k' c' h = ground (arith, h, lookup-remove Text-discrete k k' s.inflight)

  remains :
      (k' : Text) (c' : ℕ)
      → k ≢ k'
      → lookup Text-discrete k' s.inflight ≡ some c'
      → lookup Text-discrete k' (remove Text-discrete k s.inflight) ≡ some c'
  remains k' c' ne h = ground (arith, ne, h, lookup-remove Text-discrete k k' s.inflight)

  made_elsewhere :
      (j : ℕ) (other : Place R) (k' : Text) (c' : ℕ)
      → get_elem? (set s.places i (returned k c result)) j ≡ some other
      → made other ≡ some (k', c')
      → (k ≢ k') × (get_elem? s.places j ≡ some other)
  made_elsewhere j other k' c' h m = elim (moved s.places i j at h) [
    | inl (e, same) ↦ absurd (cc (subst (λ x. made {R = R} x ≡ some (k', c')) same m))
    | inr (ne, before) ↦ (
      λ e. ne (
          v.single i j _ other k c c' at before refl
            (subst (λ x. made {R = R} other ≡ some (x, c')) (sym e) m)),
      before,
    )
  ]

  pub left-IsSound : IsSound left
  unfolding left move
  left-IsSound = record {
    fits = λ j other h. elim (moved s.places i j at h) [
      | inl (e, same) ↦ subst (Fits s.calls) (sym same) done
      | inr (ne, before) ↦ v.fits j other before
    ];
    listed = λ c' k' h.
        let l = v.listed c' k' h in
        remains k' c'
          (λ e. cc (
            subst (λ x. lookup Text-discrete x s.inflight ≡ some c) e
                (v.held i (leaving k c) k c at refl),
            l,
            done,
            h,
          ))
          l;
    maker = λ k' c' h.
        let (ne, l) = removed k' c' h in
        let m = v.maker k' c' l in
        record {
          thread = m.thread;
          place = m.place;
          at_place =
              get_elem?-set_ne s.places i m.thread (returned k c result) (λ e. ne (
                cc (
                  subst (λ n. get_elem? s.places n ≡ some (leaving k c)) e at,
                  m.at_place,
                  m.made_it,
                )))
              ∙ m.at_place;
          made_it = m.made_it;
        };
    held = λ j other k' c' h m.
        let (ne, before) = made_elsewhere j other k' c' h m in
        remains k' c' ne (v.held j other k' c' before m);
    single = λ j j' a b k' c' d h h' m m'.
        v.single j j' a b k' c' d (made_elsewhere j a k' c' h m).1
          (made_elsewhere j' b k' d h' m').1 m m';
  }
