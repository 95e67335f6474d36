-- ===== src/EdgeCache/Coalescer/Finish.antt =====
-- The end of a fetch keeps the invariant.
use golang_journey.Prelude.{
  ℕ, ◌≡◌, ◌≢◌, ◌⊎◌, inl, inr, refl, sym, subst, ◌∙◌, List, some, get_elem?, set, ℕ_discrete,
  get_elem?-set_self, get_elem?-set_ne, get_elem?_lt,
}
use golang_journey.Prelude.Text.{Text}
use golang_journey.EdgeCache.Coalescer.{
  Call, pending, closed, Place, calling, fetching, leaving, waiting, returned, Coalescer, move,
  finish,
}
use golang_journey.EdgeCache.Coalescer.Invariant.{made, Fits, Maker, IsSound, moved, moved_self}

module _ {R : Type 0} (s : Coalescer R) (v : IsSound s) (i : ℕ) (k : Text) (c : ℕ) (result : R)
    (at : get_elem? s.places i ≡ some (fetching k c)) where
  calls_after : List (Call R)
  calls_after = set s.calls c (closed k result)

  places_after : List (Place R)
  places_after = set s.places i (leaving k c)

  open_before : get_elem? s.calls c ≡ some (pending k)
  open_before = v.fits i (fetching k c) at

  closed_after : get_elem? calls_after c ≡ some (closed k result)
  unfolding calls_after
  closed_after = get_elem?-set_self s.calls c (closed k result) (get_elem?_lt s.calls c open_before)

  other_call : (c' : ℕ) → c ≢ c' → get_elem? calls_after c' ≡ get_elem? s.calls c'
  unfolding calls_after
  other_call c' d = get_elem?-set_ne s.calls c c' (closed k result) d

  still_closed :
      (k' : Text) (c' : ℕ) (r : R)
      → get_elem? s.calls c' ≡ some (closed k' r)
      → get_elem? calls_after c' ≡ some (closed k' r)
  still_closed k' c' r h =
      other_call c' (λ e. cc (subst (λ n. get_elem? s.calls n ≡ some (pending k)) e open_before, h))
      ∙ h

  still_open :
      (k' : Text) (c' : ℕ)
      → get_elem? s.calls c' ≡ some (pending k')
      → (get_elem? calls_after c' ≡ some (pending k')) ⊎ ((c ≡ c') × (k ≡ k'))
  still_open k' c' h = elim (ℕ_discrete c c') [
    | yes e ↦ inr (e, cc (subst (λ n. get_elem? s.calls n ≡ some (pending k)) e open_before, h))
    | no d ↦ inl (other_call c' d ∙ h)
  ]

  others_fit :
      (j : ℕ) (other : Place R)
      → i ≢ j
      → get_elem? s.places j ≡ some other
      → Fits s.calls other
      → Fits calls_after other
  others_fit j (calling k') ne h f = tt
  others_fit j (fetching k' c') ne h f = elim (still_open k' c' f) [
    | inl g ↦ g
    | inr (e, e') ↦ absurd (ne (v.single i j _ _ k c c' at h refl (cc e')))
  ]
  others_fit j (leaving k' c') ne h (r, f) = (r, still_closed k' c' r f)
  others_fit j (waiting k' c') ne h (inl f) = elim (still_open k' c' f) [
    | inl g ↦ inl g
    | inr (e, e') ↦ inr (
      result,
      subst (λ n. get_elem? calls_after n ≡ some (closed k' result)) e (cc (closed_after, e')),
    )
  ]
  others_fit j (waiting k' c') ne h (inr (r, f)) = inr (r, still_closed k' c' r f)
  others_fit j (returned k' c' r) ne h f = still_closed k' c' r f

  made_before :
      (j : ℕ) (other : Place R) (k' : Text) (c' : ℕ)
      → get_elem? places_after j ≡ some other
      → made other ≡ some (k', c')
      → (old : Place R) × (get_elem? s.places j ≡ some old) × (made old ≡ some (k', c'))
  unfolding places_after
  made_before j other k' c' h m = elim (moved s.places i j at h) [
    | inl (e, same) ↦
        (fetching k c, subst (λ n. get_elem? s.places n ≡ some (fetching k c)) e at, cc (same, m))
    | inr (ne, before) ↦ (other, before, m)
  ]

  Maker-after : (k' : Text) (c' : ℕ) → Maker s k' c' → Maker (finish s i k c result) k' c'
  unfolding finish move
  Maker-after k' c' m = elim (ℕ_discrete i m.thread) [
    | yes e ↦ record {
      thread = i;
      place = leaving k c;
      at_place = moved_self s.places i at;
      made_it =
          cc (subst (λ n. get_elem? s.places n ≡ some m.place) (sym e) m.at_place, at, m.made_it);
    }
    | no ne ↦ record {
      thread = m.thread;
      place = m.place;
      at_place = get_elem?-set_ne s.places i m.thread (leaving k c) ne ∙ m.at_place;
      made_it = m.made_it;
    }
  ]

  pub finish-IsSound : IsSound (finish s i k c result)
  unfolding finish move places_after calls_after
  finish-IsSound = record {
    fits = λ j other h. elim (moved s.places i j at h) [
      | inl (e, same) ↦ subst (Fits calls_after) (sym same) (result, closed_after)
      | inr (ne, before) ↦ others_fit j other ne before (v.fits j other before)
    ];
    listed = λ c' k' h. elim (ℕ_discrete c c') [
      | yes e ↦
          absurd
            (cc (subst (λ n. get_elem? calls_after n ≡ some (closed k result)) e closed_after, h))
      | no d ↦ v.listed c' k' (sym (other_call c' d) ∙ h)
    ];
    maker = λ k' c' h. Maker-after k' c' (v.maker k' c' h);
    held = λ j other k' c' h m.
        let (old, before, made_old) = made_before j other k' c' h m in
        v.held j old k' c' before made_old;
    single = λ j j' a b k' c' d h h' m m'.
        let (old, before, made_old) = made_before j a k' c' h m in
        let (old', before', made_old') = made_before j' b k' d h' m' in
        v.single j j' old old' k' c' d before before' made_old made_old';
  }
