-- ===== src/EdgeCache/Coalescer/Enter.antt =====
-- The making of a call keeps the invariant.
use golang_journey.Prelude.{
  ℕ, ◌≡◌, inl, inr, sym, subst, ◌∙◌, [], ◌∷◌, ◌++◌, none, some, arith, length, get_elem?,
  get_elem?-set_ne, get_elem?_lt, get_elem?-append_left, get_elem?-append_length,
  get_elem?-append_one,
}
use golang_journey.Prelude.Map.{lookup, insert, lookup-insert}
use golang_journey.Prelude.Text.{Text, Text-discrete}
use golang_journey.EdgeCache.Coalescer.{
  Call, pending, Place, calling, fetching, leaving, waiting, returned, Coalescer, move,
}
use golang_journey.EdgeCache.Coalescer.Invariant.{made, Fits, IsSound, moved, moved_self}

module _ {R : Type 0} (s : Coalescer R) (v : IsSound s) (i : ℕ) (k : Text)
    (at : get_elem? s.places i ≡ some (calling k))
    (free : lookup Text-discrete k s.inflight ≡ none) where
  unfoldable pub new_call : Coalescer R
  new_call =
      move
        (record s {
          calls = s.calls ++ pending k ∷ [];
          inflight = insert Text-discrete k (length s.calls) s.inflight;
        })
        i (fetching k (length s.calls))

  kept_call :
      (c : ℕ) {call : Call R}
      → get_elem? s.calls c ≡ some call
      → get_elem? (s.calls ++ pending k ∷ []) c ≡ some call
  kept_call c h = get_elem?-append_left s.calls (pending k ∷ []) c (get_elem?_lt s.calls c h) ∙ h

  kept_fit : (other : Place R) → Fits s.calls other → Fits (s.calls ++ pending k ∷ []) other
  kept_fit (calling k') f = tt
  kept_fit (fetching k' c) f = kept_call c f
  kept_fit (leaving k' c) (r, f) = (r, kept_call c f)
  kept_fit (waiting k' c) (inl f) = inl (kept_call c f)
  kept_fit (waiting k' c) (inr (r, f)) = inr (r, kept_call c f)
  kept_fit (returned k' c r) f = kept_call c f

  held_other :
      (k' : Text) (c : ℕ)
      → lookup Text-discrete k' s.inflight ≡ some c
      → lookup Text-discrete k' (insert Text-discrete k (length s.calls) s.inflight) ≡ some c
  held_other k' c h = elim (Text-discrete k k') [
    | yes e ↦ absurd (cc (subst (λ x. lookup Text-discrete x s.inflight ≡ none) e free, h))
    | no ne ↦ ground (arith, ne, h, lookup-insert Text-discrete k k' (length s.calls) s.inflight)
  ]

  held_new :
      lookup Text-discrete k (insert Text-discrete k (length s.calls) s.inflight)
      ≡ some (length s.calls)
  held_new = ground (arith, lookup-insert Text-discrete k k (length s.calls) s.inflight)

  pub new_call-IsSound : IsSound new_call
  unfolding new_call move
  new_call-IsSound = record {
    fits = λ j other h. elim (moved s.places i j at h) [
      | inl (e, same) ↦
          subst (Fits (s.calls ++ pending k ∷ [])) (sym same)
            (get_elem?-append_length s.calls (pending k))
      | inr (ne, before) ↦ kept_fit other (v.fits j other before)
    ];
    listed = λ c k' h. elim (get_elem?-append_one s.calls (pending k) c h) [
      | inl g ↦ held_other k' c (v.listed c k' g)
      | inr (e, same) ↦
          let owner : k ≡ k' = cc same in
          subst
            (λ x.
              lookup Text-discrete x (insert Text-discrete k (length s.calls) s.inflight) ≡ some c)
            owner (held_new ∙ cc e)
    ];
    maker = λ k' c h. elim (Text-discrete k k') [
      | yes e ↦ record {
        thread = i;
        place = fetching k (length s.calls);
        at_place = moved_self s.places i at;
        made_it =
            let g =
              subst
                (λ x.
                  lookup Text-discrete x (insert Text-discrete k (length s.calls) s.inflight)
                  ≡ some (length s.calls))
                e held_new in
            cc (g, h, e);
      }
      | no ne ↦
          let m =
            v.maker k' c (
              ground
                (arith, ne, h, lookup-insert Text-discrete k k' (length s.calls) s.inflight)) in
          record {
            thread = m.thread;
            place = m.place;
            at_place =
                get_elem?-set_ne s.places i m.thread (fetching k (length s.calls)) (λ e. cc (
                  subst (λ n. get_elem? s.places n ≡ some (calling k)) e at,
                  m.at_place,
                  m.made_it,
                ))
                ∙ m.at_place;
            made_it = m.made_it;
          }
    ];
    held = λ j other k' c h m. elim (moved s.places i j at h) [
      | inl (e, same) ↦
          let p : made {R = R} (fetching k (length s.calls)) ≡ some (k', c) =
            subst (λ x. made {R = R} x ≡ some (k', c)) same m in
          cc (held_new, p)
      | inr (ne, before) ↦ held_other k' c (v.held j other k' c before m)
    ];
    single = λ j j' a b k' c c' h h' m m'. elim (moved s.places i j at h) [
      | inl (e, same) ↦ elim (moved s.places i j' at h') [
        | inl (e', same') ↦ sym e ∙ e'
        | inr (ne', before') ↦ absurd (
            cc (
              v.held j' b k' c' before' m',
              free,
              subst (λ x. made {R = R} x ≡ some (k', c)) same m,
            ))
      ]
      | inr (ne, before) ↦ elim (moved s.places i j' at h') [
        | inl (e', same') ↦ absurd (
            cc (
              v.held j a k' c before m,
              free,
              subst (λ x. made {R = R} x ≡ some (k', c')) same' m',
            ))
        | inr (ne', before') ↦ v.single j j' a b k' c c' before before' m m'
      ]
    ];
  }
