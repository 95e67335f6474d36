-- ===== src/EdgeCache/Store/Invariant.antt =====
-- The invariant of the store: the map has the address of each element of the list, and no key and
-- no address occurs twice. What each change of the list does to it.
use golang_journey.Prelude.{
  ℕ, suc, ◌≡◌, ◌≢◌, ◌<◌, refl, sym, ◌∙◌, ap, List, [], ◌∷◌, none, some, if_pos, if_neg, arith, All,
  All-map, length, subst,
}
use golang_journey.Prelude.Map.{lookup, remove, lookup-insert, lookup-remove}
use golang_journey.Prelude.Text.{Text, Text-discrete}
use golang_journey.EdgeCache.Elements.{
  Entry, Elements, remove_element, back, address_of, IsDistinct, view, value_of-All,
  address_of-view, remove_element-All, remove_element-IsDistinct, address_of-remove,
}
use golang_journey.EdgeCache.Response.{CachedResponse}
use golang_journey.EdgeCache.Store.{Store, push}

pub record IsValid (s : Store) : Type 0 where
  pub distinct : IsDistinct s.lru
  pub agree : (k : Text) → lookup Text-discrete k s.items ≡ address_of k s.lru
  pub fresh : All (λ (x : ℕ × Entry). x.0 < s.next) s.lru

abbrev pub drop_last {ℓ} : {A : Type ℓ} → List A → List A
drop_last [] = []
drop_last (x ∷ []) = []
drop_last (x ∷ y ∷ l) = x ∷ drop_last (y ∷ l)

pub length-view : (l : Elements) → length (view l) ≡ length l
length-view [] = refl
length-view (x ∷ l) = ap suc (length-view l)

-- The other elements have other addresses and other keys.
removed_All :
    (k : Text) (l : Elements) (a : ℕ)
    → IsDistinct l
    → address_of k l ≡ some a
    → All (λ (x : ℕ × Entry). (x.0 ≢ a) × (x.1.key ≢ k)) (remove_element a l)
unfolding address_of remove_element
removed_All k [] a d h = cc
removed_All k ((b, e) ∷ l) a d h = elim (Text-discrete e.key k) [
  | yes same ↦
      let here : b ≡ a = ground (arith, h, same) in
      rw (if_pos _ here) (
        subst (λ c. All (λ (x : ℕ × Entry). (x.0 ≢ c) × (x.1.key ≢ k)) l) here
          (subst (λ j. All (λ (x : ℕ × Entry). (x.0 ≢ b) × (x.1.key ≢ j)) l) same d.0))
  | no ne ↦
      let rest : address_of k l ≡ some a = ground (arith, h, ne) in
      let other = value_of-All _ l a d.0 (address_of-view k l a d.1 rest).1 in
      rw (if_neg _ (λ c. other.0 (sym c)))
        (((λ c. other.0 (sym c)), ne), removed_All k l a d.1 rest)
]

unused_All :
    (k : Text) (n : ℕ) (l : Elements)
    → address_of k l ≡ none
    → All (λ (x : ℕ × Entry). x.0 < n) l
    → All (λ (x : ℕ × Entry). (x.0 ≢ n) × (x.1.key ≢ k)) l
unfolding address_of
unused_All k n [] h f = tt
unused_All k n ((b, e) ∷ l) h f = elim (Text-discrete e.key k) [
  | yes same ↦ absurd (ground (arith, h, same))
  | no ne ↦ (((λ c. omega (arith, f.0)), ne), unused_All k n l (ground (arith, h, ne)) f.1)
]

-- The last element is the one that its key has, and without it the view lacks its last entry.
pub back-address_of :
    (l : Elements) (a : ℕ) (o : Entry)
    → IsDistinct l
    → back l ≡ some (a, o)
    → (address_of o.key l ≡ some a) × (view (remove_element a l) ≡ drop_last (view l))
unfolding back address_of remove_element
back-address_of [] a o d h = cc
back-address_of ((b, e) ∷ []) a o d h = (ground (arith, h), ground (arith, h))
back-address_of ((b, e) ∷ (c, f) ∷ l) a o d h =
    let (found, rest) = back-address_of ((c, f) ∷ l) a o d.1 h in
    let (x, v, s, _, _) = address_of-view o.key ((c, f) ∷ l) a d.1 found in
    let other = value_of-All _ ((c, f) ∷ l) a d.0 v in
    (
      rw (if_neg _ (λ same. other.1 (s ∙ sym same))) found,
      rw (if_neg _ (λ same. other.0 (sym same))) (ap (◌∷◌ (e.key, e.resp)) rest),
    )

module _ (s : Store) (v : IsValid s) (k : Text) where
  -- The element of a key is taken out of both the list and the map.
  pub removed-IsValid :
      (a : ℕ)
      → address_of k s.lru ≡ some a
      → IsValid (record s { items = remove Text-discrete k s.items; lru = remove_element a s.lru })
  removed-IsValid a h = record {
    distinct = remove_element-IsDistinct a s.lru v.distinct;
    agree = λ j. ground (
      arith,
      lookup-remove Text-discrete k j s.items,
      address_of-remove k j s.lru a v.distinct h,
      v.agree j,
    );
    fresh = remove_element-All _ a s.lru v.fresh;
  }

  -- The element of a key is moved to the front, with any response.
  pub fronted-IsValid :
      (a : ℕ) (e : Entry)
      → address_of k s.lru ≡ some a
      → e.key ≡ k
      → a < s.next
      → IsValid (record s { lru = (a, e) ∷ remove_element a s.lru })
  unfolding address_of
  fronted-IsValid a e h same small = record {
    distinct = (
      subst (λ j. All (λ (x : ℕ × Entry). (x.0 ≢ a) × (x.1.key ≢ j)) (remove_element a s.lru))
          (sym same) (removed_All k s.lru a v.distinct h),
      remove_element-IsDistinct a s.lru v.distinct,
    );
    agree = λ j. ground (arith, address_of-remove k j s.lru a v.distinct h, v.agree j, same);
    fresh = (small, remove_element-All _ a s.lru v.fresh);
  }

  pub push-IsValid : (r : CachedResponse) → address_of k s.lru ≡ none → IsValid (push s k r)
  unfolding push address_of
  push-IsValid r h = record {
    distinct = (unused_All k s.next s.lru h v.fresh, v.distinct);
    agree = λ j. ground (arith, lookup-insert Text-discrete k j s.next s.items, v.agree j);
    fresh = (omega arith, All-map s.lru (λ x lt. omega arith) v.fresh);
  }
