-- ===== src/EdgeCache/Elements.antt =====
-- What the store uses of container/list: a list of elements, front first. An element is known by
-- its address, a number, and holds an entry, a key with its response.
use mathlib.Core.Path.{subst₂}
use golang_journey.Prelude.{
  ℕ, ◌≡◌, ◌≢◌, refl, sym, List, [], ◌∷◌, Option, none, some, ite, if_pos, if_neg, arith, All,
  ℕ_discrete,
}
use golang_journey.Prelude.Text.{Text, Text-discrete}
use golang_journey.EdgeCache.Response.{CachedResponse}

pub record Entry : Type 0 where
  pub key : Text
  pub resp : CachedResponse

abbrev pub Elements : Type 0
Elements = List (ℕ × Entry)

-- `el.Value`
unfoldable pub value_of : ℕ → Elements → Option Entry
value_of el [] = none
value_of el ((a, e) ∷ l) = ite (ℕ_discrete a el) (some e) (value_of el l)

-- `l.Remove(el)`
unfoldable pub remove_element : ℕ → Elements → Elements
remove_element el [] = []
remove_element el ((a, e) ∷ l) = ite (ℕ_discrete a el) l ((a, e) ∷ remove_element el l)

-- `l.Back()`, with its entry.
unfoldable pub back : Elements → Option (ℕ × Entry)
back [] = none
back (x ∷ []) = some x
back (x ∷ y ∷ l) = back (y ∷ l)

-- The address of the first element with a key.
unfoldable pub address_of : Text → Elements → Option ℕ
address_of k [] = none
address_of k ((a, e) ∷ l) = ite (Text-discrete e.key k) (some a) (address_of k l)

-- No address and no key twice.
abbrev pub IsDistinct : Elements → Type 0
IsDistinct [] = Unit
IsDistinct ((a, e) ∷ l) = All (λ (x : ℕ × Entry). (x.0 ≢ a) × (x.1.key ≢ e.key)) l × IsDistinct l

-- What a cache holds, most recently used first.
abbrev pub View : Type 0
View = List (Text × CachedResponse)

abbrev pub view : Elements → View
view [] = []
view ((a, e) ∷ l) = (e.key, e.resp) ∷ view l

unfoldable pub find : Text → View → Option CachedResponse
find k [] = none
find k ((j, r) ∷ v) = ite (Text-discrete j k) (some r) (find k v)

unfoldable pub without : Text → View → View
without k [] = []
without k ((j, r) ∷ v) = ite (Text-discrete j k) v ((j, r) ∷ without k v)

-- What holds of every element holds of the one at an address.
pub value_of-All :
    (P : ℕ × Entry → Type 0) (l : Elements) (a : ℕ) {x : Entry}
    → All P l
    → value_of a l ≡ some x
    → P (a, x)
unfolding value_of
value_of-All P [] a p h = cc
value_of-All P ((b, e) ∷ l) a {x} p h = elim (ℕ_discrete b a) [
  | yes same ↦
      let same_entry : e ≡ x = ground (arith, h) in subst₂ (λ c y. P (c, y)) same same_entry p.0
  | no ne ↦ value_of-All P l a p.1 (ground (arith, h))
]

-- The element that the map has for a key holds the response, and to take the element out is to
-- take the key out.
pub address_of-view :
    (k : Text) (l : Elements) (a : ℕ)
    → IsDistinct l
    → address_of k l ≡ some a
    → (e : Entry) × (value_of a l ≡ some e)
      × (e.key ≡ k)
      × (find k (view l) ≡ some e.resp)
      × (view (remove_element a l) ≡ without k (view l))
unfolding address_of value_of find remove_element without
address_of-view k [] a d h = cc
address_of-view k ((b, e) ∷ l) a d h = elim (Text-discrete e.key k) [
  | yes same ↦ (e, ground (arith, h), same, ground arith, ground (arith, h))
  | no ne ↦
      let (x, v, s, f, w) = address_of-view k l a d.1 (ground (arith, h)) in
      let other = value_of-All _ l a d.0 v in
      (x, ground (arith, v, other.0), s, ground (arith, f), ground (arith, w, other.0))
]

pub address_of-none : (k : Text) (l : Elements) → address_of k l ≡ none → find k (view l) ≡ none
unfolding address_of find
address_of-none k [] h = refl
address_of-none k ((b, e) ∷ l) h = ground (arith, h, address_of-none k l)

-- What holds of every element holds after a removal.
pub remove_element-All :
    (P : ℕ × Entry → Type 0) (a : ℕ) (l : Elements) → All P l → All P (remove_element a l)
unfolding remove_element
remove_element-All P a [] p = p
remove_element-All P a ((b, e) ∷ l) p = elim (ℕ_discrete b a) [
  | yes same ↦ rw (if_pos _ same) p.1
  | no ne ↦ rw (if_neg _ ne) (p.0, remove_element-All P a l p.1)
]

pub remove_element-IsDistinct :
    (a : ℕ) (l : Elements) → IsDistinct l → IsDistinct (remove_element a l)
unfolding remove_element
remove_element-IsDistinct a [] d = d
remove_element-IsDistinct a ((b, e) ∷ l) d = elim (ℕ_discrete b a) [
  | yes same ↦ rw (if_pos _ same) d.1
  | no ne ↦ rw (if_neg _ ne) (remove_element-All _ a l d.0, remove_element-IsDistinct a l d.1)
]

absent :
    (k : Text) (b : ℕ) (l : Elements)
    → All (λ (x : ℕ × Entry). (x.0 ≢ b) × (x.1.key ≢ k)) l
    → address_of k l ≡ none
unfolding address_of
absent k b [] p = refl
absent k b ((c, e) ∷ l) p = rw (if_neg _ p.0.1) (absent k b l p.1)

-- Behind the removal of its element a key has no address; all other keys keep theirs.
pub address_of-remove :
    (k j : Text) (l : Elements) (a : ℕ)
    → IsDistinct l
    → address_of k l ≡ some a
    → address_of j (remove_element a l) ≡ ite (Text-discrete k j) none (address_of j l)
unfolding address_of remove_element
address_of-remove k j [] a d h = cc
address_of-remove k j ((b, e) ∷ l) a d h = elim (Text-discrete e.key k) [
  | yes same ↦
      let b_is_a : b ≡ a = ground (arith, h, same) in
      let gone : address_of e.key l ≡ none = absent e.key b l d.0 in
      rw (if_pos _ b_is_a) (ground (arith, same, gone))
  | no ne ↦
      let rest : address_of k l ≡ some a = ground (arith, h, ne) in
      let other = value_of-All _ l a d.0 (address_of-view k l a d.1 rest).1 in
      rw (if_neg _ (λ c. other.0 (sym c))) (ground (arith, ne, address_of-remove k j l a d.1 rest))
]
