-- ===== src/Collab/Crdt/Counts.antt =====
-- What the vector clock and the counter count.
use golang_journey.Prelude.{
  ◌≡◌, ◌≢◌, refl, ap, ◌∙◌, ℕ, ◌+◌, ◌%◌, List, [], ◌∷◌, Option, none, some, ite, All, arith,
}
use golang_journey.Prelude.Int64.{modulus}
use golang_journey.Prelude.Map.{lookup, insert, lookup-insert}
use golang_journey.Prelude.Text.{Text, Text-discrete}
use golang_journey.Collab.Crdt.{
  count, VClock, copy_into, clone, increment, PnCounter, new_pn_counter, add_up, add_down,
}

-- No key twice, as in a Go map.
abbrev pub IsMap : VClock → Type 0
IsMap [] = Unit
IsMap ((k, x) ∷ v) = All (λ (e : Text × ℕ). e.0 ≢ k) v × IsMap v

or_else : Option ℕ → Option ℕ → Option ℕ
or_else none o = o
or_else (some x) o = some x

lookup-absent :
    (k : Text) (v : VClock) → All (λ (e : Text × ℕ). e.0 ≢ k) v → lookup Text-discrete k v ≡ none
unfolding lookup
lookup-absent k [] a = refl
lookup-absent k ((j, x) ∷ v) a = ground (arith, a.0, lookup-absent k v a.1)

copy_entry :
    (k j : Text) (x : ℕ) (there old : Option ℕ)
    → (k ≡ j → there ≡ none)
    → or_else there (ite (Text-discrete k j) (some x) old)
      ≡ or_else (ite (Text-discrete k j) (some x) there) old
unfolding or_else
copy_entry k j x there old absent = ground (arith, absent)

lookup-copy_into :
    (v c : VClock) (j : Text)
    → IsMap v
    → lookup Text-discrete j (copy_into c v)
      ≡ or_else (lookup Text-discrete j v) (lookup Text-discrete j c)
unfolding copy_into lookup or_else
lookup-copy_into [] c j m = refl
lookup-copy_into ((k, x) ∷ v) c j m =
    lookup-copy_into v (insert Text-discrete k x c) j m.1
    ∙ ap (or_else (lookup Text-discrete j v)) (lookup-insert Text-discrete k j x c)
    ∙ copy_entry k j x (lookup Text-discrete j v) (lookup Text-discrete j c)
        (λ e. lookup-absent j v (rw (← e) m.0))

count-insert :
    (m : List (Text × ℕ)) (n k : Text) (x : ℕ)
    → count (insert Text-discrete n x m) k ≡ ite (Text-discrete n k) x (count m k)
count-insert m n k x = ground (arith, lookup-insert Text-discrete n k x m)

or_else-none : (o : Option ℕ) → or_else o none ≡ o
unfolding or_else
or_else-none none = refl
or_else-none (some x) = refl

count-clone : (v : VClock) (k : Text) → IsMap v → count (clone v) k ≡ count v k
unfolding clone lookup
count-clone v k m =
    let same : lookup Text-discrete k (copy_into [] v) ≡ lookup Text-discrete k v =
      lookup-copy_into v [] k m ∙ or_else-none (lookup Text-discrete k v) in
    ap (λ o. elim o as (λ _. ℕ) [ none ↦ 0 | some n ↦ n ]) same

-- Increment adds one for its node and leaves the others.
pub increment-count :
    (v : VClock) (node k : Text)
    → IsMap v
    → count (increment v node) k
      ≡ ite (Text-discrete node k) ((count v node + 1) % modulus) (count v k)
unfolding increment
increment-count v node k m =
    rw
      (
        count-insert (clone v) node k ((count (clone v) node + 1) % modulus),
        count-clone v node m,
        count-clone v k m,
      )
      refl

-- A call of `Increment` or of `Decrement`.
pub data Change : Type 0 where
  up down : Text → ℕ → Change

pub change : PnCounter → Change → PnCounter
change c (up node delta) = add_up c node delta
change c (down node delta) = add_down c node delta

pub change_all : PnCounter → List Change → PnCounter
change_all c [] = c
change_all c (x ∷ xs) = change_all (change c x) xs

-- What the calls add up to for a node.
pub ups : List Change → Text → ℕ
ups [] k = 0
ups (up node delta ∷ xs) k = ite (Text-discrete node k) delta 0 + ups xs k
ups (down node delta ∷ xs) k = ups xs k

pub downs : List Change → Text → ℕ
downs [] k = 0
downs (up node delta ∷ xs) k = downs xs k
downs (down node delta ∷ xs) k = ite (Text-discrete node k) delta 0 + downs xs k

add_case :
    {P : Type 0} (p : Dec P) (a b d rest : ℕ)
    → (P → a ≡ b)
    → (ite p ((a + d) % modulus) b + rest) % modulus ≡ (b + (ite p d 0 + rest)) % modulus
add_case (yes e) a b d rest same = omega (arith, same e)
add_case (no ne) a b d rest same = omega arith

-- What a write of the sum at one key does to the sums of all.
add_entry :
    (m : List (Text × ℕ)) (n k : Text) (d rest : ℕ)
    → (count (insert Text-discrete n ((count m n + d) % modulus) m) k + rest) % modulus
      ≡ (count m k + (ite (Text-discrete n k) d 0 + rest)) % modulus
add_entry m n k d rest =
    rw (count-insert m n k ((count m n + d) % modulus))
      (add_case (Text-discrete n k) (count m n) (count m k) d rest (λ e. ap (count m) e))

change_all-from :
    (xs : List Change) (c : PnCounter) (k : Text)
    → (count (change_all c xs).positive k % modulus ≡ (count c.positive k + ups xs k) % modulus)
      × (count (change_all c xs).negative k % modulus ≡ (count c.negative k + downs xs k) % modulus)
unfolding change_all change ups downs add_up add_down
change_all-from [] c k = (omega arith, omega arith)
change_all-from (up n d ∷ xs) c k =
    let rest = change_all-from xs (add_up c n d) k in
    (rest.0 ∙ add_entry c.positive n k d (ups xs k), rest.1)
change_all-from (down n d ∷ xs) c k =
    let rest = change_all-from xs (add_down c n d) k in
    (rest.0, rest.1 ∙ add_entry c.negative n k d (downs xs k))

zero_left : (n : ℕ) → (0 + n) % modulus ≡ n % modulus
zero_left n = omega arith

-- After any sequence of Increment and Decrement on a new counter, the positive count of each node
-- is the sum of its increments and the negative count that of its decrements, modulo 2^64.
pub change_all-sums :
    (xs : List Change) (k : Text)
    → (count (change_all new_pn_counter xs).positive k % modulus ≡ ups xs k % modulus)
      × (count (change_all new_pn_counter xs).negative k % modulus ≡ downs xs k % modulus)
unfolding new_pn_counter lookup
change_all-sums xs k =
    let both = change_all-from xs new_pn_counter k in
    (both.0 ∙ zero_left (ups xs k), both.1 ∙ zero_left (downs xs k))
