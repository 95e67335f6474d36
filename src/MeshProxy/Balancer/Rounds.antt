-- ===== src/MeshProxy/Balancer/Rounds.antt =====
-- With no breaker tripped, `Next` goes round the upstreams in their order.
use golang_journey.Prelude.{
  ℕ, zero, suc, ◌+◌, ◌%◌, ◌<◌, ◌≡◌, true, false, ltb, ◌==◌, refl, List, [], ◌∷◌, some, arith,
  length, get_elem?, set, All, Outcome, ok, err, panic, get_elem?_total, sym, ap, subst, ◌∙◌,
}
use golang_journey.Prelude.Int64.{half, add_int}
use golang_journey.MeshProxy.Breaker.{closed, allow}
use golang_journey.MeshProxy.Balancer.{
  Upstream, LoadBalancer, BalancerError, index_of, attempts, next,
}

-- A run of calls, with the upstreams that they pick.
unfoldable pub picks :
    ℕ → LoadBalancer → Outcome (LoadBalancer × BalancerError) (LoadBalancer × List ℕ)
picks zero lb = ok (lb, [])
picks (suc m) lb = elim (next lb) [
  | ok (lb', i) ↦ elim (picks m lb') [
    | ok (lb'', is) ↦ ok (lb'', i ∷ is)
    | err e ↦ err e
    | panic ↦ panic
  ]
  | err e ↦ err e
  | panic ↦ panic
]

-- The remainders of the numbers from `c + 1` on.
abbrev pub rounds : ℕ → ℕ → ℕ → List ℕ
rounds n c zero = []
rounds n c (suc m) = (c + 1) % n ∷ rounds n (c + 1) m

abbrev pub IsClosed : Upstream → Type 0
IsClosed u = u.cb.state ≡ closed

All-get_elem? :
    (us : List Upstream) (i : ℕ) {u : Upstream}
    → All IsClosed us
    → get_elem? us i ≡ some u
    → IsClosed u
All-get_elem? [] i a h = cc
All-get_elem? (x ∷ us) zero {u} (p, a) h = let e : x ≡ u = cc h in subst IsClosed e p
All-get_elem? (x ∷ us) (suc i) (p, a) h = All-get_elem? us i a h

set_same : (us : List Upstream) (i : ℕ) {u : Upstream} → get_elem? us i ≡ some u → set us i u ≡ us
set_same [] i h = refl
set_same (x ∷ us) zero h = cc h
set_same (x ∷ us) (suc i) h = ap (◌∷◌ x) (set_same us i h)

mod_lt : (a n : ℕ) → 0 < n → a % n < n
mod_lt a n h = omega arith

index_lem : (c n : ℕ) → 0 < n → c + 1 < half → index_of (add_int c 1) n ≡ some ((c + 1) % n)
unfolding index_of
index_lem c n pos small =
    let e : add_int c 1 ≡ c + 1 = omega arith in
    let below : ltb (c + 1) half ≡ true = ground (arith, small) in rw (e, below) refl

attempts_closed :
    (m : ℕ) (lb : LoadBalancer)
    → All IsClosed lb.upstreams
    → 0 < length lb.upstreams
    → lb.current + 1 < half
    → attempts (suc m) lb
      ≡ ok (record lb { current = lb.current + 1 }, (lb.current + 1) % length lb.upstreams)
unfolding attempts allow
attempts_closed m lb a pos small =
    let n = length lb.upstreams in
    let (u, at) = get_elem?_total lb.upstreams ((lb.current + 1) % n) (mod_lt _ n pos) in
    let still : u.cb.state ≡ closed = All-get_elem? lb.upstreams _ a at in
    let allowed : allow u.cb ≡ ok (u.cb, true) = rw (allow, still) refl in
    let e : add_int lb.current 1 ≡ lb.current + 1 = omega arith in
    rw (attempts, index_lem lb.current n pos small, at, allowed, set_same lb.upstreams _ at, e) refl

next_closed :
    (lb : LoadBalancer)
    → All IsClosed lb.upstreams
    → 0 < length lb.upstreams
    → lb.current + 1 < half
    → next lb ≡ ok (record lb { current = lb.current + 1 }, (lb.current + 1) % length lb.upstreams)
unfolding next
next_closed lb a pos small = filled lb.upstreams refl pos
  where
    filled :
        (us : List Upstream)
        → us ≡ lb.upstreams
        → 0 < length us
        → next lb
          ≡ ok (record lb { current = lb.current + 1 }, (lb.current + 1) % length lb.upstreams)
    filled [] e p = absurd (omega arith)
    filled (x ∷ xs) e p =
        let size : length lb.upstreams ≡ suc (length xs) =
          sym (ap (λ (us : List Upstream). length us) e) in
        let some_left : (length lb.upstreams == 0) ≡ false = ground (arith, pos) in
        let same : attempts (length lb.upstreams) lb ≡ attempts (suc (length xs)) lb =
          ap (λ n. attempts n lb) size in
        rw (next, some_left) (same ∙ attempts_closed (length xs) lb a pos small)

-- With at least one upstream, every breaker closed and a counter that stays below 2^63, m calls
-- of Next pick the upstreams in a round from the one after the counter on, whatever their weights
-- are, and leave the counter m higher and the breakers as they were.
pub picks-rounds :
    (m : ℕ) (lb : LoadBalancer)
    → All IsClosed lb.upstreams
    → 0 < length lb.upstreams
    → lb.current + m < half
    → picks m lb
      ≡ ok (record lb { current = lb.current + m }, rounds (length lb.upstreams) lb.current m)
unfolding picks
picks-rounds zero lb a pos small = let e : lb.current + 0 ≡ lb.current = omega arith in rw e refl
picks-rounds (suc m) lb a pos small =
    let rest = picks-rounds m (record lb { current = lb.current + 1 }) a pos (omega arith) in
    let e : lb.current + 1 + m ≡ lb.current + suc m = omega arith in
    rw (picks, next_closed lb a pos (omega arith), rest, e) refl
