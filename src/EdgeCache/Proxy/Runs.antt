-- ===== src/EdgeCache/Proxy/Runs.antt =====
-- Any sequence of requests and revalidations on a new proxy.
use golang_journey.Prelude.{
  ℕ, zero, suc, ◌+◌, ◌%◌, ◌≤◌, ◌≡◌, inl, inr, Bool, true, false, List, [], ◌∷◌, ◌++◌, arith,
  Option-cases, Bool-cases, Sum-cases, if◌then◌else◌, length, length-append, if-both, get_elem?,
}
use golang_journey.Prelude.Int64.{modulus}
use golang_journey.EdgeCache.Response.{CachedResponse, is_expired, is_stale}
use golang_journey.EdgeCache.Store
use golang_journey.EdgeCache.Store.{Store}
use golang_journey.EdgeCache.Store.Invariant.{IsValid}
use golang_journey.EdgeCache.Store.Refinement.{get-plain_get, set-plain_set, new-Refines}
use golang_journey.EdgeCache.Origin.{Config, Request, Fetch, fetch_origin, key}
use golang_journey.EdgeCache.Proxy.{
  Proxy, XCache, hit, stale, miss, bypass, Reply, replied, bad_gateway, Times, new_proxy, serve,
  is_cacheable, is_cacheable_status, pass, fetch_miss, answer_found, serve_http, drop_at,
  revalidate,
}

-- A request with the origin's answers and the times, or a goroutine that revalidates, by its place
-- among those that run.
pub data Step : Type 0 where
  request_step : Fetch → Request → Times → Step
  revalidate_step : Fetch → ℕ → ℕ → Step

unfoldable pub apply : Proxy → Step → Proxy × List Reply
apply p (request_step fetch r t) = let (p', reply) = serve_http p fetch r t in (p', reply ∷ [])
apply p (revalidate_step fetch i now) = (revalidate p fetch i now, [])

unfoldable pub run : Proxy → List Step → Proxy × List Reply
run p [] = (p, [])
run p (s ∷ steps) =
    let (p', replies) = apply p s in let (p'', more) = run p' steps in (p'', replies ++ more)

abbrev pub is_same : XCache → XCache → Bool
is_same hit hit = true
is_same stale stale = true
is_same miss miss = true
is_same bypass bypass = true
is_same x y = false

-- How many answers carry a mark.
abbrev pub count : XCache → List Reply → ℕ
count x [] = 0
count x (replied y status header body age ∷ replies) =
    if is_same x y then count x replies + 1 else count x replies
count x (bad_gateway e ∷ replies) = count x replies

count-append :
    (x : XCache) (rs more : List Reply) → count x (rs ++ more) ≡ count x rs + count x more
count-append x [] more = omega arith
count-append x (replied y status header body age ∷ rs) more = ground (arith, count-append x rs more)
count-append x (bad_gateway e ∷ rs) more = ground (arith, count-append x rs more)

-- What answers make of a proxy: its counters go up by the answers of their mark, a revalidation
-- is started for each stale answer at most, and the cache is valid and keeps to its capacity.
pub record Leads (p : Proxy) (after : Proxy × List Reply) : Type 0 where
  pub valid : IsValid after.0.store
  pub hits : after.0.hits % modulus ≡ (p.hits + count hit after.1) % modulus
  pub misses : after.0.misses % modulus ≡ (p.misses + count miss after.1) % modulus
  pub stales : after.0.stales % modulus ≡ (p.stales + count stale after.1) % modulus
  pub started : length after.0.revalidating ≤ length p.revalidating + count stale after.1

abbrev one : Proxy × Reply → Proxy × List Reply
one (p, reply) = (p, reply ∷ [])

module _ (p : Proxy) (v : IsValid p.store) (fetch : Fetch) (r : Request) (t : Times) where
  pass-Leads : Leads p (one (pass p fetch r t))
  unfolding pass serve
  pass-Leads = elim (Sum-cases (fetch_origin p.cfg fetch r t.fetched)) [
    | inl (e, q) ↦
        rw (q, pass)
          (record {
            valid = v;
            hits = omega arith;
            misses = omega arith;
            stales = omega arith;
            started = omega arith;
          })
    | inr (cr, q) ↦
        rw (q, pass)
          (record {
            valid = v;
            hits = omega arith;
            misses = omega arith;
            stales = omega arith;
            started = omega arith;
          })
  ]

  fetch_miss-Leads : Leads p (one (fetch_miss p fetch r t))
  unfolding fetch_miss serve
  fetch_miss-Leads = elim (Sum-cases (fetch_origin p.cfg fetch r t.fetched)) [
    | inl (e, q) ↦
        rw (q, fetch_miss)
          (record {
            valid = v;
            hits = omega arith;
            misses = omega arith;
            stales = omega arith;
            started = omega arith;
          })
    | inr (cr, q) ↦
        rw (q, fetch_miss)
          (record {
            valid =
                if-both IsValid (is_cacheable_status cr.status_code)
                  ((set-plain_set p.store v (key r) cr).valid) v;
            hits = omega arith;
            misses = omega arith;
            stales = omega arith;
            started = omega arith;
          })
  ]

  answer_found-Leads : (resp : CachedResponse) → Leads p (one (answer_found p fetch r t resp))
  unfolding answer_found serve
  answer_found-Leads resp = elim (Bool-cases (is_expired resp t.asked)) [
    | inr soon ↦
        rw (answer_found, soon)
          (record {
            valid = v;
            hits = omega arith;
            misses = omega arith;
            stales = omega arith;
            started = omega arith;
          })
    | inl late ↦ elim (Bool-cases (is_stale resp t.asked)) [
      | inl w ↦
          rw (answer_found, late, w)
            (record {
              valid = v;
              hits = omega arith;
              misses = omega arith;
              stales = omega arith;
              started = omega (arith, length-append p.revalidating (r ∷ []));
            })
      | inr w ↦ rw (answer_found, late, w) fetch_miss-Leads
    ]
  ]

serve_http-Leads :
    (p : Proxy)
    → IsValid p.store
    → (fetch : Fetch) (r : Request) (t : Times) → Leads p (one (serve_http p fetch r t))
unfolding serve_http
serve_http-Leads p v fetch r t = elim (Bool-cases (is_cacheable r)) [
  | inr c ↦ rw (serve_http, c) (pass-Leads p v fetch r t)
  | inl c ↦
      let p' : Proxy = record p { store = (Store.get p.store (key r) t.looked).0 } in
      let v' = (get-plain_get p.store v (key r) t.looked).0.valid in
      elim (Option-cases (Store.get p.store (key r) t.looked).1) [
        | inl g ↦ rw (serve_http, c, g) (moved (fetch_miss-Leads p' v' fetch r t))
        | inr (resp, g) ↦ rw (serve_http, c, g) (moved (answer_found-Leads p' v' fetch r t resp))
      ]
]
  where
    moved :
        {after : Proxy × List Reply}
        → Leads (record p { store = (Store.get p.store (key r) t.looked).0 }) after
        → Leads p after
    moved l = record {
      valid = l.valid;
      hits = l.hits;
      misses = l.misses;
      stales = l.stales;
      started = l.started;
    }

length-drop_at : {A : Type 0} (i : ℕ) (xs : List A) → length (drop_at i xs) ≤ length xs
unfolding drop_at
length-drop_at i [] = omega arith
length-drop_at zero (x ∷ xs) = omega arith
length-drop_at (suc i) (x ∷ xs) = omega (arith, length-drop_at i xs)

revalidate-Leads :
    (p : Proxy)
    → IsValid p.store
    → (fetch : Fetch) (i now : ℕ) → Leads p (revalidate p fetch i now, [])
unfolding revalidate
revalidate-Leads p v fetch i now = elim (Option-cases (get_elem? p.revalidating i)) [
  | inl e ↦
      rw (revalidate, e)
        (record {
          valid = v;
          hits = omega arith;
          misses = omega arith;
          stales = omega arith;
          started = omega arith;
        })
  | inr (r, e) ↦ elim (Sum-cases (fetch_origin p.cfg fetch r now)) [
    | inl (x, q) ↦
        rw (revalidate, e, q)
          (record {
            valid = v;
            hits = omega arith;
            misses = omega arith;
            stales = omega arith;
            started = omega (arith, length-drop_at i p.revalidating);
          })
    | inr (cr, q) ↦
        rw (revalidate, e, q)
          (record {
            valid = (set-plain_set p.store v (key r) cr).valid;
            hits = omega arith;
            misses = omega arith;
            stales = omega arith;
            started = omega (arith, length-drop_at i p.revalidating);
          })
  ]
]

apply-Leads : (p : Proxy) → IsValid p.store → (s : Step) → Leads p (apply p s)
unfolding apply
apply-Leads p v (request_step fetch r t) = serve_http-Leads p v fetch r t
apply-Leads p v (revalidate_step fetch i now) = revalidate-Leads p v fetch i now

run_from-Leads : (p : Proxy) → IsValid p.store → (steps : List Step) → Leads p (run p steps)
unfolding run
run_from-Leads p v [] = record {
  valid = v;
  hits = omega arith;
  misses = omega arith;
  stales = omega arith;
  started = omega arith;
}
run_from-Leads p v (s ∷ steps) =
    let first = apply-Leads p v s in
    let rest = run_from-Leads (apply p s).0 first.valid steps in
    let total : (x : XCache)
        → count x ((apply p s).1 ++ (run (apply p s).0 steps).1)
          ≡ count x (apply p s).1 + count x (run (apply p s).0 steps).1 =
      λ x. count-append x (apply p s).1 (run (apply p s).0 steps).1 in
    record {
      valid = rest.valid;
      hits = omega (arith, first.hits, rest.hits, total hit);
      misses = omega (arith, first.misses, rest.misses, total miss);
      stales = omega (arith, first.stales, rest.stales, total stale);
      started = omega (arith, first.started, rest.started, total stale);
    }

-- After any sequence of requests and revalidations on a new proxy, the cache is valid, the
-- counters of Stats are the numbers of HIT, MISS and STALE answers modulo 2^64, and at most as
-- many revalidations run as STALE answers were given.
pub run-Leads :
    (cfg : Config) (steps : List Step) → Leads (new_proxy cfg) (run (new_proxy cfg) steps)
unfolding new_proxy
run-Leads cfg steps = run_from-Leads (new_proxy cfg) (new-Refines cfg.cache_capacity).valid steps
