-- ===== src/EdgeCache/Proxy/Answers.antt =====
-- Where the answer to a request comes from.
use golang_journey.Prelude.{
  ◌≤◌, ◌<◌, ◌≡◌, ◌⊎◌, ◌↔◌, inl, inr, true, none, some, arith, Option-cases, Bool-cases, Sum-cases,
  ltb,
}
use golang_journey.Prelude.Text.{Text, bytes}
use golang_journey.EdgeCache.Elements.{view, find}
use golang_journey.EdgeCache.Response.{CachedResponse, is_expired, is_stale}
use golang_journey.EdgeCache.Store
use golang_journey.EdgeCache.Store.{Store}
use golang_journey.EdgeCache.Store.Invariant.{IsValid}
use golang_journey.EdgeCache.Store.Lifetimes.{get_iff}
use golang_journey.EdgeCache.Origin.{Config, Request, Fetch, fetch_origin, key}
use golang_journey.EdgeCache.Proxy.{
  Proxy, XCache, hit, stale, miss, bypass, Reply, bad_gateway, Times, serve, is_cacheable, pass,
  fetch_miss, answer_found, serve_http,
}

module _ (cfg : Config) (fetch : Fetch) (r : Request) (t : Times) where
  -- The origin's answer, or its failure.
  pub data Fetched (x : XCache) : Reply → Type 0 where
    fetched :
        (cr : CachedResponse)
        → fetch_origin cfg fetch r t.fetched ≡ inr cr
        → Fetched x (serve cr x t.served)
    failed : (e : Text) → fetch_origin cfg fetch r t.fetched ≡ inl e → Fetched x (bad_gateway e)

-- The methods whose requests the cache serves.
abbrev pub GetOrHead : Request → Type 0
GetOrHead r = (r.method ≡ bytes "GET") ⊎ (r.method ≡ bytes "HEAD")

is_cacheable_iff : (r : Request) → (is_cacheable r ≡ true) ↔ GetOrHead r
unfolding is_cacheable
is_cacheable_iff r = ground arith

module _ (p : Proxy) (fetch : Fetch) (r : Request) (t : Times) where
  -- A response of the cache that is fresh, one within its stale window, the origin's answer when
  -- there is neither, or the origin's answer to a request that the cache does not serve.
  pub data Answer : Reply → Type 0 where
    fresh :
        (resp : CachedResponse)
        → GetOrHead r
        → find (key r) (view p.store.lru) ≡ some resp
        → t.asked ≤ resp.expires
        → Answer (serve resp hit t.served)
    aged :
        (resp : CachedResponse)
        → GetOrHead r
        → find (key r) (view p.store.lru) ≡ some resp
        → resp.expires < t.asked
        → t.asked < resp.stale_until
        → Answer (serve resp stale t.served)
    missed :
        {reply : Reply}
        → GetOrHead r
        → ((resp : CachedResponse)
            → find (key r) (view p.store.lru) ≡ some resp
            → (resp.expires < t.looked) × (resp.stale_until ≤ t.looked))
        → Fetched p.cfg fetch r t miss reply
        → Answer reply
    passed : {reply : Reply} → ¬ GetOrHead r → Fetched p.cfg fetch r t bypass reply → Answer reply

  pass-Fetched : Fetched p.cfg fetch r t bypass (pass p fetch r t).1
  unfolding pass
  pass-Fetched = elim (Sum-cases (fetch_origin p.cfg fetch r t.fetched)) [
    | inl (e, q) ↦ rw (q, pass) (failed e q)
    | inr (cr, q) ↦ rw (q, pass) (fetched cr q)
  ]

  fetch_miss-Fetched : Fetched p.cfg fetch r t miss (fetch_miss p fetch r t).1
  unfolding fetch_miss
  fetch_miss-Fetched = elim (Sum-cases (fetch_origin p.cfg fetch r t.fetched)) [
    | inl (e, q) ↦ rw (q, fetch_miss) (failed e q)
    | inr (cr, q) ↦ rw (q, fetch_miss) (fetched cr q)
  ]

answer_found-Answer :
    (p : Proxy) (s : Store) (fetch : Fetch) (r : Request) (t : Times) (resp : CachedResponse)
    → t.asked ≤ t.looked
    → GetOrHead r
    → find (key r) (view p.store.lru) ≡ some resp
    → (t.looked ≤ resp.expires) ⊎ (t.looked < resp.stale_until)
    → Answer p fetch r t (answer_found (record p { store = s }) fetch r t resp).1
unfolding answer_found is_expired is_stale
answer_found-Answer p s fetch r t resp order c found live =
    elim (Bool-cases (ltb resp.expires t.asked)) [
      | inl late ↦
          let e : resp.expires < t.asked = ground (arith, late) in
          let f : t.asked < resp.stale_until = ground (arith, e, live, order) in
          let w : ltb t.asked resp.stale_until ≡ true = ground (arith, f) in
          rw (answer_found, late, w) (aged resp c found e f)
      | inr soon ↦ rw (answer_found, soon) (fresh resp c found (ground (arith, soon)))
    ]

-- On a valid cache, with a clock that does not go back before the cache is read, ServeHTTP
-- answers a GET or HEAD with a HIT of a response under the key that has not expired, with a STALE
-- one that has expired and is within its stale window, or, when every response under the key is
-- past both times, with the answer of the origin or a 502; and it answers any other method with
-- the answer of the origin or a 502, never from the cache.
pub serve_http-Answer :
    (p : Proxy) (fetch : Fetch) (r : Request) (t : Times)
    → IsValid p.store
    → t.asked ≤ t.looked
    → Answer p fetch r t (serve_http p fetch r t).1
unfolding serve_http
serve_http-Answer p fetch r t valid order = elim (Bool-cases (is_cacheable r)) [
  | inr c ↦
      rw (serve_http, c)
        (passed (λ read. ground (arith, c, (is_cacheable_iff r).1 read)) (pass-Fetched p fetch r t))
  | inl c ↦ elim (Option-cases (Store.get p.store (key r) t.looked).1) [
    | inr (resp, g) ↦
        let (found, live) = (get_iff p.store (key r) t.looked resp valid).0 g in
        rw (serve_http, c, g)
          (answer_found-Answer p _ fetch r t resp order ((is_cacheable_iff r).0 c) found live)
    | inl g ↦
        rw (serve_http, c, g)
          (missed ((is_cacheable_iff r).0 c) (λ resp found. dead resp found g)
            (fetch_miss-Fetched (record p { store = (Store.get p.store (key r) t.looked).0 }) fetch
              r t))
  ]
]
  where
    dead :
        (resp : CachedResponse)
        → find (key r) (view p.store.lru) ≡ some resp
        → (Store.get p.store (key r) t.looked).1 ≡ none
        → (resp.expires < t.looked) × (resp.stale_until ≤ t.looked)
    dead resp found g = ground (arith, found, g, (get_iff p.store (key r) t.looked resp valid).1)
