-- ===== src/EdgeCache/Proxy.antt =====
-- The caching proxy of projects/09-edge-cache-cdn/edge/proxy.go. A request is served in one step, so
-- its `coalesce.do` finds no call in flight and is the fetch; Coalescer models the requests that
-- meet there. The revalidation that a stale answer starts is a later step of its own. The answers of
-- the origin and the times at which the clock is read are arguments of a step.
pub mod Answers
pub mod Runs
mod Tests
use golang_journey.Prelude.{
  ℕ, zero, suc, ◌/◌, Bool, true, false, ◌||◌, ◌⊎◌, inl, inr, List, [], ◌∷◌, ◌++◌, Option, none,
  some, ite, ◌==◌, if◌then◌else◌, get_elem?,
}
use golang_journey.Prelude.Int64.{add_int}
use golang_journey.Prelude.Map.{insert}
use golang_journey.Prelude.Text.{Text, Text-discrete, bytes}
use golang_journey.EdgeCache.Response.{CachedResponse, age, is_expired, is_stale}
use golang_journey.EdgeCache.Store
use golang_journey.EdgeCache.Store.{Store}
use golang_journey.EdgeCache.Origin.{Config, Header, Request, Fetch, fetch_origin, key}

pub record Proxy : Type 0 where
  pub cfg : Config
  pub store : Store
  pub hits : ℕ
  pub misses : ℕ
  pub stales : ℕ
  pub revalidating : List Request  -- the goroutines that have not stored an answer yet

pub data XCache : Type 0 where
  hit stale miss bypass : XCache

-- The answer to a client. `Age` is kept as its number of seconds.
pub data Reply : Type 0 where
  replied : XCache → ℕ → Header → Text → ℕ → Reply
  bad_gateway : Text → Reply

-- When the clock is read: in `ServeHTTP`, in `Get`, in `fetchOrigin` and in `serve`.
pub record Times : Type 0 where
  pub asked : ℕ
  pub looked : ℕ
  pub fetched : ℕ
  pub served : ℕ

pub new_proxy : Config → Proxy
new_proxy cfg = record {
  cfg = cfg;
  store = Store.new cfg.cache_capacity;
  hits = 0;
  misses = 0;
  stales = 0;
  revalidating = [];
}

pub x_cache_name : XCache → Text
x_cache_name hit = bytes "HIT"
x_cache_name stale = bytes "STALE"
x_cache_name miss = bytes "MISS"
x_cache_name bypass = bytes "BYPASS"

pub serve : CachedResponse → XCache → ℕ → Reply
serve resp x now =
    replied x resp.status_code
      (insert Text-discrete (bytes "X-Cache") (x_cache_name x ∷ []) resp.header) resp.body
      (age resp now / 1000000000)

pub is_cacheable : Request → Bool
is_cacheable r =
    ite (Text-discrete r.method (bytes "GET")) true
      (ite (Text-discrete r.method (bytes "HEAD")) true false)

pub is_cacheable_status : ℕ → Bool
is_cacheable_status code =
    code == 200
    || code == 203
    || code == 204
    || code == 206
    || code == 300
    || code == 301
    || code == 404
    || code == 410

pub pass : Proxy → Fetch → Request → Times → Proxy × Reply
pass p fetch r t = elim (fetch_origin p.cfg fetch r t.fetched) [
  | inl e ↦ (p, bad_gateway e)
  | inr cr ↦ (p, serve cr bypass t.served)
]

-- `ServeHTTP` from the miss on.
pub fetch_miss : Proxy → Fetch → Request → Times → Proxy × Reply
fetch_miss p fetch r t = elim (fetch_origin p.cfg fetch r t.fetched) [
  | inl e ↦ (p, bad_gateway e)
  | inr cr ↦ (
    record p {
      store = if is_cacheable_status cr.status_code then Store.set p.store (key r) cr else p.store;
      misses = add_int p.misses 1;
    },
    serve cr miss t.served,
  )
]

-- `ServeHTTP` with the response that `Get` has returned.
pub answer_found : Proxy → Fetch → Request → Times → CachedResponse → Proxy × Reply
answer_found p fetch r t resp =
    let missed = fetch_miss p fetch r t in
    if is_expired resp t.asked
    then if is_stale resp t.asked
      then (
        record p { stales = add_int p.stales 1; revalidating = p.revalidating ++ r ∷ [] },
        serve resp stale t.served,
      )
      else missed
    else (record p { hits = add_int p.hits 1 }, serve resp hit t.served)

pub serve_http : Proxy → Fetch → Request → Times → Proxy × Reply
serve_http p fetch r t =
    let got = Store.get p.store (key r) t.looked in
    let p' : Proxy = record p { store = got.0 } in
    let answered : Proxy × Reply = elim got.1 [
      | none ↦ fetch_miss p' fetch r t
      | some resp ↦ answer_found p' fetch r t resp
    ] in
    if is_cacheable r then answered else pass p fetch r t

pub drop_at : {A : Type 0} → ℕ → List A → List A
drop_at i [] = []
drop_at zero (x ∷ xs) = xs
drop_at (suc i) (x ∷ xs) = x ∷ drop_at i xs

-- A goroutine that `ServeHTTP` has started for a stale answer, from its fetch to its end.
pub revalidate : Proxy → Fetch → ℕ → ℕ → Proxy
revalidate p fetch i now = elim (get_elem? p.revalidating i) [
  | none ↦ p
  | some r ↦
      let rest = drop_at i p.revalidating in
      elim (fetch_origin p.cfg fetch r now) [
        | inl e ↦ record p { revalidating = rest }
        | inr cr ↦ record p { store = Store.set p.store (key r) cr; revalidating = rest }
      ]
]

pub proxy_stats : Proxy → ℕ × ℕ × ℕ
proxy_stats p = (p.hits, p.misses, p.stales)

pub store_stats : Proxy → ℕ × ℕ
store_stats p = Store.stats p.store

pub purge : Proxy → Text → Proxy × ℕ
purge p prefix =
    let (store, count) = Store.purge p.store prefix in (record p { store = store }, count)
