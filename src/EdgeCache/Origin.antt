-- ===== src/EdgeCache/Origin.antt =====
-- What projects/09-edge-cache-cdn/edge/proxy.go asks of the origin and makes of its answer, and the
-- key of a request in edge/cache/store.go. A duration is a 64-bit integer of nanoseconds.
use golang_journey.Prelude.{
  ℕ, ◌+◌, ◌-◌, Bool, false, ◌⊎◌, inl, inr, List, [], ◌∷◌, ◌++◌, none, some, ite, take, ltb, ◌==◌,
  if◌then◌else◌,
}
use golang_journey.Prelude.Int64.{modulus, half, add_int}
use golang_journey.Prelude.Map.{lookup, insert}
use golang_journey.Prelude.Text.{Text, Text-discrete, bytes}
use golang_journey.Cron.Syntax.{cut}
use golang_journey.EdgeCache.Response.{CachedResponse}

-- `http.Header`, its keys in canonical form.
abbrev pub Header : Type 0
Header = List (Text × List Text)

-- The fields of `Config` that requests read.
pub record Config : Type 0 where
  pub cache_capacity : ℕ
  pub default_ttl : ℕ
  pub stale_grace_period : ℕ

pub record Request : Type 0 where
  pub method : Text
  pub host : Text
  pub request_uri : Text  -- `r.URL.RequestURI()`
  pub path : Text
  pub raw_query : Text
  pub header : Header
  pub body : Text
  pub remote_addr : Text

pub record OriginRequest : Type 0 where
  pub method : Text
  pub path : Text
  pub raw_query : Text
  pub header : Header
  pub body : Text

pub record OriginResponse : Type 0 where
  pub status_code : ℕ
  pub header : Header
  pub body : Text

-- `h.Get(name)`
unfoldable pub get_header : Header → Text → Text
get_header h name = elim (lookup Text-discrete name h) [
  | none ↦ []
  | some [] ↦ []
  | some (v ∷ vs) ↦ v
]

unfoldable pub forward : Header → List Text → Header → Header
forward from [] to = to
forward from (name ∷ names) to =
    let v = get_header from name in
    let to' = ite (Text-discrete v []) to (insert Text-discrete name (v ∷ []) to) in
    forward from names to'

abbrev pub forwarded : List Text
forwarded = bytes "Accept" ∷ bytes "Accept-Encoding" ∷ bytes "Authorization" ∷ bytes "Cookie" ∷ []

-- `strings.Split(addr, ":")[0]`
unfoldable pub client_of : Text → Text
client_of addr = elim (cut b':' addr) [ none ↦ addr | some (host, port) ↦ host ]

-- The request that `fetchOrigin` makes.
unfoldable pub origin_request : Request → OriginRequest
origin_request r = record {
  method = r.method;
  path = r.path;
  raw_query = r.raw_query;
  header =
      insert Text-discrete (bytes "X-Forwarded-For") (client_of r.remote_addr ∷ [])
        (forward r.header forwarded []);
  body = r.body;
}

-- `Key`
unfoldable pub key : Request → Text
key r = r.host ++ r.request_uri

-- `ParseCacheControl`, which the source leaves to be written.
unfoldable pub parse_cache_control : Text → ℕ × ℕ × Bool
parse_cache_control header = (0, 0, false)

-- `t.Add(d)`
unfoldable pub add_duration : ℕ → ℕ → ℕ
add_duration t d = if ltb d half then t + d else t - (modulus - d)

-- The two lifetimes, from the header and the defaults.
unfoldable pub lifetimes : Config → Text → ℕ × ℕ
lifetimes cfg header =
    let (parsed, swr, no_store) = parse_cache_control header in
    let max_age : ℕ = if no_store then modulus - 1 else parsed in
    (
      if max_age == 0 then cfg.default_ttl else max_age,
      if swr == 0 then cfg.stale_grace_period else swr,
    )

-- `io.LimitReader(resp.Body, 10<<20)`
abbrev pub body_limit : ℕ
body_limit = 10485760

-- `fetchOrigin` after the call of the client at the time `now`.
unfoldable pub cached : Config → ℕ → OriginResponse → CachedResponse
cached cfg now resp =
    let (max_age, swr) = lifetimes cfg (get_header resp.header (bytes "Cache-Control")) in
    record {
      status_code = resp.status_code;
      header = resp.header;
      body = take body_limit resp.body;
      cached_at = now;
      expires = add_duration now max_age;
      e_tag = get_header resp.header (bytes "Etag");
      last_mod = get_header resp.header (bytes "Last-Modified");
      stale_until = add_duration now (add_int max_age swr);
    }

-- What the client of net/http does with a request: an error's text, or a response read in full.
abbrev pub Fetch : Type 0
Fetch = OriginRequest → Text ⊎ OriginResponse

unfoldable pub fetch_origin : Config → Fetch → Request → ℕ → Text ⊎ CachedResponse
fetch_origin cfg fetch r now = elim (fetch (origin_request r)) [
  | inl e ↦ inl e
  | inr resp ↦ inr (cached cfg now resp)
]
