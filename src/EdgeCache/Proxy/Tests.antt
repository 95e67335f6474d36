-- ===== src/EdgeCache/Proxy/Tests.antt =====
-- Requests for one page, and the theorems at them.
use golang_journey.Prelude.{ℕ, ◌≡◌, inl, inr, refl, List, [], ◌∷◌, arith, ℕ_discrete}
use golang_journey.Prelude.Map.{lookup, insert, remove}
use golang_journey.Prelude.Text.{Text-discrete, bytes}
use golang_journey.Cron.Syntax.{cut}
use golang_journey.EdgeCache.Elements.{value_of, remove_element, back}
use golang_journey.EdgeCache.Response.{CachedResponse, is_expired, is_stale}
use golang_journey.EdgeCache.Store
use golang_journey.EdgeCache.Store.Invariant.{IsValid}
use golang_journey.EdgeCache.Store.Refinement.{new-Refines}
use golang_journey.EdgeCache.Origin.{
  Config, Request, OriginResponse, Fetch, get_header, forward, client_of, origin_request, key,
  parse_cache_control, add_duration, lifetimes, cached, fetch_origin,
}
use golang_journey.EdgeCache.Proxy.{
  proxy_stats, Times, new_proxy, x_cache_name, serve, is_cacheable, is_cacheable_status, pass,
  fetch_miss, answer_found, serve_http, drop_at, revalidate,
}
use golang_journey.EdgeCache.Proxy.Answers
use golang_journey.EdgeCache.Proxy.Answers.{Answer}
use golang_journey.EdgeCache.Proxy.Runs
use golang_journey.EdgeCache.Proxy.Runs.{
  Step, request_step, revalidate_step, apply, run, Leads, count,
}

program : Unit {0}
unfolding lookup insert remove Text-discrete ℕ_discrete cut value_of remove_element back is_expired
    is_stale Store.new Store.move_to_front Store.is_dead Store.get Store.set_front Store.evict
    Store.push Store.set get_header forward client_of origin_request key parse_cache_control
    add_duration lifetimes cached fetch_origin new_proxy x_cache_name serve is_cacheable
    is_cacheable_status pass fetch_miss answer_found serve_http drop_at revalidate apply run
program = tt

-- Fresh for 60 and stale for 10 more.
abbrev cfg : Config
cfg = record { cache_capacity = 2; default_ttl = 60; stale_grace_period = 10 }

abbrev head_page : Request
head_page = record {
  method = bytes "HEAD";
  host = bytes "h";
  request_uri = bytes "/p";
  path = bytes "/p";
  raw_query = [];
  header = (bytes "Cookie", bytes "c" ∷ []) ∷ [];
  body = [];
  remote_addr = bytes "1.2.3.4:80";
}

abbrev get_page : Request
get_page = record head_page { method = bytes "GET"; header = [] }

-- The origin forbids to store the page.
abbrev page : OriginResponse
page = record {
  status_code = 200;
  header = (bytes "Cache-Control", bytes "no-store" ∷ []) ∷ [];
  body = [];
}

abbrev origin : Fetch
origin req = inr page

abbrev down : Fetch
down req = inl (bytes "refused")

abbrev at_time : ℕ → Times
at_time n = record { asked = n; looked = n; fetched = n; served = n }

abbrev stored_page : CachedResponse
stored_page = record {
  status_code = 200;
  header = (bytes "Cache-Control", bytes "no-store" ∷ []) ∷ [];
  body = [];
  cached_at = 5;
  expires = 65;
  e_tag = [];
  last_mod = [];
  stale_until = 75;
}

abbrev steps : List Step
steps =
    request_step origin head_page (at_time 5)
    ∷ request_step down get_page (at_time 50)
    ∷ request_step down get_page (at_time 70)
    ∷ revalidate_step down 0 71
    ∷ request_step down get_page (at_time 80)
    ∷ []

-- A miss, a hit, a stale answer whose revalidation fails, and a failure.
counted : proxy_stats (run (new_proxy cfg) steps).0 ≡ (1, 1, 1)
unfolding program proxy_stats
counted = refl

asks_origin :
    (origin_request head_page).header
    ≡ (bytes "Cookie", bytes "c" ∷ []) ∷ (bytes "X-Forwarded-For", bytes "1.2.3.4" ∷ []) ∷ []
unfolding program
asks_origin = refl

new-IsValid : IsValid (new_proxy cfg).store
unfolding new_proxy
new-IsValid = (new-Refines 2).valid

serve_http-Answer_example :
    Answer
      (new_proxy cfg)
      origin
      head_page
      (at_time 5)
      (serve_http (new_proxy cfg) origin head_page (at_time 5)).1
serve_http-Answer_example =
    Answers.serve_http-Answer (new_proxy cfg) origin head_page (at_time 5) new-IsValid (omega arith)

run-Leads_example : Leads (new_proxy cfg) (run (new_proxy cfg) steps)
run-Leads_example = Runs.run-Leads cfg steps
