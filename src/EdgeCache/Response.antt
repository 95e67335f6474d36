-- ===== src/EdgeCache/Response.antt =====
-- A cached response and its two lifetimes, projects/09-edge-cache-cdn/edge/cache/store.go. A time
-- is a number of nanoseconds.
use golang_journey.Prelude.{ℕ, ◌-◌, Bool, ◌&&◌, List, ltb}
use golang_journey.Prelude.Text.{Text}

pub record CachedResponse : Type 0 where
  pub status_code : ℕ
  pub header : List (Text × List Text)
  pub body : Text
  pub cached_at : ℕ
  pub expires : ℕ
  pub e_tag : Text
  pub last_mod : Text
  pub stale_until : ℕ

-- `now.After(r.Expires)`
unfoldable pub is_expired : CachedResponse → ℕ → Bool
is_expired r now = ltb r.expires now

-- Past `Expires` and before `StaleUntil`.
unfoldable pub is_stale : CachedResponse → ℕ → Bool
unfolding is_expired
is_stale r now = is_expired r now && ltb now r.stale_until

-- The age of a response, at a time that is not before it was cached.
pub age : CachedResponse → ℕ → ℕ
age r now = now - r.cached_at
