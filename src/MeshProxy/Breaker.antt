-- ===== src/MeshProxy/Breaker.antt =====
-- The circuit breaker of projects/04-service-mesh-proxy/proxy/proxy.go. A 32-bit counter is its bit
-- pattern, a 64-bit one too. No code stores another state than these three.
pub mod Streaks
use golang_journey.Prelude.{ℕ, ◌+◌, ◌%◌, Bool, true, false, ltb, if◌then◌else◌, Outcome, ok, panic}
use golang_journey.Prelude.Int64.{le_int}

pub data CbState : Type 0 where
  closed : CbState
  opened : CbState
  half_open : CbState

pub record CbConfig : Type 0 where
  pub max_failures : ℕ
  pub reset_timeout : ℕ
  pub half_open_max_reqs : ℕ

pub record CircuitBreaker : Type 0 where
  pub cfg : CbConfig
  pub state : CbState
  pub failures : ℕ
  pub last_trip : ℕ
  pub half_reqs : ℕ

unfoldable pub new_circuit_breaker : CbConfig → CircuitBreaker
new_circuit_breaker cfg = record {
  cfg = cfg;
  state = closed;
  failures = 0;
  last_trip = 0;
  half_reqs = 0;
}

-- `atomic.Int32.Add(1)`
abbrev pub add_one : ℕ → ℕ
add_one f = (f + 1) % 4294967296

-- `int(f)` of an `int32`.
abbrev pub widen : ℕ → ℕ
widen f = if ltb f 2147483648 then f else f + 18446744069414584320

-- `int32(n)` of an `int`.
abbrev pub narrow : ℕ → ℕ
narrow n = n % 4294967296

unfoldable pub allow : CircuitBreaker → Outcome (Unit {0}) (CircuitBreaker × Bool)
allow cb = elim cb.state [
  | closed ↦ ok (cb, true)
  | opened ↦ panic
  | half_open ↦
      let reqs = add_one cb.half_reqs in
      ok (
        record cb { half_reqs = reqs },
        le_int (widen reqs) (widen (narrow cb.cfg.half_open_max_reqs)),
      )
]

unfoldable pub record_success : CircuitBreaker → CircuitBreaker
record_success cb = record cb { failures = 0 }

unfoldable pub record_failure : CircuitBreaker → Outcome (Unit {0}) CircuitBreaker
record_failure cb =
    let f = add_one cb.failures in
    if le_int cb.cfg.max_failures (widen f) then panic else ok (record cb { failures = f })
