-- ===== src/MeshProxy/Balancer.antt =====
-- `LoadBalancer.Next` of projects/04-service-mesh-proxy/proxy/proxy.go, in one goroutine. An upstream
-- is kept as its address, its weight, which no code reads, and its circuit breaker.
pub mod Rounds
mod Tests
use golang_journey.Prelude.{
  ℕ, zero, suc, ◌-◌, ◌%◌, Bool, true, false, ltb, ◌==◌, List, [], ◌∷◌, Option, none, some, length,
  get_elem?, set, if◌then◌else◌, Outcome, ok, err, panic,
}
use golang_journey.Prelude.Int64.{modulus, half, add_int}
use golang_journey.Prelude.Text.{Text}
use golang_journey.MeshProxy.Breaker.{CircuitBreaker, CbConfig, new_circuit_breaker, allow}

pub record Upstream : Type 0 where
  pub addr : Text
  pub weight : ℕ
  pub cb : CircuitBreaker

pub record LoadBalancer : Type 0 where
  pub upstreams : List Upstream
  pub current : ℕ

pub data BalancerError : Type 0 where
  no_upstreams all_broken : BalancerError

pub upstreams_of : CbConfig → List (Text × ℕ) → List Upstream
upstreams_of cfg [] = []
upstreams_of cfg ((addr, weight) ∷ cfgs) =
    record { addr = addr; weight = weight; cb = new_circuit_breaker cfg } ∷ upstreams_of cfg cfgs

-- The configuration is a list of addresses with their weights.
pub new_load_balancer : List (Text × ℕ) → CbConfig → LoadBalancer
new_load_balancer cfgs cfg = record { upstreams = upstreams_of cfg cfgs; current = 0 }

-- `int(i) % n`; a negative remainder is no index.
pub index_of : ℕ → ℕ → Option ℕ
index_of i n =
    if ltb i half then some (i % n) else if ((modulus - i) % n) == 0 then some 0 else none

-- The loop of `Next`, with the attempts that are left.
pub attempts : ℕ → LoadBalancer → Outcome (LoadBalancer × BalancerError) (LoadBalancer × ℕ)
attempts zero lb = err (lb, all_broken)
attempts (suc m) lb =
    let current = add_int lb.current 1 in
    let again : List Upstream → Outcome (LoadBalancer × BalancerError) (LoadBalancer × ℕ) =
      λ us. attempts m (record { upstreams = us; current = current }) in
    elim (index_of current (length lb.upstreams)) [
      | none ↦ panic
      | some i ↦ elim (get_elem? lb.upstreams i) [
        | none ↦ panic
        | some u ↦ elim (allow u.cb) [
          | ok (cb, allowed) ↦
              let us = set lb.upstreams i (record u { cb = cb }) in
              if allowed then ok (record { upstreams = us; current = current }, i) else again us
          | err e ↦ panic
          | panic ↦ panic
        ]
      ]
    ]

-- `Next`, with the number of the upstream that it picks.
pub next : LoadBalancer → Outcome (LoadBalancer × BalancerError) (LoadBalancer × ℕ)
next lb =
    if length lb.upstreams == 0 then err (lb, no_upstreams) else attempts (length lb.upstreams) lb
