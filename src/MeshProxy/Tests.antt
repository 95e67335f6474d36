-- ===== src/MeshProxy/Tests.antt =====
-- The circuit breaker at a limit of three failures.
use golang_journey.Prelude.{◌≤◌, ◌≡◌, ◌↔◌, refl, List, [], ◌∷◌, panic, false, ok, arith}
use golang_journey.MeshProxy.Breaker.{
  CbConfig, CircuitBreaker, new_circuit_breaker, half_open, allow, record_success, record_failure,
}
use golang_journey.MeshProxy.Breaker.Streaks.{
  Answer, success, failure, request, run, longest, run-eq-panic_iff,
}

abbrev three : CbConfig
three = record { max_failures = 3; reset_timeout = 10; half_open_max_reqs = 1 }

abbrev spaced : List Answer
spaced = failure ∷ failure ∷ success ∷ failure ∷ failure ∷ []

-- A success between the failures starts the count again.
spaced_passes :
    run (new_circuit_breaker three) spaced
    ≡ ok (record (new_circuit_breaker three) { failures = 2 })
unfolding run request allow record_success record_failure new_circuit_breaker
spaced_passes = refl

abbrev probing : CircuitBreaker
probing = record { cfg = three; state = half_open; failures = 0; last_trip = 0; half_reqs = 1 }

-- One probe and no more.
second_probe : allow probing ≡ ok (record probing { half_reqs = 2 }, false)
unfolding allow
second_probe = refl

run-eq-panic_iff_example :
    (run (new_circuit_breaker three) (success ∷ failure ∷ failure ∷ failure ∷ []) ≡ panic)
    ↔ (3 ≤ longest 0 (success ∷ failure ∷ failure ∷ failure ∷ []))
run-eq-panic_iff_example =
    run-eq-panic_iff three (success ∷ failure ∷ failure ∷ failure ∷ []) (omega arith) (omega arith)
