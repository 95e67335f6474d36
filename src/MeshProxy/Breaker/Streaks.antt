-- ===== src/MeshProxy/Breaker/Streaks.antt =====
-- When a sequence of requests runs into the panic of the circuit breaker.
use golang_journey.Prelude.{
  ℕ, ◌+◌, ◌<◌, ◌≤◌, ◌≡◌, ◌↔◌, refl, List, [], ◌∷◌, Outcome, ok, err, panic, arith, leb,
  if◌then◌else◌, true, false, Bool-cases, inl, inr,
}
use golang_journey.Prelude.Int64.{le_int}
use golang_journey.MeshProxy.Breaker.{
  CbConfig, CircuitBreaker, new_circuit_breaker, allow, record_success, record_failure, closed,
  add_one, widen,
}

-- How the upstream answers a request.
pub data Answer : Type 0 where
  success : Answer
  failure : Answer

-- One request after the other: each asks the breaker, and reports its answer if it may go.
unfoldable pub request : CircuitBreaker → Answer → Outcome (Unit {0}) CircuitBreaker
request cb answer = elim (allow cb) [
  | ok (cb', true) ↦ elim answer [
    | success ↦ ok (record_success cb')
    | failure ↦ record_failure cb'
  ]
  | ok (cb', false) ↦ ok cb'
  | err e ↦ err e
  | panic ↦ panic
]

unfoldable pub run : CircuitBreaker → List Answer → Outcome (Unit {0}) CircuitBreaker
run cb [] = ok cb
run cb (answer ∷ answers) = elim (request cb answer) [
  | ok cb' ↦ run cb' answers
  | err e ↦ err e
  | panic ↦ panic
]

-- The longest row of failures, `k` of them before the first answer.
abbrev pub longest : ℕ → List Answer → ℕ
longest k [] = k
longest k (success ∷ answers) = let rest = longest 0 answers in if leb k rest then rest else k
longest k (failure ∷ answers) = longest (k + 1) answers

longest_ge : (k : ℕ) (answers : List Answer) → k ≤ longest k answers
longest_ge k [] = omega arith
longest_ge k (success ∷ answers) = ground arith
longest_ge k (failure ∷ answers) = omega (arith, longest_ge (k + 1) answers)

trips : (m k : ℕ) → m < 2147483648 → k < m → (le_int m (widen (add_one k)) ≡ true) ↔ (m ≤ k + 1)
trips m k small h = ground (arith)

module _ (cb : CircuitBreaker) (answers : List Answer) (s : cb.state ≡ closed) where
  run_success : run cb (success ∷ answers) ≡ run (record_success cb) answers
  unfolding run request allow
  run_success = rw (s)

  allow_closed : allow cb ≡ ok (cb, true)
  unfolding allow
  allow_closed = ground (arith, s)

  record_tripped :
      le_int cb.cfg.max_failures (widen (add_one cb.failures)) ≡ true → record_failure cb ≡ panic
  unfolding record_failure
  record_tripped h = rw (h)

  record_counted :
      le_int cb.cfg.max_failures (widen (add_one cb.failures)) ≡ false
      → record_failure cb ≡ ok (record cb { failures = add_one cb.failures })
  unfolding record_failure
  record_counted h = rw (h)

  run_tripped :
      le_int cb.cfg.max_failures (widen (add_one cb.failures)) ≡ true
      → run cb (failure ∷ answers) ≡ panic
  unfolding run request
  run_tripped h = rw (run, request, allow_closed, record_tripped h)

  run_counted :
      le_int cb.cfg.max_failures (widen (add_one cb.failures)) ≡ false
      → run cb (failure ∷ answers) ≡ run (record cb { failures = add_one cb.failures }) answers
  unfolding run request
  run_counted h = rw (run, request, allow_closed, record_counted h)

run_from :
    (cb : CircuitBreaker) (answers : List Answer)
    → cb.state ≡ closed
    → cb.cfg.max_failures < 2147483648
    → cb.failures < cb.cfg.max_failures
    → (run cb answers ≡ panic) ↔ (cb.cfg.max_failures ≤ longest cb.failures answers)
unfolding run record_success
run_from cb [] s small h = ((λ e. absurd (ground (arith, e))), λ e. absurd (omega (arith, e, h)))
run_from cb (success ∷ answers) s small h =
    rw (run_success cb answers s)
      (ground (arith, run_from (record_success cb) answers s small (omega (arith, h)), h))
run_from cb (failure ∷ answers) s small h =
    let test = trips cb.cfg.max_failures cb.failures small h in
    elim (Bool-cases (le_int cb.cfg.max_failures (widen (add_one cb.failures)))) [
      | inl e ↦
          rw (run_tripped cb answers s e)
            ((λ p. omega (arith, test.0 e, longest_ge (cb.failures + 1) answers)), λ p. refl)
      | inr e ↦
          let room : cb.failures + 1 < cb.cfg.max_failures = ground (arith, e, test) in
          let same : add_one cb.failures ≡ cb.failures + 1 = omega (arith, room, small) in
          rw (run_counted cb answers s e, same)
            (run_from (record cb { failures = cb.failures + 1 }) answers s small room)
    ]

-- With a limit on failures between 1 and 2^31 - 1, requests to a new circuit breaker, each
-- answered by a success or a failure that is recorded, run into its panic exactly if a row of
-- failures with no success between them is as long as the limit.
pub run-eq-panic_iff :
    (cfg : CbConfig) (answers : List Answer)
    → 0 < cfg.max_failures
    → cfg.max_failures < 2147483648
    → (run (new_circuit_breaker cfg) answers ≡ panic) ↔ (cfg.max_failures ≤ longest 0 answers)
unfolding new_circuit_breaker
run-eq-panic_iff cfg answers some_allowed small =
    run_from (new_circuit_breaker cfg) answers refl small some_allowed
