-- ===== src/MeshProxy/Balancer/Tests.antt =====
-- Calls of `Next` on three upstreams.
use golang_journey.Prelude.{◌≡◌, ◌<◌, ◌+◌, length, All, refl, [], ◌∷◌, ok, err, arith}
use golang_journey.Prelude.Int64.{half}
use golang_journey.Prelude.Text.{bytes}
use golang_journey.MeshProxy.Breaker.{new_circuit_breaker, allow}
use golang_journey.MeshProxy.Balancer.{
  LoadBalancer, no_upstreams, upstreams_of, new_load_balancer, index_of, attempts, next,
}
use golang_journey.MeshProxy.Balancer.Rounds
use golang_journey.MeshProxy.Balancer.Rounds.{picks, rounds, IsClosed}

abbrev three : LoadBalancer
unfolding new_load_balancer upstreams_of new_circuit_breaker
three =
    new_load_balancer ((bytes "a", 5) ∷ (bytes "b", 1) ∷ (bytes "c", 1) ∷ [])
      (record { max_failures = 3; reset_timeout = 10; half_open_max_reqs = 1 })

abbrev after_four : LoadBalancer
after_four = record three { current = three.current + 4 }

-- The upstream of weight 5 gets no more requests than the others.
four_picks : picks 4 three ≡ ok (after_four, 1 ∷ 2 ∷ 0 ∷ 1 ∷ [])
unfolding picks next attempts index_of allow three
four_picks = refl

none_configured :
    next (record { upstreams = []; current = 0 })
    ≡ err (record { upstreams = []; current = 0 }, no_upstreams)
unfolding next
none_configured = refl

three-IsClosed : All IsClosed three.upstreams
unfolding three
three-IsClosed = (refl, (refl, (refl, tt)))

three_filled : 0 < length three.upstreams
unfolding three
three_filled = omega arith

three_small : three.current + 4 < half
unfolding three
three_small = omega arith

picks-rounds_example :
    picks 4 three ≡ ok (after_four, rounds (length three.upstreams) three.current 4)
picks-rounds_example = Rounds.picks-rounds 4 three three-IsClosed three_filled three_small
