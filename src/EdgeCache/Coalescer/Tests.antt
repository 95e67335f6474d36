-- ===== src/EdgeCache/Coalescer/Tests.antt =====
-- Three goroutines, two of them with one key, and the theorems at them.
use golang_journey.Prelude.{ℕ, ◌*◌, ◌≡◌, refl, List, [], ◌∷◌, some, length, get_elem?, ℕ_discrete}
use golang_journey.Prelude.Map.{lookup, insert, remove}
use golang_journey.Prelude.Text.{Text, Text-discrete, bytes}
use golang_journey.EdgeCache.Coalescer.{
  fetching, returned, start, enter, finish, return_result, step, run, move,
}
use golang_journey.EdgeCache.Coalescer.Runs
use golang_journey.EdgeCache.Coalescer.Runs.{Agree}
use golang_journey.EdgeCache.Coalescer.Returns
use golang_journey.EdgeCache.Coalescer.Returns.{Returns}

program : Unit {0}
unfolding lookup insert remove Text-discrete ℕ_discrete start enter finish return_result step run
    move
program = tt

abbrev keys : List Text
keys = bytes "/a" ∷ bytes "/a" ∷ bytes "/b" ∷ []

-- The first two meet at one call, whose fetch returns 7; the third fetches for itself.
abbrev schedule : List (ℕ × ℕ)
schedule = (0, 1) ∷ (1, 2) ∷ (1, 3) ∷ (2, 4) ∷ (0, 7) ∷ (1, 8) ∷ (0, 9) ∷ []

met :
    (run (start keys) schedule).places
    ≡ returned (bytes "/a") 0 7 ∷ returned (bytes "/a") 0 7 ∷ fetching (bytes "/b") 1 ∷ []
unfolding program
met = refl

first_back : get_elem? (run (start keys) schedule).places 0 ≡ some (returned (bytes "/a") 0 7)
unfolding program
first_back = refl

second_back : get_elem? (run (start keys) schedule).places 1 ≡ some (returned (bytes "/a") 0 7)
unfolding program
second_back = refl

run-Agree_example : Agree {R = ℕ} 0 (returned (bytes "/a") 0 7) 1 (returned (bytes "/a") 0 7)
run-Agree_example =
    Runs.run-Agree keys schedule 0 1 (returned (bytes "/a") 0 7) (returned (bytes "/a") 0 7)
      first_back second_back

run-Returns_example : Returns (run (start keys) schedule) (3 * length keys)
run-Returns_example = Returns.run-Returns keys schedule 5
