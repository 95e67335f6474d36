-- ===== src/Collab/Crdt/Tests.antt =====
-- The replicated data types on concrete values.
use golang_journey.Prelude.{◌≡◌, refl, ◌%◌, false, List, [], ◌∷◌}
use golang_journey.Prelude.Int64.{modulus}
use golang_journey.Prelude.Map.{lookup, remove}
use golang_journey.Prelude.Text.{Text-discrete, bytes}
use golang_journey.Collab.Crdt.{count, new_pn_counter, OrSet, remove_value, contains, values}
use golang_journey.Collab.Crdt.Counts.{Change, up, down, change_all, ups, downs, change_all-sums}

abbrev changes : List Change
changes = up (bytes "a") 5 ∷ down (bytes "a") 2 ∷ up (bytes "b") 1 ∷ up (bytes "a") 4 ∷ []

change_all-sums_example :
    (count (change_all new_pn_counter changes).positive (bytes "a") % modulus
      ≡ ups changes (bytes "a") % modulus)
    × (count (change_all new_pn_counter changes).negative (bytes "a") % modulus
        ≡ downs changes (bytes "a") % modulus)
change_all-sums_example = change_all-sums changes (bytes "a")

abbrev letters : OrSet
letters = (bytes "b", bytes "1" ∷ []) ∷ (bytes "a", bytes "2" ∷ []) ∷ (bytes "c", []) ∷ []

-- `Values` is in the order of the map, not sorted.
listed : values letters ≡ bytes "b" ∷ bytes "a" ∷ []
unfolding values
listed = refl

gone : contains (remove_value letters (bytes "b")) (bytes "b") ≡ false
unfolding contains remove_value lookup remove Text-discrete
gone = refl
