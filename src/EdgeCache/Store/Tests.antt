-- ===== src/EdgeCache/Store/Tests.antt =====
-- A store of two responses, and the theorems at it.
use golang_journey.Prelude.{
  ◌-◌, ◌≤◌, ◌<◌, ◌≡◌, ◌⊎◌, ◌↔◌, inl, refl, List, [], ◌∷◌, some, arith, length, ℕ_discrete,
}
use golang_journey.Prelude.Int64.{modulus}
use golang_journey.Prelude.Map.{lookup, insert, remove}
use golang_journey.Prelude.Text.{Text-discrete, bytes}
use golang_journey.EdgeCache.Elements.{value_of, remove_element, back, view, find, without}
use golang_journey.EdgeCache.Response.{CachedResponse, is_expired, is_stale}
use golang_journey.EdgeCache.Store.{
  Store, new, move_to_front, is_dead, get, set_front, evict, push, set, delete,
}
use golang_journey.EdgeCache.Store.Invariant.{IsValid}
use golang_journey.EdgeCache.Store.Runs
use golang_journey.EdgeCache.Store.Lifetimes
use golang_journey.EdgeCache.Store.Refinement.{plain_get, plain_set, new-Refines, set-plain_set}

program : Unit {0}
unfolding lookup insert remove Text-discrete ℕ_discrete value_of remove_element back find without
    is_expired is_stale new move_to_front is_dead get set_front evict push set delete plain_get
    plain_set
program = tt

-- Fresh until 10, stale until 20.
abbrev page : CachedResponse
page = record {
  status_code = 200;
  header = [];
  body = bytes "hello";
  cached_at = 5;
  expires = 10;
  e_tag = [];
  last_mod = [];
  stale_until = 20;
}

abbrev image : CachedResponse
image = record page { body = bytes "png"; expires = 100 }

abbrev one : Store
one = set (new 2) (bytes "/a") page

abbrev two : Store
two = set one (bytes "/b") image

two-IsValid : IsValid two
two-IsValid =
    (set-plain_set one (set-plain_set (new 2) (new-Refines 2).valid (bytes "/a") page).valid
      (bytes "/b") image).valid

-- `/a` is used, so `/b` makes room for `/c`.
third_evicts :
    view (set (get two (bytes "/a") 7).0 (bytes "/c") image).lru
    ≡ (bytes "/c", image) ∷ (bytes "/a", page) ∷ []
unfolding program
third_evicts = refl

-- Past the stale window a response goes.
dead_goes : view (get two (bytes "/a") 20).0.lru ≡ (bytes "/b", image) ∷ []
unfolding program
dead_goes = refl

abbrev some_calls : List Runs.Operation
some_calls =
    Runs.setting (bytes "/a") page
    ∷ Runs.setting (bytes "/b") image
    ∷ Runs.getting (bytes "/a") 7
    ∷ Runs.setting (bytes "/c") image
    ∷ Runs.deleting (bytes "/a")
    ∷ Runs.getting (bytes "/b") 8
    ∷ []

operate_all-plain_all_example :
    ((Runs.operate_all (new 2) some_calls).1 ≡ (Runs.plain_all 2 [] some_calls).1)
    × (view (Runs.operate_all (new 2) some_calls).0.lru ≡ (Runs.plain_all 2 [] some_calls).0)
operate_all-plain_all_example = Runs.operate_all-plain_all 2 some_calls

get_iff_example : ((get two (bytes "/a") 15).1 ≡ some page) ↔ (
    (find (bytes "/a") (view two.lru) ≡ some page)
    × ((15 ≤ page.expires) ⊎ (15 < page.stale_until)))
get_iff_example = Lifetimes.get_iff two (bytes "/a") 15 page two-IsValid

get-set_example : (get (set two (bytes "/c") page) (bytes "/c") 9).1 ≡ some page
get-set_example = Lifetimes.get-set two (bytes "/c") 9 page two-IsValid (inl (omega arith))

length-set_le_example : length (set two (bytes "/c") page).lru ≤ 2
length-set_le_example =
    Lifetimes.length-set_le 2 two (bytes "/c") page two-IsValid (omega arith)
      (unfold program in refl) (omega arith) (unfold program in omega arith)

-- At a negative capacity too a cache holds the last response.
negative_capacity :
    view (set (set (new (modulus - 1)) (bytes "/a") page) (bytes "/b") page).lru
    ≡ (bytes "/b", page) ∷ []
unfolding program
negative_capacity = refl
