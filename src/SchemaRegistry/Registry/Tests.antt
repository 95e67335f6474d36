-- ===== src/SchemaRegistry/Registry/Tests.antt =====
-- Runs of the registry, and its theorems at them.
use golang_journey.Prelude.{
  ℕ, ◌+◌, ◌<◌, ◌≡◌, ◌≢◌, ◌↔◌, refl, List, [], ◌∷◌, Option, none, ite, arith, Outcome, ok, err,
  panic, ℕ_discrete,
}
use golang_journey.Prelude.Int64.{half}
use golang_journey.Prelude.Map.{lookup, insert}
use golang_journey.Prelude.Text.{Text, Text-discrete, bytes}
use golang_journey.SchemaRegistry.Schema.{
  RegistryError, json_schema, avro, Schema, subject_not_found, schema_not_found, validate_syntax,
  content_hash,
}
use golang_journey.SchemaRegistry.Registry.{
  Registry, new, register, get_by_id, get_latest, get_version, versions, delete, latest,
  version_numbers, add_version, register_entry, find_or_create, check_latest,
}
use golang_journey.SchemaRegistry.Registry.Calls.{Call, register_call, apply, run, run-IsValid}
use golang_journey.SchemaRegistry.Registry.Frame
use golang_journey.SchemaRegistry.Registry.Invariant.{IsValid}
use golang_journey.SchemaRegistry.Registry.Reads
use golang_journey.SchemaRegistry.Registry.Reads.{count_up}
use golang_journey.SchemaRegistry.Registry.Writes
use golang_journey.SchemaRegistry.Registry.Writes.{IsSettled}

-- A decoder that accepts every text.
abbrev accept_all : Text → Option Text
accept_all content = none

abbrev orders : Text
orders = bytes "orders"

abbrev calls : List Call
calls =
    register_call orders json_schema (bytes "{}") 7
    ∷ register_call (bytes "users") json_schema (bytes "[]") 8
    ∷ register_call orders json_schema (bytes "[1]") 9
    ∷ []

-- A registry with no checker, whose errors would be texts.
abbrev start : Registry Text
unfolding new
start = new none

run-IsValid_example : IsValid (run accept_all (new {E = Text} none) calls)
run-IsValid_example = run-IsValid accept_all none calls (omega arith)

abbrev filled : Registry Text
filled = run accept_all (new none) calls

program : Unit {0}
unfolding new register get_by_id get_latest get_version versions latest version_numbers add_version
    register_entry find_or_create check_latest apply run lookup insert Text-discrete ℕ_discrete
    validate_syntax content_hash delete
program = tt

filled_next : filled.next_id ≡ 4
unfolding program
filled_next = refl

versions_orders : versions filled orders ≡ ok (1 ∷ 2 ∷ [])
unfolding program
versions_orders = refl

filled-IsValid : IsValid filled
filled-IsValid = run-IsValid accept_all none calls (omega arith)

filled_room : filled.next_id + 1 < half
filled_room = rw filled_next (omega arith)

-- A new version of `orders`, under the id 4.
abbrev more : Registry Text × Outcome (RegistryError Text) ℕ
more = register accept_all filled orders json_schema (bytes "[2]") 10

more_ok : more ≡ (more.0, ok 4)
unfolding program
more_ok = refl

latest_orders : (s : Schema) × (get_latest filled orders ≡ ok s) × (s.version ≡ 2) × (s.id ≡ 3)
unfolding program
latest_orders = (_, refl, refl, refl)

register-IsSettled_example :
    IsSettled filled filled-IsValid filled_room orders json_schema (bytes "[2]") 10 more
register-IsSettled_example =
    Writes.register-IsSettled filled filled-IsValid filled_room orders json_schema (bytes "[2]") 10
      accept_all

register_again_example : register accept_all more.0 orders avro (bytes "[2]") 11 ≡ (more.0, ok 4)
register_again_example =
    Writes.register_again filled accept_all orders json_schema avro (bytes "[2]") 10 11 more.0 4
      filled-IsValid filled_room more_ok (unfold program in refl)

register-keeps_example :
    ((id : ℕ) (s : Schema) → get_by_id filled id ≡ ok s → get_by_id more.0 id ≡ ok s)
    × ((j : Text) → orders ≢ j → get_latest more.0 j ≡ get_latest filled j)
register-keeps_example =
    Frame.register-keeps filled filled-IsValid filled_room orders json_schema (bytes "[2]") 10
      accept_all

delete-owner_example :
    (get_latest (delete filled orders).0 orders ≡ err subject_not_found)
    × ((id : ℕ) (s : Schema)
        → get_by_id filled id ≡ ok s
        → get_by_id (delete filled orders).0 id
          ≡ ite (Text-discrete orders s.subject) (err schema_not_found) (ok s))
    × ((j : Text) → orders ≢ j → get_latest (delete filled orders).0 j ≡ get_latest filled j)
delete-owner_example = Frame.delete-owner filled orders filled-IsValid latest_orders.1

reads-ne-panic_example : (get_latest filled orders ≢ panic) × (get_version filled orders 2 ≢ panic)
reads-ne-panic_example = Reads.reads-ne-panic filled filled-IsValid orders 2 (omega arith)

second : (s : Schema) × (get_version filled orders 2 ≡ ok s) × (get_by_id filled 3 ≡ ok s)
unfolding program
second = (_, refl, refl)

get_version_iff_example : (get_version filled orders 2 ≡ ok second.0) ↔ (
    (second.0.version ≡ 2)
    × (second.0.subject ≡ orders)
    × (get_by_id filled second.0.id ≡ ok second.0))
get_version_iff_example =
    Reads.get_version_iff filled filled-IsValid orders 2 second.0 (omega arith)
