-- ===== src/SchemaRegistry/Api/Tests.antt =====
-- Requests to a registry with two schemas, and the theorems at them.
use golang_journey.Prelude.{◌+◌, ◌<◌, ◌≡◌, refl, inr, false, List, [], ◌∷◌, none, arith, ℕ_discrete}
use golang_journey.Prelude.Text.{trim_prefix, Text, Text-discrete, bytes, starts_with}
use golang_journey.Prelude.Map.{lookup, insert}
use golang_journey.Prelude.Int64.{half}
use golang_journey.SchemaRegistry.Registry.Invariant.{IsValid}
use golang_journey.SchemaRegistry.Schema.{json_schema, compat_full, validate_syntax, content_hash}
use golang_journey.SchemaRegistry.Registry.{
  Registry, new, register, set_compat_level, latest, add_version, register_entry, find_or_create,
  check_latest,
}
use golang_journey.SchemaRegistry.Registry.Calls.{Call, register_call, apply, run, run-IsValid}
use golang_journey.SchemaRegistry.Api.{
  Request, Services, serve, handle, http_error, method_not_allowed, registered_id, compatibility,
  respond, subject_route, register_route, versions_route, version_route, handle_parts,
  set_config_route, split_three,
}
use golang_journey.Cron.Syntax.{cut}
use golang_journey.SchemaRegistry.Api.Safety
use golang_journey.SchemaRegistry.Api.Safety.{IsServed}
use golang_journey.SchemaRegistry.Api.Effects
use golang_journey.SchemaRegistry.Api.Effects.{Served}

-- The body is the schema itself, and every level asked for is FULL.
abbrev services : Services Text
services = record {
  decode_register = λ format body. inr (body, format);
  decode_check = λ body. inr (body, json_schema);
  decode_config = λ body. inr compat_full;
  unmarshal = λ content. none;
  checker = λ format old new level. none;
  redirects = λ method path. false;
}

abbrev orders : Text
orders = bytes "orders"

abbrev calls : List Call
calls = register_call orders json_schema (bytes "{}") 7 ∷ []

abbrev filled : Registry Text
filled = run (λ content. none) (new none) calls

abbrev post_orders : Request
post_orders = record {
  method = bytes "POST";
  path = bytes "/subjects/orders/versions";
  body = bytes "[]";
}

abbrev delete_orders : Request
delete_orders = record { method = bytes "DELETE"; path = bytes "/subjects/orders"; body = [] }

abbrev put_config : Request
put_config = record { method = bytes "PUT"; path = bytes "/config/orders"; body = [] }

program : Unit {0}
unfolding new register latest add_version register_entry find_or_create check_latest apply run
    lookup insert Text-discrete ℕ_discrete validate_syntax content_hash cut starts_with serve handle
    respond subject_route register_route versions_route version_route handle_parts set_config_route
    trim_prefix split_three set_compat_level
program = tt

-- The multiplexer has no pattern for the POST that `handle` would register with.
post_served : (serve services filled post_orders 9).1 ≡ http_error 405 method_not_allowed
unfolding program
post_served = refl

post_handled : (handle services filled post_orders 9).1 ≡ registered_id 2
unfolding program
post_handled = refl

delete_served : (serve services filled delete_orders 9).1 ≡ http_error 405 method_not_allowed
unfolding program
delete_served = refl

put_served : (serve services filled put_config 9).1 ≡ compatibility compat_full
unfolding program
put_served = refl

filled_room : filled.next_id + 1 < half
unfolding program
filled_room = omega arith

filled-IsValid : IsValid filled
filled-IsValid = run-IsValid (λ content. none) none calls (omega arith)

serve-IsServed_example :
    IsServed (handle services filled post_orders 9) × IsServed (serve services filled post_orders 9)
serve-IsServed_example =
    Safety.serve-IsServed services filled filled-IsValid post_orders 9 filled_room

serve-Served_example : Served services filled delete_orders (serve services filled delete_orders 9)
serve-Served_example = Effects.serve-Served services filled delete_orders 9
