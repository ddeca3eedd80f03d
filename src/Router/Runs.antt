-- ===== src/Router/Runs.antt =====
-- The handling of requests and events, on small inputs.
use event_gateway.Common.{
  String, ◌≡◌, refl, inr, false, Option, none, some, List, [], ◌∷◌, string_key, at_key, set_key,
  delete_key, has_prefix, has_suffix, upper_letter, lower_letter, drop_prefix, trim_prefix,
  split_slash, join_slash,
}
use event_gateway.PathTree.Defs.{
  new_node, get, put, delete, first, create_node, is_static_segment, to_segments,
}
use event_gateway.PathTree.Add.{
  conflict, get_or_create, find_child, visit, set_value, add_segments, set_root, add_route,
}
use event_gateway.PathTree.Resolve.{step, resolve_segments, resolve}
use event_gateway.Event.Headers.{canonical_from, canonical_key, get_header, flatten_header}
use event_gateway.Event.Defs.{
  Event, event, value, json, text, object, is_system, is_json, is_form, normalize_payload,
  new_event, HttpRequest, function_invoking_type, size,
}
use event_gateway.Event.Binary.{
  no_extensions, is_cut, trim_cut, binary_extensions, is_binary_mode, is_legacy_mode, parse_binary,
}
use event_gateway.Event.Parsing.{
  parse_json, http_event, new_http_request_data, from_body, from_request,
}
use event_gateway.Event.Normal.{headers_of}
use event_gateway.Event.Example.{formats, no_objects, created, sending}
use event_gateway.Cache.Subscribers.{new_subscription_cache, inner, add_endpoint, add_subscription}
use event_gateway.Cache.Target.{
  event_type_of, function_of, sync_subscriber, async_subscribers, cors_of,
}
use event_gateway.Router.World.{
  ℤ, pos, Work, Response, Env, World, ◌>>=◌, perform, read_heap, write_heap, on_heap,
}
use event_gateway.Router.Calls.{
  invoke, call_authorizer, authorize_event_type, notify, handle_async, react, emit, emit_invoking,
  emit_invoked, emit_failed, call_function, process_event,
}
use event_gateway.Router.Serving.{
  determine_error_message, http_request_handler, handle_sync, emit_received, handle_request,
  actual_method, serve,
}
use event_gateway.Router.Effects.{Grown}
use event_gateway.Router.Granting.{serve-Granted}
use event_gateway.Router.Queueing.{IsGranted}
use event_gateway.Router.Silent.{IsCall, process_event-Calls}
use event_gateway.Router.Steady.{IsUnguarded}
use event_gateway.Router.Spawning.{works_of}
use event_gateway.Router.Settling.{accept_all, settle, rounds, settle-empty}
use event_gateway.Router.Rejecting.{IsUnwanted, IsIdle, serve-IsIdle}
use event_gateway.Router.Plugins.{react_all, react_subscriptions}
use event_gateway.Router.Example.{target, listening, env, start, custom}

-- Opens all that the handling computes with.
run : Unit {0}
unfolding at_key set_key delete_key has_prefix has_suffix upper_letter lower_letter drop_prefix
    trim_prefix split_slash join_slash new_node get put delete first create_node is_static_segment
    to_segments conflict get_or_create find_child visit set_value add_segments set_root add_route
    step resolve_segments resolve canonical_from canonical_key get_header flatten_header is_system
    is_json is_form normalize_payload new_event is_cut trim_cut binary_extensions is_binary_mode
    is_legacy_mode parse_binary parse_json http_event new_http_request_data from_body from_request
    inner add_endpoint add_subscription event_type_of function_of sync_subscriber async_subscribers
    cors_of ◌>>=◌ perform read_heap write_heap on_heap invoke call_authorizer authorize_event_type
    notify handle_async react emit emit_invoking emit_invoked emit_failed call_function
    process_event determine_error_message http_request_handler handle_sync emit_received
    handle_request actual_method serve accept_all settle react_all react_subscriptions
run = tt

abbrev settled_queue :
    Option (List (Work String) × World String (Unit {0})) → Option (List (Work String))
settled_queue none = none
settled_queue (some out) = some out.0

abbrev status_of : Option Response → Option ℤ
status_of none = none
status_of (some x) = some x.status

-- The function is called, and the event that it is invoked is put in the queue for the subscriber.
one_caused : size (works_of (process_event env custom start).1.effects) ≡ 1
unfolding run
one_caused = refl

settled : settled_queue (settle env 2 10 (custom ∷ []) start) ≡ some []
unfolding run
settled = refl

abbrev guarded : Env String (Unit {0})
guarded = record env {
  target = record target {
    event_types =
        (
          record { space = "default"; name = function_invoking_type },
          record {
            space = "default";
            name = function_invoking_type;
            authorizer_id = some "hello";
            metadata = [];
          },
        )
        ∷ [];
  };
}

-- An authorizer of a system event makes the worker panic.
guarded_panics : (process_event guarded custom start).0 ≡ none
unfolding run
guarded_panics = refl

abbrev posting : HttpRequest
posting = record (sending [] "{}") { path = "/users"; escaped_path = "/users" }

-- A request that is no event is answered by the function.
answered_request : status_of (serve env false posting start).0 ≡ some (pos 200)
unfolding run
answered_request = refl

-- An event in the binary mode with the type of HTTP requests makes the router panic.
disguised_panics :
    (serve env false
      (record posting {
        headers = headers_of formats (record created { event_type = "http.request" });
      })
      start).0
    ≡ none
unfolding run
disguised_panics = refl

abbrev tagged : Event String
tagged =
    event
      (record created { extensions = record no_extensions { others = ("team", text "a") ∷ [] } })
      (value (json "{}"))

abbrev user_guarded : Env String (Unit {0})
user_guarded = record env {
  target = record target {
    event_types =
        (
          record { space = "default"; name = "user.created" },
          record {
            space = "default";
            name = "user.created";
            authorizer_id = some "hello";
            metadata = [];
          },
        )
        ∷ [];
  };
}

-- An event with an extension loses it when it is authorized.
extension_lost :
    (authorize_event_type user_guarded "default" tagged (some posting) start).0
    ≡ some (
        some (
          event
            (record created { extensions = record { others = []; gateway = object 0 } })
            (value (json "{}"))))
unfolding run
extension_lost = refl

-- Subscribers of a type with an authorizer, and a request with an event of that type.
abbrev watching : Env String (Unit {0})
watching = record user_guarded {
  target = record user_guarded.target {
    subscriptions =
        add_subscription (record listening { event_type = "user.created" }) new_subscription_cache;
  };
}

abbrev announcing : HttpRequest
announcing = sending (headers_of formats created) "{}"

-- The authorizer is called, and then the event is put in the queue.
authorized_once : size (serve watching false announcing start).1.effects ≡ 3
unfolding run
authorized_once = refl

queued_once : size (works_of (serve watching false announcing start).1.effects) ≡ 1
unfolding run
queued_once = refl

serve-Granted_example :
    Grown (IsGranted watching announcing) start.effects (serve watching false announcing start).1
serve-Granted_example = serve-Granted watching false announcing start

abbrev own : Work String
own = record custom {
  event = event (record created { event_type = function_invoking_type }) (value (json "{}"));
}

process_event-Calls_example : Grown IsCall start.effects (process_event env own start).1
unfolding is_system has_prefix
process_event-Calls_example = process_event-Calls env own start refl

env-IsUnguarded : IsUnguarded env
unfolding event_type_of at_key
env-IsUnguarded space name kept = refl

settle-empty_example :
    (last : World String (Unit {0})) × (settle env
        (rounds env (custom ∷ own ∷ []))
        10
        (custom ∷ own ∷ [])
        start
      ≡ some ([], last))
settle-empty_example = settle-empty env 10 (custom ∷ own ∷ []) start env-IsUnguarded

-- A client sends an event of a type that is kept for the router.
abbrev forged : HttpRequest
forged = sending (headers_of formats (record created { event_type = function_invoking_type })) "{}"

forged-IsUnwanted : IsUnwanted env (from_request formats forged no_objects).0
unfolding run
forged-IsUnwanted = refl

serve-IsIdle_example : IsIdle env start (serve env false forged start)
serve-IsIdle_example = serve-IsIdle env false forged start (inr forged-IsUnwanted)
