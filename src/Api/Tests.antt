-- ===== src/Api/Tests.antt =====
-- The API over services in memory, on small requests.
use event_gateway.Common.{
  String, ◌≡◌, ◌≤◌, refl, sym, subst, none, some, [], ◌∷◌, string_key, Dict, at_key, set_key,
  delete_key, has_prefix, drop_prefix, trim_prefix, to_upper, is_word, path_escape, base64,
  to_bytes, split_slash, join_slash, arith,
}
use event_gateway.PathTree.Defs.{
  new_node, get, put, delete, first, create_node, is_static_segment, to_segments,
}
use event_gateway.PathTree.Add.{
  conflict, get_or_create, find_child, visit, set_value, add_segments, set_root, add_route,
}
use event_gateway.Store.Memory.{memory-IsKvStore, entries_below}
use event_gateway.Resource.{Subscription, check, function_has_subscriptions, function_validation}
use event_gateway.Service.Defs.{
  Stores, space_path, resource_key, read_one, decode_all, read_all, if_passed,
}
use event_gateway.Service.Validation.{
  space_validator, function_id_validator, event_type_validator, url_path_validator, ensure_prefix,
  validate_function, validate_event_type, validate_subscription, validate_cors,
  validate_cors_update,
}
use event_gateway.Service.Lookup.{
  subscription_path, get_function, get_event_type, get_subscription, get_cors, list_subscriptions,
  list_event_types, list_functions,
}
use event_gateway.Service.Functions.{
  create_function, create_function_checks, delete_function, delete_function_checks, no_subscription,
  no_authorizer,
}
use event_gateway.Service.EventTypes.{create_event_type, create_event_type_checks, check_authorizer}
use event_gateway.Service.Subscriptions.{
  create_subscription, create_subscription_checks, new_subscription_id, conflict_tree,
  check_for_path_conflict,
}
use event_gateway.Service.CorsConfigs.{
  create_cors, create_cors_checks, new_cors_id, update_cors, update_cors_checks,
}
use event_gateway.Service.Integrity.{IsSound}
use event_gateway.Service.Example.{
  Blob, function_blob, event_type_blob, subscription_blob, service, tags, event_type-IsCodec,
  subscription-IsCodec, default_plain, empty, empty-IsSound, hello, created, on_created,
}
use event_gateway.Api.Defs.{
  Request, error_response, function_body, functions_response, subscription_body, json_reply,
  config_request, inc, answer, with_body, extract_cors_id, extract_metadata_filters,
}
use event_gateway.Api.EventTypes.{
  get_event_type_handler, list_event_types_handler, create_event_type_handler,
  update_event_type_handler, delete_event_type_handler,
}
use event_gateway.Api.Functions.{
  get_function_handler, list_functions_handler, create_function_handler, update_function_handler,
  delete_function_handler,
}
use event_gateway.Api.Subscriptions.{
  get_subscription_handler, list_subscriptions_handler, create_subscription_handler,
  update_subscription_handler, delete_subscription_handler,
}
use event_gateway.Api.CorsConfigs.{
  get_cors_handler, list_cors_handler, create_cors_handler, update_cors_handler,
  delete_cors_handler,
}
use event_gateway.Api.Routes.{
  event_types, functions, corses, list_all, create_one, delete_one, operate, routes, find_route,
  handle,
}
use event_gateway.Api.Calls.{handle_all, handle_all-IsSound}
use event_gateway.Api.Refusing.{IsRefused, handle-IsRefused}
use event_gateway.Api.Internal.{TellsInternal, handle-TellsInternal}
use event_gateway.Api.Reading.{Shows, create_subscription_handler-Shows}
use event_gateway.Api.Example.{decoder, at_first, named, reply_to, requests, filled, removal}

-- Opens all that a run of the API computes with.
run : Unit {0}
unfolding at_key set_key delete_key entries_below has_prefix drop_prefix trim_prefix to_upper
    is_word path_escape base64 to_bytes split_slash join_slash new_node get put delete first
    create_node is_static_segment to_segments conflict get_or_create find_child visit set_value
    add_segments set_root add_route check space_path resource_key read_one decode_all read_all
    if_passed space_validator function_id_validator event_type_validator url_path_validator
    ensure_prefix validate_function validate_event_type validate_subscription subscription_path
    get_function get_event_type get_subscription list_subscriptions list_event_types create_function
    create_function_checks delete_function delete_function_checks no_subscription no_authorizer
    create_event_type create_event_type_checks check_authorizer create_subscription
    create_subscription_checks new_subscription_id conflict_tree check_for_path_conflict
    validate_cors validate_cors_update get_cors list_functions create_cors create_cors_checks
    new_cors_id update_cors update_cors_checks answer with_body extract_cors_id
    extract_metadata_filters find_route handle handle_all get_event_type_handler
    get_function_handler get_subscription_handler get_cors_handler list_event_types_handler
    list_functions_handler list_subscriptions_handler list_cors_handler create_event_type_handler
    update_event_type_handler delete_event_type_handler create_function_handler
    update_function_handler delete_function_handler create_subscription_handler
    update_subscription_handler delete_subscription_handler create_cors_handler update_cors_handler
    delete_cors_handler
run = tt

removed_used :
    (reply_to (operate delete_one functions) removal filled).1
    ≡ json_reply 400
        (error_response function_has_subscriptions)
        (config_request "default" "function" "delete" ∷ [])
unfolding run
removed_used = refl

created_hello :
    (reply_to (operate create_one functions) (named "" (function_blob hello)) empty).1
    ≡ json_reply 201
        (function_body (record hello { space = "default" }))
        (inc "function" "default" ∷ config_request "default" "function" "create" ∷ [])
unfolding run
created_hello = refl

created_undecoded :
    (reply_to (operate create_one functions) (named "" (event_type_blob created)) empty).1
    ≡ json_reply 400 (error_response (function_validation "invalid character")) []
unfolding run
created_undecoded = refl

listed_filtered :
    (reply_to
      (operate list_all functions)
      (record removal { query = ("metadata.team", ("a", [])) ∷ [] })
      filled).1.body
    ≡ functions_response []
unfolding run
listed_filtered = refl

routed : find_route "DELETE" "/v1/spaces/:space/cors/*id" routes ≡ some (operate delete_one corses)
unfolding run
routed = refl

last_part : extract_cors_id "/v1/spaces/default/cors/GET%2Fhello" ≡ "GET%2Fhello"
unfolding run
last_part = refl

is_bad : (reply_to (operate delete_one functions) removal filled).1.status ≡ 400
unfolding run
is_bad = refl

handle-IsRefused_example :
    IsRefused service.kv filled (reply_to (operate delete_one functions) removal filled)
handle-IsRefused_example =
    handle-IsRefused service decoder at_first (operate delete_one functions) removal filled
      (subst (λ n. 400 ≤ n) (sym is_bad) (omega arith))

handle_all-IsSound_example :
    IsSound service (λ m k. at_key m k) (handle_all service decoder at_first requests empty)
handle_all-IsSound_example =
    handle_all-IsSound service decoder at_first (λ m k. at_key m k) (memory-IsKvStore Blob)
      event_type-IsCodec subscription-IsCodec tags requests empty
      (default_plain, (default_plain, (default_plain, tt))) empty-IsSound

-- An event type with an authorizer that is not there.
abbrev guarded : Request Blob
guarded =
    named ""
      (event_type_blob (record created { name = "user.deleted"; authorizer_id = some "gone" }))

guarded_status : (reply_to (operate create_one event_types) guarded filled).1.status ≡ 500
unfolding run
guarded_status = refl

handle-TellsInternal_example :
    TellsInternal
      (operate create_one event_types)
      (reply_to (operate create_one event_types) guarded filled).1
handle-TellsInternal_example =
    handle-TellsInternal service decoder at_first (operate create_one event_types) guarded filled
      guarded_status

abbrev ready : Stores (Dict String Blob)
ready =
    handle_all service decoder at_first
      ((operate create_one functions, named "" (function_blob hello))
        ∷ (operate create_one event_types, named "" (event_type_blob created))
        ∷ [])
      empty

abbrev stored_on_created : Subscription
stored_on_created = record on_created {
  space = "default";
  path = "/users/:id";
  method = "POST";
  id = "c3luYyx1c2VyLmNyZWF0ZWQsJTJGdXNlcnMlMkY6aWQsUE9TVA";
}

create_subscription_handler-Shows_example :
    (at_key ready.subscription_store (subscription_path "default" stored_on_created.id) ≡ none)
    × Shows (subscription_body stored_on_created) (
        get_subscription_handler service
          (named stored_on_created.id (subscription_blob on_created))
          (create_subscription_handler service decoder at_first
            (named "" (subscription_blob on_created))
            ready).0)
unfolding run
create_subscription_handler-Shows_example =
    create_subscription_handler-Shows service decoder at_first (λ m k. at_key m k)
      (memory-IsKvStore Blob) subscription-IsCodec (named "" (subscription_blob on_created))
      (named stored_on_created.id (subscription_blob on_created)) stored_on_created ready refl refl
      refl
