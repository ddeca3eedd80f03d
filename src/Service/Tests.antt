-- ===== src/Service/Tests.antt =====
-- The services on small inputs.
use event_gateway.Common.{
  ℕ, String, ◌≡◌, refl, none, List, [], ◌∷◌, string_key, Dict, at_key, set_key, delete_key,
  has_prefix, drop_prefix, trim_prefix, to_upper, is_word, path_escape, base64, to_bytes,
  split_slash, join_slash,
}
use event_gateway.PathTree.Defs.{
  new_node, get, put, delete, first, create_node, is_static_segment, to_segments,
}
use event_gateway.PathTree.Add.{
  conflict, get_or_create, find_child, visit, set_value, add_segments, set_root, add_route,
}
use event_gateway.Store.Memory.{memory-IsKvStore, entries_below}
use event_gateway.Resource.{
  ok, Function, Subscription, check, Error, function_has_subscriptions, err,
}
use event_gateway.Service.Defs.{
  Stores, space_path, resource_key, read_one, decode_all, read_all, if_passed,
}
use event_gateway.Service.Validation.{
  space_validator, function_id_validator, event_type_validator, url_path_validator, ensure_prefix,
  validate_function, validate_event_type, validate_subscription, validate_subscription_update,
}
use event_gateway.Service.Lookup.{
  subscription_path, get_function, get_event_type, get_subscription, list_subscriptions,
  list_event_types,
}
use event_gateway.Service.Functions.{
  create_function, create_function_checks, delete_function, delete_function_checks, no_subscription,
  no_authorizer,
}
use event_gateway.Service.EventTypes.{create_event_type, create_event_type_checks, check_authorizer}
use event_gateway.Service.Subscriptions.{
  create_subscription, create_subscription_checks, new_subscription_id, conflict_tree,
  check_for_path_conflict, update_subscription, update_subscription_checks,
}
use event_gateway.Service.Reading.{Fetches, create_subscription-Fetches}
use event_gateway.Service.Integrity.{IsSound}
use event_gateway.Service.Integrity.Refusing.{delete_function-refused, delete_event_type-refused}
use event_gateway.Service.Integrity.Subscribing.{IsSameRoute, update_subscription-SameRoute}
use event_gateway.Service.EventTypes.{delete_event_type}
use event_gateway.Service.Integrity.Calls.{
  Call, call_create_function, call_create_event_type, call_create_subscription,
  call_delete_function, perform, perform_all, perform_all-IsSound,
}
use event_gateway.Service.Example.{
  Blob, subscription_blob, service, tags, event_type-IsCodec, subscription-IsCodec, default_plain,
  empty, empty-IsSound, hello, created, on_created,
}

-- Opens all that a run of a service computes with.
run : Unit {0}
unfolding at_key set_key delete_key entries_below has_prefix drop_prefix trim_prefix to_upper
    is_word path_escape base64 to_bytes split_slash join_slash new_node get put delete first
    create_node is_static_segment to_segments conflict get_or_create find_child visit set_value
    add_segments set_root add_route check space_path resource_key read_one decode_all read_all
    if_passed space_validator function_id_validator event_type_validator url_path_validator
    ensure_prefix validate_function validate_event_type validate_subscription subscription_path
    get_function get_event_type get_subscription list_subscriptions list_event_types create_function
    create_function_checks delete_function delete_function_checks no_subscription no_authorizer
    create_event_type create_event_type_checks check_authorizer create_subscription
    create_subscription_checks new_subscription_id conflict_tree check_for_path_conflict perform
    perform_all validate_subscription_update update_subscription update_subscription_checks
run = tt

abbrev at_first : ℕ → ℕ → ℕ
at_first _ _ = 0

abbrev calls : List Call
calls =
    call_create_function hello
    ∷ call_create_event_type created
    ∷ call_create_subscription at_first on_created
    ∷ []

abbrev filled : Stores (Dict String Blob)
filled = perform_all service calls empty

delete_used_function :
    (delete_function service "default" "hello" filled).1 ≡ err function_has_subscriptions
unfolding run
delete_used_function = refl

create_conflicting :
    (create_subscription service at_first
      (record on_created { path = "/users/:id"; function_id = "hello"; metadata = ("a", "b") ∷ [] })
      filled).1
    ≡ err (Error.subscription_already_exists "c3luYyx1c2VyLmNyZWF0ZWQsJTJGdXNlcnMlMkY6aWQsUE9TVA")
unfolding run
create_conflicting = refl

perform_all-IsSound_example :
    IsSound service
      (λ m k. at_key m k)
      (perform_all service
        (call_create_function hello
          ∷ call_create_event_type created
          ∷ call_create_subscription at_first on_created
          ∷ call_delete_function "default" "hello"
          ∷ [])
        empty)
perform_all-IsSound_example =
    perform_all-IsSound service (λ m k. at_key m k) (memory-IsKvStore Blob) event_type-IsCodec
      subscription-IsCodec tags
      (call_create_function hello
        ∷ call_create_event_type created
        ∷ call_create_subscription at_first on_created
        ∷ call_delete_function "default" "hello"
        ∷ [])
      empty (tt, (tt, (tt, (default_plain, tt)))) empty-IsSound

abbrev stored_hello : Function
stored_hello = record hello { space = "default" }

abbrev ready : Stores (Dict String Blob)
ready = perform_all service (call_create_function hello ∷ call_create_event_type created ∷ []) empty

abbrev stored_on_created : Subscription
stored_on_created = record on_created {
  space = "default";
  path = "/users/:id";
  method = "POST";
  id = "c3luYyx1c2VyLmNyZWF0ZWQsJTJGdXNlcnMlMkY6aWQsUE9TVA";
}

create_subscription-Fetches_example :
    (at_key ready.subscription_store (subscription_path "default" stored_on_created.id) ≡ none)
    × Fetches
        (get_subscription service
          (create_subscription service at_first on_created ready).0
          "default"
          stored_on_created.id)
        stored_on_created
unfolding run
create_subscription-Fetches_example =
    create_subscription-Fetches service (λ m k. at_key m k) (memory-IsKvStore Blob)
      subscription-IsCodec at_first on_created stored_on_created ready refl

filled-IsSound : IsSound service (λ m k. at_key m k) filled
filled-IsSound =
    perform_all-IsSound service (λ m k. at_key m k) (memory-IsKvStore Blob) event_type-IsCodec
      subscription-IsCodec tags calls empty (tt, (tt, (tt, tt))) empty-IsSound

delete_function-refused_example :
    (e : Error) × (delete_function service "default" "hello" filled ≡ (filled, err e))
unfolding run
delete_function-refused_example =
    delete_function-refused service (λ m k. at_key m k) (memory-IsKvStore Blob) "default" "hello"
      (subscription_path "default" stored_on_created.id) (subscription_blob stored_on_created)
      stored_on_created filled default_plain filled-IsSound refl refl refl refl

delete_event_type-refused_example :
    (e : Error) × (delete_event_type service "default" "user.created" filled ≡ (filled, err e))
unfolding run
delete_event_type-refused_example =
    delete_event_type-refused service (λ m k. at_key m k) (memory-IsKvStore Blob) "default"
      "user.created" (subscription_path "default" stored_on_created.id)
      (subscription_blob stored_on_created) stored_on_created filled default_plain filled-IsSound
      refl refl refl refl

abbrev relabelled : Subscription
relabelled = record stored_on_created { metadata = ("team", "a") ∷ [] }

update_subscription-SameRoute_example :
    (old : Subscription) × (get_subscription service filled "default" stored_on_created.id ≡ ok old)
    × IsSameRoute relabelled old
unfolding run
update_subscription-SameRoute_example =
    update_subscription-SameRoute service stored_on_created.id relabelled relabelled filled refl
