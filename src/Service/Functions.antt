-- ===== src/Service/Functions.antt =====
-- libkv/function.go: the functions service.
use event_gateway.Common.{
  String, Bool, false, not, Option, none, some, List, [], ◌∷◌, ◌==◌, if◌then◌else◌,
}
use event_gateway.Resource.{
  Function, EventType, Subscription, function_not_found, function_already_registered,
  function_validation, function_has_subscriptions, function_is_authorizer, store_error, json_error,
  Result, ok, err, require, ◌>>=◌, ◌>>◌,
}
use event_gateway.Service.Defs.{Service, Stores, resource_key, marshal, written, if_passed}
use event_gateway.Service.Validation.{validate_function}
use event_gateway.Service.Lookup.{is_found, list_subscriptions, list_event_types}

-- The loops of `DeleteFunction` over the subscriptions and over the event types of the space.
unfoldable pub no_subscription : String → List Subscription → Result (Unit {0})
no_subscription id [] = ok tt
no_subscription id (sub ∷ subs) =
    let rest = no_subscription id subs in
    if id == sub.function_id then err function_has_subscriptions else rest

abbrev pub is_authorizer : String → Option String → Bool
is_authorizer id none = false
is_authorizer id (some authorizer) = id == authorizer

unfoldable pub no_authorizer : String → List EventType → Result (Unit {0})
no_authorizer id [] = ok tt
no_authorizer id (event_type ∷ types) =
    let rest = no_authorizer id types in
    if is_authorizer id event_type.authorizer_id
    then err (function_is_authorizer id event_type.name)
    else rest

module _ {S B : Type 0} (service : Service S B) where
  unfoldable pub create_function_checks : Function → Stores S → Result (Function × B)
  create_function_checks f s = do
    fn ← validate_function service f
    require (not (is_found (service.kv.get s.function_store (resource_key fn.space fn.id))))
        (function_already_registered fn.id)
    byt ← marshal service.functions json_error fn
    ok (fn, byt)

  unfoldable pub create_function : Function → Stores S → Stores S × Result Function
  create_function f s = if_passed s (create_function_checks f s) (λ (fn, byt).
      let r =
        written (service.kv.atomic_put s.function_store (resource_key fn.space fn.id) byt)
          store_error fn in
      (record s { function_store = r.0 }, r.1))

  -- Any error of the lookup counts as a function that is not there.
  unfoldable pub update_function_checks : Function → Stores S → Result (Function × B)
  update_function_checks f s = do
    fn ← validate_function service f
    require (is_found (service.kv.get s.function_store (resource_key fn.space fn.id)))
        (function_not_found fn.id)
    byt ← marshal service.functions function_validation fn
    ok (fn, byt)

  unfoldable pub update_function : Function → Stores S → Stores S × Result Function
  update_function f s = if_passed s (update_function_checks f s) (λ (fn, byt).
      let r =
        written (service.kv.put s.function_store (resource_key fn.space fn.id) byt) store_error
          fn in
      (record s { function_store = r.0 }, r.1))

  unfoldable pub delete_function_checks : String → String → Stores S → Result (Unit {0})
  delete_function_checks space id s = do
    subs ← list_subscriptions service s space []
    no_subscription id subs
    types ← list_event_types service s space []
    no_authorizer id types

  unfoldable pub delete_function : String → String → Stores S → Stores S × Result (Unit {0})
  delete_function space id s = if_passed s (delete_function_checks space id s) (λ done.
      let r =
        written (service.kv.delete s.function_store (resource_key space id))
          (λ _. function_not_found id) tt in
      (record s { function_store = r.0 }, r.1))
