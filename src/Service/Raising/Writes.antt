-- ===== src/Service/Raising/Writes.antt =====
-- The errors that the writes of functions and event types return.
use event_gateway.Common.{String, not, []}
use event_gateway.Resource.{
  Function, EventType, Error, function_not_found, function_already_registered, function_validation,
  function_is_authorizer, function_has_subscriptions, event_type_not_found,
  event_type_already_exists, event_type_validation, event_type_has_subscriptions,
  authorizer_does_not_exist, store_error, json_error,
}
use event_gateway.Service.Defs.{Service, Stores, resource_key}
use event_gateway.Service.Lookup.{is_found}
use event_gateway.Service.Functions.{
  create_function, create_function_checks, update_function, update_function_checks, delete_function,
  delete_function_checks,
}
use event_gateway.Service.EventTypes.{
  create_event_type, create_event_type_checks, update_event_type, update_event_type_checks,
  delete_event_type, delete_event_type_checks,
}
use event_gateway.Service.Raising.{
  Raises, bind-Raises, require-Raises, marshal-Raises, written-Raises, if_passed-Raises,
}
use event_gateway.Service.Raising.Parts.{
  no_subscription-Raises, no_authorizer-Raises, no_subscriber-Raises, check_authorizer-Raises,
}
use event_gateway.Service.Raising.Reads.{
  validate_function-Raises, validate_event_type-Raises, get_event_type-Raises,
  list_event_types-Raises, list_subscriptions-Raises,
}

module _ (P : Error → Type 0) {S B : Type 0} (service : Service S B)
    (stored : (m : String) → P (store_error m)) (json : (m : String) → P (json_error m)) where
  pub create_function-Raises :
      (f : Function) (s : Stores S)
      → ((m : String) → P (function_validation m))
      → ((id : String) → P (function_already_registered id))
      → Raises P (create_function service f s).1
  unfolding create_function create_function_checks
  create_function-Raises f s invalid again =
      if_passed-Raises P s _ _
        (bind-Raises P _ _ (validate_function-Raises P service stored json f invalid) (λ fn.
          bind-Raises P _ _
            (require-Raises P
              (not (is_found (service.kv.get s.function_store (resource_key fn.space fn.id))))
              (function_already_registered fn.id) (again _))
            (λ u. marshal-Raises P service.functions _ fn json)))
        (λ p. written-Raises P _ _ _ stored)

  pub update_function-Raises :
      (f : Function) (s : Stores S)
      → ((m : String) → P (function_validation m))
      → ((id : String) → P (function_not_found id))
      → Raises P (update_function service f s).1
  unfolding update_function update_function_checks
  update_function-Raises f s invalid missing =
      if_passed-Raises P s _ _
        (bind-Raises P _ _ (validate_function-Raises P service stored json f invalid) (λ fn.
          bind-Raises P _ _
            (require-Raises P
              (is_found (service.kv.get s.function_store (resource_key fn.space fn.id)))
              (function_not_found fn.id) (missing _))
            (λ u. marshal-Raises P service.functions _ fn invalid)))
        (λ p. written-Raises P _ _ _ stored)

  pub delete_function-Raises :
      (space id : String) (s : Stores S)
      → P (function_not_found id)
      → P function_has_subscriptions
      → ((name : String) → P (function_is_authorizer id name))
      → Raises P (delete_function service space id s).1
  unfolding delete_function delete_function_checks
  delete_function-Raises space id s missing used authorizer =
      if_passed-Raises P s _ _
        (bind-Raises P _ _ (list_subscriptions-Raises P service stored json s space []) (λ subs.
          bind-Raises P _ _ (no_subscription-Raises P id subs used) (λ u.
            bind-Raises P _ _ (list_event_types-Raises P service stored json s space [])
              (λ types. no_authorizer-Raises P id types authorizer))))
        (λ p. written-Raises P _ _ _ (λ m. missing))

  pub create_event_type-Raises :
      (t : EventType) (s : Stores S)
      → ((m : String) → P (event_type_validation m))
      → ((name : String) → P (event_type_already_exists name))
      → P authorizer_does_not_exist
      → Raises P (create_event_type service t s).1
  unfolding create_event_type create_event_type_checks
  create_event_type-Raises t s invalid again no_authorizer =
      if_passed-Raises P s _ _
        (bind-Raises P _ _ (validate_event_type-Raises P service stored json t invalid) (λ new.
          bind-Raises P _ _
            (require-Raises P
              (not (is_found (service.kv.get s.event_type_store (resource_key new.space new.name))))
              (event_type_already_exists new.name) (again _))
            (λ u.
              bind-Raises P _ _
                (check_authorizer-Raises P service stored json s new.space new.authorizer_id
                  no_authorizer)
                (λ u. marshal-Raises P service.event_types _ new invalid))))
        (λ p. written-Raises P _ _ _ stored)

  pub update_event_type-Raises :
      (t : EventType) (s : Stores S)
      → ((m : String) → P (event_type_validation m))
      → ((name : String) → P (event_type_not_found name))
      → P authorizer_does_not_exist
      → Raises P (update_event_type service t s).1
  unfolding update_event_type update_event_type_checks
  update_event_type-Raises t s invalid missing no_authorizer =
      if_passed-Raises P s _ _
        (bind-Raises P _ _ (validate_event_type-Raises P service stored json t invalid) (λ new.
          bind-Raises P _ _
            (get_event_type-Raises P service stored json s new.space new.name (missing _))
            (λ old.
              bind-Raises P _ _
                (check_authorizer-Raises P service stored json s new.space new.authorizer_id
                  no_authorizer)
                (λ u. marshal-Raises P service.event_types _ new invalid))))
        (λ p. written-Raises P _ _ _ stored)

  pub delete_event_type-Raises :
      (space name : String) (s : Stores S)
      → P (event_type_not_found name)
      → P event_type_has_subscriptions
      → Raises P (delete_event_type service space name s).1
  unfolding delete_event_type delete_event_type_checks
  delete_event_type-Raises space name s missing used =
      if_passed-Raises P s _ _
        (bind-Raises P _ _ (list_subscriptions-Raises P service stored json s space [])
          (λ subs. no_subscriber-Raises P name subs used))
        (λ p. written-Raises P _ _ _ (λ m. missing))
