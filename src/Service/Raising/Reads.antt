-- ===== src/Service/Raising/Reads.antt =====
-- The errors that the checks and the reads of the services return.
use event_gateway.Common.{ℕ, String, List, ◌==◌, Bool-cases, inl, inr}
use event_gateway.PathTree.Add.{AddError}
use event_gateway.Resource.{
  Function, EventType, Subscription, Cors, Filter, Error, function_not_found, function_validation,
  event_type_not_found, event_type_validation, subscription_not_found, subscription_validation,
  path_conflict, cors_not_found, cors_validation, store_error, json_error, type_sync,
}
use event_gateway.Service.Defs.{Service, Stores, resource_key, space_path}
use event_gateway.Service.Validation.{
  validate_function, validate_event_type, validate_subscription, validate_cors,
  with_function_defaults, with_event_type_defaults, with_subscription_defaults, with_cors_defaults,
}
use event_gateway.Service.Lookup.{
  get_function, get_event_type, get_subscription, get_cors, list_subscriptions, list_event_types,
  list_functions, list_cors, subscription_path,
}
use event_gateway.Service.Subscriptions.{conflict_if_sync}
use event_gateway.Service.Raising.{
  Raises, ok-Raises, checked-Raises, read_one-Raises, read_all-Raises,
}
use event_gateway.Service.Raising.Parts.{conflict-Raises}

module _ (P : Error → Type 0) {S B : Type 0} (service : Service S B)
    (stored : (m : String) → P (store_error m)) (json : (m : String) → P (json_error m)) where
  pub validate_function-Raises :
      (a : Function)
      → ((m : String) → P (function_validation m))
      → Raises P (validate_function service a)
  unfolding validate_function
  validate_function-Raises a invalid =
      checked-Raises P (service.check_function (with_function_defaults a)) function_validation
        (with_function_defaults a) invalid

  pub get_function-Raises :
      (s : Stores S) (space id : String)
      → P (function_not_found id)
      → Raises P (get_function service s space id)
  unfolding get_function
  get_function-Raises s space id missing =
      read_one-Raises P stored json service.kv service.functions s.function_store
        (resource_key space id) _ missing

  pub validate_event_type-Raises :
      (a : EventType)
      → ((m : String) → P (event_type_validation m))
      → Raises P (validate_event_type service a)
  unfolding validate_event_type
  validate_event_type-Raises a invalid =
      checked-Raises P (service.check_event_type (with_event_type_defaults a)) event_type_validation
        (with_event_type_defaults a) invalid

  pub get_event_type-Raises :
      (s : Stores S) (space id : String)
      → P (event_type_not_found id)
      → Raises P (get_event_type service s space id)
  unfolding get_event_type
  get_event_type-Raises s space id missing =
      read_one-Raises P stored json service.kv service.event_types s.event_type_store
        (resource_key space id) _ missing

  pub validate_subscription-Raises :
      (a : Subscription)
      → ((m : String) → P (subscription_validation m))
      → Raises P (validate_subscription service a)
  unfolding validate_subscription
  validate_subscription-Raises a invalid =
      checked-Raises P (service.check_subscription (with_subscription_defaults a))
        subscription_validation (with_subscription_defaults a) invalid

  pub get_subscription-Raises :
      (s : Stores S) (space id : String)
      → P (subscription_not_found id)
      → Raises P (get_subscription service s space id)
  unfolding get_subscription
  get_subscription-Raises s space id missing =
      read_one-Raises P stored json service.kv service.subscriptions s.subscription_store
        (subscription_path space id) _ missing

  pub validate_cors-Raises :
      (a : Cors) → ((m : String) → P (cors_validation m)) → Raises P (validate_cors service a)
  unfolding validate_cors
  validate_cors-Raises a invalid =
      checked-Raises P (service.check_cors (with_cors_defaults a)) cors_validation
        (with_cors_defaults a) invalid

  pub get_cors-Raises :
      (s : Stores S) (space id : String)
      → P (cors_not_found id)
      → Raises P (get_cors service s space id)
  unfolding get_cors
  get_cors-Raises s space id missing =
      read_one-Raises P stored json service.kv service.corses s.cors_store (resource_key space id) _
        missing

  pub conflict_if_sync-Raises :
      (choice : ℕ → ℕ → ℕ) (s : Stores S) (new : Subscription)
      → ((e : AddError) → P (path_conflict e))
      → Raises P (conflict_if_sync service choice s new)
  conflict_if_sync-Raises choice s new conflict = elim (Bool-cases (new.type == type_sync)) [
    | inl e ↦ rw e (
        conflict-Raises P service stored json choice s new.space new.method new.path new.event_type
          conflict)
    | inr e ↦ rw e (ok-Raises P tt)
  ]

  pub list_functions-Raises :
      (s : Stores S) (space : String) (filters : List Filter)
      → Raises P (list_functions service s space filters)
  unfolding list_functions
  list_functions-Raises s space filters =
      read_all-Raises P stored json service.kv service.functions (λ a. a.metadata) s.function_store
        (space_path space) filters

  pub list_event_types-Raises :
      (s : Stores S) (space : String) (filters : List Filter)
      → Raises P (list_event_types service s space filters)
  unfolding list_event_types
  list_event_types-Raises s space filters =
      read_all-Raises P stored json service.kv service.event_types (λ a. a.metadata)
        s.event_type_store (space_path space) filters

  pub list_subscriptions-Raises :
      (s : Stores S) (space : String) (filters : List Filter)
      → Raises P (list_subscriptions service s space filters)
  unfolding list_subscriptions
  list_subscriptions-Raises s space filters =
      read_all-Raises P stored json service.kv service.subscriptions (λ a. a.metadata)
        s.subscription_store (space_path space) filters

  pub list_cors-Raises :
      (s : Stores S) (space : String) (filters : List Filter)
      → Raises P (list_cors service s space filters)
  unfolding list_cors
  list_cors-Raises s space filters =
      read_all-Raises P stored json service.kv service.corses (λ a. a.metadata) s.cors_store
        (space_path space) filters
