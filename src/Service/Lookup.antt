-- ===== src/Service/Lookup.antt =====
-- libkv/: the `Get` and `List` methods of the services.
use event_gateway.Common.{String, Bool, true, false, List, ◌<+>◌}
use event_gateway.Store.{GetResult, found}
use event_gateway.Resource.{
  Function, EventType, Subscription, Cors, Filter, function_not_found, event_type_not_found,
  subscription_not_found, cors_not_found, Result,
}
use event_gateway.Service.Defs.{Service, Stores, space_path, resource_key, read_one, read_all}

unfoldable pub subscription_path : String → String → String
subscription_path space id = space_path space <+> id

-- `err == nil` after a `Get`
abbrev pub is_found : {B : Type 0} → GetResult B → Bool
is_found (found b) = true
is_found _ = false

module _ {S B : Type 0} (service : Service S B) where
  unfoldable pub get_subscription : Stores S → String → String → Result Subscription
  get_subscription s space id =
      read_one service.kv service.subscriptions s.subscription_store (subscription_path space id)
        (subscription_not_found id)

  unfoldable pub list_subscriptions : Stores S → String → List Filter → Result (List Subscription)
  list_subscriptions s space filters =
      read_all service.kv service.subscriptions (λ sub. sub.metadata) s.subscription_store
        (space_path space) filters

  unfoldable pub get_function : Stores S → String → String → Result Function
  get_function s space id =
      read_one service.kv service.functions s.function_store (resource_key space id)
        (function_not_found id)

  unfoldable pub list_functions : Stores S → String → List Filter → Result (List Function)
  list_functions s space filters =
      read_all service.kv service.functions (λ f. f.metadata) s.function_store (space_path space)
        filters

  unfoldable pub get_event_type : Stores S → String → String → Result EventType
  get_event_type s space name =
      read_one service.kv service.event_types s.event_type_store (resource_key space name)
        (event_type_not_found name)

  unfoldable pub list_event_types : Stores S → String → List Filter → Result (List EventType)
  list_event_types s space filters =
      read_all service.kv service.event_types (λ t. t.metadata) s.event_type_store
        (space_path space) filters

  unfoldable pub get_cors : Stores S → String → String → Result Cors
  get_cors s space id =
      read_one service.kv service.corses s.cors_store (resource_key space id) (cors_not_found id)

  unfoldable pub list_cors : Stores S → String → List Filter → Result (List Cors)
  list_cors s space filters =
      read_all service.kv service.corses (λ c. c.metadata) s.cors_store (space_path space) filters
