-- ===== src/Api/Routes.antt =====
-- httpapi/httpapi.go: the routes of the API and their handlers.
use event_gateway.Common.{ℕ, String, Option, none, some, List, [], ◌∷◌, ◌==◌, ◌&&◌, if◌then◌else◌}
use event_gateway.Service.Defs.{Service, Stores}
use event_gateway.Api.Defs.{Request, Decoder, Reply, no_body}
use event_gateway.Api.EventTypes.{
  get_event_type_handler, list_event_types_handler, create_event_type_handler,
  update_event_type_handler, delete_event_type_handler,
}
use event_gateway.Api.Functions.{
  get_function_handler, list_functions_handler, create_function_handler, update_function_handler,
  delete_function_handler,
}
use event_gateway.Api.Subscriptions.{
  get_subscription_handler, list_subscriptions_handler, create_subscription_handler,
  update_subscription_handler, delete_subscription_handler,
}
use event_gateway.Api.CorsConfigs.{
  get_cors_handler, list_cors_handler, create_cors_handler, update_cors_handler,
  delete_cors_handler,
}

-- The kinds of resources, and what is done with them.
pub data Collection : Type 0 where
  event_types functions subscriptions corses : Collection

pub data Operation : Type 0 where
  list_all get_one create_one update_one delete_one : Operation

-- What a route is for: the status of the API, which is always the same, or an operation of the
-- services. The route of the metrics belongs to a library.
pub data Endpoint : Type 0 where
  status : Endpoint
  operate : Operation → Collection → Endpoint

pub record Route : Type 0 where
  pub method : String
  pub path : String
  pub endpoint : Endpoint

abbrev route : String → String → Endpoint → Route
route method path endpoint = record { method = method; path = path; endpoint = endpoint }

-- RegisterRoutes
abbrev pub routes : List Route
routes =
    route "GET" "/v1/status" status
    ∷ route "GET" "/v1/spaces/:space/eventtypes" (operate list_all event_types)
    ∷ route "GET" "/v1/spaces/:space/eventtypes/:name" (operate get_one event_types)
    ∷ route "POST" "/v1/spaces/:space/eventtypes" (operate create_one event_types)
    ∷ route "PUT" "/v1/spaces/:space/eventtypes/:name" (operate update_one event_types)
    ∷ route "DELETE" "/v1/spaces/:space/eventtypes/:name" (operate delete_one event_types)
    ∷ route "GET" "/v1/spaces/:space/functions" (operate list_all functions)
    ∷ route "GET" "/v1/spaces/:space/functions/:id" (operate get_one functions)
    ∷ route "POST" "/v1/spaces/:space/functions" (operate create_one functions)
    ∷ route "PUT" "/v1/spaces/:space/functions/:id" (operate update_one functions)
    ∷ route "DELETE" "/v1/spaces/:space/functions/:id" (operate delete_one functions)
    ∷ route "GET" "/v1/spaces/:space/subscriptions" (operate list_all subscriptions)
    ∷ route "GET" "/v1/spaces/:space/subscriptions/:id" (operate get_one subscriptions)
    ∷ route "POST" "/v1/spaces/:space/subscriptions" (operate create_one subscriptions)
    ∷ route "PUT" "/v1/spaces/:space/subscriptions/:id" (operate update_one subscriptions)
    ∷ route "DELETE" "/v1/spaces/:space/subscriptions/:id" (operate delete_one subscriptions)
    ∷ route "GET" "/v1/spaces/:space/cors" (operate list_all corses)
    ∷ route "GET" "/v1/spaces/:space/cors/*id" (operate get_one corses)
    ∷ route "POST" "/v1/spaces/:space/cors" (operate create_one corses)
    ∷ route "PUT" "/v1/spaces/:space/cors/*id" (operate update_one corses)
    ∷ route "DELETE" "/v1/spaces/:space/cors/*id" (operate delete_one corses)
    ∷ []

-- The endpoint of a method and a pattern.
unfoldable pub find_route : String → String → List Route → Option Endpoint
find_route method path [] = none
find_route method path (r ∷ rs) =
    let rest = find_route method path rs in
    if r.method == method && r.path == path then some r.endpoint else rest

-- The handler of the status writes nothing.
abbrev status_reply : Reply
status_reply = record { status = 200; content_type = none; body = no_body; metrics = [] }

module _ {S B R : Type 0} (service : Service S B) (decoder : Decoder R) (choice : ℕ → ℕ → ℕ) where
  -- The handler of each endpoint, with the choice of the first child of the path trees.
  unfoldable pub handle : Endpoint → Request R → Stores S → Stores S × Reply
  handle status r s = (s, status_reply)
  handle (operate list_all event_types) r s = (s, list_event_types_handler service r s)
  handle (operate list_all functions) r s = (s, list_functions_handler service r s)
  handle (operate list_all subscriptions) r s = (s, list_subscriptions_handler service r s)
  handle (operate list_all corses) r s = (s, list_cors_handler service r s)
  handle (operate get_one event_types) r s = (s, get_event_type_handler service r s)
  handle (operate get_one functions) r s = (s, get_function_handler service r s)
  handle (operate get_one subscriptions) r s = (s, get_subscription_handler service r s)
  handle (operate get_one corses) r s = (s, get_cors_handler service r s)
  handle (operate create_one event_types) r s = create_event_type_handler service decoder r s
  handle (operate create_one functions) r s = create_function_handler service decoder r s
  handle (operate create_one subscriptions) r s =
      create_subscription_handler service decoder choice r s
  handle (operate create_one corses) r s = create_cors_handler service decoder r s
  handle (operate update_one event_types) r s = update_event_type_handler service decoder r s
  handle (operate update_one functions) r s = update_function_handler service decoder r s
  handle (operate update_one subscriptions) r s = update_subscription_handler service decoder r s
  handle (operate update_one corses) r s = update_cors_handler service decoder r s
  handle (operate delete_one event_types) r s = delete_event_type_handler service r s
  handle (operate delete_one functions) r s = delete_function_handler service r s
  handle (operate delete_one subscriptions) r s = delete_subscription_handler service r s
  handle (operate delete_one corses) r s = delete_cors_handler service r s
