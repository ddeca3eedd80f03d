-- ===== src/Api/Example.antt =====
-- The API over services in memory, and requests for tests.
use event_gateway.Common.{
  ℕ, String, ◌⊎◌, inl, inr, Option, none, some, List, [], ◌∷◌, ◌==◌, if◌then◌else◌, ◌<+>◌,
  string_key, Dict,
}
use event_gateway.Service.Defs.{Stores}
use event_gateway.Service.Example.{
  Blob, function_blob, event_type_blob, subscription_blob, read_function, read_event_type,
  read_subscription, read_cors, service, empty, hello, created, on_created,
}
use event_gateway.Api.Defs.{Request, Decoder, Reply}
use event_gateway.Api.Routes.{
  event_types, functions, subscriptions, create_one, Endpoint, operate, handle,
}
use event_gateway.Api.Calls.{handle_all}

abbrev pub not_json : {A : Type 0} → Option A → String ⊎ A
not_json none = inl "invalid character"
not_json (some a) = inr a

abbrev pub decoder : Decoder Blob
decoder = record {
  function = λ b. not_json (read_function b);
  event_type = λ b. not_json (read_event_type b);
  subscription = λ b. not_json (read_subscription b);
  cors = λ b. not_json (read_cors b);
}

abbrev pub at_first : ℕ → ℕ → ℕ
at_first _ _ = 0

-- A request in the default space, for an ID.
abbrev pub named : String → Blob → Request Blob
named id body = record {
  by_name = λ name. if name == "space" then "default" else id;
  raw_path = "/v1/spaces/default/cors/" <+> id;
  query = [];
  body = body;
}

abbrev pub reply_to :
    Endpoint → Request Blob → Stores (Dict String Blob) → Stores (Dict String Blob) × Reply
reply_to endpoint r s = handle service decoder at_first endpoint r s

abbrev pub requests : List (Endpoint × Request Blob)
requests =
    (operate create_one functions, named "" (function_blob hello))
    ∷ (operate create_one event_types, named "" (event_type_blob created))
    ∷ (operate create_one subscriptions, named "" (subscription_blob on_created))
    ∷ []

abbrev pub filled : Stores (Dict String Blob)
filled = handle_all service decoder at_first requests empty

abbrev pub removal : Request Blob
removal = named "hello" (function_blob hello)
