-- ===== src/Api/Defs.antt =====
-- httpapi/httpapi.go: what the handlers take and reply, and what they share.
use event_gateway.Common.{
  ℕ, String, ◌⊎◌, inl, inr, Option, some, List, [], ◌∷◌, ◌++◌, if◌then◌else◌, has_prefix,
  trim_prefix, split_slash,
}
use event_gateway.Resource.{Function, EventType, Subscription, Cors, Filter, Error, Result, ok, err}

-- A request as the router of the API hands it on: its parameters by name, its raw path, its query
-- (a key has at least one value), and its body.
pub record Request (R : Type 0) : Type 0 where
  pub by_name : String → String
  pub raw_path : String
  pub query : List (String × (String × List String))
  pub body : R

-- encoding/json on the body of a request: a resource or a message.
pub record Decoder (R : Type 0) : Type 0 where
  pub function : R → String ⊎ Function
  pub event_type : R → String ⊎ EventType
  pub subscription : R → String ⊎ Subscription
  pub cors : R → String ⊎ Cors

-- What is encoded into the body of a reply. An error stands for its message.
pub data Body : Type 0 where
  no_body : Body
  error_response : Error → Body
  event_type_body : EventType → Body
  event_types_response : List EventType → Body
  function_body : Function → Body
  functions_response : List Function → Body
  subscription_body : Subscription → Body
  subscriptions_response : List Subscription → Body
  cors_body : Cors → Body
  cors_response : List Cors → Body

-- The changes of the metrics.
pub data Metric : Type 0 where
  config_request : (space resource operation : String) → Metric
  inc : (resource space : String) → Metric
  dec : (resource space : String) → Metric

-- A reply, with the changes of the metrics in their order.
pub record Reply : Type 0 where
  pub status : ℕ
  pub content_type : Option String
  pub body : Body
  pub metrics : List Metric

abbrev pub json_reply : ℕ → Body → List Metric → Reply
json_reply status body metrics = record {
  status = status;
  content_type = some "application/json";
  body = body;
  metrics = metrics;
}

-- How the handlers reply once the service has returned: an error with its status, or an output with
-- the status of a success and the changes of the gauge. The request is counted in both cases.
unfoldable pub answer :
    {A : Type 0} → (Error → ℕ) → ℕ → (A → Body) → List Metric → Metric → Result A → Reply
answer failure success body gauge counted (ok a) =
    json_reply success (body a) (gauge ++ counted ∷ [])
answer failure success body gauge counted (err e) =
    json_reply (failure e) (error_response e) (counted ∷ [])

-- A body that is not JSON of the resource is a bad request and no service is called.
unfoldable pub with_body :
    {T A : Type 0} → T → (String → Error) → String ⊎ A → (A → T × Reply) → T × Reply
with_body s invalid (inl m) next = (s, json_reply 400 (error_response (invalid m)) [])
with_body s invalid (inr a) next = next a

-- extractCORSID: the last segment of the raw path
abbrev last_segment : List String → String
last_segment [] = ""
last_segment (x ∷ []) = x
last_segment (x ∷ y ∷ xs) = last_segment (y ∷ xs)

unfoldable pub extract_cors_id : String → String
extract_cors_id raw_path = last_segment (split_slash raw_path)

-- extractMetadataFilters, in the order in which the query is gone over
unfoldable pub extract_metadata_filters : List (String × (String × List String)) → List Filter
extract_metadata_filters [] = []
extract_metadata_filters ((key, (first, more)) ∷ query) =
    let filters = extract_metadata_filters query in
    if has_prefix key "metadata."
    then record { key = trim_prefix key "metadata."; value = first } ∷ filters
    else filters

-- The status of the handlers that do not tell the errors apart.
abbrev pub internal_error : Error → ℕ
internal_error e = 500
