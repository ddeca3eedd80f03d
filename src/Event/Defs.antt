-- ===== src/Event/Defs.antt =====
-- event/event.go, event/http.go and event/system.go: what an event is.
use event_gateway.Common.{
  ℕ, String, ◌⊎◌, Bool, ◌||◌, Option, none, some, List, [], ◌∷◌, ◌++◌, ◌==◌, suc, if◌then◌else◌,
  Dict, has_prefix, has_suffix,
}
use event_gateway.PathTree.Resolve.{Params}
use event_gateway.Event.Headers.{Headers}

-- An `interface{}` that holds what comes from outside. `J` stands for the values that encoding/json makes.
pub data Value (J : Type 0) : Type 0 where
  nil : Value J
  bytes : String → Value J
  text : String → Value J
  json : J → Value J

-- HTTPRequestData without its parameters, which the router writes later.
pub record HttpRequestData (J : Type 0) : Type 0 where
  pub headers : Dict String String
  pub query : Dict String (List String)
  pub body : Value J
  pub host : String
  pub path : String
  pub method : String

-- Authorization of router/authorization.go
pub record Authorization : Type 0 where
  pub principal_id : String
  pub context : Dict String String

-- The extension "eventgateway": an object has an address, since the router writes to it and copies of an
-- event share it.
pub data Gateway : Type 0 where
  absent : Gateway
  object : ℕ → Gateway
  not_object : Gateway

pub record Extensions (J : Type 0) : Type 0 where
  pub others : Dict String (Value J)
  pub gateway : Gateway

-- Event, without its data.
pub record Attributes (J : Type 0) : Type 0 where
  pub event_type : String
  pub event_type_version : String
  pub cloud_events_version : String
  pub source : String
  pub event_id : String
  pub event_time : Option String
  pub schema_url : String
  pub extensions : Extensions J
  pub content_type : String

-- An error of the call of a function, those of function/errors.go with the message of the original error.
-- Where access was denied, the original error may be one of AWS with a code.
pub data Failure : Type 0 where
  access_denied : Option String → Failure
  call_failed : String → Failure
  provider_error : String → Failure
  function_error : String → Failure
  other_failure : String → Failure

-- Event with its data. The data of an HTTP request is a pointer: its parameters stand at an address. The
-- others are those of event/system.go.
mutual
  pub data Event (J : Type 0) : Type 0 where
    event : Attributes J → Data J → Event J

  pub data Data (J : Type 0) : Type 0 where
    value : Value J → Data J
    http_request : ℕ → HttpRequestData J → Data J
    event_received : (path : String) → Event J → (headers : Dict String String) → Data J
    function_invoking : (space function_id : String) → Event J → Data J
    function_invoked : (space function_id : String) → Event J → (result : String) → Data J
    invocation_failed : (space function_id : String) → Event J → Failure → Data J

abbrev pub attributes : {J : Type 0} → Event J → Attributes J
attributes (event a d) = a

abbrev pub data_of : {J : Type 0} → Event J → Data J
data_of (event a d) = d

abbrev pub type_of : {J : Type 0} → Event J → String
type_of e = (attributes e).event_type

-- What is at the addresses. An object of an event that was made here, or that came as JSON, may have
-- been given an authorization.
pub data Base (J : Type 0) : Type 0 where
  transformed : Base J
  only_authorization : Base J
  decoded_object : J → Base J

pub record Cell (J : Type 0) : Type 0 where
  pub base : Base J
  pub authorization : Option Authorization

pub record Heap (J : Type 0) : Type 0 where
  pub gateways : List (Cell J)
  pub params : List (Option Params)

abbrev pub size : {A : Type 0} → List A → ℕ
size [] = 0
size (x ∷ xs) = suc (size xs)

-- A new object: the heap with it, and its address.
abbrev pub allocate : {J : Type 0} → Base J → Heap J → ℕ × Heap J
allocate base heap = (
  size heap.gateways,
  record heap { gateways = heap.gateways ++ (record { base = base; authorization = none } ∷ []) },
)

abbrev pub mime_json : String
mime_json = "application/json"

abbrev pub mime_cloud_events_json : String
mime_cloud_events_json = "application/cloudevents+json"

abbrev pub type_http_request : String
type_http_request = "http.request"

-- The types of event/system.go
abbrev pub event_received_type : String
event_received_type = "eventgateway.event.received"

abbrev pub function_invoking_type : String
function_invoking_type = "eventgateway.function.invoking"

abbrev pub function_invoked_type : String
function_invoked_type = "eventgateway.function.invoked"

abbrev pub invocation_failed_type : String
invocation_failed_type = "eventgateway.function.invocationFailed"

-- Event.IsSystem
unfoldable pub is_system : {J : Type 0} → Event J → Bool
is_system e = has_prefix (type_of e) "eventgateway."

-- mime.ParseMediaType
pub data MediaType : Type 0 where
  media_type : String → MediaType
  no_media_type : MediaType
  bad_media_type : String → MediaType

-- The extension "eventgateway" of an event in JSON.
pub data JsonGateway (J : Type 0) : Type 0 where
  json_absent : JsonGateway J
  json_object : J → JsonGateway J
  json_other : JsonGateway J

-- An event in JSON: the gateway in the attributes is left to the other field.
pub record JsonEvent (J : Type 0) : Type 0 where
  pub attributes : Attributes J
  pub gateway : JsonGateway J
  pub payload : Value J

-- What is not the program's: mime, encoding/json, time, uuid and the validator. A failure has a message;
-- the identifier and the time of a new event depend on how many objects there are.
pub record Formats (J : Type 0) : Type 0 where
  pub parse_media_type : String → MediaType
  pub unmarshal_event : String → String ⊎ JsonEvent J
  pub unmarshal_object : String → Option J
  pub validate : Attributes J → Option String
  pub parse_time : String → String ⊎ String
  pub new_id : ℕ → String
  pub now : ℕ → String

-- http.Request, as far as it is read. A body that cannot be read has a message.
pub record HttpRequest : Type 0 where
  pub method : String
  pub host : String
  pub path : String
  pub escaped_path : String
  pub query : Dict String (List String)
  pub headers : Headers
  pub body : String ⊎ String

unfoldable pub is_json : String → Bool
is_json mime = mime == mime_json || has_suffix mime "+json"

unfoldable pub is_form : String → Bool
is_form mime = has_prefix mime "multipart/form-data" || mime == "application/x-www-form-urlencoded"

abbrev pub object_or : {J : Type 0} → Value J → Option J → Value J
object_or payload none = payload
object_or payload (some o) = json o

module _ {J : Type 0} (formats : Formats J) where
  -- normalizePayload
  unfoldable pub normalize_payload : Value J → String → Value J
  unfolding is_json is_form
  normalize_payload (bytes b) mime =
      if b == ""
      then bytes b
      else if is_json mime
      then object_or (bytes b) (formats.unmarshal_object b)
      else if is_form mime
      then text b
      else bytes b
  normalize_payload payload mime = payload

  abbrev pub normalize_data : Data J → String → Data J
  normalize_data (value v) mime = value (normalize_payload v mime)
  normalize_data d mime = d

  -- New
  unfoldable pub new_event : String → String → Data J → Heap J → Event J × Heap J
  new_event event_type mime payload heap =
      let (at, next) = allocate transformed heap in
      (
        event
            (record {
              event_type = event_type;
              event_type_version = "";
              cloud_events_version = "0.1";
              source = "https://serverless.com/event-gateway/#transformationVersion=0.1";
              event_id = formats.new_id at;
              event_time = some (formats.now at);
              schema_url = "";
              extensions = record { others = []; gateway = object at };
              content_type = mime;
            })
            (normalize_data payload mime),
        next,
      )
