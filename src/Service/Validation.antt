-- ===== src/Service/Validation.antt =====
-- libkv/: the defaults and checks of a resource before it is stored, and the custom validators.
use event_gateway.Common.{
  String, Bool, true, ◌≡◌, ◌≢◌, ◌||◌, Option, none, some, List, [], ◌∷◌, ◌==◌, if◌then◌else◌, ◌<+>◌,
  has_prefix, to_upper, is_word,
}
use event_gateway.Resource.{
  Function, EventType, Subscription, Cors, Error, function_validation, event_type_validation,
  subscription_validation, cors_validation, invalid_subscription_update, invalid_cors_update,
  Result, ok, err, require, ◌>>◌, type_sync, type_async,
}
use event_gateway.Service.Defs.{Service, default_space}

-- spaceValidator, functionIDValidator and eventTypeValidator: one regular expression.
unfoldable pub space_validator : String → Bool
space_validator s = is_word s

unfoldable pub function_id_validator : String → Bool
function_id_validator s = is_word s

unfoldable pub event_type_validator : String → Bool
event_type_validator s = is_word s

-- urlPathValidator and pathValidator: path.IsAbs
unfoldable pub url_path_validator : String → Bool
url_path_validator path = has_prefix path "/"

-- strings.EnsurePrefix of internal/strings.
unfoldable pub ensure_prefix : String → String → String
ensure_prefix s prefix = if has_prefix s prefix then s else prefix <+> s

abbrev or_default : String → String → String
or_default default s = if s == "" then default else s

abbrev or_list : List String → List String → List String
or_list default [] = default
or_list default (x ∷ xs) = x ∷ xs

abbrev pub is_method : String → Bool
is_method m =
    m == "GET"
    || m == "POST"
    || m == "DELETE"
    || m == "PUT"
    || m == "PATCH"
    || m == "HEAD"
    || m == "OPTIONS"

-- The `validate` tags of the resources that the services rely on.
pub record FunctionTags (f : Function) : Type 0 where
  pub space : space_validator f.space ≡ true
  pub id : function_id_validator f.id ≡ true

pub record EventTypeTags (t : EventType) : Type 0 where
  pub space : space_validator t.space ≡ true
  pub name : t.name ≢ ""

pub record SubscriptionTags (s : Subscription) : Type 0 where
  pub space : space_validator s.space ≡ true
  pub type : (s.type == type_async || s.type == type_sync) ≡ true
  pub event_type : event_type_validator s.event_type ≡ true
  pub function_id : s.function_id ≢ ""
  pub path : url_path_validator s.path ≡ true
  pub method : is_method s.method ≡ true

pub record CorsTags (c : Cors) : Type 0 where
  pub space : space_validator c.space ≡ true
  pub method : is_method c.method ≡ true
  pub path : url_path_validator c.path ≡ true

-- What the validator documents: a struct that it accepts meets its tags.
pub record IsValidating {S B : Type 0} (v : Service S B) : Type 0 where
  pub function : (f : Function) → v.check_function f ≡ none → FunctionTags f
  pub event_type : (t : EventType) → v.check_event_type t ≡ none → EventTypeTags t
  pub subscription : (s : Subscription) → v.check_subscription s ≡ none → SubscriptionTags s
  pub cors : (c : Cors) → v.check_cors c ≡ none → CorsTags c

abbrev pub checked : {A : Type 0} → Option String → (String → Error) → A → Result A
checked none fault a = ok a
checked (some m) fault a = err (fault m)

abbrev pub with_function_defaults : Function → Function
with_function_defaults f = record f { space = or_default default_space f.space }

abbrev pub with_event_type_defaults : EventType → EventType
with_event_type_defaults t = record t { space = or_default default_space t.space }

abbrev pub with_subscription_defaults : Subscription → Subscription
with_subscription_defaults s = record s {
  path = ensure_prefix s.path "/";
  space = or_default default_space s.space;
  method = if s.method == "" then "POST" else to_upper s.method;
}

abbrev pub with_cors_defaults : Cors → Cors
with_cors_defaults c = record c {
  space = or_default default_space c.space;
  allowed_origins = or_list ("*" ∷ []) c.allowed_origins;
  allowed_methods = or_list ("HEAD" ∷ "GET" ∷ "POST" ∷ []) c.allowed_methods;
  allowed_headers = or_list ("Origin" ∷ "Accept" ∷ "Content-Type" ∷ []) c.allowed_headers;
}

module _ {S B : Type 0} (service : Service S B) where
  unfoldable pub validate_function : Function → Result Function
  validate_function f =
      let f' = with_function_defaults f in
      checked (service.check_function f') function_validation f'

  unfoldable pub validate_event_type : EventType → Result EventType
  validate_event_type t =
      let t' = with_event_type_defaults t in
      checked (service.check_event_type t') event_type_validation t'

  unfoldable pub validate_subscription : Subscription → Result Subscription
  validate_subscription s =
      let s' = with_subscription_defaults s in
      checked (service.check_subscription s') subscription_validation s'

  unfoldable pub validate_cors : Cors → Result Cors
  validate_cors c =
      let c' = with_cors_defaults c in checked (service.check_cors c') cors_validation c'

unfoldable pub validate_subscription_update : Subscription → Subscription → Result (Unit {0})
validate_subscription_update new old = do
  require (new.type == old.type) (invalid_subscription_update "Type")
  require (new.event_type == old.event_type) (invalid_subscription_update "EventType")
  require (new.function_id == old.function_id) (invalid_subscription_update "FunctionID")
  require (new.path == old.path) (invalid_subscription_update "Path")
  require (new.method == old.method) (invalid_subscription_update "Method")

unfoldable pub validate_cors_update : Cors → Cors → Result (Unit {0})
validate_cors_update new old = do
  require (new.method == old.method) (invalid_cors_update "Method")
  require (new.path == old.path) (invalid_cors_update "Path")
