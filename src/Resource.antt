-- ===== src/Resource.antt =====
-- The resources that the configuration API manages, and the errors of their services: function/,
-- event/type.go, subscription/ and metadata/.
use event_gateway.Common.{
  String, Bool, true, false, Option, none, some, List, [], ◌∷◌, ◌==◌, if◌then◌else◌, Dict,
  string_key, at_key,
}
use event_gateway.PathTree.Add.{AddError}

abbrev pub Metadata : Type 0
Metadata = Dict String String

pub record Filter : Type 0 where
  pub key : String
  pub value : String

abbrev has_value : Option String → String → Bool
has_value none v = false
has_value (some w) v = w == v

-- Metadata.Check
unfoldable pub check : Metadata → List Filter → Bool
check m [] = true
check m (filter ∷ filters) =
    let rest = check m filters in
    if has_value (at_key m filter.key) filter.value then rest else false

-- `provider` is the provider with its configuration, in the form in which it is stored.
pub record Function : Type 0 where
  pub space : String
  pub id : String
  pub provider_type : String
  pub provider : String
  pub metadata : Metadata

-- event.Type
pub record EventType : Type 0 where
  pub space : String
  pub name : String
  pub authorizer_id : Option String
  pub metadata : Metadata

pub record Subscription : Type 0 where
  pub space : String
  pub id : String
  pub type : String
  pub event_type : String
  pub function_id : String
  pub path : String
  pub method : String
  pub metadata : Metadata

abbrev pub type_sync : String
type_sync = "sync"

abbrev pub type_async : String
type_async = "async"

pub record Cors : Type 0 where
  pub space : String
  pub id : String
  pub method : String
  pub path : String
  pub allowed_origins : List String
  pub allowed_methods : List String
  pub allowed_headers : List String
  pub allow_credentials : Bool
  pub metadata : Metadata

-- The errors that the services return, and those that they pass on from the store and from JSON.
pub data Error : Type 0 where
  function_not_found : String → Error
  function_already_registered : String → Error
  function_validation : String → Error
  function_is_authorizer : (id event_type : String) → Error
  function_has_subscriptions : Error
  event_type_not_found : String → Error
  event_type_already_exists : String → Error
  event_type_validation : String → Error
  event_type_has_subscriptions : Error
  authorizer_does_not_exist : Error
  subscription_not_found : String → Error
  subscription_already_exists : String → Error
  invalid_subscription_update : String → Error
  subscription_validation : String → Error
  path_conflict : AddError → Error
  cors_not_found : String → Error
  cors_already_exists : String → Error
  cors_validation : String → Error
  invalid_cors_update : String → Error
  store_error : String → Error
  json_error : String → Error

pub data Result {ℓ} (A : Type ℓ) : Type ℓ where
  ok : A → Result A
  err : Error → Result A

infixl 5 ◌>>=◌ ◌>>◌
abbrev pub ◌>>=◌ : {A B : Type 0} → Result A → (A → Result B) → Result B
◌>>=◌ (ok a) next = next a
◌>>=◌ (err e) next = err e

abbrev pub ◌>>◌ : {B : Type 0} → Result (Unit {0}) → Result B → Result B
◌>>◌ first next = first >>= λ _. next

-- Go on if the test holds.
abbrev pub require : Bool → Error → Result (Unit {0})
require test e = if test then ok tt else err e
