-- ===== src/Service/Example.antt =====
-- Services over stores in memory, with resources to try them on.
use event_gateway.Common.{
  String, ◌≡◌, ◌≢◌, ◌⊎◌, refl, inr, Bool, true, false, not, ◌&&◌, ◌||◌, Option, none, some, [],
  ◌==◌, string_key, Dict, at_key, is_word, arith, eq_iff, subst, NoSlash,
}
use event_gateway.Store.Memory.{memory}
use event_gateway.Resource.{Function, EventType, Subscription, Cors}
use event_gateway.Service.Defs.{IsCodec, Service, Stores}
use event_gateway.Service.Validation.{
  IsValidating, space_validator, function_id_validator, event_type_validator, url_path_validator,
  is_method,
}
use event_gateway.Service.Integrity.{IsSound}
use event_gateway.Service.Integrity.Keys.{space_validator-NoSlash}

pub data Blob : Type 0 where
  function_blob : Function → Blob
  event_type_blob : EventType → Blob
  subscription_blob : Subscription → Blob
  cors_blob : Cors → Blob

abbrev pub passes : Bool → Option String
passes true = none
passes false = some "invalid"

passes-true : (b : Bool) → passes b ≡ none → b ≡ true
passes-true true e = refl
passes-true false e = absurd (cc)

abbrev pub read_function : Blob → Option Function
read_function (function_blob f) = some f
read_function _ = none

abbrev pub read_event_type : Blob → Option EventType
read_event_type (event_type_blob t) = some t
read_event_type _ = none

abbrev pub read_subscription : Blob → Option Subscription
read_subscription (subscription_blob s) = some s
read_subscription _ = none

abbrev pub read_cors : Blob → Option Cors
read_cors (cors_blob c) = some c
read_cors _ = none

abbrev pub subscription_test : Subscription → Bool
subscription_test s =
    space_validator s.space
    && ((s.type == "async" || s.type == "sync")
        && (event_type_validator s.event_type
            && (not (s.function_id == "") && (url_path_validator s.path && is_method s.method))))

abbrev pub cors_test : Cors → Bool
cors_test c = space_validator c.space && (is_method c.method && url_path_validator c.path)

abbrev pub service : Service (Dict String Blob) Blob
service = record {
  kv = memory Blob;
  functions = record { encode = λ f. inr (function_blob f); decode = read_function };
  event_types = record { encode = λ t. inr (event_type_blob t); decode = read_event_type };
  subscriptions = record { encode = λ s. inr (subscription_blob s); decode = read_subscription };
  corses = record { encode = λ c. inr (cors_blob c); decode = read_cors };
  check_function = λ f. passes (space_validator f.space && function_id_validator f.id);
  check_event_type = λ t. passes (space_validator t.space && not (t.name == ""));
  check_subscription = λ s. passes (subscription_test s);
  check_cors = λ c. passes (cors_test c);
}

inr-injective : (a b : Blob) → ◌≡◌ {A = String ⊎ Blob} (inr a) (inr b) → a ≡ b
inr-injective a b e = cc

default_valid : space_validator "default" ≡ true
unfolding space_validator is_word
default_valid = refl

pub default_plain : NoSlash "default"
default_plain = space_validator-NoSlash "default" default_valid

and_true : (a b : Bool) → (a && b) ≡ true → (a ≡ true) × (b ≡ true)
and_true true b e = (refl, e)
and_true false b e = absurd (cc)

not_empty : (s : String) → not (s == "") ≡ true → s ≢ ""
not_empty s e is = let same = (eq_iff s "").1 is in ground arith

pub tags : IsValidating service
tags = record {
  function =
      λ f e. let both = and_true _ _ (passes-true _ e) in record { space = both.0; id = both.1 };
  event_type = λ t e.
      let both = and_true _ _ (passes-true _ e) in
      record { space = both.0; name = not_empty t.name both.1 };
  subscription = λ s e.
      let (space, e1) = and_true _ _ (passes-true (subscription_test s) e) in
      let (type, e2) = and_true _ _ e1 in
      let (event_type, e3) = and_true _ _ e2 in
      let (function_id, e4) = and_true _ _ e3 in
      let (path, method) = and_true _ _ e4 in
      record {
        space = space;
        type = type;
        event_type = event_type;
        function_id = not_empty s.function_id function_id;
        path = path;
        method = method;
      };
  cors = λ c e.
      let (space, e1) = and_true _ _ (passes-true (cors_test c) e) in
      let (method, path) = and_true _ _ e1 in
      record { space = space; method = method; path = path };
}

pub function-IsCodec : IsCodec service.functions
function-IsCodec = record {
  decode_encode = λ a b e. subst (λ x. read_function x ≡ some a) (inr-injective _ _ e) refl;
}

pub event_type-IsCodec : IsCodec service.event_types
event_type-IsCodec = record {
  decode_encode = λ a b e. subst (λ x. read_event_type x ≡ some a) (inr-injective _ _ e) refl;
}

pub subscription-IsCodec : IsCodec service.subscriptions
subscription-IsCodec = record {
  decode_encode = λ a b e. subst (λ x. read_subscription x ≡ some a) (inr-injective _ _ e) refl;
}

abbrev pub empty : Stores (Dict String Blob)
empty = record {
  event_type_store = [];
  function_store = [];
  subscription_store = [];
  cors_store = [];
}

pub empty-IsSound : IsSound service (λ m k. at_key m k) empty
unfolding at_key
empty-IsSound = record { subscription = λ k b e. absurd (cc); event_type = λ k b e. absurd (cc) }

abbrev pub hello : Function
hello = record { space = ""; id = "hello"; provider_type = "http"; provider = "{}"; metadata = [] }

abbrev pub created : EventType
created = record { space = ""; name = "user.created"; authorizer_id = none; metadata = [] }

abbrev pub on_created : Subscription
on_created = record {
  space = "";
  id = "";
  type = "sync";
  event_type = "user.created";
  function_id = "hello";
  path = "users/:id";
  method = "post";
  metadata = [];
}
