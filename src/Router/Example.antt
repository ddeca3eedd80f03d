-- ===== src/Router/Example.antt =====
-- A router with one function, for tests.
use event_gateway.Common.{ℕ, String, inr, none, some, [], ◌∷◌, string_key}
use event_gateway.Resource.{Function, Subscription}
use event_gateway.Event.Defs.{event, value, json, function_invoking_type}
use event_gateway.Event.Example.{formats, no_objects, created}
use event_gateway.Cache.Subscribers.{new_subscription_cache, add_endpoint, add_subscription}
use event_gateway.Cache.Target.{Target}
use event_gateway.Router.World.{Work, Env, World, passes}
use event_gateway.Router.Serving.{plain_paths}

abbrev pub at_first : ℕ → ℕ
at_first _ = 0

abbrev pub hello : Function
hello = record {
  space = "default";
  id = "hello";
  provider_type = "http";
  provider = "{}";
  metadata = [];
}

abbrev pub listening : Subscription
listening = record {
  space = "default";
  id = "a";
  type = "async";
  event_type = function_invoking_type;
  function_id = "hello";
  path = "/";
  method = "POST";
  metadata = [];
}

abbrev pub answering : Subscription
answering = record listening { type = "sync"; event_type = "http.request"; path = "/users" }

abbrev pub target : Target
target = record {
  event_types = [];
  functions = (record { space = "default"; id = "hello" }, hello) ∷ [];
  subscriptions =
      add_endpoint at_first answering (add_subscription listening new_subscription_cache);
  corses = [];
}

-- Every function answers "{}".
abbrev pub env : Env String (Unit {0})
env = record {
  formats = formats;
  target = target;
  choice = at_first;
  plugins = [];
  paths = plain_paths;
  call = λ f payload x. (inr "{}", x);
  marshal_event = λ heap e. inr "event";
  marshal_authorizer = λ heap request e. inr "request";
  unmarshal_authorizer =
      λ answer. some (record { authorization = none; authorization_error = none });
  unmarshal_response = λ answer. some (record { status_code = none; headers = []; body = answer });
  cors = λ c r. passes [];
}

abbrev pub start : World String (Unit {0})
start = record { heap = no_objects; outside = tt; effects = [] }

abbrev pub custom : Work String
custom = record {
  method = "POST";
  path = "/";
  space = "default";
  function_id = "hello";
  event = event created (value (json "{}"));
}
