-- ===== src/Cache/Tests.antt =====
-- The caches on small inputs, after the tests of internal/cache/.
use event_gateway.Common.{
  ℕ, ◌≡◌, refl, inl, inr, true, false, Option, none, some, List, [], ◌∷◌, string_key, at_key,
  set_key, delete_key, has_prefix, drop_prefix, trim_prefix, has_suffix, split_slash, join_slash,
  ◌<+>◌, NoSlash, arith,
}
use event_gateway.PathTree.Defs.{
  new_node, get, put, delete, first, create_node, is_static_segment, to_segments,
}
use event_gateway.PathTree.Add.{
  conflict, get_or_create, find_child, visit, set_value, add_segments, set_root, add_route,
}
use event_gateway.PathTree.Delete.{delete_last, delete_segments, delete_route}
use event_gateway.PathTree.Resolve.{step, resolve_segments, resolve}
use event_gateway.PathTree.Stored.{route_key}
use event_gateway.PathTree.Routing.{end, static, param, captured}
use event_gateway.Resource.{Function, Subscription, Cors}
use event_gateway.Service.Defs.{Codec, resource_key}
use event_gateway.Cache.Watcher.{
  Pair, modified_node, process_pair, process_pairs, process_events, react_event, react,
  watcher_path,
}
use event_gateway.Cache.Keyed.{
  FunctionCache, function_key, two_segments, function_modified, function_deleted, function_reactor,
}
use event_gateway.Cache.Subscribers.{
  new_subscription_cache, inner, key_of, add_endpoint, add_subscription, delete_endpoint,
  remove_first, delete_subscription, subscription_modified, subscription_deleted,
}
use event_gateway.Cache.Origins.{add_cors, remove_cors}
use event_gateway.Cache.Target.{Target, sync_subscriber, async_subscribers, cors_of, function_of}
use event_gateway.Cache.Async.{keys_at, keys_at-add_subscription, keys_at-round_trip}
use event_gateway.Cache.Routes.{AreWellFormedRoots, sync_subscriber-add_endpoint, cors_of-add_cors}
use event_gateway.Cache.Roots.{react-WellFormed}
use event_gateway.Cache.Mirror.{decode_value, IsFunctionPair}
use event_gateway.Cache.Mirror.Latest.{latest_all, function_of-process_events}

-- Opens all that a run of the caches computes with.
run : Unit {0}
unfolding at_key set_key delete_key has_prefix drop_prefix trim_prefix has_suffix split_slash
    join_slash new_node get put delete first create_node is_static_segment to_segments conflict
    get_or_create find_child visit set_value add_segments set_root add_route delete_last
    delete_segments delete_route step resolve_segments resolve captured process_pair process_pairs
    process_events react_event react two_segments function_modified function_deleted inner
    add_endpoint add_subscription delete_endpoint remove_first delete_subscription
    subscription_modified subscription_deleted add_cors remove_cors sync_subscriber
    async_subscribers cors_of function_of resource_key watcher_path
run = tt

abbrev at_first : ℕ → ℕ
at_first _ = 0

abbrev async_sub : Subscription
async_sub = record {
  space = "default";
  id = "a";
  type = "async";
  event_type = "user.created";
  function_id = "hello";
  path = "/";
  method = "POST";
  metadata = [];
}

abbrev sync_sub : Subscription
sync_sub = record {
  space = "default";
  id = "s";
  type = "sync";
  event_type = "http.request";
  function_id = "hello";
  path = "/users/:id";
  method = "GET";
  metadata = [];
}

abbrev target : Target
target = record {
  event_types = [];
  functions = [];
  subscriptions = new_subscription_cache;
  corses = [];
}

-- A subscription whose value arrives twice is called twice, and once after one removal.
twice_test :
    keys_at
      (add_subscription async_sub (add_subscription async_sub new_subscription_cache))
      "POST"
      "/"
      "user.created"
    ≡ key_of async_sub ∷ key_of async_sub ∷ []
unfolding run
twice_test = refl

keys_at-add_subscription_example :
    keys_at (add_subscription async_sub new_subscription_cache) "POST" "/" "user.created"
    ≡ key_of async_sub ∷ []
unfolding run
keys_at-add_subscription_example =
    keys_at-add_subscription async_sub new_subscription_cache "POST" "/" "user.created"

keys_at-round_trip_example :
    keys_at
      (delete_subscription async_sub (add_subscription async_sub new_subscription_cache))
      "POST"
      "/"
      "user.created"
    ≡ keys_at new_subscription_cache "POST" "/" "user.created"
unfolding run
keys_at-round_trip_example =
    keys_at-round_trip async_sub new_subscription_cache "POST" "/" "user.created" tt

empty-WellFormed : AreWellFormedRoots new_subscription_cache
unfolding inner at_key
empty-WellFormed method event_type root e = absurd (cc)

sync_subscriber-add_endpoint_example :
    sync_subscriber at_first
      (record target { subscriptions = add_endpoint at_first sync_sub new_subscription_cache })
      "GET"
      "/users/7"
      "http.request"
    ≡ some (record {
      space = "default";
      function_id = "hello";
      params = some (captured [] (route_key "/users/:id") (to_segments "/users/7"));
    })
unfolding run
sync_subscriber-add_endpoint_example =
    sync_subscriber-add_endpoint at_first at_first sync_sub target "/users/7" empty-WellFormed refl
      refl refl refl (static refl refl (param refl end))

abbrev config : Cors
config = record {
  space = "default";
  id = "GET%2Fusers";
  method = "GET";
  path = "/users";
  allowed_origins = "*" ∷ [];
  allowed_methods = [];
  allowed_headers = [];
  allow_credentials = false;
  metadata = [];
}

cors_of-add_cors_example :
    cors_of at_first (record target { corses = add_cors at_first config [] }) "GET" "/users"
    ≡ some config
unfolding run
cors_of-add_cors_example =
    cors_of-add_cors at_first at_first config target "/users" (λ method root e. absurd (cc)) refl
      refl refl refl (static refl refl end)

-- An update of a configuration of the same path does not reach the router.
cors_update_test :
    cors_of at_first
      (record target {
        corses =
            add_cors at_first
              (record config { allow_credentials = true })
              (add_cors at_first config []);
      })
      "GET"
      "/users"
    ≡ some config
unfolding run
cors_update_test = refl

abbrev subscriptions : Codec Subscription Subscription
subscriptions = record { encode = λ s. inr s; decode = λ s. some s }

abbrev functions : Codec Function Function
functions = record { encode = λ f. inr f; decode = λ f. some f }

react-WellFormed_example :
    AreWellFormedRoots (add_endpoint at_first sync_sub new_subscription_cache)
unfolding run
react-WellFormed_example =
    react-WellFormed subscriptions at_first "/eg/" (modified_node "/eg/default/s" sync_sub ∷ [])
      new_subscription_cache (add_endpoint at_first sync_sub new_subscription_cache) refl
      empty-WellFormed

abbrev hello : Function
hello = record {
  space = "default";
  id = "hello";
  provider_type = "http";
  provider = "{}";
  metadata = [];
}

abbrev batches : List (List (Pair Function))
batches =
    (record { key = "/eg/"; value = none } ∷ record { key = "/eg/d/f"; value = some hello } ∷ [])
    ∷ (record { key = "/eg/d/f"; value = none } ∷ [])
    ∷ []

plain_d : NoSlash "d"
plain_d = (ground arith, tt)

plain_f : NoSlash "f"
plain_f = (ground arith, tt)

of_hello :
    (v : Option Function) → IsFunctionPair functions "/eg/" (record { key = "/eg/d/f"; value = v })
unfolding run
of_hello v = record {
  space = "d";
  id = "f";
  space_plain = plain_d;
  id_plain = plain_f;
  key = refl;
  json = λ f e. (f, refl);
}

function_of-process_events_example :
    (cache : FunctionCache) × (react
        (function_reactor functions)
        "/eg/"
        (process_events "/eg/" batches []).0
        []
      ≡ some cache)
    × (function_of (record target { functions = cache }) "d" "f"
        ≡ decode_value functions (latest_all ("/eg/" <+> resource_key "d" "f") batches none))
function_of-process_events_example =
    function_of-process_events functions "/eg/" batches target "d" "f"
      ((inl refl, (inr (of_hello (some hello)), tt)), ((inr (of_hello none), tt), tt)) plain_d
      plain_f
