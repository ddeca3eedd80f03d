-- ===== src/Cache/Target.antt =====
-- internal/cache/target.go: the lookups of the router.
use event_gateway.Common.{ℕ, String, Option, none, some, List, map, string_key, at_key}
use event_gateway.PathTree.Defs.{Node}
use event_gateway.PathTree.Resolve.{Params, resolve}
use event_gateway.Resource.{Function, EventType, Cors}
use event_gateway.Service.Subscriptions.{FunctionKey}
use event_gateway.Cache.Keyed.{FunctionCache, EventTypeCache, function_key, event_type_key}
use event_gateway.Cache.Subscribers.{SubscriptionCache, inner, keys_or_none}
use event_gateway.Cache.Origins.{CorsCache}

pub record Target : Type 0 where
  pub event_types : EventTypeCache
  pub functions : FunctionCache
  pub subscriptions : SubscriptionCache
  pub corses : CorsCache

-- router.SyncSubscriber
pub record SyncSubscriber : Type 0 where
  pub space : String
  pub function_id : String
  pub params : Option Params

-- router.AsyncSubscriber
pub record AsyncSubscriber : Type 0 where
  pub space : String
  pub function_id : String

unfoldable pub event_type_of : Target → String → String → Option EventType
event_type_of t space name = at_key t.event_types (record { space = space; name = name })

unfoldable pub function_of : Target → String → String → Option Function
function_of t space id = at_key t.functions (record { space = space; id = id })

abbrev pub subscriber_from : Option FunctionKey × Option Params → Option SyncSubscriber
subscriber_from (none, params) = none
subscriber_from (some key, params) =
    some (record { space = key.space; function_id = key.id; params = params })

-- The answer of a tree, if there is one.
abbrev pub ask : {A V : Type 0} → (Node V → Option A) → Option (Node V) → Option A
ask question none = none
ask question (some root) = question root

unfoldable pub sync_subscriber :
    (ℕ → ℕ) → Target → (method path event_type : String) → Option SyncSubscriber
sync_subscriber choice t method path event_type =
    ask (λ root. subscriber_from (resolve choice path root))
      (at_key (inner t.subscriptions.sync method) event_type)

abbrev pub async_of : FunctionKey → AsyncSubscriber
async_of key = record { space = key.space; function_id = key.id }

unfoldable pub async_subscribers : Target → (method path event_type : String) → List AsyncSubscriber
async_subscribers t method path event_type =
    map async_of
      (keys_or_none (at_key (inner (inner t.subscriptions.async method) path) event_type))

unfoldable pub cors_of : (ℕ → ℕ) → Target → (method path : String) → Option Cors
cors_of choice t method path = ask (λ root. (resolve choice path root).0) (at_key t.corses method)
