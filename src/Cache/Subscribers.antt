-- ===== src/Cache/Subscribers.antt =====
-- internal/cache/subscription_cache.go: the subscriptions as the router looks them up.
use event_gateway.Common.{
  ℕ, String, Option, none, some, List, [], ◌∷◌, ◌++◌, ◌==◌, if◌then◌else◌, Dict, string_key, at_key,
  set_key, delete_key,
}
use event_gateway.PathTree.Defs.{Node, new_node}
use event_gateway.PathTree.Add.{add_route}
use event_gateway.PathTree.Delete.{DeleteResult, deleted, not_existing, panicked, delete_route}
use event_gateway.Resource.{Subscription, type_sync}
use event_gateway.Service.Defs.{Codec}
use event_gateway.Service.Subscriptions.{FunctionKey}
use event_gateway.Cache.Watcher.{Reactor, if_decoded}
use event_gateway.Cache.Keyed.{function_key, same_function_key}

-- `async` maps a method, a path and an event type to functions, `sync` a method and an event type to
-- a path tree.
pub record SubscriptionCache : Type 0 where
  pub async : Dict String (Dict String (Dict String (List FunctionKey)))
  pub sync : Dict String (Dict String (Node FunctionKey))

abbrev pub new_subscription_cache : SubscriptionCache
new_subscription_cache = record { async = []; sync = [] }

abbrev pub map_or_empty : {V : Type 0} → Option (Dict String V) → Dict String V
map_or_empty none = []
map_or_empty (some d) = d

-- The map under a key of a map: the one of `ensureSyncMethod` and `ensureAsyncMethodPath` where there
-- is none, and that of the reads, where Go has a nil map.
unfoldable pub inner : {V : Type 0} → Dict String (Dict String V) → String → Dict String V
inner m k = map_or_empty (at_key m k)

abbrev pub tree_or_new : {V : Type 0} → Option (Node V) → Node V
tree_or_new none = new_node
tree_or_new (some root) = root

abbrev pub keys_or_none : Option (List FunctionKey) → List FunctionKey
keys_or_none none = []
keys_or_none (some keys) = keys

abbrev pub key_of : Subscription → FunctionKey
key_of s = record { space = s.space; id = s.function_id }

-- The tree of the method and event type of a subscription, as `Modified` finds or makes it.
abbrev pub sync_root : SubscriptionCache → String → String → Node FunctionKey
sync_root c method event_type = tree_or_new (at_key (inner c.sync method) event_type)

-- `Modified`, for a sync subscription. The error of `AddRoute` is logged.
unfoldable pub add_endpoint : (ℕ → ℕ) → Subscription → SubscriptionCache → SubscriptionCache
add_endpoint choice s c =
    let root = (add_route choice s.path (key_of s) (sync_root c s.method s.event_type)).0 in
    record c { sync = set_key c.sync s.method (set_key (inner c.sync s.method) s.event_type root) }

-- `Modified`, for an async subscription.
unfoldable pub add_subscription : Subscription → SubscriptionCache → SubscriptionCache
add_subscription s c =
    let paths = inner c.async s.method in
    let types = inner paths s.path in
    let ids = keys_or_none (at_key types s.event_type) ++ (key_of s ∷ []) in
    record c {
      async = set_key c.async s.method (set_key paths s.path (set_key types s.event_type ids));
    }

module _ {B : Type 0} (codec : Codec Subscription B) (choice : ℕ → ℕ) where
  -- subscriptionCache.Modified; it never panics.
  unfoldable pub subscription_modified : String → B → SubscriptionCache → Option SubscriptionCache
  subscription_modified k v c =
      if_decoded (codec.decode v) c
        (λ s. some (if s.type == type_sync then add_endpoint choice s c else add_subscription s c))

-- A nil pointer in `DeleteRoute` ends the program.
abbrev pub unless_panicked : {C : Type 0} → DeleteResult → C → Option C
unless_panicked panicked c = none
unless_panicked deleted c = some c
unless_panicked not_existing c = some c

-- What `deleteEndpoint` does with the tree that it finds.
abbrev pub delete_from :
    Option (Node FunctionKey) → Subscription → SubscriptionCache → Option SubscriptionCache
delete_from none s c = some c
delete_from (some root) s c =
    let r = delete_route s.path root in
    unless_panicked r.1 (record c {
      sync = set_key c.sync s.method (set_key (inner c.sync s.method) s.event_type r.0);
    })

unfoldable pub delete_endpoint : Subscription → SubscriptionCache → Option SubscriptionCache
delete_endpoint s c = delete_from (at_key (inner c.sync s.method) s.event_type) s c

-- The loop of `deleteSubscription`: the first entry that is the function goes.
unfoldable pub remove_first : FunctionKey → List FunctionKey → List FunctionKey
remove_first key [] = []
remove_first key (id ∷ ids) =
    let rest = remove_first key ids in if same_function_key id key then ids else id ∷ rest

abbrev pub set_or_delete :
    Dict String (List FunctionKey) → String → List FunctionKey → Dict String (List FunctionKey)
set_or_delete types event_type [] = delete_key types event_type
set_or_delete types event_type (id ∷ ids) = set_key types event_type (id ∷ ids)

-- What is done with the functions found; the entry goes with its last function.
abbrev pub delete_found :
    Option (List FunctionKey) → Subscription → SubscriptionCache → SubscriptionCache
delete_found none s c = c
delete_found (some ids) s c =
    let paths = inner c.async s.method in
    let types = inner paths s.path in
    record c {
      async =
          set_key c.async s.method
            (set_key paths s.path (set_or_delete types s.event_type (remove_first (key_of s) ids)));
    }

unfoldable pub delete_subscription : Subscription → SubscriptionCache → SubscriptionCache
delete_subscription s c =
    delete_found (at_key (inner (inner c.async s.method) s.path) s.event_type) s c

module _ {B : Type 0} (codec : Codec Subscription B) where
  -- subscriptionCache.Deleted
  unfoldable pub subscription_deleted : String → B → SubscriptionCache → Option SubscriptionCache
  subscription_deleted k v c =
      if_decoded (codec.decode v) c
        (λ s. if s.type == type_sync then delete_endpoint s c else some (delete_subscription s c))

  abbrev pub subscription_reactor : (ℕ → ℕ) → Reactor B SubscriptionCache
  subscription_reactor choice = record {
    modified = subscription_modified codec choice;
    deleted = subscription_deleted;
  }
