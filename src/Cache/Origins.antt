-- ===== src/Cache/Origins.antt =====
-- internal/cache/cors_cache.go: the CORS configurations as the router looks them up.
use event_gateway.Common.{ℕ, String, Option, none, some, Dict, string_key, at_key, set_key}
use event_gateway.PathTree.Defs.{Node}
use event_gateway.PathTree.Add.{add_route}
use event_gateway.PathTree.Delete.{delete_route}
use event_gateway.Resource.{Cors}
use event_gateway.Service.Defs.{Codec}
use event_gateway.Cache.Watcher.{Reactor, if_decoded}
use event_gateway.Cache.Subscribers.{tree_or_new, unless_panicked}

-- `endpoints` of corsCache
abbrev pub CorsCache : Type 0
CorsCache = Dict String (Node Cors)

-- What `Modified` does with a configuration. The error of `AddRoute` is logged.
unfoldable pub add_cors : (ℕ → ℕ) → Cors → CorsCache → CorsCache
add_cors choice config c =
    set_key c config.method
      (add_route choice config.path config (tree_or_new (at_key c config.method))).0

-- What `deleteEndpoint` does with the tree that it finds.
abbrev pub remove_from : Option (Node Cors) → Cors → CorsCache → Option CorsCache
remove_from none config c = some c
remove_from (some root) config c =
    let r = delete_route config.path root in unless_panicked r.1 (set_key c config.method r.0)

-- deleteEndpoint
unfoldable pub remove_cors : Cors → CorsCache → Option CorsCache
remove_cors config c = remove_from (at_key c config.method) config c

module _ {B : Type 0} (codec : Codec Cors B) where
  -- corsCache.Modified
  unfoldable pub cors_modified : (ℕ → ℕ) → String → B → CorsCache → Option CorsCache
  cors_modified choice k v c =
      if_decoded (codec.decode v) c (λ config. some (add_cors choice config c))

  -- corsCache.Deleted
  unfoldable pub cors_deleted : String → B → CorsCache → Option CorsCache
  cors_deleted k v c = if_decoded (codec.decode v) c (λ config. remove_cors config c)

  abbrev pub cors_reactor : (ℕ → ℕ) → Reactor B CorsCache
  cors_reactor choice = record { modified = cors_modified choice; deleted = cors_deleted }
