-- ===== src/Cache/Routes.antt =====
-- The sync subscribers and the CORS configurations that the router sees after an update of the cache.
use event_gateway.Common.{
  ℕ, String, ◌≡◌, refl, sym, ap, ◌∙◌, subst, true, false, Option, none, some, [], ◌==◌, eq_refl,
  eq_iff, Bool-cases, inl, inr, if◌then◌else◌, string_key, Dict, ◌&&◌, at_key, at_key-set_key,
  set_key, has_prefix,
}
use event_gateway.PathTree.Defs.{Node, to_segments}
use event_gateway.PathTree.Add.{add_route}
use event_gateway.PathTree.Resolve.{resolve}
use event_gateway.PathTree.Shape.{IsWellFormed}
use event_gateway.PathTree.Shape.Keep.{add_route-WellFormed}
use event_gateway.PathTree.Shape.KeepDelete.{new_node-WellFormed}
use event_gateway.PathTree.Stored.{route_key}
use event_gateway.PathTree.Routing.{Matches, captured}
use event_gateway.PathTree.Routing.Contract.{resolve-add_route}
use event_gateway.Resource.{Subscription, Cors}
use event_gateway.Service.Subscriptions.{FunctionKey}
use event_gateway.Cache.Subscribers.{
  SubscriptionCache, inner, tree_or_new, sync_root, key_of, add_endpoint,
}
use event_gateway.Cache.Origins.{CorsCache, add_cors}
use event_gateway.Cache.Target.{Target, sync_subscriber, cors_of, ask, subscriber_from}
use event_gateway.Cache.Async.{inner-set_key}

-- Every tree of the cache is well-formed.
abbrev pub AreWellFormedRoots : SubscriptionCache → Type 0
AreWellFormedRoots c =
    (method event_type : String) (root : Node FunctionKey)
    → at_key (inner c.sync method) event_type ≡ some root
    → IsWellFormed root

at_key-inner :
    {V : Type 0} (m : Dict String (Dict String V)) (k p j q : String) (v : V)
    → at_key (inner (set_key m k (set_key (inner m k) p v)) j) q
      ≡ (if k == j && p == q then some v else at_key (inner m j) q)
at_key-inner m k p j q v =
    ap (λ x. at_key x q) (inner-set_key m k j _) ∙ elim (Bool-cases (k == j)) [
      | inl e ↦ rw e (
          at_key-set_key (inner m k) p q v
          ∙ (λ i. if p == q then some v else at_key (inner m ((eq_iff k j).0 e i)) q))
      | inr e ↦ rw e refl
    ]

at_key-inner_same :
    {V : Type 0} (m : Dict String (Dict String V)) (k p : String) (v : V)
    → at_key (inner (set_key m k (set_key (inner m k) p v)) k) p ≡ some v
at_key-inner_same m k p v = rw (at_key-inner m k p k p v, eq_refl k, eq_refl p) refl

at_key-set_key_same :
    {V : Type 0} (m : Dict String V) (k : String) (v : V) → at_key (set_key m k v) k ≡ some v
at_key-set_key_same m k v = rw (at_key-set_key m k k v, eq_refl k) refl

pub root-written :
    (c : SubscriptionCache) (method event_type : String) (root : Node FunctionKey)
    → IsWellFormed root
    → AreWellFormedRoots c
    → AreWellFormedRoots
        (record c { sync = set_key c.sync method (set_key (inner c.sync method) event_type root) })
root-written c method event_type root fine all m t tree e =
    let seen = sym (at_key-inner c.sync method event_type m t root) ∙ e in
    elim (Bool-cases (method == m && event_type == t)) [
      | inl here ↦
          let is : some root ≡ some tree = rw here at seen in
          let same : root ≡ tree = cc in subst IsWellFormed same fine
      | inr off ↦ all m t tree (rw off at seen)
    ]

tree_or_new-WellFormed :
    {V : Type 0} (o : Option (Node V))
    → ((root : Node V) → o ≡ some root → IsWellFormed root)
    → IsWellFormed (tree_or_new o)
tree_or_new-WellFormed {V = V} none h = new_node-WellFormed V
tree_or_new-WellFormed (some root) h = h root refl

pub add_endpoint-WellFormed :
    (choice : ℕ → ℕ) (s : Subscription) (c : SubscriptionCache)
    → AreWellFormedRoots c
    → AreWellFormedRoots (add_endpoint choice s c)
unfolding add_endpoint
add_endpoint-WellFormed choice s c all =
    root-written c s.method s.event_type _
      (add_route-WellFormed choice s.path (key_of s) (sync_root c s.method s.event_type)
        (tree_or_new-WellFormed _ (all s.method s.event_type)))
      all

-- After `Modified` of a sync subscription, if `AddRoute` found no conflict, every event of its method
-- and type whose path "/…", not "/", its route matches goes to its function, with the parameters that the
-- route takes from the path.
pub sync_subscriber-add_endpoint :
    (choice other : ℕ → ℕ) (s : Subscription) (t : Target) (path : String)
    → AreWellFormedRoots t.subscriptions
    → has_prefix s.path "/" ≡ true
    → (add_route choice s.path (key_of s) (sync_root t.subscriptions s.method s.event_type)).1
      ≡ none
    → has_prefix path "/" ≡ true
    → (path == "/") ≡ false
    → Matches (route_key s.path) (to_segments path)
    → sync_subscriber other
        (record t { subscriptions = add_endpoint choice s t.subscriptions })
        s.method
        path
        s.event_type
      ≡ some (record {
        space = s.space;
        function_id = s.function_id;
        params = some (captured [] (route_key s.path) (to_segments path));
      })
unfolding sync_subscriber add_endpoint
sync_subscriber-add_endpoint choice other s t path all absolute added hp plain m =
    let root = sync_root t.subscriptions s.method s.event_type in
    let fine = tree_or_new-WellFormed _ (all s.method s.event_type) in
    let here =
      at_key-inner_same t.subscriptions.sync s.method s.event_type
        (add_route choice s.path (key_of s) root).0 in
    ap (ask (λ n. subscriber_from (resolve other path n))) here
    ∙ ap subscriber_from
        (resolve-add_route choice other s.path path (key_of s) root fine absolute added hp plain m)

-- The trees of the CORS configurations are well-formed.
abbrev pub AreWellFormedOrigins : CorsCache → Type 0
AreWellFormedOrigins c =
    (method : String) (root : Node Cors) → at_key c method ≡ some root → IsWellFormed root

-- After `Modified` of a CORS configuration, if `AddRoute` found no conflict, it is the configuration of
-- every path "/…", other than "/", that its path matches, for its method.
pub cors_of-add_cors :
    (choice other : ℕ → ℕ) (config : Cors) (t : Target) (path : String)
    → AreWellFormedOrigins t.corses
    → has_prefix config.path "/" ≡ true
    → (add_route choice config.path config (tree_or_new (at_key t.corses config.method))).1 ≡ none
    → has_prefix path "/" ≡ true
    → (path == "/") ≡ false
    → Matches (route_key config.path) (to_segments path)
    → cors_of other (record t { corses = add_cors choice config t.corses }) config.method path
      ≡ some config
unfolding cors_of add_cors
cors_of-add_cors choice other config t path all absolute added hp plain m =
    let fine = tree_or_new-WellFormed _ (all config.method) in
    let here = at_key-set_key_same t.corses config.method _ in
    ap (ask (λ n. (resolve other path n).0)) here
    ∙ ap (λ r. r.0)
        (resolve-add_route choice other config.path path config _ fine absolute added hp plain m)
