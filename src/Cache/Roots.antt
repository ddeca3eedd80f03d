-- ===== src/Cache/Roots.antt =====
-- The trees of the sync subscriptions along the events of the watcher.
use event_gateway.Common.{
  ℕ, String, ◌≡◌, refl, subst, Option, none, some, List, ◌==◌, Bool-cases, inl, inr, if◌then◌else◌,
  string_key, at_key, set_key,
}
use event_gateway.PathTree.Defs.{Node}
use event_gateway.PathTree.Delete.{DeleteResult, deleted, not_existing, panicked, delete_route}
use event_gateway.PathTree.Shape.KeepDelete.{delete_route-WellFormed}
use event_gateway.Resource.{Subscription, type_sync}
use event_gateway.Service.Subscriptions.{FunctionKey}
use event_gateway.Cache.Subscribers.{
  SubscriptionCache, inner, add_endpoint, add_subscription, delete_endpoint, delete_subscription,
  delete_from, delete_found, unless_panicked, subscription_reactor, subscription_modified,
  subscription_deleted,
}
use event_gateway.Service.Defs.{Codec}
use event_gateway.Cache.Watcher.{
  Event, modified_node, deleted_node, react, react_event, react_keeps, if_decoded,
}
use event_gateway.Cache.Routes.{AreWellFormedRoots, root-written, add_endpoint-WellFormed}

delete_from-WellFormed :
    (o : Option (Node FunctionKey)) (s : Subscription) (c d : SubscriptionCache)
    → at_key (inner c.sync s.method) s.event_type ≡ o
    → delete_from o s c ≡ some d
    → AreWellFormedRoots c
    → AreWellFormedRoots d
delete_from-WellFormed none s c d is e all =
    let same : c ≡ d = cc in subst AreWellFormedRoots same all
delete_from-WellFormed (some root) s c d is e all =
    let new : SubscriptionCache = record c {
      sync =
          set_key c.sync s.method
            (set_key (inner c.sync s.method) s.event_type (delete_route s.path root).0);
    } in
    let same : new ≡ d = kept (delete_route s.path root).1 new d e in
    subst AreWellFormedRoots same (
      root-written c s.method s.event_type _
        (delete_route-WellFormed s.path root (all s.method s.event_type root is)) all)
  where
    kept : (r : DeleteResult) (new d : SubscriptionCache) → unless_panicked r new ≡ some d → new ≡ d
    kept deleted new d e = cc
    kept not_existing new d e = cc
    kept panicked new d e = absurd (cc)

decoded-WellFormed :
    {A : Type 0} (o : Option A) (c d : SubscriptionCache) (next : A → Option SubscriptionCache)
    → ((a : A) → next a ≡ some d → AreWellFormedRoots d)
    → if_decoded o c next ≡ some d
    → AreWellFormedRoots c
    → AreWellFormedRoots d
decoded-WellFormed none c d next h e all =
    let same : c ≡ d = cc in subst AreWellFormedRoots same all
decoded-WellFormed (some a) c d next h e all = h a e

modified-WellFormed :
    (choice : ℕ → ℕ) (s : Subscription) (c d : SubscriptionCache)
    → some (if s.type == type_sync then add_endpoint choice s c else add_subscription s c) ≡ some d
    → AreWellFormedRoots c
    → AreWellFormedRoots d
unfolding add_subscription
modified-WellFormed choice s c d e all = elim (Bool-cases (s.type == type_sync)) [
  | inl here ↦
      let is : some (add_endpoint choice s c) ≡ some d = rw here at e in
      let same : add_endpoint choice s c ≡ d = cc in
      subst AreWellFormedRoots same (add_endpoint-WellFormed choice s c all)
  | inr off ↦
      let is : some (add_subscription s c) ≡ some d = rw off at e in
      let same : add_subscription s c ≡ d = cc in subst AreWellFormedRoots same all
]

delete_found-WellFormed :
    (o : Option (List FunctionKey)) (s : Subscription) (c : SubscriptionCache)
    → AreWellFormedRoots c
    → AreWellFormedRoots (delete_found o s c)
delete_found-WellFormed none s c all = all
delete_found-WellFormed (some ids) s c all = all

deleted-WellFormed :
    (s : Subscription) (c d : SubscriptionCache)
    → (if s.type == type_sync then delete_endpoint s c else some (delete_subscription s c)) ≡ some d
    → AreWellFormedRoots c
    → AreWellFormedRoots d
unfolding delete_endpoint delete_subscription
deleted-WellFormed s c d e all = elim (Bool-cases (s.type == type_sync)) [
  | inl here ↦ delete_from-WellFormed _ s c d refl (rw here at e) all
  | inr off ↦
      let is : some (delete_subscription s c) ≡ some d = rw off at e in
      let same : delete_subscription s c ≡ d = cc in
      subst AreWellFormedRoots same (
        delete_found-WellFormed (at_key (inner (inner c.async s.method) s.path) s.event_type) s c
          all)
]

-- The trees of the sync subscriptions are well-formed after every sequence of events of the watcher that
-- ends without a panic, if they were before.
pub react-WellFormed :
    {B : Type 0} (codec : Codec Subscription B) (choice : ℕ → ℕ) (path : String)
    (events : List (Event B)) (c d : SubscriptionCache)
    → react (subscription_reactor codec choice) path events c ≡ some d
    → AreWellFormedRoots c
    → AreWellFormedRoots d
unfolding react_event subscription_modified subscription_deleted
react-WellFormed {B = B} codec choice path events c d e all =
    react_keeps (subscription_reactor codec choice) path AreWellFormedRoots one events c d e all
  where
    one :
        (event : Event B) (c d : SubscriptionCache)
        → react_event (subscription_reactor codec choice) path event c ≡ some d
        → AreWellFormedRoots c
        → AreWellFormedRoots d
    one (modified_node key v) c d e all =
        decoded-WellFormed (codec.decode v) c d _ (λ s is. modified-WellFormed choice s c d is all)
          e all
    one (deleted_node key v) c d e all =
        decoded-WellFormed (codec.decode v) c d _ (λ s is. deleted-WellFormed s c d is all) e all
