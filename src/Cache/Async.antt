-- ===== src/Cache/Async.antt =====
-- The async subscribers that the router sees after an update of the cache.
use event_gateway.Common.{
  All, eq_refl, ◌≢◌, String, ◌≡◌, refl, sym, ap, ◌∙◌, Bool, true, false, ◌&&◌, Option, none, some,
  List, [], ◌∷◌, ◌++◌, ◌==◌, if◌then◌else◌, Dict, string_key, at_key, at_key-set_key,
  at_key-delete_key, set_key, Bool-cases, inl, inr, eq_iff,
}
use event_gateway.Resource.{Subscription}
use event_gateway.Service.Subscriptions.{FunctionKey}
use event_gateway.Cache.Keyed.{same_function_key, same_function_key_iff}
use event_gateway.Cache.Subscribers.{
  SubscriptionCache, inner, map_or_empty, keys_or_none, key_of, add_subscription, remove_first,
  set_or_delete, delete_subscription, delete_found,
}

pub and_left : (a b : Bool) → (a && b) ≡ true → a ≡ true
and_left true b e = refl
and_left false b e = e

pub and_right : (a b : Bool) → (a && b) ≡ true → b ≡ true
and_right true b e = e
and_right false b e = absurd (cc)

pub inner-set_key :
    {V : Type 0} (m : Dict String (Dict String V)) (k j : String) (d : Dict String V)
    → inner (set_key m k d) j ≡ (if k == j then d else inner m j)
unfolding inner
inner-set_key m k j d =
    ap map_or_empty (at_key-set_key m k j d)
    ∙ elim (Bool-cases (k == j)) [ inl e ↦ rw e refl | inr e ↦ rw e refl ]

-- A write of the inner map of a method and a path is seen under these alone.
inner-set_inner :
    {V : Type 0} (m : Dict String (Dict String (Dict String V))) (k p j q : String)
    (d : Dict String V)
    → inner (inner (set_key m k (set_key (inner m k) p d)) j) q
      ≡ (if k == j && p == q then d else inner (inner m j) q)
inner-set_inner m k p j q d = elim (Bool-cases (k == j)) [
  | inl e ↦
      let same : k ≡ j = (eq_iff k j).0 e in
      let outer : inner (set_key m k (set_key (inner m k) p d)) j ≡ set_key (inner m k) p d =
        inner-set_key m k j _ ∙ rw e refl in
      ap (λ x. inner x q) outer
      ∙ inner-set_key (inner m k) p q d
      ∙ (λ i. if p == q then d else inner (inner m (same i)) q)
      ∙ rw e refl
  | inr e ↦
      let outer : inner (set_key m k (set_key (inner m k) p d)) j ≡ inner m j =
        inner-set_key m k j _ ∙ rw e refl in
      ap (λ x. inner x q) outer ∙ rw e refl
]

-- The functions that are subscribed to a method, a path and an event type.
abbrev pub keys_at : SubscriptionCache → (method path event_type : String) → List FunctionKey
keys_at c method path event_type =
    keys_or_none (at_key (inner (inner c.async method) path) event_type)

abbrev pub is_for : Subscription → (method path event_type : String) → Bool
is_for s method path event_type =
    (s.method == method && s.path == path) && s.event_type == event_type

keys-set_key :
    (types : Dict String (List FunctionKey)) (k j : String) (ids : List FunctionKey)
    → keys_or_none (at_key (set_key types k ids) j)
      ≡ (if k == j then ids else keys_or_none (at_key types j))
keys-set_key types k j ids =
    ap keys_or_none (at_key-set_key types k j ids)
    ∙ elim (Bool-cases (k == j)) [ inl e ↦ rw e refl | inr e ↦ rw e refl ]

keys-set_or_delete :
    (types : Dict String (List FunctionKey)) (k j : String) (ids : List FunctionKey)
    → keys_or_none (at_key (set_or_delete types k ids) j)
      ≡ (if k == j then ids else keys_or_none (at_key types j))
keys-set_or_delete types k j [] =
    ap keys_or_none (at_key-delete_key types k j)
    ∙ elim (Bool-cases (k == j)) [ inl e ↦ rw e refl | inr e ↦ rw e refl ]
keys-set_or_delete types k j (id ∷ ids) = keys-set_key types k j (id ∷ ids)

-- A write under a method, a path and an event type is seen under these alone.
keys-written :
    (m : Dict String (Dict String (Dict String (List FunctionKey)))) (k p t j q e : String)
    (d : Dict String (List FunctionKey)) (ids : List FunctionKey)
    → keys_or_none (at_key d e)
      ≡ (if t == e then ids else keys_or_none (at_key (inner (inner m k) p) e))
    → keys_or_none (at_key (inner (inner (set_key m k (set_key (inner m k) p d)) j) q) e) ≡ (
        if (k == j && p == q) && t == e then ids else keys_or_none (at_key (inner (inner m j) q) e))
keys-written m k p t j q e d ids h =
    ap (λ x. keys_or_none (at_key x e)) (inner-set_inner m k p j q d)
    ∙ elim (Bool-cases (k == j && p == q)) [
      | inl here ↦
          let methods : k ≡ j = (eq_iff k j).0 (and_left _ _ here) in
          let paths : p ≡ q = (eq_iff p q).0 (and_right _ _ here) in
          rw here (
            h ∙ (λ i.
              if t == e
              then ids
              else keys_or_none (at_key (inner (inner m (methods i)) (paths i)) e)))
      | inr off ↦ rw off refl
    ]

-- After `Modified` of an async subscription its function is called once more, after the others, for
-- events with its method, path and type, and the functions for all other events are the same.
pub keys_at-add_subscription :
    (s : Subscription) (c : SubscriptionCache) (method path event_type : String)
    → keys_at (add_subscription s c) method path event_type ≡ (
        if is_for s method path event_type
        then keys_at c s.method s.path s.event_type ++ (key_of s ∷ [])
        else keys_at c method path event_type)
unfolding add_subscription
keys_at-add_subscription s c method path event_type =
    keys-written c.async s.method s.path s.event_type method path event_type _ _
      (keys-set_key (inner (inner c.async s.method) s.path) s.event_type event_type _)

keys_at-is_for :
    (s : Subscription) (c : SubscriptionCache) (method path event_type : String)
    → is_for s method path event_type ≡ true
    → keys_at c method path event_type ≡ keys_at c s.method s.path s.event_type
keys_at-is_for s c method path event_type here =
    let outer = and_left _ _ here in
    let methods : s.method ≡ method = (eq_iff s.method method).0 (and_left _ _ outer) in
    let paths : s.path ≡ path = (eq_iff s.path path).0 (and_right _ _ outer) in
    let types : s.event_type ≡ event_type =
      (eq_iff s.event_type event_type).0 (and_right _ _ here) in
    λ i. keys_at c (sym methods i) (sym paths i) (sym types i)

is_for_self : (s : Subscription) → is_for s s.method s.path s.event_type ≡ true
is_for_self s = rw (eq_refl s.method, eq_refl s.path, eq_refl s.event_type) refl

keys_at-delete_found :
    (o : Option (List FunctionKey)) (s : Subscription) (c : SubscriptionCache)
    (method path event_type : String)
    → at_key (inner (inner c.async s.method) s.path) s.event_type ≡ o
    → keys_at (delete_found o s c) method path event_type ≡ (
        if is_for s method path event_type
        then remove_first (key_of s) (keys_or_none o)
        else keys_at c method path event_type)
unfolding remove_first
keys_at-delete_found none s c method path event_type is =
    elim (Bool-cases (is_for s method path event_type)) [
      | inl here ↦ rw here (keys_at-is_for s c method path event_type here ∙ ap keys_or_none is)
      | inr off ↦ rw off refl
    ]
keys_at-delete_found (some ids) s c method path event_type is =
    keys-written c.async s.method s.path s.event_type method path event_type _ _
      (keys-set_or_delete (inner (inner c.async s.method) s.path) s.event_type event_type _)

-- After `Deleted` of an async subscription one call of its function less is made for events with its
-- method, path and type, and the functions for all other events are the same.
pub keys_at-delete_subscription :
    (s : Subscription) (c : SubscriptionCache) (method path event_type : String)
    → keys_at (delete_subscription s c) method path event_type ≡ (
        if is_for s method path event_type
        then remove_first (key_of s) (keys_at c s.method s.path s.event_type)
        else keys_at c method path event_type)
unfolding delete_subscription
keys_at-delete_subscription s c method path event_type =
    keys_at-delete_found _ s c method path event_type refl

remove_first-append :
    (key : FunctionKey) (ids : List FunctionKey)
    → All (λ id. id ≢ key) ids
    → remove_first key (ids ++ (key ∷ [])) ≡ ids
unfolding remove_first
remove_first-append key [] all = rw ((same_function_key_iff key key).1 refl) refl
remove_first-append key (id ∷ ids) all =
    rw (different id key all.0) (ap (λ l. id ∷ l) (remove_first-append key ids all.1))
  where
    different : (id key : FunctionKey) → id ≢ key → same_function_key id key ≡ false
    different id key h = elim (Bool-cases (same_function_key id key)) [
      | inl e ↦ absurd (h ((same_function_key_iff id key).0 e))
      | inr e ↦ e
    ]

-- `Modified` of an async subscription and then `Deleted` of it gives every event the subscribers
-- that it had, if the function was not subscribed to the subscription's events before.
pub keys_at-round_trip :
    (s : Subscription) (c : SubscriptionCache) (method path event_type : String)
    → All (λ id. id ≢ key_of s) (keys_at c s.method s.path s.event_type)
    → keys_at (delete_subscription s (add_subscription s c)) method path event_type
      ≡ keys_at c method path event_type
keys_at-round_trip s c method path event_type fresh =
    keys_at-delete_subscription s (add_subscription s c) method path event_type
    ∙ elim (Bool-cases (is_for s method path event_type)) [
      | inl here ↦ rw here (
          ap (remove_first (key_of s))
            (keys_at-add_subscription s c s.method s.path s.event_type ∙ rw (is_for_self s) refl)
          ∙ remove_first-append (key_of s) _ fresh
          ∙ sym (keys_at-is_for s c method path event_type here))
      | inr off ↦ rw off (keys_at-add_subscription s c method path event_type ∙ rw off refl)
    ]
