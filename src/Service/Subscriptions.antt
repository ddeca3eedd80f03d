-- ===== src/Service/Subscriptions.antt =====
-- libkv/subscription.go: the subscriptions service.
use event_gateway.Common.{
  ℕ, suc, String, not, Option, none, some, List, [], ◌∷◌, ◌==◌, ◌&&◌, if◌then◌else◌, ◌<+>◌,
  path_escape, base64, to_bytes,
}
use event_gateway.PathTree.Defs.{Node, new_node}
use event_gateway.PathTree.Add.{AddError, add_route}
use event_gateway.Store.{listed}
use event_gateway.Resource.{
  Subscription, type_sync, type_async, subscription_not_found, subscription_already_exists,
  subscription_validation, path_conflict, store_error, json_error, Result, ok, err, require, ◌>>=◌,
  ◌>>◌,
}
use event_gateway.Service.Defs.{Service, Stores, space_path, marshal, written, if_passed}
use event_gateway.Service.Validation.{validate_subscription, validate_subscription_update}
use event_gateway.Service.Lookup.{
  subscription_path, is_found, get_function, get_event_type, get_subscription,
}

-- newSubscriptionID
unfoldable pub new_subscription_id : Subscription → String
new_subscription_id sub =
    let raw : String =
      if sub.type == type_async
      then sub.type
        <+> ","
        <+> sub.event_type
        <+> ","
        <+> sub.function_id
        <+> ","
        <+> path_escape sub.path
        <+> ","
        <+> sub.method
      else sub.type
        <+> ","
        <+> sub.event_type
        <+> ","
        <+> path_escape sub.path
        <+> ","
        <+> sub.method in
    base64 (to_bytes raw)

-- FunctionKey of libkv/function.go
pub record FunctionKey : Type 0 where
  pub space : String
  pub id : String

module _ {S B : Type 0} (service : Service S B) where
  -- The entries that `checkForPathConflict` goes over: none if the listing fails.
  abbrev entries_or_none : S → String → List (String × B)
  entries_or_none s prefix = elim (service.kv.list s prefix) [ listed kvs ↦ kvs | _ ↦ [] ]

  -- The loop of `checkForPathConflict`, with a choice for each call of `AddRoute`, whose errors are not looked at.
  unfoldable pub conflict_tree :
      (ℕ → ℕ → ℕ)
      → String
      → String
      → List (String × B)
      → Node FunctionKey
      → Result (Node FunctionKey)
  conflict_tree choice method event_type [] tree = ok tree
  conflict_tree choice method event_type (item ∷ kvs) tree =
      elim (service.subscriptions.decode item.1) [
        | none ↦ err (json_error "decode")
        | some sub ↦
            conflict_tree (λ n. choice (suc n)) method event_type kvs
              (if sub.type == type_sync && sub.method == method && sub.event_type == event_type
                then (add_route (choice 0) sub.path (record { space = sub.space; id = "" }) tree).0
                else tree)
      ]

  abbrev pub conflict_result : Option AddError → Result (Unit {0})
  conflict_result none = ok tt
  conflict_result (some e) = err (path_conflict e)

  unfoldable pub check_for_path_conflict :
      (ℕ → ℕ → ℕ) → Stores S → (space method path event_type : String) → Result (Unit {0})
  check_for_path_conflict choice s space method path event_type = do
    tree ←
        conflict_tree (λ n. choice (suc n)) method event_type
          (entries_or_none s.subscription_store (space_path space)) new_node
    conflict_result (add_route (choice 0) path (record { space = space; id = "" }) tree).1

  -- Only sync subscriptions share the paths of their event type.
  abbrev pub conflict_if_sync : (ℕ → ℕ → ℕ) → Stores S → Subscription → Result (Unit {0})
  conflict_if_sync choice s new =
      if new.type == type_sync
      then check_for_path_conflict choice s new.space new.method new.path new.event_type
      else ok tt

  -- What `CreateSubscription` does before it writes: the subscription with its defaults and its ID,
  -- and its JSON.
  unfoldable pub create_subscription_checks :
      (ℕ → ℕ → ℕ) → Subscription → Stores S → Result (Subscription × B)
  create_subscription_checks choice sub s = do
    valid ← validate_subscription service sub
    let new = record valid { id = new_subscription_id valid }
    require
        (not (is_found (service.kv.get s.subscription_store (subscription_path new.space new.id))))
        (subscription_already_exists new.id)
    conflict_if_sync choice s new
    event_type ← get_event_type service s new.space new.event_type
    function ← get_function service s new.space new.function_id
    buf ← marshal service.subscriptions json_error new
    ok (new, buf)

  unfoldable pub create_subscription :
      (ℕ → ℕ → ℕ) → Subscription → Stores S → Stores S × Result Subscription
  create_subscription choice sub s =
      if_passed s (create_subscription_checks choice sub s) (λ (new, buf).
        let r =
          written
            (service.kv.atomic_put s.subscription_store (subscription_path new.space new.id) buf)
            store_error new in
        (record s { subscription_store = r.0 }, r.1))

  unfoldable pub update_subscription_checks :
      String → Subscription → Stores S → Result (Subscription × B)
  update_subscription_checks id sub s = do
    new ← validate_subscription service sub
    old ← get_subscription service s new.space id
    validate_subscription_update new old
    function ← get_function service s new.space new.function_id
    buf ← marshal service.subscriptions subscription_validation new
    ok (new, buf)

  unfoldable pub update_subscription :
      String → Subscription → Stores S → Stores S × Result Subscription
  update_subscription id sub s = if_passed s (update_subscription_checks id sub s) (λ (new, buf).
      let r =
        written (service.kv.put s.subscription_store (subscription_path new.space new.id) buf)
          store_error new in
      (record s { subscription_store = r.0 }, r.1))

  unfoldable pub delete_subscription : String → String → Stores S → Stores S × Result (Unit {0})
  delete_subscription space id s = if_passed s (get_subscription service s space id) (λ sub.
      let r =
        written (service.kv.delete s.subscription_store (subscription_path space id))
          (λ _. subscription_not_found sub.id) tt in
      (record s { subscription_store = r.0 }, r.1))
