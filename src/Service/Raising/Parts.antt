-- ===== src/Service/Raising/Parts.antt =====
-- The errors that the loops and the checks of the services return.
use event_gateway.Common.{
  ℕ, suc, String, inl, inr, Option, none, some, List, [], ◌∷◌, ◌==◌, Bool-cases, Option-cases,
}
use event_gateway.PathTree.Defs.{Node}
use event_gateway.PathTree.Add.{AddError}
use event_gateway.Resource.{
  EventType, Subscription, Cors, Error, function_is_authorizer, function_has_subscriptions,
  event_type_has_subscriptions, authorizer_does_not_exist, invalid_subscription_update,
  path_conflict, invalid_cors_update, store_error, json_error,
}
use event_gateway.Service.Defs.{Service, Stores}
use event_gateway.Service.Validation.{validate_subscription_update, validate_cors_update}
use event_gateway.Service.Functions.{no_subscription, no_authorizer, is_authorizer}
use event_gateway.Service.EventTypes.{no_subscriber, check_authorizer}
use event_gateway.Service.Subscriptions.{
  FunctionKey, conflict_tree, conflict_result, check_for_path_conflict,
}
use event_gateway.Service.Raising.{Raises, ok-Raises, err-Raises, bind-Raises, require-Raises}

module _ (P : Error → Type 0) where
  pub no_subscription-Raises :
      (id : String) (subs : List Subscription)
      → P function_has_subscriptions
      → Raises P (no_subscription id subs)
  unfolding no_subscription
  no_subscription-Raises id [] h = ok-Raises P _
  no_subscription-Raises id (sub ∷ subs) h = elim (Bool-cases (id == sub.function_id)) [
    | inl e ↦ rw e (err-Raises P _ h)
    | inr e ↦ rw e (no_subscription-Raises id subs h)
  ]

  pub no_authorizer-Raises :
      (id : String) (types : List EventType)
      → ((name : String) → P (function_is_authorizer id name))
      → Raises P (no_authorizer id types)
  unfolding no_authorizer
  no_authorizer-Raises id [] h = ok-Raises P _
  no_authorizer-Raises id (t ∷ types) h = elim (Bool-cases (is_authorizer id t.authorizer_id)) [
    | inl e ↦ rw e (err-Raises P _ (h t.name))
    | inr e ↦ rw e (no_authorizer-Raises id types h)
  ]

  pub no_subscriber-Raises :
      (name : String) (subs : List Subscription)
      → P event_type_has_subscriptions
      → Raises P (no_subscriber name subs)
  unfolding no_subscriber
  no_subscriber-Raises name [] h = ok-Raises P _
  no_subscriber-Raises name (sub ∷ subs) h = elim (Bool-cases (name == sub.event_type)) [
    | inl e ↦ rw e (err-Raises P _ h)
    | inr e ↦ rw e (no_subscriber-Raises name subs h)
  ]

  pub update-Raises :
      (new old : Subscription)
      → ((field : String) → P (invalid_subscription_update field))
      → Raises P (validate_subscription_update new old)
  unfolding validate_subscription_update
  update-Raises new old h =
      bind-Raises P _ _
        (require-Raises P (new.type == old.type) (invalid_subscription_update "Type") (h _))
        (λ u.
          (bind-Raises P _ _
            (require-Raises P (new.event_type == old.event_type)
              (invalid_subscription_update "EventType") (h _))
            (λ u.
              (bind-Raises P _ _
                (require-Raises P (new.function_id == old.function_id)
                  (invalid_subscription_update "FunctionID") (h _))
                (λ u.
                  (bind-Raises P _ _
                    (require-Raises P (new.path == old.path) (invalid_subscription_update "Path")
                      (h _))
                    (λ u.
                      (require-Raises P (new.method == old.method)
                        (invalid_subscription_update "Method") (h _)))))))))

  pub cors_update-Raises :
      (new old : Cors)
      → ((field : String) → P (invalid_cors_update field))
      → Raises P (validate_cors_update new old)
  unfolding validate_cors_update
  cors_update-Raises new old h =
      bind-Raises P _ _
        (require-Raises P (new.method == old.method) (invalid_cors_update "Method") (h _))
        (λ u. require-Raises P (new.path == old.path) (invalid_cors_update "Path") (h _))

  module _ {S B : Type 0} (service : Service S B) (stored : (m : String) → P (store_error m))
      (json : (m : String) → P (json_error m)) where
    pub check_authorizer-Raises :
        (s : Stores S) (space : String) (id : Option String)
        → P authorizer_does_not_exist
        → Raises P (check_authorizer service s space id)
    unfolding check_authorizer
    check_authorizer-Raises s space none h = ok-Raises P _
    check_authorizer-Raises s space (some id) h = require-Raises P _ _ h

    conflict_tree-Raises :
        (choice : ℕ → ℕ → ℕ) (method event_type : String) (kvs : List (String × B))
        (tree : Node FunctionKey)
        → Raises P (conflict_tree service choice method event_type kvs tree)
    unfolding conflict_tree
    conflict_tree-Raises choice method event_type [] tree = ok-Raises P _
    conflict_tree-Raises choice method event_type (item ∷ kvs) tree =
        elim (Option-cases (service.subscriptions.decode item.1)) [
          | inl e ↦ rw (e, conflict_tree) (err-Raises P _ (json _))
          | inr (sub, e) ↦
              rw (e, conflict_tree)
                (conflict_tree-Raises (λ n. choice (suc n)) method event_type kvs _)
        ]

    conflict_result-Raises :
        (o : Option AddError)
        → ((e : AddError) → P (path_conflict e))
        → Raises P (conflict_result service o)
    conflict_result-Raises none h = ok-Raises P _
    conflict_result-Raises (some e) h = err-Raises P _ (h e)

    pub conflict-Raises :
        (choice : ℕ → ℕ → ℕ) (s : Stores S) (space method path event_type : String)
        → ((e : AddError) → P (path_conflict e))
        → Raises P (check_for_path_conflict service choice s space method path event_type)
    unfolding check_for_path_conflict
    conflict-Raises choice s space method path event_type h =
        bind-Raises P _ _ (conflict_tree-Raises (λ n. choice (suc n)) method event_type _ _)
          (λ tree. conflict_result-Raises _ h)
