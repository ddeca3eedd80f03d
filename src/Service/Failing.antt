-- ===== src/Service/Failing.antt =====
-- What the services leave when they return an error.
use event_gateway.Common.{ℕ, String, ◌≡◌}
use event_gateway.Resource.{Function, EventType, Subscription, Cors, Error, err}
use event_gateway.Service.Defs.{Service, Stores, written}
use event_gateway.Service.Functions.{create_function, update_function, delete_function}
use event_gateway.Service.EventTypes.{create_event_type, update_event_type, delete_event_type}
use event_gateway.Service.Subscriptions.{
  create_subscription, update_subscription, delete_subscription,
}
use event_gateway.Service.CorsConfigs.{create_cors, update_cors, delete_cors}
use event_gateway.Service.Changes.{written-state}
use event_gateway.Service.Unchanged.{
  if_passed-err, written-err, Kept, IsUnchanged, IsUnchanged-refl, function_store-IsUnchanged,
  event_type_store-IsUnchanged, subscription_store-IsUnchanged, cors_store-IsUnchanged, put_error,
  atomic_put_error, delete_error,
}

module _ {S B : Type 0} (service : Service S B) where
  put-failed :
      {A : Type 0} (s : S) (k : String) (b : B) (fault : String → Error) (a : A) (e : Error)
      → (written (service.kv.put s k b) fault a).1 ≡ err e
      → Kept service.kv s (written (service.kv.put s k b) fault a).0
  put-failed s k b fault a e failed =
      let (m, why) = written-err _ fault a e failed in put_error k b m why (written-state _ fault a)

  atomic_put-failed :
      {A : Type 0} (s : S) (k : String) (b : B) (fault : String → Error) (a : A) (e : Error)
      → (written (service.kv.atomic_put s k b) fault a).1 ≡ err e
      → Kept service.kv s (written (service.kv.atomic_put s k b) fault a).0
  atomic_put-failed s k b fault a e failed =
      let (m, why) = written-err _ fault a e failed in
      atomic_put_error k b m why (written-state _ fault a)

  delete-failed :
      {A : Type 0} (s : S) (k : String) (fault : String → Error) (a : A) (e : Error)
      → (written (service.kv.delete s k) fault a).1 ≡ err e
      → Kept service.kv s (written (service.kv.delete s k) fault a).0
  delete-failed s k fault a e failed =
      let (m, why) = written-err _ fault a e failed in
      delete_error k m why (written-state _ fault a)

  pub create_function-failed :
      (new : Function) (s : Stores S) (e : Error)
      → (create_function service new s).1 ≡ err e
      → IsUnchanged service.kv s (create_function service new s).0
  unfolding create_function
  create_function-failed new s e failed =
      if_passed-err (IsUnchanged service.kv s) s _ _ e (IsUnchanged-refl service.kv s)
        (λ a wrote.
          function_store-IsUnchanged service.kv s _
            (atomic_put-failed s.function_store _ _ _ _ e wrote))
        failed

  pub update_function-failed :
      (new : Function) (s : Stores S) (e : Error)
      → (update_function service new s).1 ≡ err e
      → IsUnchanged service.kv s (update_function service new s).0
  unfolding update_function
  update_function-failed new s e failed =
      if_passed-err (IsUnchanged service.kv s) s _ _ e (IsUnchanged-refl service.kv s)
        (λ a wrote.
          function_store-IsUnchanged service.kv s _ (put-failed s.function_store _ _ _ _ e wrote))
        failed

  pub delete_function-failed :
      (space id : String) (s : Stores S) (e : Error)
      → (delete_function service space id s).1 ≡ err e
      → IsUnchanged service.kv s (delete_function service space id s).0
  unfolding delete_function
  delete_function-failed space id s e failed =
      if_passed-err (IsUnchanged service.kv s) s _ _ e (IsUnchanged-refl service.kv s)
        (λ a wrote.
          function_store-IsUnchanged service.kv s _ (delete-failed s.function_store _ _ _ e wrote))
        failed

  pub create_event_type-failed :
      (new : EventType) (s : Stores S) (e : Error)
      → (create_event_type service new s).1 ≡ err e
      → IsUnchanged service.kv s (create_event_type service new s).0
  unfolding create_event_type
  create_event_type-failed new s e failed =
      if_passed-err (IsUnchanged service.kv s) s _ _ e (IsUnchanged-refl service.kv s)
        (λ a wrote.
          event_type_store-IsUnchanged service.kv s _
            (atomic_put-failed s.event_type_store _ _ _ _ e wrote))
        failed

  pub update_event_type-failed :
      (new : EventType) (s : Stores S) (e : Error)
      → (update_event_type service new s).1 ≡ err e
      → IsUnchanged service.kv s (update_event_type service new s).0
  unfolding update_event_type
  update_event_type-failed new s e failed =
      if_passed-err (IsUnchanged service.kv s) s _ _ e (IsUnchanged-refl service.kv s)
        (λ a wrote.
          event_type_store-IsUnchanged service.kv s _
            (put-failed s.event_type_store _ _ _ _ e wrote))
        failed

  pub delete_event_type-failed :
      (space id : String) (s : Stores S) (e : Error)
      → (delete_event_type service space id s).1 ≡ err e
      → IsUnchanged service.kv s (delete_event_type service space id s).0
  unfolding delete_event_type
  delete_event_type-failed space id s e failed =
      if_passed-err (IsUnchanged service.kv s) s _ _ e (IsUnchanged-refl service.kv s)
        (λ a wrote.
          event_type_store-IsUnchanged service.kv s _
            (delete-failed s.event_type_store _ _ _ e wrote))
        failed

  pub create_subscription-failed :
      (choice : ℕ → ℕ → ℕ) (sub : Subscription) (s : Stores S) (e : Error)
      → (create_subscription service choice sub s).1 ≡ err e
      → IsUnchanged service.kv s (create_subscription service choice sub s).0
  unfolding create_subscription
  create_subscription-failed choice sub s e failed =
      if_passed-err (IsUnchanged service.kv s) s _ _ e (IsUnchanged-refl service.kv s)
        (λ a wrote.
          subscription_store-IsUnchanged service.kv s _
            (atomic_put-failed s.subscription_store _ _ _ _ e wrote))
        failed

  pub update_subscription-failed :
      (id : String) (sub : Subscription) (s : Stores S) (e : Error)
      → (update_subscription service id sub s).1 ≡ err e
      → IsUnchanged service.kv s (update_subscription service id sub s).0
  unfolding update_subscription
  update_subscription-failed id sub s e failed =
      if_passed-err (IsUnchanged service.kv s) s _ _ e (IsUnchanged-refl service.kv s)
        (λ a wrote.
          subscription_store-IsUnchanged service.kv s _
            (put-failed s.subscription_store _ _ _ _ e wrote))
        failed

  pub delete_subscription-failed :
      (space id : String) (s : Stores S) (e : Error)
      → (delete_subscription service space id s).1 ≡ err e
      → IsUnchanged service.kv s (delete_subscription service space id s).0
  unfolding delete_subscription
  delete_subscription-failed space id s e failed =
      if_passed-err (IsUnchanged service.kv s) s _ _ e (IsUnchanged-refl service.kv s)
        (λ a wrote.
          subscription_store-IsUnchanged service.kv s _
            (delete-failed s.subscription_store _ _ _ e wrote))
        failed

  pub create_cors-failed :
      (new : Cors) (s : Stores S) (e : Error)
      → (create_cors service new s).1 ≡ err e
      → IsUnchanged service.kv s (create_cors service new s).0
  unfolding create_cors
  create_cors-failed new s e failed =
      if_passed-err (IsUnchanged service.kv s) s _ _ e (IsUnchanged-refl service.kv s)
        (λ a wrote. cors_store-IsUnchanged service.kv s _ (put-failed s.cors_store _ _ _ _ e wrote))
        failed

  pub update_cors-failed :
      (new : Cors) (s : Stores S) (e : Error)
      → (update_cors service new s).1 ≡ err e
      → IsUnchanged service.kv s (update_cors service new s).0
  unfolding update_cors
  update_cors-failed new s e failed =
      if_passed-err (IsUnchanged service.kv s) s _ _ e (IsUnchanged-refl service.kv s)
        (λ a wrote. cors_store-IsUnchanged service.kv s _ (put-failed s.cors_store _ _ _ _ e wrote))
        failed

  pub delete_cors-failed :
      (space id : String) (s : Stores S) (e : Error)
      → (delete_cors service space id s).1 ≡ err e
      → IsUnchanged service.kv s (delete_cors service space id s).0
  unfolding delete_cors
  delete_cors-failed space id s e failed =
      cors_store-IsUnchanged service.kv s _ (delete-failed s.cors_store _ _ _ e failed)
