-- ===== src/Api/Refusing.antt =====
-- What the API leaves when it replies that a request has failed.
use event_gateway.Common.{ℕ, String, ◌≡◌, ◌≤◌, refl, ◌⊎◌, inl, inr, List, [], All, arith}
use event_gateway.Store.{KvStore}
use event_gateway.Resource.{Error, Result, ok, err}
use event_gateway.Service.Defs.{Service, Stores}
use event_gateway.Service.Unchanged.{IsUnchanged, IsUnchanged-refl}
use event_gateway.Service.Failing.{
  create_function-failed, update_function-failed, delete_function-failed, create_event_type-failed,
  update_event_type-failed, delete_event_type-failed, create_subscription-failed,
  update_subscription-failed, delete_subscription-failed, create_cors-failed, update_cors-failed,
  delete_cors-failed,
}
use event_gateway.Api.Defs.{
  Request, Decoder, Reply, Body, Metric, config_request, answer, with_body,
}
use event_gateway.Api.EventTypes.{
  get_event_type_handler, list_event_types_handler, create_event_type_handler,
  update_event_type_handler, delete_event_type_handler,
}
use event_gateway.Api.Functions.{
  get_function_handler, list_functions_handler, create_function_handler, update_function_handler,
  delete_function_handler,
}
use event_gateway.Api.Subscriptions.{
  get_subscription_handler, list_subscriptions_handler, create_subscription_handler,
  update_subscription_handler, delete_subscription_handler,
}
use event_gateway.Api.CorsConfigs.{
  get_cors_handler, list_cors_handler, create_cors_handler, update_cors_handler,
  delete_cors_handler,
}
use event_gateway.Api.Routes.{
  event_types, functions, subscriptions, corses, list_all, get_one, create_one, update_one,
  delete_one, Endpoint, status, operate, handle,
}

-- The metric counts a request; it is not a gauge of the resources.
abbrev pub IsCounter : Metric → Type 0
IsCounter (config_request space resource operation) = Unit
IsCounter _ = ⊥

-- No store has been written, but for writes that have failed, and no gauge has changed.
abbrev pub IsRefused : {S B : Type 0} → KvStore S B → Stores S → Stores S × Reply → Type 0
IsRefused kv s out = IsUnchanged kv s out.0 × All IsCounter out.1.metrics

-- From the status on which a reply tells of a failure.
abbrev pub bad_request : ℕ
bad_request = 400

module _ {S B : Type 0} (kv : KvStore S B) where
  answer-IsRefused :
      {A : Type 0} (failure : Error → ℕ) (success : ℕ) (body : A → Body) (gauge : List Metric)
      (space resource operation : String) (s : Stores S) (result : Stores S × Result A)
      → success ≤ 399
      → ((e : Error) → result.1 ≡ err e → IsUnchanged kv s result.0)
      → bad_request
        ≤ (answer failure success body gauge
            (config_request space resource operation)
            result.1).status
      → IsRefused kv s (
        result.0,
        answer failure success body gauge (config_request space resource operation) result.1,
      )
  unfolding answer
  answer-IsRefused failure success body gauge space resource operation s (t, ok a) low kept high =
      absurd (omega arith)
  answer-IsRefused failure success body gauge space resource operation s (t, err e) low kept high =
      (kept e refl, (tt, tt))

  with_body-IsRefused :
      {A : Type 0} (s : Stores S) (invalid : String → Error) (decoded : String ⊎ A)
      (next : A → Stores S × Reply)
      → ((a : A) → bad_request ≤ (next a).1.status → IsRefused kv s (next a))
      → bad_request ≤ (with_body s invalid decoded next).1.status
      → IsRefused kv s (with_body s invalid decoded next)
  unfolding with_body
  with_body-IsRefused s invalid (inl m) next kept high = (IsUnchanged-refl kv s, tt)
  with_body-IsRefused s invalid (inr a) next kept high = kept a high

  -- The replies of the requests that only read.
  reading-IsRefused :
      {A : Type 0} (failure : Error → ℕ) (body : A → Body) (space resource operation : String)
      (s : Stores S) (result : Result A)
      → bad_request
        ≤ (answer failure 200 body [] (config_request space resource operation) result).status
      → IsRefused kv s
          (s, answer failure 200 body [] (config_request space resource operation) result)
  reading-IsRefused failure body space resource operation s result high =
      answer-IsRefused failure 200 body [] space resource operation s (s, result) (omega arith)
        (λ e is. IsUnchanged-refl kv s) high

module _ {S B R : Type 0} (service : Service S B) (decoder : Decoder R) (choice : ℕ → ℕ → ℕ) where
  -- A request that the API answers with a status of 400 or more has had nothing written: whatever the
  -- endpoint and whatever has failed (the body, a check of the service or the write), every store is
  -- the one that it was, unless the store itself has returned an error to a write, and no gauge of the
  -- resources has moved.
  pub handle-IsRefused :
      (endpoint : Endpoint) (r : Request R) (s : Stores S)
      → bad_request ≤ (handle service decoder choice endpoint r s).1.status
      → IsRefused service.kv s (handle service decoder choice endpoint r s)
  unfolding handle get_event_type_handler list_event_types_handler create_event_type_handler
      update_event_type_handler delete_event_type_handler get_function_handler
      list_functions_handler create_function_handler update_function_handler delete_function_handler
      get_subscription_handler list_subscriptions_handler create_subscription_handler
      update_subscription_handler delete_subscription_handler get_cors_handler list_cors_handler
      create_cors_handler update_cors_handler delete_cors_handler
  handle-IsRefused status r s high = absurd (omega arith)
  handle-IsRefused (operate list_all event_types) r s high =
      reading-IsRefused service.kv _ _ _ _ _ s _ high
  handle-IsRefused (operate get_one event_types) r s high =
      reading-IsRefused service.kv _ _ _ _ _ s _ high
  handle-IsRefused (operate create_one event_types) r s high =
      with_body-IsRefused service.kv s _ (decoder.event_type r.body) _
        (λ new.
          answer-IsRefused service.kv _ _ _ _ _ _ _ s _ (omega arith)
            (create_event_type-failed service _ s))
        high
  handle-IsRefused (operate update_one event_types) r s high =
      with_body-IsRefused service.kv s _ (decoder.event_type r.body) _
        (λ new.
          answer-IsRefused service.kv _ _ _ _ _ _ _ s _ (omega arith)
            (update_event_type-failed service _ s))
        high
  handle-IsRefused (operate delete_one event_types) r s high =
      answer-IsRefused service.kv _ _ _ _ _ _ _ s _ (omega arith)
        (delete_event_type-failed service _ _ s) high
  handle-IsRefused (operate list_all functions) r s high =
      reading-IsRefused service.kv _ _ _ _ _ s _ high
  handle-IsRefused (operate get_one functions) r s high =
      reading-IsRefused service.kv _ _ _ _ _ s _ high
  handle-IsRefused (operate create_one functions) r s high =
      with_body-IsRefused service.kv s _ (decoder.function r.body) _
        (λ new.
          answer-IsRefused service.kv _ _ _ _ _ _ _ s _ (omega arith)
            (create_function-failed service _ s))
        high
  handle-IsRefused (operate update_one functions) r s high =
      with_body-IsRefused service.kv s _ (decoder.function r.body) _
        (λ new.
          answer-IsRefused service.kv _ _ _ _ _ _ _ s _ (omega arith)
            (update_function-failed service _ s))
        high
  handle-IsRefused (operate delete_one functions) r s high =
      answer-IsRefused service.kv _ _ _ _ _ _ _ s _ (omega arith)
        (delete_function-failed service _ _ s) high
  handle-IsRefused (operate list_all subscriptions) r s high =
      reading-IsRefused service.kv _ _ _ _ _ s _ high
  handle-IsRefused (operate get_one subscriptions) r s high =
      reading-IsRefused service.kv _ _ _ _ _ s _ high
  handle-IsRefused (operate create_one subscriptions) r s high =
      with_body-IsRefused service.kv s _ (decoder.subscription r.body) _
        (λ new.
          answer-IsRefused service.kv _ _ _ _ _ _ _ s _ (omega arith)
            (create_subscription-failed service choice _ s))
        high
  handle-IsRefused (operate update_one subscriptions) r s high =
      with_body-IsRefused service.kv s _ (decoder.subscription r.body) _
        (λ new.
          answer-IsRefused service.kv _ _ _ _ _ _ _ s _ (omega arith)
            (update_subscription-failed service _ _ s))
        high
  handle-IsRefused (operate delete_one subscriptions) r s high =
      answer-IsRefused service.kv _ _ _ _ _ _ _ s _ (omega arith)
        (delete_subscription-failed service _ _ s) high
  handle-IsRefused (operate list_all corses) r s high =
      reading-IsRefused service.kv _ _ _ _ _ s _ high
  handle-IsRefused (operate get_one corses) r s high =
      reading-IsRefused service.kv _ _ _ _ _ s _ high
  handle-IsRefused (operate create_one corses) r s high =
      with_body-IsRefused service.kv s _ (decoder.cors r.body) _
        (λ new.
          answer-IsRefused service.kv _ _ _ _ _ _ _ s _ (omega arith)
            (create_cors-failed service _ s))
        high
  handle-IsRefused (operate update_one corses) r s high =
      with_body-IsRefused service.kv s _ (decoder.cors r.body) _
        (λ new.
          answer-IsRefused service.kv _ _ _ _ _ _ _ s _ (omega arith)
            (update_cors-failed service _ s))
        high
  handle-IsRefused (operate delete_one corses) r s high =
      answer-IsRefused service.kv _ _ _ _ _ _ _ s _ (omega arith) (delete_cors-failed service _ _ s)
        high
