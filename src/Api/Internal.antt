-- ===== src/Api/Internal.antt =====
-- For which errors the API replies with status 500.
use event_gateway.Common.{ℕ, String, ◌≡◌, ◌≢◌, refl, ◌⊎◌, inl, inr, List, arith}
use event_gateway.Resource.{
  Error, authorizer_does_not_exist, invalid_cors_update, store_error, json_error, Result, ok, err,
}
use event_gateway.Service.Defs.{Service, Stores}
use event_gateway.Service.Raising.{Raises}
use event_gateway.Service.Raising.Reads.{
  get_event_type-Raises, list_event_types-Raises, get_function-Raises, list_functions-Raises,
  get_subscription-Raises, list_subscriptions-Raises, get_cors-Raises, list_cors-Raises,
}
use event_gateway.Service.Raising.Writes.{
  create_event_type-Raises, update_event_type-Raises, delete_event_type-Raises,
  create_function-Raises, update_function-Raises, delete_function-Raises,
}
use event_gateway.Service.Raising.Routes.{
  create_subscription-Raises, update_subscription-Raises, delete_subscription-Raises,
  create_cors-Raises, update_cors-Raises, delete_cors-Raises,
}
use event_gateway.Api.Defs.{
  Request, Decoder, Reply, Body, error_response, Metric, answer, with_body,
}
use event_gateway.Api.EventTypes.{
  get_event_type_handler, list_event_types_handler, create_event_type_handler,
  update_event_type_handler, delete_event_type_handler,
}
use event_gateway.Api.Functions.{
  get_function_handler, list_functions_handler, create_function_handler, update_function_handler,
  delete_function_handler,
}
use event_gateway.Api.Subscriptions.{
  get_subscription_handler, list_subscriptions_handler, create_subscription_handler,
  update_subscription_handler, delete_subscription_handler,
}
use event_gateway.Api.CorsConfigs.{
  get_cors_handler, list_cors_handler, create_cors_handler, update_cors_handler,
  delete_cors_handler,
}
use event_gateway.Api.Routes.{
  event_types, functions, subscriptions, corses, list_all, get_one, create_one, update_one,
  delete_one, Endpoint, status, operate, handle,
}

abbrev IsCreateEventType : Endpoint → Type 0
IsCreateEventType (operate create_one event_types) = Unit
IsCreateEventType _ = ⊥

abbrev IsUpdateCors : Endpoint → Type 0
IsUpdateCors (operate update_one corses) = Unit
IsUpdateCors _ = ⊥

-- The errors that are not the client's: those of the store and of JSON. Two endpoints also treat an error
-- of the client so: the creation of an event type whose authorizer is not there, and an update that would
-- change the method or the path of a CORS configuration.
abbrev pub IsInternal : Endpoint → Error → Type 0
IsInternal endpoint (store_error m) = Unit
IsInternal endpoint (json_error m) = Unit
IsInternal endpoint authorizer_does_not_exist = IsCreateEventType endpoint
IsInternal endpoint (invalid_cors_update field) = IsUpdateCors endpoint
IsInternal endpoint _ = ⊥

-- If the error has status 500, the endpoint treats it as internal.
abbrev IsGraded : Endpoint → (Error → ℕ) → Error → Type 0
IsGraded endpoint failure e = failure e ≡ 500 → IsInternal endpoint e

-- The reply tells of an error that the endpoint treats as internal.
abbrev pub TellsInternal : Endpoint → Reply → Type 0
TellsInternal endpoint reply = (e : Error) × (reply.body ≡ error_response e) × IsInternal endpoint e

answer-TellsInternal :
    {A : Type 0} (endpoint : Endpoint) (failure : Error → ℕ) (success : ℕ) (body : A → Body)
    (gauge : List Metric) (counted : Metric) (result : Result A)
    → success ≢ 500
    → Raises (IsGraded endpoint failure) result
    → (answer failure success body gauge counted result).status ≡ 500
    → TellsInternal endpoint (answer failure success body gauge counted result)
unfolding answer
answer-TellsInternal endpoint failure success body gauge counted (ok a) other graded is =
    absurd (other is)
answer-TellsInternal endpoint failure success body gauge counted (err e) other graded is =
    (e, refl, graded.raised e refl is)

with_body-TellsInternal :
    {T A : Type 0} (endpoint : Endpoint) (s : T) (invalid : String → Error) (decoded : String ⊎ A)
    (next : A → T × Reply)
    → ((a : A) → (next a).1.status ≡ 500 → TellsInternal endpoint (next a).1)
    → (with_body s invalid decoded next).1.status ≡ 500
    → TellsInternal endpoint (with_body s invalid decoded next).1
unfolding with_body
with_body-TellsInternal endpoint s invalid (inl m) next after is = absurd (omega arith)
with_body-TellsInternal endpoint s invalid (inr a) next after is = after a is

module _ {S B R : Type 0} (service : Service S B) (decoder : Decoder R) (choice : ℕ → ℕ → ℕ) where
  -- A reply with status 500 tells of an error that is not the client's: one of the store or of JSON.
  -- There are two exceptions, the creation of an event type whose authorizer is not there and an update
  -- that would change the method or the path of a CORS configuration. All other errors of the services have
  -- another status.
  pub handle-TellsInternal :
      (endpoint : Endpoint) (r : Request R) (s : Stores S)
      → (handle service decoder choice endpoint r s).1.status ≡ 500
      → TellsInternal endpoint (handle service decoder choice endpoint r s).1
  unfolding handle get_event_type_handler list_event_types_handler create_event_type_handler
      update_event_type_handler delete_event_type_handler get_function_handler
      list_functions_handler create_function_handler update_function_handler delete_function_handler
      get_subscription_handler list_subscriptions_handler create_subscription_handler
      update_subscription_handler delete_subscription_handler get_cors_handler list_cors_handler
      create_cors_handler update_cors_handler delete_cors_handler
  handle-TellsInternal status r s is = absurd (omega arith)
  handle-TellsInternal (operate list_all event_types) r s is =
      answer-TellsInternal (operate list_all event_types) _ 200 _ _ _ _ (omega arith)
        (list_event_types-Raises (IsGraded (operate list_all event_types) _) service (λ m h. tt)
          (λ m h. tt) s _ _)
        is
  handle-TellsInternal (operate get_one event_types) r s is =
      answer-TellsInternal (operate get_one event_types) _ 200 _ _ _ _ (omega arith)
        (get_event_type-Raises (IsGraded (operate get_one event_types) _) service (λ m h. tt)
          (λ m h. tt) s _ _ (λ h. absurd (omega arith)))
        is
  handle-TellsInternal (operate create_one event_types) r s is =
      with_body-TellsInternal (operate create_one event_types) s _ (decoder.event_type r.body) _
        (λ new high.
          answer-TellsInternal (operate create_one event_types) _ 201 _ _ _ _ (omega arith)
            (create_event_type-Raises (IsGraded (operate create_one event_types) _) service
              (λ m h. tt) (λ m h. tt) _ s (λ m h. absurd (omega arith))
              (λ m h. absurd (omega arith)) (λ h. tt))
            high)
        is
  handle-TellsInternal (operate update_one event_types) r s is =
      with_body-TellsInternal (operate update_one event_types) s _ (decoder.event_type r.body) _
        (λ new high.
          answer-TellsInternal (operate update_one event_types) _ 200 _ _ _ _ (omega arith)
            (update_event_type-Raises (IsGraded (operate update_one event_types) _) service
              (λ m h. tt) (λ m h. tt) _ s (λ m h. absurd (omega arith))
              (λ m h. absurd (omega arith)) (λ h. absurd (omega arith)))
            high)
        is
  handle-TellsInternal (operate delete_one event_types) r s is =
      answer-TellsInternal (operate delete_one event_types) _ 204 _ _ _ _ (omega arith)
        (delete_event_type-Raises (IsGraded (operate delete_one event_types) _) service (λ m h. tt)
          (λ m h. tt) _ _ s (λ h. absurd (omega arith)) (λ h. absurd (omega arith)))
        is
  handle-TellsInternal (operate list_all functions) r s is =
      answer-TellsInternal (operate list_all functions) _ 200 _ _ _ _ (omega arith)
        (list_functions-Raises (IsGraded (operate list_all functions) _) service (λ m h. tt)
          (λ m h. tt) s _ _)
        is
  handle-TellsInternal (operate get_one functions) r s is =
      answer-TellsInternal (operate get_one functions) _ 200 _ _ _ _ (omega arith)
        (get_function-Raises (IsGraded (operate get_one functions) _) service (λ m h. tt)
          (λ m h. tt) s _ _ (λ h. absurd (omega arith)))
        is
  handle-TellsInternal (operate create_one functions) r s is =
      with_body-TellsInternal (operate create_one functions) s _ (decoder.function r.body) _
        (λ new high.
          answer-TellsInternal (operate create_one functions) _ 201 _ _ _ _ (omega arith)
            (create_function-Raises (IsGraded (operate create_one functions) _) service (λ m h. tt)
              (λ m h. tt) _ s (λ m h. absurd (omega arith)) (λ m h. absurd (omega arith)))
            high)
        is
  handle-TellsInternal (operate update_one functions) r s is =
      with_body-TellsInternal (operate update_one functions) s _ (decoder.function r.body) _
        (λ new high.
          answer-TellsInternal (operate update_one functions) _ 200 _ _ _ _ (omega arith)
            (update_function-Raises (IsGraded (operate update_one functions) _) service (λ m h. tt)
              (λ m h. tt) _ s (λ m h. absurd (omega arith)) (λ m h. absurd (omega arith)))
            high)
        is
  handle-TellsInternal (operate delete_one functions) r s is =
      answer-TellsInternal (operate delete_one functions) _ 204 _ _ _ _ (omega arith)
        (delete_function-Raises (IsGraded (operate delete_one functions) _) service (λ m h. tt)
          (λ m h. tt) _ _ s (λ h. absurd (omega arith)) (λ h. absurd (omega arith))
          (λ m h. absurd (omega arith)))
        is
  handle-TellsInternal (operate list_all subscriptions) r s is =
      answer-TellsInternal (operate list_all subscriptions) _ 200 _ _ _ _ (omega arith)
        (list_subscriptions-Raises (IsGraded (operate list_all subscriptions) _) service (λ m h. tt)
          (λ m h. tt) s _ _)
        is
  handle-TellsInternal (operate get_one subscriptions) r s is =
      answer-TellsInternal (operate get_one subscriptions) _ 200 _ _ _ _ (omega arith)
        (get_subscription-Raises (IsGraded (operate get_one subscriptions) _) service (λ m h. tt)
          (λ m h. tt) s _ _ (λ h. absurd (omega arith)))
        is
  handle-TellsInternal (operate create_one subscriptions) r s is =
      with_body-TellsInternal (operate create_one subscriptions) s _ (decoder.subscription r.body) _
        (λ new high.
          answer-TellsInternal (operate create_one subscriptions) _ 201 _ _ _ _ (omega arith)
            (create_subscription-Raises (IsGraded (operate create_one subscriptions) _) service
              (λ m h. tt) (λ m h. tt) choice _ s (λ m h. absurd (omega arith))
              (λ m h. absurd (omega arith)) (λ m h. absurd (omega arith))
              (λ m h. absurd (omega arith)) (λ m h. absurd (omega arith)))
            high)
        is
  handle-TellsInternal (operate update_one subscriptions) r s is =
      with_body-TellsInternal (operate update_one subscriptions) s _ (decoder.subscription r.body) _
        (λ new high.
          answer-TellsInternal (operate update_one subscriptions) _ 200 _ _ _ _ (omega arith)
            (update_subscription-Raises (IsGraded (operate update_one subscriptions) _) service
              (λ m h. tt) (λ m h. tt) _ _ s (λ m h. absurd (omega arith))
              (λ h. absurd (omega arith)) (λ m h. absurd (omega arith))
              (λ m h. absurd (omega arith)))
            high)
        is
  handle-TellsInternal (operate delete_one subscriptions) r s is =
      answer-TellsInternal (operate delete_one subscriptions) _ 204 _ _ _ _ (omega arith)
        (delete_subscription-Raises (IsGraded (operate delete_one subscriptions) _) service
          (λ m h. tt) (λ m h. tt) _ _ s (λ m h. absurd (omega arith)))
        is
  handle-TellsInternal (operate list_all corses) r s is =
      answer-TellsInternal (operate list_all corses) _ 200 _ _ _ _ (omega arith)
        (list_cors-Raises (IsGraded (operate list_all corses) _) service (λ m h. tt) (λ m h. tt) s _
          _)
        is
  handle-TellsInternal (operate get_one corses) r s is =
      answer-TellsInternal (operate get_one corses) _ 200 _ _ _ _ (omega arith)
        (get_cors-Raises (IsGraded (operate get_one corses) _) service (λ m h. tt) (λ m h. tt) s _ _
          (λ h. absurd (omega arith)))
        is
  handle-TellsInternal (operate create_one corses) r s is =
      with_body-TellsInternal (operate create_one corses) s _ (decoder.cors r.body) _
        (λ new high.
          answer-TellsInternal (operate create_one corses) _ 201 _ _ _ _ (omega arith)
            (create_cors-Raises (IsGraded (operate create_one corses) _) service (λ m h. tt)
              (λ m h. tt) _ s (λ m h. absurd (omega arith)) (λ m h. absurd (omega arith)))
            high)
        is
  handle-TellsInternal (operate update_one corses) r s is =
      with_body-TellsInternal (operate update_one corses) s _ (decoder.cors r.body) _
        (λ new high.
          answer-TellsInternal (operate update_one corses) _ 200 _ _ _ _ (omega arith)
            (update_cors-Raises (IsGraded (operate update_one corses) _) service (λ m h. tt)
              (λ m h. tt) _ s (λ m h. absurd (omega arith)) (λ m h. absurd (omega arith))
              (λ m h. tt))
            high)
        is
  handle-TellsInternal (operate delete_one corses) r s is =
      answer-TellsInternal (operate delete_one corses) _ 204 _ _ _ _ (omega arith)
        (delete_cors-Raises (IsGraded (operate delete_one corses) _) service (λ m h. tt) (λ m h. tt)
          _ _ s (λ h. absurd (omega arith)))
        is
