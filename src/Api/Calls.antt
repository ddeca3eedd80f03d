-- ===== src/Api/Calls.antt =====
-- The calls of the services that the requests of the API make.
use event_gateway.Common.{
  ℕ, String, ◌≡◌, refl, sym, subst, ◌⊎◌, inl, inr, Option, List, [], ◌∷◌, All, NoSlash,
}
use event_gateway.Store.{IsKvStore}
use event_gateway.Resource.{Error}
use event_gateway.Service.Defs.{Service, Stores, IsCodec}
use event_gateway.Service.Validation.{IsValidating}
use event_gateway.Service.Integrity.{IsSound}
use event_gateway.Service.Integrity.Calls.{
  Call, call_create_function, call_update_function, call_delete_function, call_create_event_type,
  call_update_event_type, call_delete_event_type, call_create_subscription,
  call_update_subscription, call_delete_subscription, call_create_cors, call_update_cors,
  call_delete_cors, HasPlainSpace, perform, perform_all, perform_all-IsSound,
}
use event_gateway.Api.Defs.{Request, Decoder, Reply, with_body, extract_cors_id}
use event_gateway.Api.EventTypes.{
  create_event_type_handler, update_event_type_handler, delete_event_type_handler,
}
use event_gateway.Api.Functions.{
  create_function_handler, update_function_handler, delete_function_handler,
}
use event_gateway.Api.Subscriptions.{
  create_subscription_handler, update_subscription_handler, delete_subscription_handler,
}
use event_gateway.Api.CorsConfigs.{create_cors_handler, update_cors_handler, delete_cors_handler}
use event_gateway.Api.Routes.{
  event_types, functions, subscriptions, corses, list_all, get_one, create_one, update_one,
  delete_one, Endpoint, status, operate, handle,
}

-- One call of the decoded resource, none if the body is no JSON of it.
abbrev call_if_decoded : {A : Type 0} → String ⊎ A → (A → Call) → List Call
call_if_decoded (inl m) call = []
call_if_decoded (inr a) call = call a ∷ []

module _ {R : Type 0} (decoder : Decoder R) (choice : ℕ → ℕ → ℕ) where
  -- The calls that an endpoint is for: the space, and the name or the ID of a resource that is there,
  -- are those of the request.
  abbrev pub calls_of : Endpoint → Request R → List Call
  calls_of status r = []
  calls_of (operate list_all kind) r = []
  calls_of (operate get_one kind) r = []
  calls_of (operate create_one event_types) r =
      call_if_decoded (decoder.event_type r.body)
        (λ new. call_create_event_type (record new { space = r.by_name "space" }))
  calls_of (operate update_one event_types) r = call_if_decoded (decoder.event_type r.body) (λ new.
      call_update_event_type (record new { space = r.by_name "space"; name = r.by_name "name" }))
  calls_of (operate delete_one event_types) r =
      call_delete_event_type (r.by_name "space") (r.by_name "name") ∷ []
  calls_of (operate create_one functions) r =
      call_if_decoded (decoder.function r.body)
        (λ new. call_create_function (record new { space = r.by_name "space" }))
  calls_of (operate update_one functions) r =
      call_if_decoded (decoder.function r.body) (λ new.
        call_update_function (record new { space = r.by_name "space"; id = r.by_name "id" }))
  calls_of (operate delete_one functions) r =
      call_delete_function (r.by_name "space") (r.by_name "id") ∷ []
  calls_of (operate create_one subscriptions) r =
      call_if_decoded (decoder.subscription r.body)
        (λ new. call_create_subscription choice (record new { space = r.by_name "space" }))
  calls_of (operate update_one subscriptions) r =
      call_if_decoded (decoder.subscription r.body) (λ new.
        call_update_subscription (r.by_name "id")
          (record new { space = r.by_name "space"; id = r.by_name "id" }))
  calls_of (operate delete_one subscriptions) r =
      call_delete_subscription (r.by_name "space") (r.by_name "id") ∷ []
  calls_of (operate create_one corses) r =
      call_if_decoded (decoder.cors r.body)
        (λ new. call_create_cors (record new { space = r.by_name "space" }))
  calls_of (operate update_one corses) r = call_if_decoded (decoder.cors r.body) (λ new.
      call_update_cors (record new { space = r.by_name "space"; id = extract_cors_id r.raw_path }))
  calls_of (operate delete_one corses) r =
      call_delete_cors (r.by_name "space") (extract_cors_id r.raw_path) ∷ []

module _ {S B R : Type 0} (service : Service S B) (decoder : Decoder R) (choice : ℕ → ℕ → ℕ) where
  with_body-perform_all :
      {A : Type 0} (s : Stores S) (invalid : String → Error) (decoded : String ⊎ A)
      (next : A → Stores S × Reply) (call : A → Call)
      → ((a : A) → (next a).0 ≡ perform service (call a) s)
      → (with_body s invalid decoded next).0 ≡ perform_all service (call_if_decoded decoded call) s
  unfolding with_body perform_all
  with_body-perform_all s invalid (inl m) next call same = refl
  with_body-perform_all s invalid (inr a) next call same = same a

  -- The API does to the stores what the calls of the services do that the endpoint is for: none for a
  -- request that reads or whose body is not decoded, otherwise the one call of that operation on the
  -- resource of the body, in the space, and under the name or the ID, of the request.
  pub handle-perform_all :
      (endpoint : Endpoint) (r : Request R) (s : Stores S)
      → (handle service decoder choice endpoint r s).0
        ≡ perform_all service (calls_of decoder choice endpoint r) s
  unfolding handle perform_all perform create_event_type_handler update_event_type_handler
      delete_event_type_handler create_function_handler update_function_handler
      delete_function_handler create_subscription_handler update_subscription_handler
      delete_subscription_handler create_cors_handler update_cors_handler delete_cors_handler
  handle-perform_all status r s = refl
  handle-perform_all (operate list_all event_types) r s = refl
  handle-perform_all (operate get_one event_types) r s = refl
  handle-perform_all (operate create_one event_types) r s =
      with_body-perform_all s _ (decoder.event_type r.body) _ _ (λ new. refl)
  handle-perform_all (operate update_one event_types) r s =
      with_body-perform_all s _ (decoder.event_type r.body) _ _ (λ new. refl)
  handle-perform_all (operate delete_one event_types) r s = refl
  handle-perform_all (operate list_all functions) r s = refl
  handle-perform_all (operate get_one functions) r s = refl
  handle-perform_all (operate create_one functions) r s =
      with_body-perform_all s _ (decoder.function r.body) _ _ (λ new. refl)
  handle-perform_all (operate update_one functions) r s =
      with_body-perform_all s _ (decoder.function r.body) _ _ (λ new. refl)
  handle-perform_all (operate delete_one functions) r s = refl
  handle-perform_all (operate list_all subscriptions) r s = refl
  handle-perform_all (operate get_one subscriptions) r s = refl
  handle-perform_all (operate create_one subscriptions) r s =
      with_body-perform_all s _ (decoder.subscription r.body) _ _ (λ new. refl)
  handle-perform_all (operate update_one subscriptions) r s =
      with_body-perform_all s _ (decoder.subscription r.body) _ _ (λ new. refl)
  handle-perform_all (operate delete_one subscriptions) r s = refl
  handle-perform_all (operate list_all corses) r s = refl
  handle-perform_all (operate get_one corses) r s = refl
  handle-perform_all (operate create_one corses) r s =
      with_body-perform_all s _ (decoder.cors r.body) _ _ (λ new. refl)
  handle-perform_all (operate update_one corses) r s =
      with_body-perform_all s _ (decoder.cors r.body) _ _ (λ new. refl)
  handle-perform_all (operate delete_one corses) r s = refl

  -- The requests one after another.
  unfoldable pub handle_all : List (Endpoint × Request R) → Stores S → Stores S
  handle_all [] s = s
  handle_all ((endpoint, r) ∷ requests) s =
      handle_all requests (handle service decoder choice endpoint r s).0

  -- The space of a request is one segment of its path.
  abbrev pub HasSegment : Endpoint × Request R → Type 0
  HasSegment (endpoint, r) = NoSlash (r.by_name "space")

  call_if_decoded-HasPlainSpace :
      {A : Type 0} (decoded : String ⊎ A) (call : A → Call)
      → ((a : A) → HasPlainSpace (call a))
      → All HasPlainSpace (call_if_decoded decoded call)
  call_if_decoded-HasPlainSpace (inl m) call h = tt
  call_if_decoded-HasPlainSpace (inr a) call h = (h a, tt)

  calls_of-HasPlainSpace :
      (endpoint : Endpoint) (r : Request R)
      → NoSlash (r.by_name "space")
      → All HasPlainSpace (calls_of decoder choice endpoint r)
  calls_of-HasPlainSpace status r h = tt
  calls_of-HasPlainSpace (operate list_all event_types) r h = tt
  calls_of-HasPlainSpace (operate get_one event_types) r h = tt
  calls_of-HasPlainSpace (operate create_one event_types) r h =
      call_if_decoded-HasPlainSpace (decoder.event_type r.body) _ (λ new. tt)
  calls_of-HasPlainSpace (operate update_one event_types) r h =
      call_if_decoded-HasPlainSpace (decoder.event_type r.body) _ (λ new. tt)
  calls_of-HasPlainSpace (operate delete_one event_types) r h = (h, tt)
  calls_of-HasPlainSpace (operate list_all functions) r h = tt
  calls_of-HasPlainSpace (operate get_one functions) r h = tt
  calls_of-HasPlainSpace (operate create_one functions) r h =
      call_if_decoded-HasPlainSpace (decoder.function r.body) _ (λ new. tt)
  calls_of-HasPlainSpace (operate update_one functions) r h =
      call_if_decoded-HasPlainSpace (decoder.function r.body) _ (λ new. tt)
  calls_of-HasPlainSpace (operate delete_one functions) r h = (h, tt)
  calls_of-HasPlainSpace (operate list_all subscriptions) r h = tt
  calls_of-HasPlainSpace (operate get_one subscriptions) r h = tt
  calls_of-HasPlainSpace (operate create_one subscriptions) r h =
      call_if_decoded-HasPlainSpace (decoder.subscription r.body) _ (λ new. tt)
  calls_of-HasPlainSpace (operate update_one subscriptions) r h =
      call_if_decoded-HasPlainSpace (decoder.subscription r.body) _ (λ new. tt)
  calls_of-HasPlainSpace (operate delete_one subscriptions) r h = (tt, tt)
  calls_of-HasPlainSpace (operate list_all corses) r h = tt
  calls_of-HasPlainSpace (operate get_one corses) r h = tt
  calls_of-HasPlainSpace (operate create_one corses) r h =
      call_if_decoded-HasPlainSpace (decoder.cors r.body) _ (λ new. tt)
  calls_of-HasPlainSpace (operate update_one corses) r h =
      call_if_decoded-HasPlainSpace (decoder.cors r.body) _ (λ new. tt)
  calls_of-HasPlainSpace (operate delete_one corses) r h = (tt, tt)

  module _ (view : S → String → Option B) (laws : IsKvStore service.kv view)
      (types : IsCodec service.event_types) (subs : IsCodec service.subscriptions)
      (tags : IsValidating service) where
    -- Whatever requests the API is sent, failing ones and ones with bodies that are no JSON included, the
    -- references between the stored resources stay sound: if every stored subscription stands under
    -- its key with its function and its event type stored in its space, and every event type under its
    -- key with its authorizer stored, so it is after the requests. The spaces of the requests have no slash,
    -- the store keeps its laws, JSON reads back what it writes and the validator checks the tags.
    pub handle_all-IsSound :
        (requests : List (Endpoint × Request R)) (s : Stores S)
        → All HasSegment requests
        → IsSound service view s
        → IsSound service view (handle_all requests s)
    unfolding handle_all
    handle_all-IsSound [] s h sound = sound
    handle_all-IsSound ((endpoint, r) ∷ requests) s h sound = handle_all-IsSound requests _ h.1 (
        subst (IsSound service view) (sym (handle-perform_all endpoint r s)) (
          perform_all-IsSound service view laws types subs tags _ s
            (calls_of-HasPlainSpace endpoint r h.0) sound))
