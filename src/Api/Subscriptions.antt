-- ===== src/Api/Subscriptions.antt =====
-- httpapi/httpapi.go: the handlers of the subscriptions.
use event_gateway.Common.{ℕ, [], ◌∷◌}
use event_gateway.Resource.{
  Error, event_type_not_found, function_not_found, invalid_subscription_update, path_conflict,
  subscription_already_exists, subscription_not_found, subscription_validation,
}
use event_gateway.Service.Defs.{Service, Stores}
use event_gateway.Service.Validation.{with_subscription_defaults}
use event_gateway.Service.Lookup.{get_subscription, list_subscriptions}
use event_gateway.Service.Subscriptions.{
  create_subscription, update_subscription, delete_subscription,
}
use event_gateway.Api.Defs.{
  Request, Decoder, Reply, no_body, subscription_body, subscriptions_response, config_request, inc,
  dec, answer, with_body, internal_error, extract_metadata_filters,
}

-- The statuses of the errors, for each handler.
abbrev pub get_subscription_status : Error → ℕ
get_subscription_status (subscription_not_found x) = 404
get_subscription_status _ = 500

abbrev pub create_subscription_status : Error → ℕ
create_subscription_status (subscription_already_exists x) = 409
create_subscription_status (event_type_not_found x) = 400
create_subscription_status (function_not_found x) = 400
create_subscription_status (subscription_validation x) = 400
create_subscription_status (path_conflict x) = 400
create_subscription_status _ = 500

abbrev pub update_subscription_status : Error → ℕ
update_subscription_status (invalid_subscription_update x) = 400
update_subscription_status (subscription_not_found x) = 404
update_subscription_status (function_not_found x) = 400
update_subscription_status (subscription_validation x) = 400
update_subscription_status _ = 500

abbrev pub delete_subscription_status : Error → ℕ
delete_subscription_status (subscription_not_found x) = 404
delete_subscription_status _ = 500

module _ {S B R : Type 0} (service : Service S B) where
  unfoldable pub get_subscription_handler : Request R → Stores S → Reply
  get_subscription_handler r s =
      let space = r.by_name "space" in
      answer get_subscription_status 200 subscription_body []
        (config_request space "subscription" "get")
        (get_subscription service s space (r.by_name "id"))

  unfoldable pub list_subscriptions_handler : Request R → Stores S → Reply
  list_subscriptions_handler r s =
      let space = r.by_name "space" in
      answer internal_error 200 subscriptions_response []
        (config_request space "subscription" "list")
        (list_subscriptions service s space (extract_metadata_filters r.query))

  unfoldable pub create_subscription_handler :
      Decoder R → (ℕ → ℕ → ℕ) → Request R → Stores S → Stores S × Reply
  create_subscription_handler decoder choice r s =
      with_body s subscription_validation (decoder.subscription r.body) (λ sub.
        let new = record sub { space = r.by_name "space" } in
        let label = (with_subscription_defaults new).space in
        let result = create_subscription service choice new s in
        (
          result.0,
          answer create_subscription_status 201 subscription_body (inc "subscription" label ∷ [])
              (config_request label "subscription" "create") result.1,
        ))

  unfoldable pub update_subscription_handler : Decoder R → Request R → Stores S → Stores S × Reply
  update_subscription_handler decoder r s =
      with_body s subscription_validation (decoder.subscription r.body) (λ sub.
        let new = record sub { space = r.by_name "space"; id = r.by_name "id" } in
        let label = (with_subscription_defaults new).space in
        let result = update_subscription service new.id new s in
        (
          result.0,
          answer update_subscription_status 200 subscription_body []
              (config_request label "subscription" "update") result.1,
        ))

  unfoldable pub delete_subscription_handler : Request R → Stores S → Stores S × Reply
  delete_subscription_handler r s =
      let space = r.by_name "space" in
      let result = delete_subscription service space (r.by_name "id") s in
      (
        result.0,
        answer delete_subscription_status 204 (λ _. no_body) (dec "subscription" space ∷ [])
            (config_request space "subscription" "delete") result.1,
      )
