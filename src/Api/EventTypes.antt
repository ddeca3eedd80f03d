-- ===== src/Api/EventTypes.antt =====
-- httpapi/httpapi.go: the handlers of the event types.
use event_gateway.Common.{ℕ, [], ◌∷◌}
use event_gateway.Resource.{
  Error, authorizer_does_not_exist, event_type_already_exists, event_type_has_subscriptions,
  event_type_not_found, event_type_validation,
}
use event_gateway.Service.Defs.{Service, Stores}
use event_gateway.Service.Validation.{with_event_type_defaults}
use event_gateway.Service.Lookup.{get_event_type, list_event_types}
use event_gateway.Service.EventTypes.{create_event_type, update_event_type, delete_event_type}
use event_gateway.Api.Defs.{
  Request, Decoder, Reply, no_body, event_type_body, event_types_response, config_request, inc, dec,
  answer, with_body, internal_error, extract_metadata_filters,
}

-- The statuses of the errors, for each handler.
abbrev pub get_event_type_status : Error → ℕ
get_event_type_status (event_type_not_found x) = 404
get_event_type_status _ = 500

abbrev pub create_event_type_status : Error → ℕ
create_event_type_status (event_type_validation x) = 400
create_event_type_status (event_type_already_exists x) = 409
create_event_type_status _ = 500

abbrev pub update_event_type_status : Error → ℕ
update_event_type_status (event_type_not_found x) = 404
update_event_type_status (event_type_validation x) = 400
update_event_type_status authorizer_does_not_exist = 400
update_event_type_status _ = 500

abbrev pub delete_event_type_status : Error → ℕ
delete_event_type_status (event_type_not_found x) = 404
delete_event_type_status event_type_has_subscriptions = 400
delete_event_type_status _ = 500

module _ {S B R : Type 0} (service : Service S B) where
  unfoldable pub get_event_type_handler : Request R → Stores S → Reply
  get_event_type_handler r s =
      let space = r.by_name "space" in
      answer get_event_type_status 200 event_type_body [] (config_request space "eventtype" "get")
        (get_event_type service s space (r.by_name "name"))

  unfoldable pub list_event_types_handler : Request R → Stores S → Reply
  list_event_types_handler r s =
      let space = r.by_name "space" in
      answer internal_error 200 event_types_response [] (config_request space "eventtype" "list")
        (list_event_types service s space (extract_metadata_filters r.query))

  unfoldable pub create_event_type_handler : Decoder R → Request R → Stores S → Stores S × Reply
  create_event_type_handler decoder r s =
      with_body s event_type_validation (decoder.event_type r.body) (λ t.
        let new = record t { space = r.by_name "space" } in
        let label = (with_event_type_defaults new).space in
        let result = create_event_type service new s in
        (
          result.0,
          answer create_event_type_status 201 event_type_body (inc "eventtype" label ∷ [])
              (config_request label "eventtype" "create") result.1,
        ))

  unfoldable pub update_event_type_handler : Decoder R → Request R → Stores S → Stores S × Reply
  update_event_type_handler decoder r s =
      with_body s event_type_validation (decoder.event_type r.body) (λ t.
        let new = record t { space = r.by_name "space"; name = r.by_name "name" } in
        let label = (with_event_type_defaults new).space in
        let result = update_event_type service new s in
        (
          result.0,
          answer update_event_type_status 200 event_type_body []
              (config_request label "eventtype" "update") result.1,
        ))

  unfoldable pub delete_event_type_handler : Request R → Stores S → Stores S × Reply
  delete_event_type_handler r s =
      let space = r.by_name "space" in
      let result = delete_event_type service space (r.by_name "name") s in
      (
        result.0,
        answer delete_event_type_status 204 (λ _. no_body) (dec "eventtype" space ∷ [])
            (config_request space "eventtype" "delete") result.1,
      )
