-- ===== src/Api/CorsConfigs.antt =====
-- httpapi/httpapi.go: the handlers of the CORS configurations.
use event_gateway.Common.{ℕ, [], ◌∷◌}
use event_gateway.Resource.{Error, cors_already_exists, cors_not_found, cors_validation}
use event_gateway.Service.Defs.{Service, Stores}
use event_gateway.Service.Validation.{with_cors_defaults}
use event_gateway.Service.Lookup.{get_cors, list_cors}
use event_gateway.Service.CorsConfigs.{create_cors, update_cors, delete_cors}
use event_gateway.Api.Defs.{
  Request, Decoder, Reply, no_body, cors_body, cors_response, config_request, inc, dec, answer,
  with_body, internal_error, extract_metadata_filters, extract_cors_id,
}

-- The statuses of the errors, for each handler.
abbrev pub get_cors_status : Error → ℕ
get_cors_status (cors_not_found x) = 404
get_cors_status _ = 500

abbrev pub create_cors_status : Error → ℕ
create_cors_status (cors_already_exists x) = 409
create_cors_status (cors_validation x) = 400
create_cors_status _ = 500

abbrev pub update_cors_status : Error → ℕ
update_cors_status (cors_not_found x) = 404
update_cors_status (cors_validation x) = 400
update_cors_status _ = 500

abbrev pub delete_cors_status : Error → ℕ
delete_cors_status (cors_not_found x) = 404
delete_cors_status _ = 500

module _ {S B R : Type 0} (service : Service S B) where
  unfoldable pub get_cors_handler : Request R → Stores S → Reply
  get_cors_handler r s =
      let space = r.by_name "space" in
      answer get_cors_status 200 cors_body [] (config_request space "cors" "get")
        (get_cors service s space (extract_cors_id r.raw_path))

  unfoldable pub list_cors_handler : Request R → Stores S → Reply
  list_cors_handler r s =
      let space = r.by_name "space" in
      answer internal_error 200 cors_response [] (config_request space "cors" "list")
        (list_cors service s space (extract_metadata_filters r.query))

  unfoldable pub create_cors_handler : Decoder R → Request R → Stores S → Stores S × Reply
  create_cors_handler decoder r s = with_body s cors_validation (decoder.cors r.body) (λ config.
      let new = record config { space = r.by_name "space" } in
      let label = (with_cors_defaults new).space in
      let result = create_cors service new s in
      (
        result.0,
        answer create_cors_status 201 cors_body (inc "cors" label ∷ [])
            (config_request label "cors" "create") result.1,
      ))

  unfoldable pub update_cors_handler : Decoder R → Request R → Stores S → Stores S × Reply
  update_cors_handler decoder r s = with_body s cors_validation (decoder.cors r.body) (λ config.
      let new = record config { space = r.by_name "space"; id = extract_cors_id r.raw_path } in
      let label = (with_cors_defaults new).space in
      let result = update_cors service new s in
      (
        result.0,
        answer update_cors_status 200 cors_body [] (config_request label "cors" "update") result.1,
      ))

  unfoldable pub delete_cors_handler : Request R → Stores S → Stores S × Reply
  delete_cors_handler r s =
      let space = r.by_name "space" in
      let result = delete_cors service space (extract_cors_id r.raw_path) s in
      (
        result.0,
        answer delete_cors_status 204 (λ _. no_body) (dec "cors" space ∷ [])
            (config_request space "cors" "delete") result.1,
      )
