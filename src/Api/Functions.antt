-- ===== src/Api/Functions.antt =====
-- httpapi/httpapi.go: the handlers of the functions.
use event_gateway.Common.{ℕ, [], ◌∷◌}
use event_gateway.Resource.{
  Error, function_already_registered, function_has_subscriptions, function_is_authorizer,
  function_not_found, function_validation,
}
use event_gateway.Service.Defs.{Service, Stores}
use event_gateway.Service.Validation.{with_function_defaults}
use event_gateway.Service.Lookup.{get_function, list_functions}
use event_gateway.Service.Functions.{create_function, update_function, delete_function}
use event_gateway.Api.Defs.{
  Request, Decoder, Reply, no_body, function_body, functions_response, config_request, inc, dec,
  answer, with_body, internal_error, extract_metadata_filters,
}

-- The statuses of the errors, for each handler.
abbrev pub get_function_status : Error → ℕ
get_function_status (function_not_found x) = 404
get_function_status _ = 500

abbrev pub create_function_status : Error → ℕ
create_function_status (function_validation x) = 400
create_function_status (function_already_registered x) = 409
create_function_status _ = 500

abbrev pub update_function_status : Error → ℕ
update_function_status (function_validation x) = 400
update_function_status (function_not_found x) = 404
update_function_status _ = 500

abbrev pub delete_function_status : Error → ℕ
delete_function_status (function_not_found x) = 404
delete_function_status function_has_subscriptions = 400
delete_function_status (function_is_authorizer x y) = 400
delete_function_status _ = 500

module _ {S B R : Type 0} (service : Service S B) where
  unfoldable pub get_function_handler : Request R → Stores S → Reply
  get_function_handler r s =
      let space = r.by_name "space" in
      answer get_function_status 200 function_body [] (config_request space "function" "get")
        (get_function service s space (r.by_name "id"))

  unfoldable pub list_functions_handler : Request R → Stores S → Reply
  list_functions_handler r s =
      let space = r.by_name "space" in
      answer internal_error 200 functions_response [] (config_request space "function" "list")
        (list_functions service s space (extract_metadata_filters r.query))

  unfoldable pub create_function_handler : Decoder R → Request R → Stores S → Stores S × Reply
  create_function_handler decoder r s =
      with_body s function_validation (decoder.function r.body) (λ fn.
        let new = record fn { space = r.by_name "space" } in
        let label = (with_function_defaults new).space in
        let result = create_function service new s in
        (
          result.0,
          answer create_function_status 201 function_body (inc "function" label ∷ [])
              (config_request label "function" "create") result.1,
        ))

  unfoldable pub update_function_handler : Decoder R → Request R → Stores S → Stores S × Reply
  update_function_handler decoder r s =
      with_body s function_validation (decoder.function r.body) (λ fn.
        let new = record fn { space = r.by_name "space"; id = r.by_name "id" } in
        let label = (with_function_defaults new).space in
        let result = update_function service new s in
        (
          result.0,
          answer update_function_status 200 function_body []
              (config_request label "function" "update") result.1,
        ))

  unfoldable pub delete_function_handler : Request R → Stores S → Stores S × Reply
  delete_function_handler r s =
      let space = r.by_name "space" in
      let result = delete_function service space (r.by_name "id") s in
      (
        result.0,
        answer delete_function_status 204 (λ _. no_body) (dec "function" space ∷ [])
            (config_request space "function" "delete") result.1,
      )
