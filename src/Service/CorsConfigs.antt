-- ===== src/Service/CorsConfigs.antt =====
-- libkv/cors.go: the service of the CORS configurations.
use event_gateway.Common.{String, not, ◌<+>◌, path_escape}
use event_gateway.Resource.{
  Cors, cors_not_found, cors_already_exists, cors_validation, store_error, Result, ok, require,
  ◌>>=◌, ◌>>◌,
}
use event_gateway.Service.Defs.{Service, Stores, resource_key, marshal, written, if_passed}
use event_gateway.Service.Validation.{validate_cors, validate_cors_update}
use event_gateway.Service.Lookup.{is_found, get_cors}

-- newCORSID
unfoldable pub new_cors_id : Cors → String
new_cors_id config = config.method <+> path_escape config.path

module _ {S B : Type 0} (service : Service S B) where
  unfoldable pub create_cors_checks : Cors → Stores S → Result (Cors × B)
  create_cors_checks c s = do
    valid ← validate_cors service c
    let config = record valid { id = new_cors_id valid }
    require (not (is_found (service.kv.get s.cors_store (resource_key config.space config.id))))
        (cors_already_exists config.id)
    byt ← marshal service.corses cors_validation config
    ok (config, byt)

  unfoldable pub create_cors : Cors → Stores S → Stores S × Result Cors
  create_cors c s = if_passed s (create_cors_checks c s) (λ (config, byt).
      let r =
        written (service.kv.put s.cors_store (resource_key config.space config.id) byt) store_error
          config in
      (record s { cors_store = r.0 }, r.1))

  unfoldable pub update_cors_checks : Cors → Stores S → Result (Cors × B)
  update_cors_checks c s = do
    config ← validate_cors service c
    old ← get_cors service s config.space config.id
    validate_cors_update config old
    buf ← marshal service.corses cors_validation config
    ok (config, buf)

  unfoldable pub update_cors : Cors → Stores S → Stores S × Result Cors
  update_cors c s = if_passed s (update_cors_checks c s) (λ (config, buf).
      let r =
        written (service.kv.put s.cors_store (resource_key config.space config.id) buf) store_error
          config in
      (record s { cors_store = r.0 }, r.1))

  unfoldable pub delete_cors : String → String → Stores S → Stores S × Result (Unit {0})
  delete_cors space id s =
      let r =
        written (service.kv.delete s.cors_store (resource_key space id)) (λ _. cors_not_found id)
          tt in
      (record s { cors_store = r.0 }, r.1)
