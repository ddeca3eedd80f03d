-- ===== src/Service/Raising/Routes.antt =====
-- The errors that the writes of subscriptions and CORS configurations return.
use event_gateway.Common.{ℕ, String, not}
use event_gateway.PathTree.Add.{AddError}
use event_gateway.Resource.{
  Subscription, Cors, Error, function_not_found, event_type_not_found, subscription_not_found,
  subscription_already_exists, invalid_subscription_update, subscription_validation, path_conflict,
  cors_not_found, cors_already_exists, cors_validation, invalid_cors_update, store_error,
  json_error,
}
use event_gateway.Service.Defs.{Service, Stores, resource_key}
use event_gateway.Service.Lookup.{is_found, subscription_path}
use event_gateway.Service.Subscriptions.{
  new_subscription_id, create_subscription, create_subscription_checks, update_subscription,
  update_subscription_checks, delete_subscription,
}
use event_gateway.Service.CorsConfigs.{
  new_cors_id, create_cors, create_cors_checks, update_cors, update_cors_checks, delete_cors,
}
use event_gateway.Service.Raising.{
  Raises, bind-Raises, require-Raises, marshal-Raises, written-Raises, if_passed-Raises,
}
use event_gateway.Service.Raising.Parts.{update-Raises, cors_update-Raises}
use event_gateway.Service.Raising.Reads.{
  get_function-Raises, get_event_type-Raises, validate_subscription-Raises, get_subscription-Raises,
  validate_cors-Raises, get_cors-Raises, conflict_if_sync-Raises,
}

module _ (P : Error → Type 0) {S B : Type 0} (service : Service S B)
    (stored : (m : String) → P (store_error m)) (json : (m : String) → P (json_error m)) where
  pub create_subscription-Raises :
      (choice : ℕ → ℕ → ℕ) (sub : Subscription) (s : Stores S)
      → ((m : String) → P (subscription_validation m))
      → ((id : String) → P (subscription_already_exists id))
      → ((e : AddError) → P (path_conflict e))
      → ((name : String) → P (event_type_not_found name))
      → ((id : String) → P (function_not_found id))
      → Raises P (create_subscription service choice sub s).1
  unfolding create_subscription create_subscription_checks
  create_subscription-Raises choice sub s invalid again conflict no_type no_function =
      if_passed-Raises P s _ _
        (bind-Raises P _ _ (validate_subscription-Raises P service stored json sub invalid)
          (λ valid.
            let new = record valid { id = new_subscription_id valid } in
            bind-Raises P _ _
              (require-Raises P
                (not (
                  is_found
                    (service.kv.get s.subscription_store (subscription_path new.space new.id))))
                (subscription_already_exists new.id) (again _))
              (λ u.
                bind-Raises P _ _
                  (conflict_if_sync-Raises P service stored json choice s new conflict)
                  (λ u.
                    bind-Raises P _ _
                      (get_event_type-Raises P service stored json s new.space new.event_type
                        (no_type _))
                      (λ t.
                        bind-Raises P _ _
                          (get_function-Raises P service stored json s new.space new.function_id
                            (no_function _))
                          (λ f. marshal-Raises P service.subscriptions _ new json))))))
        (λ p. written-Raises P _ _ _ stored)

  pub update_subscription-Raises :
      (id : String) (sub : Subscription) (s : Stores S)
      → ((m : String) → P (subscription_validation m))
      → P (subscription_not_found id)
      → ((field : String) → P (invalid_subscription_update field))
      → ((name : String) → P (function_not_found name))
      → Raises P (update_subscription service id sub s).1
  unfolding update_subscription update_subscription_checks
  update_subscription-Raises id sub s invalid missing changed no_function =
      if_passed-Raises P s _ _
        (bind-Raises P _ _ (validate_subscription-Raises P service stored json sub invalid) (λ new.
          bind-Raises P _ _ (get_subscription-Raises P service stored json s new.space id missing)
            (λ old. bind-Raises P _ _ (update-Raises P new old changed) (λ u.
              bind-Raises P _ _
                (get_function-Raises P service stored json s new.space new.function_id
                  (no_function _))
                (λ f. marshal-Raises P service.subscriptions _ new invalid)))))
        (λ p. written-Raises P _ _ _ stored)

  pub delete_subscription-Raises :
      (space id : String) (s : Stores S)
      → ((other : String) → P (subscription_not_found other))
      → Raises P (delete_subscription service space id s).1
  unfolding delete_subscription
  delete_subscription-Raises space id s missing =
      if_passed-Raises P s _ _
        (get_subscription-Raises P service stored json s space id (missing id))
        (λ p. written-Raises P _ _ _ (λ m. missing _))

  pub create_cors-Raises :
      (c : Cors) (s : Stores S)
      → ((m : String) → P (cors_validation m))
      → ((id : String) → P (cors_already_exists id))
      → Raises P (create_cors service c s).1
  unfolding create_cors create_cors_checks
  create_cors-Raises c s invalid again =
      if_passed-Raises P s _ _
        (bind-Raises P _ _ (validate_cors-Raises P service stored json c invalid) (λ valid.
          let config = record valid { id = new_cors_id valid } in
          bind-Raises P _ _
            (require-Raises P
              (not (is_found (service.kv.get s.cors_store (resource_key config.space config.id))))
              (cors_already_exists config.id) (again _))
            (λ u. marshal-Raises P service.corses _ config invalid)))
        (λ p. written-Raises P _ _ _ stored)

  pub update_cors-Raises :
      (c : Cors) (s : Stores S)
      → ((m : String) → P (cors_validation m))
      → ((id : String) → P (cors_not_found id))
      → ((field : String) → P (invalid_cors_update field))
      → Raises P (update_cors service c s).1
  unfolding update_cors update_cors_checks
  update_cors-Raises c s invalid missing changed =
      if_passed-Raises P s _ _
        (bind-Raises P _ _ (validate_cors-Raises P service stored json c invalid) (λ config.
          bind-Raises P _ _
            (get_cors-Raises P service stored json s config.space config.id (missing _))
            (λ old.
              bind-Raises P _ _ (cors_update-Raises P config old changed)
                (λ u. marshal-Raises P service.corses _ config invalid))))
        (λ p. written-Raises P _ _ _ stored)

  pub delete_cors-Raises :
      (space id : String) (s : Stores S)
      → P (cors_not_found id)
      → Raises P (delete_cors service space id s).1
  unfolding delete_cors
  delete_cors-Raises space id s missing = written-Raises P _ _ _ (λ m. missing)
