-- ===== src/Service/EventTypes.antt =====
-- libkv/eventtype.go: the event types service.
use event_gateway.Common.{
  String, Bool, true, false, not, Option, none, some, List, [], ◌∷◌, ◌==◌, if◌then◌else◌,
}
use event_gateway.Resource.{
  EventType, Subscription, event_type_not_found, event_type_already_exists, event_type_validation,
  event_type_has_subscriptions, authorizer_does_not_exist, store_error, Result, ok, err, require,
  ◌>>=◌, ◌>>◌,
}
use event_gateway.Service.Defs.{Service, Stores, resource_key, marshal, written, if_passed}
use event_gateway.Service.Validation.{validate_event_type}
use event_gateway.Service.Lookup.{is_found, get_function, get_event_type, list_subscriptions}

abbrev pub is_ok : {A : Type 0} → Result A → Bool
is_ok (ok a) = true
is_ok (err e) = false

-- The loop of `DeleteEventType` over the subscriptions of the space.
unfoldable pub no_subscriber : String → List Subscription → Result (Unit {0})
no_subscriber name [] = ok tt
no_subscriber name (sub ∷ subs) =
    let rest = no_subscriber name subs in
    if name == sub.event_type then err event_type_has_subscriptions else rest

module _ {S B : Type 0} (service : Service S B) where
  -- The authorizer, where there is one, is a function of the space.
  unfoldable pub check_authorizer : Stores S → String → Option String → Result (Unit {0})
  check_authorizer s space none = ok tt
  check_authorizer s space (some id) =
      require (is_ok (get_function service s space id)) authorizer_does_not_exist

  unfoldable pub create_event_type_checks : EventType → Stores S → Result (EventType × B)
  create_event_type_checks t s = do
    event_type ← validate_event_type service t
    require
        (not (
          is_found
            (service.kv.get s.event_type_store (resource_key event_type.space event_type.name))))
        (event_type_already_exists event_type.name)
    check_authorizer s event_type.space event_type.authorizer_id
    byt ← marshal service.event_types event_type_validation event_type
    ok (event_type, byt)

  unfoldable pub create_event_type : EventType → Stores S → Stores S × Result EventType
  create_event_type t s = if_passed s (create_event_type_checks t s) (λ (event_type, byt).
      let r =
        written
          (service.kv.atomic_put s.event_type_store (resource_key event_type.space event_type.name)
            byt)
          store_error event_type in
      (record s { event_type_store = r.0 }, r.1))

  unfoldable pub update_event_type_checks : EventType → Stores S → Result (EventType × B)
  update_event_type_checks t s = do
    new ← validate_event_type service t
    old ← get_event_type service s new.space new.name
    check_authorizer s new.space new.authorizer_id
    buf ← marshal service.event_types event_type_validation new
    ok (new, buf)

  unfoldable pub update_event_type : EventType → Stores S → Stores S × Result EventType
  update_event_type t s = if_passed s (update_event_type_checks t s) (λ (new, buf).
      let r =
        written (service.kv.put s.event_type_store (resource_key new.space new.name) buf)
          store_error new in
      (record s { event_type_store = r.0 }, r.1))

  unfoldable pub delete_event_type_checks : String → String → Stores S → Result (Unit {0})
  delete_event_type_checks space name s = do
    subs ← list_subscriptions service s space []
    no_subscriber name subs

  unfoldable pub delete_event_type : String → String → Stores S → Stores S × Result (Unit {0})
  delete_event_type space name s = if_passed s (delete_event_type_checks space name s) (λ done.
      let r =
        written (service.kv.delete s.event_type_store (resource_key space name))
          (λ _. event_type_not_found name) tt in
      (record s { event_type_store = r.0 }, r.1))
