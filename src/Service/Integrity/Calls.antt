-- ===== src/Service/Integrity/Calls.antt =====
-- The references between the resources, along any sequence of calls of the services.
use event_gateway.Common.{ℕ, String, Option, List, [], ◌∷◌, NoSlash, All}
use event_gateway.Store.{IsKvStore}
use event_gateway.Resource.{Function, EventType, Subscription, Cors}
use event_gateway.Service.Defs.{Service, Stores, IsCodec}
use event_gateway.Service.Validation.{IsValidating}
use event_gateway.Service.Functions.{create_function, update_function, delete_function}
use event_gateway.Service.EventTypes.{create_event_type, update_event_type, delete_event_type}
use event_gateway.Service.Subscriptions.{
  create_subscription, update_subscription, delete_subscription,
}
use event_gateway.Service.CorsConfigs.{create_cors, update_cors, delete_cors}
use event_gateway.Service.Inversion.{if_passed_keeps}
use event_gateway.Service.Integrity.{IsSound}
use event_gateway.Service.Integrity.Creating.{
  create_function-IsSound, update_function-IsSound, create_event_type-IsSound,
  update_event_type-IsSound,
}
use event_gateway.Service.Integrity.Subscribing.{
  create_subscription-IsSound, update_subscription-IsSound,
}
use event_gateway.Service.Integrity.Removing.{
  delete_function-IsSound, delete_event_type-IsSound, delete_subscription-IsSound,
}

-- The methods of the services that write, with their arguments.
pub data Call : Type 0 where
  call_create_function : Function → Call
  call_update_function : Function → Call
  call_delete_function : (space id : String) → Call
  call_create_event_type : EventType → Call
  call_update_event_type : EventType → Call
  call_delete_event_type : (space name : String) → Call
  call_create_subscription : (ℕ → ℕ → ℕ) → Subscription → Call
  call_update_subscription : String → Subscription → Call
  call_delete_subscription : (space id : String) → Call
  call_create_cors : Cors → Call
  call_update_cors : Cors → Call
  call_delete_cors : (space id : String) → Call

-- The spaces of deletions are segments of request paths.
abbrev pub HasPlainSpace : Call → Type 0
HasPlainSpace (call_delete_function space id) = NoSlash space
HasPlainSpace (call_delete_event_type space name) = NoSlash space
HasPlainSpace _ = Unit

module _ {S B : Type 0} (service : Service S B) where
  unfoldable pub perform : Call → Stores S → Stores S
  perform (call_create_function f) s = (create_function service f s).0
  perform (call_update_function f) s = (update_function service f s).0
  perform (call_delete_function space id) s = (delete_function service space id s).0
  perform (call_create_event_type t) s = (create_event_type service t s).0
  perform (call_update_event_type t) s = (update_event_type service t s).0
  perform (call_delete_event_type space name) s = (delete_event_type service space name s).0
  perform (call_create_subscription choice sub) s = (create_subscription service choice sub s).0
  perform (call_update_subscription id sub) s = (update_subscription service id sub s).0
  perform (call_delete_subscription space id) s = (delete_subscription service space id s).0
  perform (call_create_cors c) s = (create_cors service c s).0
  perform (call_update_cors c) s = (update_cors service c s).0
  perform (call_delete_cors space id) s = (delete_cors service space id s).0

  unfoldable pub perform_all : List Call → Stores S → Stores S
  perform_all [] s = s
  perform_all (call ∷ calls) s = perform_all calls (perform call s)

  module _ (view : S → String → Option B) (laws : IsKvStore service.kv view)
      (types : IsCodec service.event_types) (subscriptions : IsCodec service.subscriptions)
      (tags : IsValidating service) where
    cors-IsSound :
        (s : Stores S) (t : S)
        → IsSound service view s
        → IsSound service view (record s { cors_store = t })
    cors-IsSound s t sound = record {
      subscription = sound.subscription;
      event_type = sound.event_type;
    }

    perform-IsSound :
        (call : Call) (s : Stores S)
        → HasPlainSpace call
        → IsSound service view s
        → IsSound service view (perform call s)
    unfolding perform create_cors update_cors delete_cors
    perform-IsSound (call_create_function f) s h sound =
        create_function-IsSound service view laws f s sound
    perform-IsSound (call_update_function f) s h sound =
        update_function-IsSound service view laws f s sound
    perform-IsSound (call_delete_function space id) s h sound =
        delete_function-IsSound service view laws space id s h sound
    perform-IsSound (call_create_event_type t) s h sound =
        create_event_type-IsSound service view laws types tags t s sound
    perform-IsSound (call_update_event_type t) s h sound =
        update_event_type-IsSound service view laws types tags t s sound
    perform-IsSound (call_delete_event_type space name) s h sound =
        delete_event_type-IsSound service view laws space name s h sound
    perform-IsSound (call_create_subscription choice sub) s h sound =
        create_subscription-IsSound service view laws subscriptions tags choice sub s sound
    perform-IsSound (call_update_subscription id sub) s h sound =
        update_subscription-IsSound service view laws subscriptions tags id sub s sound
    perform-IsSound (call_delete_subscription space id) s h sound =
        delete_subscription-IsSound service view laws space id s sound
    perform-IsSound (call_create_cors c) s h sound =
        if_passed_keeps (IsSound service view) s _ _ sound (λ done passed. cors-IsSound s _ sound)
    perform-IsSound (call_update_cors c) s h sound =
        if_passed_keeps (IsSound service view) s _ _ sound (λ done passed. cors-IsSound s _ sound)
    perform-IsSound (call_delete_cors space id) s h sound = cors-IsSound s _ sound

    -- If no resource of the stores refers to one that is not there, this holds after any sequence of
    -- calls of the services, failing ones and failing writes included: every stored subscription
    -- stands under the key of its space and ID and its function and event type are stored in its
    -- space, and every stored event type stands under its key and its authorizer is stored in its
    -- space. The store keeps its laws, JSON reads back what it writes, the validator checks the tags,
    -- and the spaces that functions and event types are deleted from have no slash.
    pub perform_all-IsSound :
        (calls : List Call) (s : Stores S)
        → All HasPlainSpace calls
        → IsSound service view s
        → IsSound service view (perform_all calls s)
    unfolding perform_all
    perform_all-IsSound [] s h sound = sound
    perform_all-IsSound (call ∷ calls) s h sound =
        perform_all-IsSound calls (perform call s) h.1 (perform-IsSound call s h.0 sound)
