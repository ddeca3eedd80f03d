-- ===== src/Service/Integrity.antt =====
-- The references between the resources that the services store.
pub mod Keys
pub mod Keep
pub mod Creating
pub mod Subscribing
pub mod Removing
pub mod Refusing
pub mod Calls
use event_gateway.Common.{String, ◌≡◌, ◌≢◌, ◌+◌, Option, none, some, NoSlash}
use event_gateway.Resource.{Function, EventType, Subscription}
use event_gateway.Service.Defs.{Service, Stores, resource_key}
use event_gateway.Service.Lookup.{subscription_path}
use event_gateway.Service.Changes.{Present}

module _ {S B : Type 0} (service : Service S B) (view : S → String → Option B) where
  -- A stored subscription stands under its own key, and its function and its event type are there.
  pub record IsSubscriptionAt (functions event_types : S) (k : String) (b : B) : Type 0 where
    pub sub : Subscription
    pub read : service.subscriptions.decode b ≡ some sub
    pub key : k ≡ subscription_path sub.space sub.id
    pub no_slash : NoSlash sub.space
    pub function : Present view functions (resource_key sub.space sub.function_id)
    pub event_type : Present view event_types (resource_key sub.space sub.event_type)

  -- A stored event type stands under its own key, and its authorizer, if it has one, is there.
  pub record IsEventTypeAt (functions : S) (k : String) (b : B) : Type 0 where
    pub event_type : EventType
    pub read : service.event_types.decode b ≡ some event_type
    pub key : k ≡ resource_key event_type.space event_type.name
    pub no_slash : NoSlash event_type.space
    pub authorizer :
        (id : String)
        → event_type.authorizer_id ≡ some id
        → Present view functions (resource_key event_type.space id)

  -- No resource refers to one that is not there.
  pub record IsSound (s : Stores S) : Type 0 where
    pub subscription :
        (k : String) (b : B)
        → view s.subscription_store k ≡ some b
        → IsSubscriptionAt s.function_store s.event_type_store k b
    pub event_type :
        (k : String) (b : B)
        → view s.event_type_store k ≡ some b
        → IsEventTypeAt s.function_store k b
