-- ===== src/Service/Integrity/Keep.antt =====
-- What a change of one store has to meet, so that the references between the resources stay sound.
use event_gateway.Common.{String, ◌≡◌, ◌≢◌, subst, inl, inr, Option, none, some}
use event_gateway.Resource.{Subscription, EventType}
use event_gateway.Service.Defs.{Service, Stores, resource_key}
use event_gateway.Service.Changes.{Change, Change-cases, Present-Change}
use event_gateway.Service.Integrity.{IsSound, IsSubscriptionAt, IsEventTypeAt}

module _ {S B : Type 0} (service : Service S B) (view : S → String → Option B) where
  pub keep-subscription_store :
      (s : Stores S) (k : String) (new : Option B) (t : S)
      → Change view k new s.subscription_store t
      → ((b : B)
          → new ≡ some b
          → IsSubscriptionAt service view s.function_store s.event_type_store k b)
      → IsSound service view s
      → IsSound service view (record s { subscription_store = t })
  keep-subscription_store s k new t change fits sound = record {
    subscription = λ j b e. elim (Change-cases view k j new b _ t change e) [
      | inl (here, is) ↦
          subst (λ i. IsSubscriptionAt service view s.function_store s.event_type_store i b) here
            (fits b is)
      | inr old ↦ sound.subscription j b old
    ];
    event_type = sound.event_type;
  }

  -- No subscription refers to the event type under the key `k`.
  abbrev pub Unsubscribed : Stores S → String → Type 0
  Unsubscribed s k =
      (j : String) (b : B) (sub : Subscription)
      → view s.subscription_store j ≡ some b
      → service.subscriptions.decode b ≡ some sub
      → k ≢ resource_key sub.space sub.event_type

  pub keep-event_type_store :
      (s : Stores S) (k : String) (new : Option B) (t : S)
      → Change view k new s.event_type_store t
      → ((b : B) → new ≡ some b → IsEventTypeAt service view s.function_store k b)
      → (new ≡ none → Unsubscribed s k)
      → IsSound service view s
      → IsSound service view (record s { event_type_store = t })
  keep-event_type_store s k new t change fits free sound = record {
    subscription = λ j b e.
        let at = sound.subscription j b e in
        record {
          sub = at.sub;
          read = at.read;
          key = at.key;
          no_slash = at.no_slash;
          function = at.function;
          event_type =
              Present-Change view k _ new s.event_type_store t change
                (λ gone. free gone j b at.sub e at.read) at.event_type;
        };
    event_type = λ j b e. elim (Change-cases view k j new b _ t change e) [
      | inl (here, is) ↦
          subst (λ i. IsEventTypeAt service view s.function_store i b) here (fits b is)
      | inr old ↦ sound.event_type j b old
    ];
  }

  -- No subscription calls the function under the key `k`, and no event type has it as its authorizer.
  pub record IsUnused (s : Stores S) (k : String) : Type 0 where
    pub subscription :
        (j : String) (b : B) (sub : Subscription)
        → view s.subscription_store j ≡ some b
        → service.subscriptions.decode b ≡ some sub
        → k ≢ resource_key sub.space sub.function_id
    pub authorizer :
        (j : String) (b : B) (event_type : EventType) (id : String)
        → view s.event_type_store j ≡ some b
        → service.event_types.decode b ≡ some event_type
        → event_type.authorizer_id ≡ some id
        → k ≢ resource_key event_type.space id

  pub keep-function_store :
      (s : Stores S) (k : String) (new : Option B) (t : S)
      → Change view k new s.function_store t
      → (new ≡ none → IsUnused s k)
      → IsSound service view s
      → IsSound service view (record s { function_store = t })
  keep-function_store s k new t change free sound = record {
    subscription = λ j b e.
        let at = sound.subscription j b e in
        record {
          sub = at.sub;
          read = at.read;
          key = at.key;
          no_slash = at.no_slash;
          event_type = at.event_type;
          function =
              Present-Change view k _ new s.function_store t change
                (λ gone. let unused = free gone in unused.subscription j b at.sub e at.read)
                at.function;
        };
    event_type = λ j b e.
        let at = sound.event_type j b e in
        record {
          event_type = at.event_type;
          read = at.read;
          key = at.key;
          no_slash = at.no_slash;
          authorizer = λ id is.
              Present-Change view k _ new s.function_store t change
                (λ gone.
                  let unused = free gone in unused.authorizer j b at.event_type id e at.read is)
                (at.authorizer id is);
        };
  }
