-- ===== src/Service/Integrity/Subscribing.antt =====
-- Creating and updating subscriptions keeps the references between the resources sound.
use event_gateway.Common.{
  ℕ, String, ◌≡◌, refl, sym, ap, subst, ◌∙◌, Option, none, some, NoSlash, eq_iff, ◌==◌,
}
use event_gateway.Store.{IsKvStore}
use event_gateway.Resource.{Subscription, EventType, ok, require, subscription_already_exists}
use event_gateway.Service.Defs.{Service, Stores, IsCodec, resource_key}
use event_gateway.Service.Validation.{
  IsValidating, validate_subscription, validate_subscription_update,
}
use event_gateway.Service.Lookup.{subscription_path, get_function, get_event_type, get_subscription}
use event_gateway.Service.Subscriptions.{
  create_subscription, create_subscription_checks, update_subscription, update_subscription_checks,
  conflict_if_sync, new_subscription_id,
}
use event_gateway.Service.Inversion.{
  bind-ok, then-ok, require-ok, marshal-ok_pair, read_one-ok, if_passed_keeps, if_passed-ok,
  written-ok, checked-ok,
}
use event_gateway.Service.Changes.{Present, put-Change, atomic_put-Change}
use event_gateway.Service.Integrity.{IsSound, IsSubscriptionAt}
use event_gateway.Service.Integrity.Keep.{keep-subscription_store}
use event_gateway.Service.Integrity.Creating.{get_function-Present, some-injective}
use event_gateway.Service.Integrity.Keys.{
  space_validator-NoSlash, resource_key-injective, subscription_path-resource_key,
}

-- An update that is accepted leaves these fields as they were.
pub record IsSameRoute (new old : Subscription) : Type 0 where
  pub type : new.type ≡ old.type
  pub event_type : new.event_type ≡ old.event_type
  pub function_id : new.function_id ≡ old.function_id
  pub path : new.path ≡ old.path
  pub method : new.method ≡ old.method

pub validate_subscription_update-SameRoute :
    (new old : Subscription) → validate_subscription_update new old ≡ ok tt → IsSameRoute new old
unfolding validate_subscription_update
validate_subscription_update-SameRoute new old e =
    let (type, e1) = then-ok (require (new.type == old.type) _) _ tt e in
    let (event_type, e2) = then-ok (require (new.event_type == old.event_type) _) _ tt e1 in
    let (function_id, e3) = then-ok (require (new.function_id == old.function_id) _) _ tt e2 in
    let (path, method) = then-ok (require (new.path == old.path) _) _ tt e3 in
    record {
      type = (eq_iff _ _).0 (require-ok _ _ type);
      event_type = (eq_iff _ _).0 (require-ok _ _ event_type);
      function_id = (eq_iff _ _).0 (require-ok _ _ function_id);
      path = (eq_iff _ _).0 (require-ok _ _ path);
      method = (eq_iff _ _).0 (require-ok _ _ method);
    }

module _ {S B : Type 0} (service : Service S B) (view : S → String → Option B)
    (laws : IsKvStore service.kv view) where
  get_event_type-Present :
      (s : Stores S) (space name : String) (t : EventType)
      → get_event_type service s space name ≡ ok t
      → Present view s.event_type_store (resource_key space name)
  unfolding get_event_type
  get_event_type-Present s space name t e =
      let (b, here, read) =
        read_one-ok service.kv view laws service.event_types s.event_type_store _ _ t e in
      (b, here)

  -- A subscription that is read stands under its own key.
  old-IsSubscriptionAt :
      (s : Stores S) (space id : String) (old : Subscription)
      → IsSound service view s
      → NoSlash space
      → get_subscription service s space id ≡ ok old
      → (old.space ≡ space) × Present view s.event_type_store (resource_key space old.event_type)
  unfolding get_subscription
  old-IsSubscriptionAt s space id old sound plain e =
      let (b, here, read) =
        read_one-ok service.kv view laws service.subscriptions s.subscription_store _ _ old e in
      let at = sound.subscription (subscription_path space id) b here in
      let is : at.sub ≡ old = some-injective _ _ (sym at.read ∙ read) in
      let keys =
        sym (subscription_path-resource_key space id)
        ∙ at.key
        ∙ subscription_path-resource_key at.sub.space at.sub.id in
      let (spaces, ids) =
        resource_key-injective space at.sub.space id at.sub.id plain at.no_slash keys in
      (
        sym (ap (λ x. x.space) is) ∙ sym spaces,
        subst (λ x. Present view s.event_type_store (resource_key x old.event_type)) (sym spaces)
            (subst (λ x. Present view s.event_type_store (resource_key at.sub.space x.event_type))
              is at.event_type),
      )

  module _ (codec : IsCodec service.subscriptions) (tags : IsValidating service) where
    valid-NoSlash :
        (given valid : Subscription)
        → validate_subscription service given ≡ ok valid
        → NoSlash valid.space
    unfolding validate_subscription
    valid-NoSlash given valid e =
        let (fine, is) = checked-ok _ _ _ valid e in
        let meets =
          tags.subscription valid (subst (λ x. service.check_subscription x ≡ none) is fine) in
        space_validator-NoSlash valid.space meets.space

    create_subscription_checks-ok :
        (choice : ℕ → ℕ → ℕ) (given new : Subscription) (s : Stores S) (b : B)
        → create_subscription_checks service choice given s ≡ ok (new, b)
        → IsSubscriptionAt service view s.function_store s.event_type_store
            (subscription_path new.space new.id)
            b
    unfolding create_subscription_checks
    create_subscription_checks-ok choice given new s b passed =
        let (valid, valid_is, e1) =
          bind-ok (validate_subscription service given) _ (new, b) passed in
        let sub = record valid { id = new_subscription_id valid } in
        let (fresh, e2) = then-ok (require _ (subscription_already_exists sub.id)) _ (new, b) e1 in
        let (free, e3) = then-ok (conflict_if_sync service choice s sub) _ (new, b) e2 in
        let (t, t_there, e4) =
          bind-ok (get_event_type service s sub.space sub.event_type) _ (new, b) e3 in
        let (f, f_there, e5) =
          bind-ok (get_function service s sub.space sub.function_id) _ (new, b) e4 in
        let (same, json) = marshal-ok_pair service.subscriptions _ sub (new, b) e5 in
        subst
          (λ x.
            IsSubscriptionAt service view s.function_store s.event_type_store
              (subscription_path x.space x.id) b)
          same
          (record {
            sub = sub;
            read = codec.decode_encode sub b json;
            key = refl;
            no_slash = valid-NoSlash given valid valid_is;
            function = get_function-Present service view laws s sub.space sub.function_id f f_there;
            event_type = get_event_type-Present s sub.space sub.event_type t t_there;
          })

    pub create_subscription-IsSound :
        (choice : ℕ → ℕ → ℕ) (given : Subscription) (s : Stores S)
        → IsSound service view s
        → IsSound service view (create_subscription service choice given s).0
    unfolding create_subscription
    create_subscription-IsSound choice given s sound =
        if_passed_keeps (IsSound service view) s _ _ sound (λ done passed.
          keep-subscription_store service view s _ (some done.1) _
            (atomic_put-Change view service.kv laws s.subscription_store _ done.1 _ _)
            (λ c is.
              subst
                (IsSubscriptionAt service view s.function_store s.event_type_store
                  (subscription_path done.0.space done.0.id))
                (some-injective done.1 c is)
                (create_subscription_checks-ok choice given done.0 s done.1 passed))
            sound)

    update_subscription_checks-ok :
        (id : String) (given new : Subscription) (s : Stores S) (b : B)
        → IsSound service view s
        → update_subscription_checks service id given s ≡ ok (new, b)
        → IsSubscriptionAt service view s.function_store s.event_type_store
            (subscription_path new.space new.id)
            b
    unfolding update_subscription_checks
    update_subscription_checks-ok id given new s b sound passed =
        let (sub, valid_is, e1) = bind-ok (validate_subscription service given) _ (new, b) passed in
        let (old, old_there, e2) =
          bind-ok (get_subscription service s sub.space id) _ (new, b) e1 in
        let (accepted, e3) = then-ok (validate_subscription_update sub old) _ (new, b) e2 in
        let (f, f_there, e4) =
          bind-ok (get_function service s sub.space sub.function_id) _ (new, b) e3 in
        let (same, json) = marshal-ok_pair service.subscriptions _ sub (new, b) e4 in
        let plain = valid-NoSlash given sub valid_is in
        let (spaces, event_type) = old-IsSubscriptionAt s sub.space id old sound plain old_there in
        let route = validate_subscription_update-SameRoute sub old accepted in
        subst
          (λ x.
            IsSubscriptionAt service view s.function_store s.event_type_store
              (subscription_path x.space x.id) b)
          same
          (record {
            sub = sub;
            read = codec.decode_encode sub b json;
            key = refl;
            no_slash = plain;
            function = get_function-Present service view laws s sub.space sub.function_id f f_there;
            event_type =
                subst (λ x. Present view s.event_type_store (resource_key sub.space x))
                  (sym route.event_type) event_type;
          })

    pub update_subscription-IsSound :
        (id : String) (given : Subscription) (s : Stores S)
        → IsSound service view s
        → IsSound service view (update_subscription service id given s).0
    unfolding update_subscription
    update_subscription-IsSound id given s sound =
        if_passed_keeps (IsSound service view) s _ _ sound (λ done passed.
          keep-subscription_store service view s _ (some done.1) _
            (put-Change view service.kv laws s.subscription_store _ done.1 _ _)
            (λ c is.
              subst
                (IsSubscriptionAt service view s.function_store s.event_type_store
                  (subscription_path done.0.space done.0.id))
                (some-injective done.1 c is)
                (update_subscription_checks-ok id given done.0 s done.1 sound passed))
            sound)

module _ {S B : Type 0} (service : Service S B) where
  -- If `UpdateSubscription` returns a subscription, there was one under the ID that it was given, in the
  -- same space, with the same type, event type, function, path and method.
  pub update_subscription-SameRoute :
      (id : String) (given sub : Subscription) (s : Stores S)
      → (update_subscription service id given s).1 ≡ ok sub
      → (old : Subscription) × (get_subscription service s sub.space id ≡ ok old)
        × IsSameRoute sub old
  unfolding update_subscription update_subscription_checks
  update_subscription-SameRoute id given sub s e =
      let ((new, buf), passed, wrote, state) = if_passed-ok s _ _ sub e in
      let (valid, valid_is, e1) =
        bind-ok (validate_subscription service given) _ (new, buf) passed in
      let (old, there, e2) = bind-ok (get_subscription service s valid.space id) _ (new, buf) e1 in
      let (accepted, e3) = then-ok (validate_subscription_update valid old) _ (new, buf) e2 in
      let (f, f_there, e4) =
        bind-ok (get_function service s valid.space valid.function_id) _ (new, buf) e3 in
      let (same, json) = marshal-ok_pair service.subscriptions _ valid (new, buf) e4 in
      let (stored, is) = written-ok _ _ new sub wrote in
      subst
        (λ x.
          (old : Subscription) × (get_subscription service s x.space id ≡ ok old)
          × IsSameRoute x old)
        (same ∙ is) (old, there, validate_subscription_update-SameRoute valid old accepted)
