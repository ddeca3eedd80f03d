-- ===== src/Service/Integrity/Removing.antt =====
-- Deleting resources keeps the references between the others sound: `DeleteFunction` and
-- `DeleteEventType` find out who refers to what they delete.
use event_gateway.Common.{
  String, ◌≡◌, refl, sym, ap, subst, ◌∙◌, inl, inr, Option, none, some, List, [], ◌∷◌, true,
  NoSlash, eq_iff, ◌==◌, arith, has_prefix,
}
use event_gateway.Store.{IsKvStore, In}
use event_gateway.Resource.{Subscription, EventType, ok}
use event_gateway.Service.Defs.{Service, Stores, resource_key, space_path}
use event_gateway.Service.Lookup.{subscription_path, list_subscriptions, list_event_types}
use event_gateway.Service.Functions.{
  delete_function, delete_function_checks, no_subscription, no_authorizer, is_authorizer,
}
use event_gateway.Service.EventTypes.{delete_event_type, delete_event_type_checks, no_subscriber}
use event_gateway.Service.Subscriptions.{delete_subscription}
use event_gateway.Service.Inversion.{bind-ok, then-ok, if_passed_keeps}
use event_gateway.Service.Changes.{delete-Change, read_all_complete}
use event_gateway.Service.Integrity.{IsSound}
use event_gateway.Service.Integrity.Creating.{some-injective}
use event_gateway.Service.Integrity.Keep.{
  keep-subscription_store, keep-event_type_store, keep-function_store, Unsubscribed, IsUnused,
}
use event_gateway.Service.Integrity.Keys.{
  resource_key-injective, subscription_path-resource_key, resource_key-below, resource_key-ne-nil,
}

no_subscription-In :
    (id : String) (subs : List Subscription) (sub : Subscription)
    → no_subscription id subs ≡ ok tt
    → In sub subs
    → id ≡ sub.function_id
    → ⊥
unfolding no_subscription
no_subscription-In id [] sub e m is = m
no_subscription-In id (first ∷ subs) sub e m is = elim m [
  | inl here ↦
      let same : (id == first.function_id) ≡ true =
        (eq_iff _ _).1 (is ∙ ap (λ x. x.function_id) here) in
      absurd (ground arith)
  | inr later ↦ no_subscription-In id subs sub (ground arith) later is
]

no_subscriber-In :
    (name : String) (subs : List Subscription) (sub : Subscription)
    → no_subscriber name subs ≡ ok tt
    → In sub subs
    → name ≡ sub.event_type
    → ⊥
unfolding no_subscriber
no_subscriber-In name [] sub e m is = m
no_subscriber-In name (first ∷ subs) sub e m is = elim m [
  | inl here ↦
      let same : (name == first.event_type) ≡ true =
        (eq_iff _ _).1 (is ∙ ap (λ x. x.event_type) here) in
      absurd (ground arith)
  | inr later ↦ no_subscriber-In name subs sub (ground arith) later is
]

no_authorizer-In :
    (id : String) (types : List EventType) (t : EventType)
    → no_authorizer id types ≡ ok tt
    → In t types
    → t.authorizer_id ≡ some id
    → ⊥
unfolding no_authorizer
no_authorizer-In id [] t e m is = m
no_authorizer-In id (first ∷ types) t e m is = elim m [
  | inl here ↦
      let named = sym (ap (λ x. x.authorizer_id) here) ∙ is in
      let same : is_authorizer id first.authorizer_id ≡ true =
        subst (λ a. is_authorizer id a ≡ true) (sym named) ((eq_iff id id).1 refl) in
      absurd (ground arith)
  | inr later ↦ no_authorizer-In id types t (ground arith) later is
]

module _ {S B : Type 0} (service : Service S B) (view : S → String → Option B)
    (laws : IsKvStore service.kv view) where
  listed-subscription :
      (s : Stores S) (space k : String) (b : B) (sub : Subscription) (subs : List Subscription)
      → IsSound service view s
      → list_subscriptions service s space [] ≡ ok subs
      → view s.subscription_store k ≡ some b
      → service.subscriptions.decode b ≡ some sub
      → sub.space ≡ space
      → In sub subs
  unfolding list_subscriptions
  listed-subscription s space k b sub subs sound e here read same =
      let at = sound.subscription k b here in
      let is : at.sub ≡ sub = some-injective _ _ (sym at.read ∙ read) in
      let key : k ≡ resource_key space sub.id =
        at.key
        ∙ ap (λ x. subscription_path x.space x.id) is
        ∙ subscription_path-resource_key sub.space sub.id
        ∙ ap (λ x. resource_key x sub.id) same in
      read_all_complete view service.kv laws service.subscriptions _ s.subscription_store
        (space_path space) k b sub subs e
        (ap (λ x. has_prefix x (space_path space)) key ∙ resource_key-below space sub.id)
        (λ empty. resource_key-ne-nil space sub.id (sym key ∙ empty)) here read

  listed-event_type :
      (s : Stores S) (space k : String) (b : B) (t : EventType) (types : List EventType)
      → IsSound service view s
      → list_event_types service s space [] ≡ ok types
      → view s.event_type_store k ≡ some b
      → service.event_types.decode b ≡ some t
      → t.space ≡ space
      → In t types
  unfolding list_event_types
  listed-event_type s space k b t types sound e here read same =
      let at = sound.event_type k b here in
      let is : at.event_type ≡ t = some-injective _ _ (sym at.read ∙ read) in
      let key : k ≡ resource_key space t.name =
        at.key ∙ ap (λ x. resource_key x.space x.name) is ∙ ap (λ x. resource_key x t.name) same in
      read_all_complete view service.kv laws service.event_types _ s.event_type_store
        (space_path space) k b t types e
        (ap (λ x. has_prefix x (space_path space)) key ∙ resource_key-below space t.name)
        (λ empty. resource_key-ne-nil space t.name (sym key ∙ empty)) here read

  -- A key that a stored subscription refers to is one of the subscription's space.
  referred :
      (s : Stores S) (space x k : String) (b : B) (sub : Subscription) (y : String)
      → IsSound service view s
      → NoSlash space
      → view s.subscription_store k ≡ some b
      → service.subscriptions.decode b ≡ some sub
      → resource_key space x ≡ resource_key sub.space y
      → (space ≡ sub.space) × (x ≡ y)
  referred s space x k b sub y sound plain here read e =
      let at = sound.subscription k b here in
      let is : at.sub ≡ sub = some-injective _ _ (sym at.read ∙ read) in
      resource_key-injective space sub.space x y plain (subst (λ z. NoSlash z.space) is at.no_slash)
        e

  pub delete_function_checks-ok :
      (space id : String) (s : Stores S)
      → IsSound service view s
      → NoSlash space
      → delete_function_checks service space id s ≡ ok tt
      → IsUnused service view s (resource_key space id)
  unfolding delete_function_checks
  delete_function_checks-ok space id s sound plain passed =
      let (subs, subs_are, e1) = bind-ok (list_subscriptions service s space []) _ tt passed in
      let (unsubscribed, e2) = then-ok (no_subscription id subs) _ tt e1 in
      let (types, types_are, unauthorized) =
        bind-ok (list_event_types service s space []) _ tt e2 in
      record {
        subscription = λ k b sub here read e.
            let (spaces, ids) =
              referred s space id k b sub sub.function_id sound plain here read e in
            no_subscription-In id subs sub unsubscribed
              (listed-subscription s space k b sub subs sound subs_are here read (sym spaces)) ids;
        authorizer = λ k b t i here read authorizer e.
            let at = sound.event_type k b here in
            let is : at.event_type ≡ t = some-injective _ _ (sym at.read ∙ read) in
            let (spaces, ids) =
              resource_key-injective space t.space id i plain
                (subst (λ z. NoSlash z.space) is at.no_slash) e in
            no_authorizer-In id types t unauthorized
              (listed-event_type s space k b t types sound types_are here read (sym spaces))
              (authorizer ∙ ap some (sym ids));
      }

  pub delete_function-IsSound :
      (space id : String) (s : Stores S)
      → NoSlash space
      → IsSound service view s
      → IsSound service view (delete_function service space id s).0
  unfolding delete_function
  delete_function-IsSound space id s plain sound =
      if_passed_keeps (IsSound service view) s _ _ sound (λ done passed.
        keep-function_store service view s (resource_key space id) none _
          (delete-Change view service.kv laws s.function_store (resource_key space id) _ tt)
          (λ gone. delete_function_checks-ok space id s sound plain passed) sound)

  pub delete_event_type_checks-ok :
      (space name : String) (s : Stores S)
      → IsSound service view s
      → NoSlash space
      → delete_event_type_checks service space name s ≡ ok tt
      → Unsubscribed service view s (resource_key space name)
  unfolding delete_event_type_checks
  delete_event_type_checks-ok space name s sound plain passed k b sub here read e =
      let (subs, subs_are, unsubscribed) =
        bind-ok (list_subscriptions service s space []) _ tt passed in
      let (spaces, names) = referred s space name k b sub sub.event_type sound plain here read e in
      no_subscriber-In name subs sub unsubscribed
        (listed-subscription s space k b sub subs sound subs_are here read (sym spaces)) names

  pub delete_event_type-IsSound :
      (space name : String) (s : Stores S)
      → NoSlash space
      → IsSound service view s
      → IsSound service view (delete_event_type service space name s).0
  unfolding delete_event_type
  delete_event_type-IsSound space name s plain sound =
      if_passed_keeps (IsSound service view) s _ _ sound (λ done passed.
        keep-event_type_store service view s (resource_key space name) none _
          (delete-Change view service.kv laws s.event_type_store (resource_key space name) _ tt)
          (λ b is. absurd (cc))
          (λ gone. delete_event_type_checks-ok space name s sound plain passed) sound)

  pub delete_subscription-IsSound :
      (space id : String) (s : Stores S)
      → IsSound service view s
      → IsSound service view (delete_subscription service space id s).0
  unfolding delete_subscription
  delete_subscription-IsSound space id s sound =
      if_passed_keeps (IsSound service view) s _ _ sound (λ done passed.
        keep-subscription_store service view s (subscription_path space id) none _
          (delete-Change view service.kv laws s.subscription_store (subscription_path space id) _
            tt)
          (λ b is. absurd (cc)) sound)
