-- ===== src/Service/Integrity/Creating.antt =====
-- Creating and updating resources keeps the references between them sound.
use event_gateway.Common.{String, ◌≡◌, refl, subst, inl, inr, Option, none, some}
use event_gateway.Store.{IsKvStore}
use event_gateway.Resource.{Function, EventType, ok, require, event_type_already_exists}
use event_gateway.Service.Defs.{Service, Stores, IsCodec, resource_key, written}
use event_gateway.Service.Validation.{IsValidating, validate_event_type}
use event_gateway.Service.Lookup.{get_function, get_event_type}
use event_gateway.Service.Functions.{create_function, update_function}
use event_gateway.Service.EventTypes.{
  check_authorizer, create_event_type, create_event_type_checks, update_event_type,
  update_event_type_checks, is_ok,
}
use event_gateway.Service.Inversion.{
  Result-cases, bind-ok, then-ok, require-ok, marshal-ok_pair, read_one-ok, if_passed_keeps,
  checked-ok,
}
use event_gateway.Service.Changes.{Present, put-Change, atomic_put-Change}
use event_gateway.Service.Integrity.{IsSound, IsEventTypeAt}
use event_gateway.Service.Integrity.Keep.{keep-event_type_store, keep-function_store}
use event_gateway.Service.Integrity.Keys.{space_validator-NoSlash}

pub some-injective : {B : Type 0} (b c : B) → some b ≡ some c → b ≡ c
some-injective b c e = cc

module _ {S B : Type 0} (service : Service S B) (view : S → String → Option B)
    (laws : IsKvStore service.kv view) where
  pub create_function-IsSound :
      (f : Function) (s : Stores S)
      → IsSound service view s
      → IsSound service view (create_function service f s).0
  unfolding create_function
  create_function-IsSound f s sound =
      if_passed_keeps (IsSound service view) s _ _ sound (λ done passed.
        (keep-function_store service view s _ (some done.1) _
          (atomic_put-Change view service.kv laws s.function_store _ done.1 _ _)
          (λ gone. absurd (cc)) sound))

  pub update_function-IsSound :
      (f : Function) (s : Stores S)
      → IsSound service view s
      → IsSound service view (update_function service f s).0
  unfolding update_function
  update_function-IsSound f s sound =
      if_passed_keeps (IsSound service view) s _ _ sound (λ done passed.
        (keep-function_store service view s _ (some done.1) _
          (put-Change view service.kv laws s.function_store _ done.1 _ _) (λ gone. absurd (cc))
          sound))

  pub get_function-Present :
      (s : Stores S) (space id : String) (f : Function)
      → get_function service s space id ≡ ok f
      → Present view s.function_store (resource_key space id)
  unfolding get_function
  get_function-Present s space id f e =
      let (b, here, read) =
        read_one-ok service.kv view laws service.functions s.function_store _ _ f e in
      (b, here)

  check_authorizer-Present :
      (s : Stores S) (space : String) (authorizer : Option String) (id : String)
      → check_authorizer service s space authorizer ≡ ok tt
      → authorizer ≡ some id
      → Present view s.function_store (resource_key space id)
  unfolding check_authorizer
  check_authorizer-Present s space none id e is = absurd (cc)
  check_authorizer-Present s space (some i) id e is =
      let named : i ≡ id = cc in
      subst (λ j. Present view s.function_store (resource_key space j)) named
        (elim (Result-cases (get_function service s space i)) [
          | inl (f, there) ↦ get_function-Present s space i f there
          | inr (x, fails) ↦
              let passed = require-ok (is_ok (get_function service s space i)) _ e in absurd (cc)
        ])

  module _ (codec : IsCodec service.event_types) (tags : IsValidating service) where
    -- What the checks of `CreateEventType` and `UpdateEventType` have in common.
    new-IsEventTypeAt :
        (given t : EventType) (s : Stores S) (b : B)
        → validate_event_type service given ≡ ok t
        → check_authorizer service s t.space t.authorizer_id ≡ ok tt
        → service.event_types.encode t ≡ inr b
        → IsEventTypeAt service view s.function_store (resource_key t.space t.name) b
    unfolding validate_event_type
    new-IsEventTypeAt given t s b valid authorized written =
        let (fine, is) = checked-ok _ _ _ t valid in
        let accepted : service.check_event_type t ≡ none =
          subst (λ x. service.check_event_type x ≡ none) is fine in
        let meets = tags.event_type t accepted in
        record {
          event_type = t;
          read = codec.decode_encode t b written;
          key = refl;
          no_slash = space_validator-NoSlash t.space meets.space;
          authorizer =
              λ id here. check_authorizer-Present s t.space t.authorizer_id id authorized here;
        }

    create_event_type_checks-ok :
        (given t : EventType) (s : Stores S) (b : B)
        → create_event_type_checks service given s ≡ ok (t, b)
        → IsEventTypeAt service view s.function_store (resource_key t.space t.name) b
    unfolding create_event_type_checks
    create_event_type_checks-ok given t s b passed =
        let (x, valid, rest) = bind-ok (validate_event_type service given) _ (t, b) passed in
        let (fresh, more) = then-ok (require _ (event_type_already_exists x.name)) _ (t, b) rest in
        let (authorized, last) =
          then-ok (check_authorizer service s x.space x.authorizer_id) _ (t, b) more in
        let (same, json) = marshal-ok_pair service.event_types _ x (t, b) last in
        subst (λ y. IsEventTypeAt service view s.function_store (resource_key y.space y.name) b)
          same (new-IsEventTypeAt given x s b valid authorized json)

    pub create_event_type-IsSound :
        (given : EventType) (s : Stores S)
        → IsSound service view s
        → IsSound service view (create_event_type service given s).0
    unfolding create_event_type
    create_event_type-IsSound given s sound =
        if_passed_keeps (IsSound service view) s _ _ sound (λ done passed.
          keep-event_type_store service view s _ (some done.1) _
            (atomic_put-Change view service.kv laws s.event_type_store _ done.1 _ _)
            (λ c is.
              subst
                (IsEventTypeAt service view s.function_store
                  (resource_key done.0.space done.0.name))
                (some-injective done.1 c is)
                (create_event_type_checks-ok given done.0 s done.1 passed))
            (λ gone. absurd (cc)) sound)

    update_event_type_checks-ok :
        (given t : EventType) (s : Stores S) (b : B)
        → update_event_type_checks service given s ≡ ok (t, b)
        → IsEventTypeAt service view s.function_store (resource_key t.space t.name) b
    unfolding update_event_type_checks
    update_event_type_checks-ok given t s b passed =
        let (x, valid, rest) = bind-ok (validate_event_type service given) _ (t, b) passed in
        let (old, there, more) = bind-ok (get_event_type service s x.space x.name) _ (t, b) rest in
        let (authorized, last) =
          then-ok (check_authorizer service s x.space x.authorizer_id) _ (t, b) more in
        let (same, json) = marshal-ok_pair service.event_types _ x (t, b) last in
        subst (λ y. IsEventTypeAt service view s.function_store (resource_key y.space y.name) b)
          same (new-IsEventTypeAt given x s b valid authorized json)

    pub update_event_type-IsSound :
        (given : EventType) (s : Stores S)
        → IsSound service view s
        → IsSound service view (update_event_type service given s).0
    unfolding update_event_type
    update_event_type-IsSound given s sound =
        if_passed_keeps (IsSound service view) s _ _ sound (λ done passed.
          keep-event_type_store service view s _ (some done.1) _
            (put-Change view service.kv laws s.event_type_store _ done.1 _ _)
            (λ c is.
              subst
                (IsEventTypeAt service view s.function_store
                  (resource_key done.0.space done.0.name))
                (some-injective done.1 c is)
                (update_event_type_checks-ok given done.0 s done.1 passed))
            (λ gone. absurd (cc)) sound)
