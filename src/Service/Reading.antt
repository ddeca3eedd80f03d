-- ===== src/Service/Reading.antt =====
-- What the services read of the resources that they have created.
use event_gateway.Common.{
  String, ℕ, ◌≡◌, ◌⊎◌, refl, sym, ap, ◌∙◌, subst, inl, inr, Option, none, some, eq_refl,
}
use event_gateway.Store.{IsKvStore, GetResult, found, key_not_found}
use event_gateway.Resource.{
  Function, Subscription, Error, store_error, Result, ok, err, require, function_already_registered,
  subscription_already_exists,
}
use event_gateway.Service.Defs.{
  Service, Stores, Codec, IsCodec, resource_key, read_one, reading, decoded,
}
use event_gateway.Service.Validation.{validate_function, validate_subscription}
use event_gateway.Service.Lookup.{subscription_path, get_function, get_event_type, get_subscription}
use event_gateway.Service.Functions.{create_function, create_function_checks}
use event_gateway.Service.Subscriptions.{
  create_subscription, create_subscription_checks, conflict_if_sync, new_subscription_id,
}
use event_gateway.Service.Inversion.{bind-ok, then-ok, marshal-ok_pair, if_passed-ok, written-ok}
use event_gateway.Service.Changes.{written-state}

-- A read returns the resource, unless the store fails to answer.
abbrev pub Fetches : {A : Type 0} → Result A → A → Type 0
Fetches r a = (r ≡ ok a) ⊎ ((m : String) × (r ≡ err (store_error m)))

reading-Fetches :
    {A B : Type 0} (c : Codec A B) (missing : Error) (r : GetResult B) (a : A)
    → ((b : B) → r ≡ found b → c.decode b ≡ some a)
    → (r ≡ key_not_found → ⊥)
    → Fetches (reading c missing r) a
reading-Fetches c missing (found b) a value there = inl (ap decoded (value b refl))
reading-Fetches c missing key_not_found a value there = absurd (there refl)
reading-Fetches c missing (GetResult.failed m) a value there = inr (m, refl)

module _ {S B : Type 0} (service : Service S B) (view : S → String → Option B)
    (laws : IsKvStore service.kv view) where
  read_one-Fetches :
      {A : Type 0} (c : Codec A B) (s : S) (k : String) (missing : Error) (a : A) (b : B)
      → view s k ≡ some b
      → c.decode b ≡ some a
      → Fetches (read_one service.kv c s k missing) a
  unfolding read_one
  read_one-Fetches c s k missing a b here json =
      reading-Fetches c missing (service.kv.get s k) a
        (λ d e.
          let same : d ≡ b = (let both = sym (laws.get_found s k d e) ∙ here in cc) in
          ap c.decode same ∙ json)
        (λ e. let gone = laws.get_missing s k e in absurd (cc))

  atomic_put-view :
      (s : S) (k : String) (b : B)
      → (service.kv.atomic_put s k b).1 ≡ none
      → (view s k ≡ none) × (view (service.kv.atomic_put s k b).0 k ≡ some b)
  atomic_put-view s k b e =
      let (fresh, now) = laws.atomic_put_ok s k b k e in (fresh, now ∙ rw (eq_refl k) refl)

  -- If `CreateFunction` returns a function, there was none under its key, and `GetFunction` of its space
  -- and ID returns it from then on, unless the store fails to answer.
  pub create_function-Fetches :
      (codec : IsCodec service.functions) (given f : Function) (s : Stores S)
      → (create_function service given s).1 ≡ ok f
      → (view s.function_store (resource_key f.space f.id) ≡ none)
        × Fetches (get_function service (create_function service given s).0 f.space f.id) f
  unfolding create_function create_function_checks get_function
  create_function-Fetches codec given f s e =
      let ((fn, byt), passed, wrote, state) = if_passed-ok s _ _ f e in
      let (valid, valid_is, e1) = bind-ok (validate_function service given) _ (fn, byt) passed in
      let (fresh, e2) = then-ok (require _ (function_already_registered valid.id)) _ (fn, byt) e1 in
      let (same, json) = marshal-ok_pair service.functions _ valid (fn, byt) e2 in
      let (stored, is) = written-ok _ _ fn f wrote in
      let (new, now) = atomic_put-view s.function_store (resource_key fn.space fn.id) byt stored in
      let key = resource_key fn.space fn.id in
      let here =
        ap (λ t. view t.function_store key) state
        ∙ ap (λ x. view x key) (written-state (service.kv.atomic_put s.function_store key byt) _ fn)
        ∙ now in
      let read : service.functions.decode byt ≡ some fn =
        codec.decode_encode valid byt json ∙ ap some same in
      subst
        (λ x.
          (view s.function_store (resource_key x.space x.id) ≡ none)
          × Fetches (get_function service (create_function service given s).0 x.space x.id) x)
        is (new, read_one-Fetches service.functions _ key _ fn byt here read)

  -- If `CreateSubscription` returns a subscription, there was none under its key, and `GetSubscription`
  -- of its space and ID, on the stores that `CreateSubscription` has left, returns it, unless the store
  -- fails to answer. The store keeps its laws, and JSON reads back the subscriptions that it writes.
  pub create_subscription-Fetches :
      (codec : IsCodec service.subscriptions) (choice : ℕ → ℕ → ℕ) (given sub : Subscription)
      (s : Stores S)
      → (create_subscription service choice given s).1 ≡ ok sub
      → (view s.subscription_store (subscription_path sub.space sub.id) ≡ none)
        × Fetches
            (get_subscription service
              (create_subscription service choice given s).0
              sub.space
              sub.id)
            sub
  unfolding create_subscription create_subscription_checks get_subscription
  create_subscription-Fetches codec choice given sub s e =
      let ((new, buf), passed, wrote, state) = if_passed-ok s _ _ sub e in
      let (valid, valid_is, e1) =
        bind-ok (validate_subscription service given) _ (new, buf) passed in
      let named = record valid { id = new_subscription_id valid } in
      let (free, e2) = then-ok (require _ (subscription_already_exists named.id)) _ (new, buf) e1 in
      let (routed, e3) = then-ok (conflict_if_sync service choice s named) _ (new, buf) e2 in
      let (t, t_there, e4) =
        bind-ok (get_event_type service s named.space named.event_type) _ (new, buf) e3 in
      let (f, f_there, e5) =
        bind-ok (get_function service s named.space named.function_id) _ (new, buf) e4 in
      let (same, json) = marshal-ok_pair service.subscriptions _ named (new, buf) e5 in
      let (stored, is) = written-ok _ _ new sub wrote in
      let key = subscription_path new.space new.id in
      let (fresh, now) = atomic_put-view s.subscription_store key buf stored in
      let here =
        ap (λ t. view t.subscription_store key) state
        ∙ ap (λ x. view x key)
            (written-state (service.kv.atomic_put s.subscription_store key buf) _ new)
        ∙ now in
      let read : service.subscriptions.decode buf ≡ some new =
        codec.decode_encode named buf json ∙ ap some same in
      subst
        (λ x.
          (view s.subscription_store (subscription_path x.space x.id) ≡ none)
          × Fetches
              (get_subscription service (create_subscription service choice given s).0 x.space x.id)
              x)
        is (fresh, read_one-Fetches service.subscriptions _ key _ new buf here read)
