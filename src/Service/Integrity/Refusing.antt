-- ===== src/Service/Integrity/Refusing.antt =====
-- What is in use is not deleted.
use event_gateway.Common.{String, ◌≡◌, refl, sym, inl, inr, Option, some, NoSlash}
use event_gateway.Store.{IsKvStore}
use event_gateway.Resource.{Subscription, Error, err}
use event_gateway.Service.Defs.{Service, Stores, resource_key, if_passed}
use event_gateway.Service.Functions.{delete_function, delete_function_checks}
use event_gateway.Service.EventTypes.{delete_event_type, delete_event_type_checks}
use event_gateway.Service.Inversion.{Result-cases}
use event_gateway.Service.Integrity.{IsSound}
use event_gateway.Service.Integrity.Removing.{
  delete_function_checks-ok, delete_event_type_checks-ok,
}

module _ {S B : Type 0} (service : Service S B) (view : S → String → Option B)
    (laws : IsKvStore service.kv view) where
  -- A function that a stored subscription of the space calls is not deleted: `DeleteFunction` returns an
  -- error and leaves the stores as they are, if the references of the stores are sound and the space has no
  -- slash.
  pub delete_function-refused :
      (space id k : String) (b : B) (sub : Subscription) (s : Stores S)
      → NoSlash space
      → IsSound service view s
      → view s.subscription_store k ≡ some b
      → service.subscriptions.decode b ≡ some sub
      → sub.space ≡ space
      → sub.function_id ≡ id
      → (e : Error) × (delete_function service space id s ≡ (s, err e))
  unfolding delete_function if_passed
  delete_function-refused space id k b sub s plain sound here read spaces ids =
      elim (Result-cases (delete_function_checks service space id s)) [
        | inr (e, fails) ↦ (e, rw fails refl)
        | inl (done, passed) ↦
            let unused =
              delete_function_checks-ok service view laws space id s sound plain passed in
            absurd
              (unused.subscription k b sub here read (λ i. resource_key (sym spaces i) (sym ids i)))
      ]

  -- An event type that a stored subscription of the space is for is not deleted: `DeleteEventType` returns
  -- an error and leaves the stores as they are, if the references of the stores are sound and the space has
  -- no slash.
  pub delete_event_type-refused :
      (space name k : String) (b : B) (sub : Subscription) (s : Stores S)
      → NoSlash space
      → IsSound service view s
      → view s.subscription_store k ≡ some b
      → service.subscriptions.decode b ≡ some sub
      → sub.space ≡ space
      → sub.event_type ≡ name
      → (e : Error) × (delete_event_type service space name s ≡ (s, err e))
  unfolding delete_event_type if_passed
  delete_event_type-refused space name k b sub s plain sound here read spaces names =
      elim (Result-cases (delete_event_type_checks service space name s)) [
        | inr (e, fails) ↦ (e, rw fails refl)
        | inl (done, passed) ↦ absurd (
            delete_event_type_checks-ok service view laws space name s sound plain passed k b sub
              here read (λ i. resource_key (sym spaces i) (sym names i)))
      ]
