-- ===== src/Api/Reading.antt =====
-- What the API replies on the subscriptions that it has created.
use event_gateway.Common.{ℕ, String, ◌≡◌, refl, ◌⊎◌, inl, inr, Option, none, List, []}
use event_gateway.Store.{IsKvStore}
use event_gateway.Resource.{Subscription, Error, store_error, Result, ok, err}
use event_gateway.Service.Defs.{Service, Stores, IsCodec}
use event_gateway.Service.Lookup.{subscription_path}
use event_gateway.Service.Reading.{Fetches, create_subscription-Fetches}
use event_gateway.Api.Defs.{
  Request, Decoder, Reply, Body, json_reply, error_response, subscription_body, Metric, answer,
  with_body,
}
use event_gateway.Api.Subscriptions.{create_subscription_handler, get_subscription_handler}

-- The reply has the status of a success and the body, or tells that the store has failed.
abbrev pub Shows : Body → Reply → Type 0
Shows body reply =
    ((reply.status ≡ 200) × (reply.body ≡ body))
    ⊎ ((m : String) × (reply.status ≡ 500) × (reply.body ≡ error_response (store_error m)))

answer-Shows :
    {A : Type 0} (failure : Error → ℕ) (body : A → Body) (gauge : List Metric) (counted : Metric)
    (result : Result A) (a : A)
    → ((m : String) → failure (store_error m) ≡ 500)
    → Fetches result a
    → Shows (body a) (answer failure 200 body gauge counted result)
unfolding answer
answer-Shows failure body gauge counted result a fails (inl e) = inl (rw e (refl, refl))
answer-Shows failure body gauge counted result a fails (inr (m, e)) =
    inr (m, rw e (fails m), rw e refl)

-- Only an output of the service is shown as a subscription.
answer-subscription_body :
    (failure : Error → ℕ) (success : ℕ) (gauge : List Metric) (counted : Metric)
    (result : Result Subscription) (sub : Subscription)
    → (answer failure success subscription_body gauge counted result).body ≡ subscription_body sub
    → result ≡ ok sub
unfolding answer
answer-subscription_body failure success gauge counted (ok a) sub e = cc
answer-subscription_body failure success gauge counted (err x) sub e = absurd (cc)

with_body-cases :
    {T A : Type 0} (P : T × Reply → Type 0) (s : T) (invalid : String → Error)
    (decoded : String ⊎ A) (next : A → T × Reply)
    → ((m : String) → P (s, json_reply 400 (error_response (invalid m)) []))
    → ((a : A) → P (next a))
    → P (with_body s invalid decoded next)
unfolding with_body
with_body-cases P s invalid (inl m) next refused accepted = refused m
with_body-cases P s invalid (inr a) next refused accepted = accepted a

module _ {S B R : Type 0} (service : Service S B) (decoder : Decoder R) (choice : ℕ → ℕ → ℕ)
    (view : S → String → Option B) (laws : IsKvStore service.kv view) where
  -- If the API replies to a POST with a subscription, there was none under its key, and a GET of its space
  -- and ID that comes next, on the stores that the POST has left, replies with status 200 and the same
  -- subscription, or with status 500 if the store fails to answer. The store keeps its laws, and JSON reads
  -- back the subscriptions that it writes.
  pub create_subscription_handler-Shows :
      (codec : IsCodec service.subscriptions) (r get : Request R) (sub : Subscription)
      (s : Stores S)
      → (create_subscription_handler service decoder choice r s).1.body ≡ subscription_body sub
      → get.by_name "space" ≡ sub.space
      → get.by_name "id" ≡ sub.id
      → (view s.subscription_store (subscription_path sub.space sub.id) ≡ none)
        × Shows (subscription_body sub) (
            get_subscription_handler service get
              (create_subscription_handler service decoder choice r s).0)
  unfolding create_subscription_handler get_subscription_handler
  create_subscription_handler-Shows codec r get sub s e space id =
      with_body-cases
        (λ out.
          out.1.body ≡ subscription_body sub
          → (view s.subscription_store (subscription_path sub.space sub.id) ≡ none)
            × Shows (subscription_body sub) (get_subscription_handler service get out.0))
        s _ (decoder.subscription r.body) _ (λ m shown. absurd (cc))
        (λ given shown.
          let new = record given { space = r.by_name "space" } in
          let made = answer-subscription_body _ _ _ _ _ sub shown in
          let (fresh, read) =
            create_subscription-Fetches service view laws codec choice new sub s made in
          (fresh, rw (space, id) (answer-Shows _ _ _ _ _ sub (λ m. refl) read)))
        e
