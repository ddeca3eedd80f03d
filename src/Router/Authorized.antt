-- ===== src/Router/Authorized.antt =====
-- What the authorization of an event tells.
use event_gateway.Common.{
  String, ◌≡◌, refl, ap, subst, ◌⊎◌, inl, inr, Option, none, some, [], ◌∷◌, ◌++◌,
}
use event_gateway.Resource.{Function}
use event_gateway.Event.Defs.{
  nil, HttpRequestData, Authorization, Gateway, absent, object, not_object, Event, type_of,
  HttpRequest, Failure, attributes, data_of,
}
use event_gateway.Event.Parsing.{new_http_request_data}
use event_gateway.Router.World.{
  AuthorizerResponse, called, Env, World, Run, continue_with, ◌>>=◌, read_heap, write_heap, on_heap,
}
use event_gateway.Router.Calls.{
  invoke, call_with, authorizer_called, call_authorizer, grant, gateway_of, granted_unless, decided,
  answered, asked, asked_if, authorize_event_type,
}

pub some-injective : {A : Type 0} {a b : A} → some a ≡ some b → a ≡ b
some-injective e = cc

continue_with-some :
    {J X A B : Type 0} (r : Option A × World J X) (next : A → Run J X B) (b : B)
    → (continue_with r next).0 ≡ some b
    → (a : A) × (r.0 ≡ some a)
      × ((next a r.1).0 ≡ some b)
      × ((continue_with r next).1 ≡ (next a r.1).1)
continue_with-some (some a, w) next b e = (a, refl, e, refl)
continue_with-some (none, w) next b e = absurd (cc)

pub bind-some :
    {J X A B : Type 0} (m : Run J X A) (next : A → Run J X B) (v : World J X) (b : B)
    → ((m >>= next) v).0 ≡ some b
    → (a : A) × ((m v).0 ≡ some a)
      × ((next a (m v).1).0 ≡ some b)
      × (((m >>= next) v).1 ≡ (next a (m v).1).1)
unfolding ◌>>=◌
bind-some m next v b e = continue_with-some (m v) next b e

-- The event with other extensions, as the authorization leaves it.
pub record IsSameBut {J : Type 0} (asked granted : Event J) : Type 0 where
  pub data_kept : data_of granted ≡ data_of asked
  pub attributes_kept :
      record (attributes granted) { extensions = (attributes asked).extensions } ≡ attributes asked

IsSameBut-refl : {J : Type 0} (e : Event J) → IsSameBut e e
IsSameBut-refl e = record { data_kept = refl; attributes_kept = refl }

module _ {J X : Type 0} (env : Env J X) where
  call_with-some :
      (f : Function) (payload : String ⊎ String) (v : World J X) (text : String)
      → (call_with env f payload v).0 ≡ some (inr text)
      → (p : String) × (payload ≡ inr p)
        × ((call_with env f payload v).1.effects ≡ v.effects ++ (called f p (inr text) ∷ []))
  unfolding invoke
  call_with-some f (inl m) v text e = absurd (cc)
  call_with-some f (inr payload) v text e =
      (payload, refl, ap (λ r. v.effects ++ (called f payload r ∷ [])) (some-injective e))

  pub authorizer_called-some :
      (f : Option Function) (request : HttpRequestData J) (e : Event J) (v : World J X)
      (text : String)
      → (authorizer_called env f request e v).0 ≡ some (inr text)
      → (g : Function) × (f ≡ some g)
        × (p : String) × (env.marshal_authorizer v.heap request e ≡ inr p)
        × ((authorizer_called env f request e v).1.effects
            ≡ v.effects ++ (called g p (inr text) ∷ []))
  unfolding read_heap ◌>>=◌
  authorizer_called-some none request e v text is = absurd (cc)
  authorizer_called-some (some f) request e v text is =
      let (p, encodes, effects) = call_with-some f _ v text is in (f, refl, p, encodes, effects)

  grant-some :
      (g : Gateway) (authorization : Option Authorization) (e granted : Event J) (v : World J X)
      → (grant env g authorization e v).0 ≡ some (some granted)
      → IsSameBut e granted × ((grant env g authorization e v).1.effects ≡ v.effects)
  unfolding ◌>>=◌ on_heap read_heap write_heap
  grant-some absent authorization e granted v is = (
    subst (IsSameBut e) (some-injective (some-injective is))
        (record { data_kept = refl; attributes_kept = refl }),
    refl,
  )
  grant-some (object n) authorization e granted v is =
      (subst (IsSameBut e) (some-injective (some-injective is)) (IsSameBut-refl e), refl)
  grant-some not_object authorization e granted v is = absurd (cc)

  granted_unless-some :
      (m : Option String) (authorization : Option Authorization) (e granted : Event J)
      (v : World J X)
      → (granted_unless env m authorization e v).0 ≡ some (some granted)
      → (m ≡ none)
        × IsSameBut e granted
        × ((granted_unless env m authorization e v).1.effects ≡ v.effects)
  granted_unless-some (some m) authorization e granted v is = absurd (cc)
  granted_unless-some none authorization e granted v is =
      let (same, effects) = grant-some (gateway_of env e) authorization e granted v is in
      (refl, same, effects)

  decided-some :
      (r : Option AuthorizerResponse) (e granted : Event J) (v : World J X)
      → (decided env r e v).0 ≡ some (some granted)
      → (response : AuthorizerResponse) × (r ≡ some response)
        × (response.authorization_error ≡ none)
        × IsSameBut e granted
        × ((decided env r e v).1.effects ≡ v.effects)
  decided-some none e granted v is = absurd (cc)
  decided-some (some r) e granted v is =
      let (accepts, same, effects) =
        granted_unless-some r.authorization_error r.authorization e granted v is in
      (r, refl, accepts, same, effects)

  pub answered-some :
      (r : Failure ⊎ String) (e granted : Event J) (v : World J X)
      → (answered env r e v).0 ≡ some (some granted)
      → (text : String) × (r ≡ inr text)
        × (response : AuthorizerResponse) × (env.unmarshal_authorizer text ≡ some response)
        × (response.authorization_error ≡ none)
        × IsSameBut e granted
        × ((answered env r e v).1.effects ≡ v.effects)
  answered-some (inl failure) e granted v is = absurd (cc)
  answered-some (inr text) e granted v is =
      let (response, decodes, accepts, same, effects) =
        decided-some (env.unmarshal_authorizer text) e granted v is in
      (text, refl, response, decodes, accepts, same, effects)

  asked-same :
      (space id : String) (e granted : Event J) (r : Option HttpRequest) (v : World J X)
      → (asked env space id e r v).0 ≡ some (some granted)
      → IsSameBut e granted
  asked-same space id e granted none v is = absurd (cc)
  asked-same space id e granted (some r) v is =
      let (result, replied, rest, last) =
        bind-some (call_authorizer env space id (new_http_request_data env.formats r nil) e) _ v
          (some granted) is in
      let (text, is_text, response, decodes, accepts, same, kept) =
        answered-some result e granted _ rest in
      same

  asked_if-same :
      (authorizer : Option String) (space : String) (e granted : Event J) (r : Option HttpRequest)
      (v : World J X)
      → (asked_if env authorizer space e r v).0 ≡ some (some granted)
      → IsSameBut e granted
  asked_if-same none space e granted r v is =
      subst (IsSameBut e) (some-injective (some-injective is)) (IsSameBut-refl e)
  asked_if-same (some id) space e granted r v is = asked-same space id e granted r v is

  -- The authorization leaves the type of an event.
  pub authorize_event_type-type_of :
      (space : String) (e granted : Event J) (r : Option HttpRequest) (v : World J X)
      → (authorize_event_type env space e r v).0 ≡ some (some granted)
      → type_of granted ≡ type_of e
  unfolding authorize_event_type
  authorize_event_type-type_of space e granted r v is =
      ap (λ a. a.event_type) (asked_if-same _ space e granted r v is).attributes_kept
