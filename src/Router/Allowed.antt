-- ===== src/Router/Allowed.antt =====
-- Which events their authorizer has allowed.
use event_gateway.Common.{
  String, ◌≡◌, sym, ap, ◌∙◌, subst, inr, Option, none, some, List, [], ◌∷◌, ◌++◌,
}
use event_gateway.Resource.{Function}
use event_gateway.Event.Defs.{nil, Event, type_of, HttpRequest, Heap}
use event_gateway.Event.Parsing.{new_http_request_data}
use event_gateway.Cache.Target.{event_type_of, function_of}
use event_gateway.Router.World.{AuthorizerResponse, Effect, called, Env, World}
use event_gateway.Router.Calls.{
  call_authorizer, asked, authorizer_of, asked_if, authorize_event_type,
}
use event_gateway.Router.Authorized.{
  some-injective, bind-some, IsSameBut, answered-some, authorizer_called-some,
  authorize_event_type-type_of,
}

-- The handling of the request of a client: that request, or none for the router's own events.
abbrev pub IsOf : HttpRequest → Option HttpRequest → Type 0
IsOf served none = Unit
IsOf served (some r) = r ≡ served

module _ {J X : Type 0} (env : Env J X) (served : HttpRequest) where
  -- The last effect is the call of the authorizer, a function of the space, with JSON of the request that is
  -- handled and of the event, and it has answered without an error. Since then the event may have been
  -- given the authorization.
  pub record Allowing (before : List (Effect J)) (space id : String) (queued : Event J)
      : Type 0 where
    pub authorizer : Function
    pub heap : Heap J
    pub asked : Event J
    pub payload : String
    pub earlier : List (Effect J)
    pub answer : String
    pub response : AuthorizerResponse
    pub found : function_of env.target space id ≡ some authorizer
    pub encodes :
        env.marshal_authorizer heap (new_http_request_data env.formats served nil) asked
        ≡ inr payload
    pub was_called : before ≡ earlier ++ (called authorizer payload (inr answer) ∷ [])
    pub decodes : env.unmarshal_authorizer answer ≡ some response
    pub accepts : response.authorization_error ≡ none
    pub is_same : IsSameBut asked queued

  -- If the type of the event has an authorizer in the space, that authorizer has just allowed it.
  abbrev pub IsAllowed : List (Effect J) → String → Event J → Type 0
  IsAllowed before space e =
      (id : String)
      → authorizer_of env (event_type_of env.target space (type_of e)) ≡ some id
      → Allowing before space id e

  asked-some :
      (space id : String) (e granted : Event J) (r : Option HttpRequest) (v : World J X)
      → IsOf served r
      → (asked env space id e r v).0 ≡ some (some granted)
      → Allowing (asked env space id e r v).1.effects space id granted
  unfolding call_authorizer
  asked-some space id e granted none v of is = absurd (cc)
  asked-some space id e granted (some r) v of is =
      let request = new_http_request_data env.formats r nil in
      let (result, replied, rest, last) =
        bind-some (call_authorizer env space id request e) _ v (some granted) is in
      let (text, is_text, response, decodes, accepts, same, kept) =
        answered-some env result e granted _ rest in
      let (f, found, p, encodes, effects) =
        authorizer_called-some env (function_of env.target space id) request e v text
          (replied ∙ ap some is_text) in
      record {
        authorizer = f;
        heap = v.heap;
        asked = e;
        payload = p;
        earlier = v.effects;
        answer = text;
        response = response;
        found = found;
        encodes =
            ap (λ x. env.marshal_authorizer v.heap (new_http_request_data env.formats x nil) e)
              (sym of)
            ∙ encodes;
        was_called = ap (λ x. x.effects) last ∙ kept ∙ effects;
        decodes = decodes;
        accepts = accepts;
        is_same = same;
      }

  asked_if-some :
      (authorizer : Option String) (space : String) (e granted : Event J) (r : Option HttpRequest)
      (v : World J X)
      → IsOf served r
      → (asked_if env authorizer space e r v).0 ≡ some (some granted)
      → (id : String) → authorizer ≡ some id
      → Allowing (asked_if env authorizer space e r v).1.effects space id granted
  asked_if-some none space e granted r v of is id has = absurd (cc)
  asked_if-some (some id) space e granted r v of is other has =
      subst (λ x. Allowing (asked env space id e r v).1.effects space x granted)
        (some-injective has) (asked-some space id e granted r v of is)

  -- An event that has been authorized for a space is allowed there.
  pub authorize_event_type-Allowed :
      (space : String) (e granted : Event J) (r : Option HttpRequest) (v : World J X)
      → IsOf served r
      → (authorize_event_type env space e r v).0 ≡ some (some granted)
      → IsAllowed (authorize_event_type env space e r v).1.effects space granted
  unfolding authorize_event_type
  authorize_event_type-Allowed space e granted r v of is id has =
      asked_if-some _ space e granted r v of is id (
        subst (λ t. authorizer_of env (event_type_of env.target space t) ≡ some id)
          (authorize_event_type-type_of env space e granted r v is) has)
