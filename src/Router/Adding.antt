-- ===== src/Router/Adding.antt =====
-- What the calls of authorizers and functions add to the effects.
use event_gateway.Common.{String, refl, ◌⊎◌, inl, inr, Option, none, some, List}
use event_gateway.Resource.{Function}
use event_gateway.Event.Defs.{
  nil, HttpRequestData, Authorization, Gateway, absent, object, not_object, Event, type_of, Failure,
  HttpRequest,
}
use event_gateway.Event.Parsing.{new_http_request_data}
use event_gateway.Cache.Target.{event_type_of, function_of}
use event_gateway.Router.World.{
  AuthorizerResponse, Effect, called, Env, read_heap, write_heap, on_heap,
}
use event_gateway.Router.Calls.{
  only_authorized, authorize_cell, invoke, call_with, authorizer_called, call_authorizer, grant,
  gateway_of, granted_unless, decided, answered, asked, authorizer_of, asked_if,
  authorize_event_type, emit_invoking, emit_invoked, emit_failed, reported, invoke_with,
  invoke_found, unless_stopped, call_function,
}
use event_gateway.Router.Effects.{
  Adds, one-Grown, bind-Adds, pure-Adds, panic-Adds, read_heap-Adds, write_heap-Adds, on_heap-Adds,
}

module _ {J X : Type 0} (env : Env J X) (P : List (Effect J) → Effect J → Type 0)
    (calls : (before : List (Effect J)) (f : Function) (payload : String)
        (result : Failure ⊎ String)
      → P before (called f payload result)) where
  pub invoke-Adds : (f : Function) (payload : String) → Adds P (invoke env f payload)
  unfolding invoke
  invoke-Adds f payload = record {
    grown = λ w. one-Grown P w.effects _ _ refl (calls w.effects f payload _);
  }

  call_with-Adds : (f : Function) (payload : String ⊎ String) → Adds P (call_with env f payload)
  call_with-Adds f (inl m) = pure-Adds P _
  call_with-Adds f (inr payload) = invoke-Adds f payload

  authorizer_called-Adds :
      (f : Option Function) (request : HttpRequestData J) (e : Event J)
      → Adds P (authorizer_called env f request e)
  authorizer_called-Adds none request e = pure-Adds P _
  authorizer_called-Adds (some f) request e =
      bind-Adds P read_heap _ (read_heap-Adds P) (λ heap v is. call_with-Adds f _)

  grant-Adds :
      (g : Gateway) (authorization : Option Authorization) (e : Event J)
      → Adds P (grant env g authorization e)
  grant-Adds absent authorization e =
      bind-Adds P (on_heap (only_authorized e authorization)) _ (on_heap-Adds P _)
        (λ granted v is. pure-Adds P _)
  grant-Adds (object n) authorization e = bind-Adds P read_heap _ (read_heap-Adds P) (λ heap v is.
      bind-Adds P
        (write_heap (record heap { gateways = authorize_cell n authorization heap.gateways })) _
        (write_heap-Adds P _) (λ u w wrote. pure-Adds P _))
  grant-Adds not_object authorization e = panic-Adds P

  granted_unless-Adds :
      (m : Option String) (authorization : Option Authorization) (e : Event J)
      → Adds P (granted_unless env m authorization e)
  granted_unless-Adds (some m) authorization e = pure-Adds P _
  granted_unless-Adds none authorization e = grant-Adds (gateway_of env e) authorization e

  decided-Adds : (r : Option AuthorizerResponse) (e : Event J) → Adds P (decided env r e)
  decided-Adds none e = pure-Adds P _
  decided-Adds (some r) e = granted_unless-Adds r.authorization_error r.authorization e

  answered-Adds : (r : Failure ⊎ String) (e : Event J) → Adds P (answered env r e)
  answered-Adds (inl failure) e = pure-Adds P _
  answered-Adds (inr response) e = decided-Adds (env.unmarshal_authorizer response) e

  asked-Adds :
      (space id : String) (e : Event J) (r : Option HttpRequest) → Adds P (asked env space id e r)
  unfolding call_authorizer
  asked-Adds space id e none = panic-Adds P
  asked-Adds space id e (some r) =
      bind-Adds P (call_authorizer env space id (new_http_request_data env.formats r nil) e) _
        (authorizer_called-Adds (function_of env.target space id) _ e)
        (λ response v is. answered-Adds response e)

  asked_if-Adds :
      (id : Option String) (space : String) (e : Event J) (r : Option HttpRequest)
      → Adds P (asked_if env id space e r)
  asked_if-Adds none space e r = pure-Adds P _
  asked_if-Adds (some id) space e r = asked-Adds space id e r

  pub authorize_event_type-Adds :
      (space : String) (e : Event J) (r : Option HttpRequest)
      → Adds P (authorize_event_type env space e r)
  unfolding authorize_event_type
  authorize_event_type-Adds space e r =
      asked_if-Adds (authorizer_of env (event_type_of env.target space (type_of e))) space e r

  invoke_with-Adds :
      (space id : String) (e : Event J) (f : Function) (payload : String ⊎ String)
      → ((payload : String) (result : Failure ⊎ String)
          → Adds P (reported env space id e payload result))
      → Adds P (invoke_with env space id e f payload)
  invoke_with-Adds space id e f (inl m) after = pure-Adds P _
  invoke_with-Adds space id e f (inr payload) after =
      bind-Adds P (invoke env f payload) _ (invoke-Adds f payload)
        (λ result v is. after payload result)

  invoke_found-Adds :
      (space id : String) (e : Event J) (f : Option Function)
      → ((payload : String) (result : Failure ⊎ String)
          → Adds P (reported env space id e payload result))
      → Adds P (invoke_found env space id e f)
  invoke_found-Adds space id e none after = pure-Adds P _
  invoke_found-Adds space id e (some f) after =
      bind-Adds P read_heap _ (read_heap-Adds P)
        (λ heap v is. invoke_with-Adds space id e f (env.marshal_event heap e) after)

  unless_stopped-Adds :
      (space id : String) (e : Event J) (stopped : Option String)
      → ((payload : String) (result : Failure ⊎ String)
          → Adds P (reported env space id e payload result))
      → Adds P (unless_stopped env space id e stopped)
  unless_stopped-Adds space id e (some m) after = pure-Adds P _
  unless_stopped-Adds space id e none after =
      invoke_found-Adds space id e (function_of env.target space id) after

  reported-Adds :
      (space id : String) (e : Event J) (payload : String) (result : Failure ⊎ String)
      → ((failure : Failure) → Adds P (emit_failed env space id e failure))
      → Adds P (emit_invoked env space id e payload)
      → Adds P (reported env space id e payload result)
  reported-Adds space id e payload (inl failure) failed invoked =
      bind-Adds P (emit_failed env space id e failure) _ (failed failure) (λ u v is. pure-Adds P _)
  reported-Adds space id e payload (inr result) failed invoked =
      bind-Adds P (emit_invoked env space id e payload) _ invoked (λ stopped v is. pure-Adds P _)

  -- A call of a function adds what the calls and the events that the router emits for it add.
  pub call_function-Adds :
      (space id : String) (e : Event J)
      → Adds P (emit_invoking env space id e)
      → ((failure : Failure) → Adds P (emit_failed env space id e failure))
      → ((payload : String) → Adds P (emit_invoked env space id e payload))
      → Adds P (call_function env space id e)
  unfolding call_function
  call_function-Adds space id e invoking failed invoked =
      bind-Adds P (emit_invoking env space id e) _ invoking (λ stopped v is.
        unless_stopped-Adds space id e stopped
          (λ payload result. reported-Adds space id e payload result failed (invoked payload)))
