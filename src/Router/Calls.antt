-- ===== src/Router/Calls.antt =====
-- router/router.go: the calls of authorizers and functions, with the events that the router emits itself.
use event_gateway.Common.{
  ℕ, String, ◌⊎◌, inl, inr, Option, none, some, List, [], ◌∷◌, ◌++◌, if◌then◌else◌,
}
use event_gateway.Resource.{Function, EventType}
use event_gateway.Event.Defs.{
  nil, Failure, other_failure, HttpRequestData, Authorization, Gateway, absent, object, not_object,
  Event, event, attributes, data_of, type_of, Data, function_invoking, function_invoked,
  invocation_failed, only_authorization, Cell, Heap, allocate, mime_json, function_invoking_type,
  function_invoked_type, invocation_failed_type, is_system, HttpRequest, new_event,
}
use event_gateway.Event.Parsing.{new_http_request_data}
use event_gateway.Cache.Target.{event_type_of, function_of, AsyncSubscriber, async_subscribers}
use event_gateway.Router.Plugins.{react_all}
use event_gateway.Router.World.{
  Work, AuthorizerResponse, called, reacted, enqueued, Env, Run, pure, panic, ◌>>=◌, ◌>>◌, perform,
  read_heap, write_heap, on_heap,
}

abbrev pub unable_to_look_up : Failure
unable_to_look_up = other_failure "unable to look up registered function"

-- m["authorization"] = authorization
abbrev pub authorize_cell : {J : Type 0} → ℕ → Option Authorization → List (Cell J) → List (Cell J)
authorize_cell n authorization [] = []
authorize_cell Prim.Native.Nat.zero authorization (c ∷ cells) =
    record c { authorization = authorization } ∷ cells
authorize_cell (Prim.Native.Nat.suc n) authorization (c ∷ cells) =
    c ∷ authorize_cell n authorization cells

-- A new map that has the authorization only; the event loses its other extensions.
abbrev pub only_authorized :
    {J : Type 0} → Event J → Option Authorization → Heap J → Event J × Heap J
only_authorized e authorization heap =
    let (at, next) = allocate only_authorization heap in
    (
      event (record (attributes e) { extensions = record { others = []; gateway = object at } })
          (data_of e),
      record next { gateways = authorize_cell at authorization next.gateways },
    )

module _ {J X : Type 0} (env : Env J X) where
  -- f.Call(payload)
  unfoldable pub invoke : Function → String → Run J X (Failure ⊎ String)
  invoke f payload w =
      let (result, outside) = env.call f payload w.outside in
      (
        some result,
        record w { outside = outside; effects = w.effects ++ (called f payload result ∷ []) },
      )

  abbrev pub call_with : Function → String ⊎ String → Run J X (Failure ⊎ String)
  call_with f (inl m) = pure (inl (other_failure m))
  call_with f (inr payload) = invoke f payload

  abbrev pub authorizer_called :
      Option Function → HttpRequestData J → Event J → Run J X (Failure ⊎ String)
  authorizer_called none request e = pure (inl unable_to_look_up)
  authorizer_called (some f) request e = do
    heap ← read_heap
    call_with f (env.marshal_authorizer heap request e)

  -- callAuthorizer
  unfoldable pub call_authorizer :
      (space id : String) → HttpRequestData J → Event J → Run J X (Failure ⊎ String)
  call_authorizer space id request e = authorizer_called (function_of env.target space id) request e

  -- The authorization is written to the extension "eventgateway", which has to be an object.
  abbrev pub grant : Gateway → Option Authorization → Event J → Run J X (Option (Event J))
  grant absent authorization e = do
    granted ← on_heap (only_authorized e authorization)
    pure (some granted)
  grant (object n) authorization e = do
    heap ← read_heap
    write_heap (record heap { gateways = authorize_cell n authorization heap.gateways })
    pure (some e)
  grant not_object authorization e = panic

  abbrev pub gateway_of : Event J → Gateway
  gateway_of e = (attributes e).extensions.gateway

  abbrev pub granted_unless :
      Option String → Option Authorization → Event J → Run J X (Option (Event J))
  granted_unless (some m) authorization e = pure none
  granted_unless none authorization e = grant (gateway_of e) authorization e

  abbrev pub decided : Option AuthorizerResponse → Event J → Run J X (Option (Event J))
  decided none e = pure none
  decided (some r) e = granted_unless r.authorization_error r.authorization e

  abbrev pub answered : Failure ⊎ String → Event J → Run J X (Option (Event J))
  answered (inl failure) e = pure none
  answered (inr response) e = decided (env.unmarshal_authorizer response) e

  -- The request is nil for the events that the router emits itself.
  abbrev pub asked : (space id : String) → Event J → Option HttpRequest → Run J X (Option (Event J))
  asked space id e none = panic
  asked space id e (some r) = do
    response ← call_authorizer space id (new_http_request_data env.formats r nil) e
    answered response e

  abbrev pub authorizer_of : Option EventType → Option String
  authorizer_of none = none
  authorizer_of (some t) = t.authorizer_id

  abbrev pub asked_if :
      Option String → String → Event J → Option HttpRequest → Run J X (Option (Event J))
  asked_if none space e r = pure (some e)
  asked_if (some id) space e r = asked space id e r

  -- authorizeEventType: the event if it is authorized, none if there is an error.
  unfoldable pub authorize_event_type :
      String → Event J → Option HttpRequest → Run J X (Option (Event J))
  authorize_event_type space e r =
      asked_if (authorizer_of (event_type_of env.target space (type_of e))) space e r

  abbrev pub enqueue_granted :
      (method path : String) → AsyncSubscriber → Option (Event J) → Run J X (Unit {0})
  enqueue_granted method path s none = pure tt
  enqueue_granted method path s (some e) = perform (
      enqueued (record {
        method = method;
        path = path;
        space = s.space;
        function_id = s.function_id;
        event = e;
      }))

  -- The loop of `handleAsyncSubscriptions`. The copies of the event share their objects.
  unfoldable pub notify :
      (method path : String)
      → Event J
      → Option HttpRequest
      → List AsyncSubscriber
      → Run J X (Unit {0})
  notify method path e r [] = pure tt
  notify method path e r (s ∷ subscribers) = do
    granted ← authorize_event_type s.space e r
    enqueue_granted method path s granted
    notify method path e r subscribers

  unfoldable pub handle_async :
      (method path : String) → Event J → Option HttpRequest → Run J X (Unit {0})
  handle_async method path e r =
      notify method path e r (async_subscribers env.target method path (type_of e))

  -- router.plugins.React
  unfoldable pub react : Event J → Run J X (Option String)
  react e = do perform (reacted e); pure (react_all (type_of e) e env.plugins).1

  unfoldable pub emit : String → Data J → String → Run J X (Event J)
  emit event_type payload path = do
    system ← on_heap (new_event env.formats event_type mime_json payload)
    handle_async "POST" path system none
    pure system

  -- emitSystemFunctionInvoking, emitSystemFunctionInvoked, emitSystemFunctionInvocationFailed
  unfoldable pub emit_invoking : (space id : String) → Event J → Run J X (Option String)
  emit_invoking space id e = if is_system e then pure none else (do
    system ←
        emit function_invoking_type (function_invoking space id e)
          (env.paths.system_path_from_space space)
    react system)

  unfoldable pub emit_invoked : (space id : String) → Event J → String → Run J X (Option String)
  emit_invoked space id e result = if is_system e then pure none else (do
    system ←
        emit function_invoked_type (function_invoked space id e result)
          (env.paths.system_path_from_space space)
    react system)

  unfoldable pub emit_failed : (space id : String) → Event J → Failure → Run J X (Unit {0})
  emit_failed space id e failure = if is_system e then pure tt else (do
    system ←
        emit invocation_failed_type (invocation_failed space id e failure)
          (env.paths.system_path_from_space space)
    pure tt)

  -- The event of a success carries the payload, not the result.
  abbrev pub reported :
      (space id : String) → Event J → String → Failure ⊎ String → Run J X (Failure ⊎ String)
  reported space id e payload (inl failure) = do emit_failed space id e failure; pure (inl failure)
  reported space id e payload (inr result) = do
    stopped ← emit_invoked space id e payload
    pure (inr result)

  abbrev pub invoke_with :
      (space id : String) → Event J → Function → String ⊎ String → Run J X (Failure ⊎ String)
  invoke_with space id e f (inl m) = pure (inl (other_failure m))
  invoke_with space id e f (inr payload) = do
    result ← invoke f payload
    reported space id e payload result

  abbrev pub invoke_found :
      (space id : String) → Event J → Option Function → Run J X (Failure ⊎ String)
  invoke_found space id e none = pure (inl unable_to_look_up)
  invoke_found space id e (some f) = do
    heap ← read_heap
    invoke_with space id e f (env.marshal_event heap e)

  abbrev pub unless_stopped :
      (space id : String) → Event J → Option String → Run J X (Failure ⊎ String)
  unless_stopped space id e (some m) = pure (inl (other_failure m))
  unless_stopped space id e none = invoke_found space id e (function_of env.target space id)

  -- callFunction
  unfoldable pub call_function : (space id : String) → Event J → Run J X (Failure ⊎ String)
  call_function space id e = do
    stopped ← emit_invoking space id e
    unless_stopped space id e stopped

  -- processEvent
  unfoldable pub process_event : Work J → Run J X (Unit {0})
  process_event work = do result ← call_function work.space work.function_id work.event; pure tt
