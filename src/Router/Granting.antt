-- ===== src/Router/Granting.antt =====
-- Which events are put in the queue.
use event_gateway.Common.{
  String, refl, inl, inr, Bool, true, false, Option, none, some, Bool-cases, ◌==◌,
}
use event_gateway.PathTree.Resolve.{Params}
use event_gateway.Resource.{Cors}
use event_gateway.Event.Headers.{flatten_header}
use event_gateway.Event.Defs.{
  Event, data_of, type_of, Data, value, http_request, event_received, function_invoking,
  function_invoked, invocation_failed, is_system, event_received_type, type_http_request,
  HttpRequest,
}
use event_gateway.Event.Binary.{Parsed, parsed, refused, panicked}
use event_gateway.Event.Parsing.{from_request}
use event_gateway.Cache.Target.{SyncSubscriber, sync_subscriber}
use event_gateway.Router.World.{Env, World, read_heap, on_heap, CorsAction, answers, passes}
use event_gateway.Router.Calls.{authorize_event_type, handle_async, emit, call_function}
use event_gateway.Router.Serving.{
  http_request_handler, add_params, params_added, sync_granted, handle_sync, on_path, emit_received,
  to_subscribers, unless_refused, with_event, handle_request, on_action, under_cors, serve,
}
use event_gateway.Router.Effects.{
  Grown, Adds, bind-Adds, pure-Adds, panic-Adds, read_heap-Adds, write_heap-Adds, on_heap-Adds,
}
use event_gateway.Router.Adding.{authorize_event_type-Adds}
use event_gateway.Router.Queueing.{IsGranted, handle_async-Adds, react-Adds, emit-Adds, call-Adds}

module _ {J X : Type 0} (env : Env J X) (r : HttpRequest) where
  add_params-Adds :
      (d : Data J) (params : Option Params) → Adds (IsGranted env r) (add_params env d params)
  add_params-Adds (http_request n d) params =
      bind-Adds (IsGranted env r) read_heap _ (read_heap-Adds (IsGranted env r))
        (λ heap v is. write_heap-Adds (IsGranted env r) _)
  add_params-Adds (value d) params = panic-Adds (IsGranted env r)
  add_params-Adds (event_received path e headers) params = panic-Adds (IsGranted env r)
  add_params-Adds (function_invoking space id e) params = panic-Adds (IsGranted env r)
  add_params-Adds (function_invoked space id e result) params = panic-Adds (IsGranted env r)
  add_params-Adds (invocation_failed space id e failure) params = panic-Adds (IsGranted env r)

  params_added-Adds :
      (e : Event J) (params : Option Params) → Adds (IsGranted env r) (params_added env e params)
  params_added-Adds e params = elim (Bool-cases (type_of e == type_http_request)) [
    | inl h ↦ rw h (add_params-Adds (data_of e) params)
    | inr h ↦ rw h (pure-Adds (IsGranted env r) tt)
  ]

  sync_granted-Adds :
      (s : SyncSubscriber) (granted : Option (Event J))
      → Adds (IsGranted env r) (sync_granted env s granted)
  unfolding http_request_handler
  sync_granted-Adds s none = pure-Adds (IsGranted env r) _
  sync_granted-Adds s (some e) =
      bind-Adds (IsGranted env r) (params_added env e s.params) _ (params_added-Adds e s.params)
        (λ u v is.
          bind-Adds (IsGranted env r) (call_function env s.space s.function_id e) _
            (call-Adds env r s.space s.function_id e)
            (λ result w done. pure-Adds (IsGranted env r) _))

  handle_sync-Adds :
      (e : Event J) (s : SyncSubscriber) → Adds (IsGranted env r) (handle_sync env e s r)
  unfolding handle_sync
  handle_sync-Adds e s =
      bind-Adds (IsGranted env r) (authorize_event_type env s.space e (some r)) _
        (authorize_event_type-Adds env (IsGranted env r) (λ before f payload result. tt) s.space e
          (some r))
        (λ granted v is. sync_granted-Adds s granted)

  on_path-Adds :
      (system_path : Option String) (e : Event J) (path : String)
      → Adds (IsGranted env r) (on_path env system_path e path r)
  on_path-Adds none e path = panic-Adds (IsGranted env r)
  on_path-Adds (some system_path) e path =
      bind-Adds (IsGranted env r)
        (emit env event_received_type (event_received path e (flatten_header r.headers))
          system_path)
        _ (emit-Adds env r _ _ _) (λ system v is. react-Adds env r system)

  to_subscribers-Adds :
      (s : Option SyncSubscriber) (path : String) (e : Event J)
      → Adds (IsGranted env r) (to_subscribers env s path e r)
  to_subscribers-Adds none path e =
      bind-Adds (IsGranted env r) (handle_async env r.method path e (some r)) _
        (handle_async-Adds env r r.method path e (some r) refl)
        (λ u v is. pure-Adds (IsGranted env r) _)
  to_subscribers-Adds (some s) path e =
      bind-Adds (IsGranted env r) (handle_sync env e s r) _ (handle_sync-Adds e s) (λ response v is.
        bind-Adds (IsGranted env r) (handle_async env r.method path e (some r)) _
          (handle_async-Adds env r r.method path e (some r) refl)
          (λ u w done. pure-Adds (IsGranted env r) response))

  unless_refused-Adds :
      (stopped : Option String) (path : String) (e : Event J)
      → Adds (IsGranted env r) (unless_refused env stopped path e r)
  unless_refused-Adds (some m) path e = pure-Adds (IsGranted env r) _
  unless_refused-Adds none path e =
      to_subscribers-Adds (sync_subscriber env.choice env.target r.method path (type_of e)) path e

  with_event-Adds :
      (path : String) (made : Parsed (Event J))
      → Adds (IsGranted env r) (with_event env path r made)
  unfolding emit_received
  with_event-Adds path (refused m) = pure-Adds (IsGranted env r) _
  with_event-Adds path panicked = panic-Adds (IsGranted env r)
  with_event-Adds path (parsed e) = elim (Bool-cases (is_system e)) [
    | inl h ↦ rw h (pure-Adds (IsGranted env r) _)
    | inr h ↦ rw h (
        bind-Adds (IsGranted env r) (emit_received env path e r) _ (on_path-Adds _ e path)
          (λ stopped v is. unless_refused-Adds stopped path e))
  ]

  handle_request-Adds : (path : String) → Adds (IsGranted env r) (handle_request env path r)
  unfolding handle_request
  handle_request-Adds path =
      bind-Adds (IsGranted env r) (on_heap (from_request env.formats r)) _
        (on_heap-Adds (IsGranted env r) _) (λ made v is. with_event-Adds path made)

  passed-Adds :
      (action : CorsAction) (path : String) → Adds (IsGranted env r) (on_action env action path r)
  passed-Adds (answers response) path = pure-Adds (IsGranted env r) response
  passed-Adds (passes headers) path =
      bind-Adds (IsGranted env r) (handle_request env path r) _ (handle_request-Adds path)
        (λ response v is. pure-Adds (IsGranted env r) _)

  under_cors-Adds :
      (c : Option Cors) (path : String) → Adds (IsGranted env r) (under_cors env c path r)
  under_cors-Adds none path = handle_request-Adds path
  under_cors-Adds (some c) path = passed-Adds (env.cors c r) path

  serve-Adds : (draining : Bool) → Adds (IsGranted env r) (serve env draining r)
  unfolding serve
  serve-Adds true = pure-Adds (IsGranted env r) _
  serve-Adds false = under_cors-Adds _ _

module _ {J X : Type 0} (env : Env J X) where
  -- Only authorized events are put in the queue, whatever a request asks for and however the handling of
  -- it ends, in a panic too: if the type of an event that `ServeHTTP` puts there, for a client or for the
  -- router itself, has an authorizer in the space of its subscriber, then the last effect before is a call
  -- of that function of the space with JSON of this request and of this event (for some contents of its
  -- shared objects), and the function has answered without an authorization error. Since then the event
  -- may have got other extensions, but it has the same data and the same other attributes.
  pub serve-Granted :
      (draining : Bool) (r : HttpRequest) (w : World J X)
      → Grown (IsGranted env r) w.effects (serve env draining r w).1
  serve-Granted draining r w = (serve-Adds env r draining).grown w
