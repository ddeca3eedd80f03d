-- ===== src/Router/Fanout.antt =====
-- How many events the processing of an event puts in the queue.
use event_gateway.Common.{
  ℕ, String, ◌+◌, refl, ◌⊎◌, inl, inr, Option, none, some, if◌then◌else◌, Bool-cases, arith,
}
use event_gateway.Resource.{Function}
use event_gateway.Event.Defs.{
  Event, is_system, function_invoking_type, function_invoked_type, invocation_failed_type, Failure,
}
use event_gateway.Cache.Target.{function_of}
use event_gateway.Router.World.{Work, Env, read_heap}
use event_gateway.Router.Calls.{
  invoke, emit_invoking, emit_invoked, emit_failed, reported, invoke_with, invoke_found,
  unless_stopped, call_function, process_event,
}
use event_gateway.Router.Adding.{invoke-Adds}
use event_gateway.Router.Silent.{IsCall, process_event-Adds}
use event_gateway.Router.Spawning.{Spawns, bind-Spawns, pure-Spawns, same-Spawns}
use event_gateway.Router.Emitting.{
  subscribed, fan_out, calls-Spawns, emit_invoking-Spawns, emit_invoked-Spawns, emit_failed-Spawns,
}

module _ {J X : Type 0} (env : Env J X) where
  abbrev after : String → ℕ
  after space =
      subscribed env space function_invoked_type + subscribed env space invocation_failed_type

  reported-Spawns :
      (space id : String) (e : Event J) (payload : String) (result : Failure ⊎ String)
      → Spawns (after space) (reported env space id e payload result)
  reported-Spawns space id e payload (inl failure) =
      bind-Spawns (subscribed env space invocation_failed_type) 0 (after space)
        (emit_failed env space id e failure) _ (omega arith)
        (emit_failed-Spawns env space id e failure) (λ u v is. pure-Spawns 0 _)
  reported-Spawns space id e payload (inr result) =
      bind-Spawns (subscribed env space function_invoked_type) 0 (after space)
        (emit_invoked env space id e payload) _ (omega arith)
        (emit_invoked-Spawns env space id e payload) (λ stopped v is. pure-Spawns 0 _)

  invoke_with-Spawns :
      (space id : String) (e : Event J) (f : Function) (payload : String ⊎ String)
      → Spawns (after space) (invoke_with env space id e f payload)
  invoke_with-Spawns space id e f (inl m) = pure-Spawns _ _
  invoke_with-Spawns space id e f (inr payload) =
      bind-Spawns 0 (after space) (after space) (invoke env f payload) _ (omega arith)
        (calls-Spawns env 0 _ (invoke-Adds env IsCall (λ before g p result. tt) f payload))
        (λ result v is. reported-Spawns space id e payload result)

  invoke_found-Spawns :
      (space id : String) (e : Event J) (f : Option Function)
      → Spawns (after space) (invoke_found env space id e f)
  unfolding read_heap
  invoke_found-Spawns space id e none = pure-Spawns _ _
  invoke_found-Spawns space id e (some f) =
      bind-Spawns 0 (after space) (after space) read_heap _ (omega arith)
        (same-Spawns 0 read_heap (λ w. refl))
        (λ heap v is. invoke_with-Spawns space id e f (env.marshal_event heap e))

  unless_stopped-Spawns :
      (space id : String) (e : Event J) (stopped : Option String)
      → Spawns (after space) (unless_stopped env space id e stopped)
  unless_stopped-Spawns space id e (some m) = pure-Spawns _ _
  unless_stopped-Spawns space id e none =
      invoke_found-Spawns space id e (function_of env.target space id)

  call-Spawns :
      (space id : String) (e : Event J) → Spawns (fan_out env space) (call_function env space id e)
  unfolding call_function
  call-Spawns space id e =
      bind-Spawns (subscribed env space function_invoking_type) (after space) (fan_out env space)
        (emit_invoking env space id e) _ (omega arith) (emit_invoking-Spawns env space id e)
        (λ stopped v is. unless_stopped-Spawns space id e stopped)

  -- The events that `processEvent` may put in the queue for an event.
  abbrev pub offspring : Work J → ℕ
  offspring work = if is_system work.event then 0 else fan_out env work.space

  processed-Spawns : (work : Work J) → Spawns (fan_out env work.space) (process_event env work)
  unfolding process_event
  processed-Spawns work =
      bind-Spawns (fan_out env work.space) 0 (fan_out env work.space)
        (call_function env work.space work.function_id work.event) _ (omega arith)
        (call-Spawns work.space work.function_id work.event) (λ result v is. pure-Spawns 0 tt)

  pub process_event-Spawns : (work : Work J) → Spawns (offspring work) (process_event env work)
  process_event-Spawns work = elim (Bool-cases (is_system work.event)) [
    | inl h ↦ rw h (calls-Spawns env 0 _ (process_event-Adds env work h))
    | inr h ↦ rw h (processed-Spawns work)
  ]
