-- ===== src/Router/Silent.antt =====
-- What the workers do for the events that the router has emitted itself.
use event_gateway.Common.{String, ◌≡◌, true, none, List}
use event_gateway.Event.Defs.{Event, is_system, Failure}
use event_gateway.Router.World.{Work, Effect, called, Env, World}
use event_gateway.Router.Calls.{
  emit_invoking, emit_invoked, emit_failed, call_function, process_event,
}
use event_gateway.Router.Effects.{Grown, Adds, bind-Adds, pure-Adds}
use event_gateway.Router.Adding.{call_function-Adds}

-- The effect is the call of a function.
abbrev pub IsCall : {J : Type 0} → List (Effect J) → Effect J → Type 0
IsCall before (called f payload result) = Unit
IsCall before _ = ⊥

module _ {J X : Type 0} (env : Env J X) where
  emit_invoking-IsCall :
      (space id : String) (e : Event J)
      → is_system e ≡ true
      → Adds IsCall (emit_invoking env space id e)
  unfolding emit_invoking
  emit_invoking-IsCall space id e h = rw h (pure-Adds IsCall none)

  emit_invoked-IsCall :
      (space id : String) (e : Event J) (result : String)
      → is_system e ≡ true
      → Adds IsCall (emit_invoked env space id e result)
  unfolding emit_invoked
  emit_invoked-IsCall space id e result h = rw h (pure-Adds IsCall none)

  emit_failed-IsCall :
      (space id : String) (e : Event J) (failure : Failure)
      → is_system e ≡ true
      → Adds IsCall (emit_failed env space id e failure)
  unfolding emit_failed
  emit_failed-IsCall space id e failure h = rw h (pure-Adds IsCall tt)

  pub process_event-Adds :
      (work : Work J) → is_system work.event ≡ true → Adds IsCall (process_event env work)
  unfolding process_event
  process_event-Adds work h =
      bind-Adds IsCall (call_function env work.space work.function_id work.event) _
        (call_function-Adds env IsCall (λ before f payload result. tt) work.space work.function_id
          work.event (emit_invoking-IsCall _ _ work.event h)
          (λ failure. emit_failed-IsCall _ _ work.event failure h)
          (λ payload. emit_invoked-IsCall _ _ work.event payload h))
        (λ result v is. pure-Adds IsCall tt)

  -- The events that the router emits itself cause no others: all that `processEvent` does for a system
  -- event is to call functions. It puts nothing in the queue and asks no plugin, also if the function is
  -- missing or fails.
  pub process_event-Calls :
      (work : Work J) (w : World J X)
      → is_system work.event ≡ true
      → Grown IsCall w.effects (process_event env work w).1
  process_event-Calls work w h = (process_event-Adds work h).grown w
