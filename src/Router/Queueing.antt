-- ===== src/Router/Queueing.antt =====
-- What the handling of an event puts in the queue for its subscribers.
use event_gateway.Common.{
  String, ◌≡◌, refl, ap, ◌∙◌, inl, inr, Option, none, some, List, [], ◌∷◌, Bool-cases,
}
use event_gateway.Event.Defs.{
  Event, Data, function_invoking, function_invoked, invocation_failed, is_system, mime_json,
  function_invoking_type, function_invoked_type, invocation_failed_type, Failure, HttpRequest,
  new_event,
}
use event_gateway.Cache.Target.{AsyncSubscriber}
use event_gateway.Router.World.{Effect, reacted, enqueued, Env, World, perform, on_heap}
use event_gateway.Router.Calls.{
  authorize_event_type, enqueue_granted, notify, handle_async, react, emit, emit_invoking,
  emit_invoked, emit_failed, call_function,
}
use event_gateway.Router.Effects.{
  Grown, Adds, one-Grown, bind-Grown, bind-Adds, pure-Adds, perform-Adds, on_heap-Adds,
}
use event_gateway.Router.Allowed.{IsOf, IsAllowed, authorize_event_type-Allowed}
use event_gateway.Router.Adding.{authorize_event_type-Adds, call_function-Adds}

module _ {J X : Type 0} (env : Env J X) (served : HttpRequest) where
  -- An event that is put in the queue is allowed for the space of its subscriber. The other effects are not
  -- looked at.
  abbrev pub IsGranted : List (Effect J) → Effect J → Type 0
  IsGranted before (enqueued work) = IsAllowed env served before work.space work.event
  IsGranted before _ = Unit

  enqueue_granted-Grown :
      (method path : String) (s : AsyncSubscriber) (granted : Option (Event J)) (v : World J X)
      → ((g : Event J) → granted ≡ some g → IsAllowed env served v.effects s.space g)
      → Grown IsGranted v.effects (enqueue_granted env method path s granted v).1
  unfolding perform
  enqueue_granted-Grown method path s none v allowed = (pure-Adds IsGranted tt).grown v
  enqueue_granted-Grown method path s (some g) v allowed =
      one-Grown IsGranted v.effects _ _ refl (allowed g refl)

  notify-Adds :
      (method path : String) (e : Event J) (r : Option HttpRequest)
      (subscribers : List AsyncSubscriber)
      → IsOf served r
      → Adds IsGranted (notify env method path e r subscribers)
  unfolding notify
  notify-Adds method path e r [] of = pure-Adds IsGranted tt
  notify-Adds method path e r (s ∷ subscribers) of = record {
    grown = λ w.
        bind-Grown IsGranted (authorize_event_type env s.space e r) _ w
          (let asking =
              authorize_event_type-Adds env IsGranted (λ before f payload result. tt) s.space e r in
            asking.grown w)
          (λ granted is.
            bind-Grown IsGranted (enqueue_granted env method path s granted) _ _
              (enqueue_granted-Grown method path s granted _ (λ g has.
                authorize_event_type-Allowed env served s.space e g r w of (is ∙ ap some has)))
              (λ u done. let later = notify-Adds method path e r subscribers of in later.grown _));
  }

  pub handle_async-Adds :
      (method path : String) (e : Event J) (r : Option HttpRequest)
      → IsOf served r
      → Adds IsGranted (handle_async env method path e r)
  unfolding handle_async
  handle_async-Adds method path e r of = notify-Adds method path e r _ of

  pub react-Adds : (e : Event J) → Adds IsGranted (react env e)
  unfolding react
  react-Adds e =
      bind-Adds IsGranted (perform (reacted e)) _ (perform-Adds IsGranted _ (λ before. tt))
        (λ u v is. pure-Adds IsGranted _)

  pub emit-Adds :
      (event_type : String) (payload : Data J) (path : String)
      → Adds IsGranted (emit env event_type payload path)
  unfolding emit
  emit-Adds event_type payload path =
      bind-Adds IsGranted (on_heap (new_event env.formats event_type mime_json payload)) _
        (on_heap-Adds IsGranted _)
        (λ system v is.
          bind-Adds IsGranted (handle_async env "POST" path system none) _
            (handle_async-Adds "POST" path system none tt) (λ u w done. pure-Adds IsGranted system))

  emit_invoking-Adds :
      (space id : String) (e : Event J) → Adds IsGranted (emit_invoking env space id e)
  unfolding emit_invoking
  emit_invoking-Adds space id e = elim (Bool-cases (is_system e)) [
    | inl h ↦ rw h (pure-Adds IsGranted none)
    | inr h ↦ rw h (
        bind-Adds IsGranted
          (emit env function_invoking_type (function_invoking space id e)
            (env.paths.system_path_from_space space))
          _ (emit-Adds _ _ _) (λ system v is. react-Adds system))
  ]

  emit_invoked-Adds :
      (space id : String) (e : Event J) (result : String)
      → Adds IsGranted (emit_invoked env space id e result)
  unfolding emit_invoked
  emit_invoked-Adds space id e result = elim (Bool-cases (is_system e)) [
    | inl h ↦ rw h (pure-Adds IsGranted none)
    | inr h ↦ rw h (
        bind-Adds IsGranted
          (emit env function_invoked_type (function_invoked space id e result)
            (env.paths.system_path_from_space space))
          _ (emit-Adds _ _ _) (λ system v is. react-Adds system))
  ]

  emit_failed-Adds :
      (space id : String) (e : Event J) (failure : Failure)
      → Adds IsGranted (emit_failed env space id e failure)
  unfolding emit_failed
  emit_failed-Adds space id e failure = elim (Bool-cases (is_system e)) [
    | inl h ↦ rw h (pure-Adds IsGranted tt)
    | inr h ↦ rw h (
        bind-Adds IsGranted
          (emit env invocation_failed_type (invocation_failed space id e failure)
            (env.paths.system_path_from_space space))
          _ (emit-Adds _ _ _) (λ system v is. pure-Adds IsGranted tt))
  ]

  pub call-Adds : (space id : String) (e : Event J) → Adds IsGranted (call_function env space id e)
  call-Adds space id e =
      call_function-Adds env IsGranted (λ before f payload result. tt) space id e
        (emit_invoking-Adds space id e) (emit_failed-Adds space id e) (emit_invoked-Adds space id e)
