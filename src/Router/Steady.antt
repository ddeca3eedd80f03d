-- ===== src/Router/Steady.antt =====
-- When the workers do not panic.
use event_gateway.Common.{
  String, ◌≡◌, refl, sym, ap, ◌⊎◌, inl, inr, true, Option, none, some, List, [], ◌∷◌, Bool-cases,
  has_prefix,
}
use event_gateway.Resource.{Function}
use event_gateway.Event.Defs.{
  Event, type_of, Data, function_invoking, function_invoked, invocation_failed, is_system,
  mime_json, function_invoking_type, function_invoked_type, invocation_failed_type, Failure,
  HttpRequest, Heap, new_event,
}
use event_gateway.Cache.Target.{event_type_of, function_of, AsyncSubscriber}
use event_gateway.Router.World.{
  Work, reacted, Effect, Env, World, Run, pure, continue_with, ◌>>=◌, perform, read_heap, on_heap,
}
use event_gateway.Router.Authorized.{some-injective}
use event_gateway.Router.Calls.{
  invoke, authorizer_of, authorize_event_type, enqueue_granted, notify, handle_async, react, emit,
  emit_invoking, emit_invoked, emit_failed, reported, invoke_with, invoke_found, unless_stopped,
  call_function, process_event,
}

module _ {J X : Type 0} where
  -- Whatever the world, there is a result.
  pub record Returns {A : Type 0} (m : Run J X A) : Type 0 where
    pub returns : (w : World J X) → (a : A) × ((m w).0 ≡ some a)

  continue_with-Returns :
      {A B : Type 0} (r : Option A × World J X) (next : A → Run J X B) (a : A)
      → r.0 ≡ some a
      → ((b : A) → r.0 ≡ some b → Returns (next b))
      → (c : B) × ((continue_with r next).0 ≡ some c)
  continue_with-Returns (some x, w) next a is later = (later x refl).returns w
  continue_with-Returns (none, w) next a is later = absurd (cc)

  bind-Returns :
      {A B : Type 0} (m : Run J X A) (next : A → Run J X B)
      → Returns m
      → ((a : A) (w : World J X) → (m w).0 ≡ some a → Returns (next a))
      → Returns (m >>= next)
  unfolding ◌>>=◌
  bind-Returns m next first later = record {
    returns = λ w.
        let (a, is) = first.returns w in
        continue_with-Returns (m w) next a is (λ b same. later b w same);
  }

  pure-Returns : {A : Type 0} (a : A) → Returns (pure a)
  pure-Returns a = record { returns = λ w. (a, refl) }

  perform-Returns : (e : Effect J) → Returns (perform e)
  unfolding perform
  perform-Returns e = record { returns = λ w. (tt, refl) }

  read_heap-Returns : Returns read_heap
  unfolding read_heap
  read_heap-Returns = record { returns = λ w. (w.heap, refl) }

  on_heap-Returns : {A : Type 0} (f : Heap J → A × Heap J) → Returns (on_heap f)
  unfolding on_heap
  on_heap-Returns f = record { returns = λ w. ((f w.heap).0, refl) }

module _ {J X : Type 0} (env : Env J X) where
  -- No type that is kept for the events of the router itself has an authorizer.
  abbrev pub IsUnguarded : Type 0
  IsUnguarded =
      (space name : String)
      → has_prefix name "eventgateway." ≡ true
      → authorizer_of env (event_type_of env.target space name) ≡ none

  invoke-Returns : (f : Function) (payload : String) → Returns (invoke env f payload)
  unfolding invoke
  invoke-Returns f payload = record { returns = λ w. (_, refl) }

  authorize-Returns :
      (space : String) (e : Event J) (r : Option HttpRequest)
      → authorizer_of env (event_type_of env.target space (type_of e)) ≡ none
      → Returns (authorize_event_type env space e r)
  unfolding authorize_event_type
  authorize-Returns space e r free = rw free (pure-Returns (some e))

  enqueue_granted-Returns :
      (method path : String) (s : AsyncSubscriber) (granted : Option (Event J))
      → Returns (enqueue_granted env method path s granted)
  enqueue_granted-Returns method path s none = pure-Returns tt
  enqueue_granted-Returns method path s (some e) = perform-Returns _

  notify-Returns :
      (method path : String) (e : Event J) (r : Option HttpRequest)
      (subscribers : List AsyncSubscriber)
      → ((space : String) → authorizer_of env (event_type_of env.target space (type_of e)) ≡ none)
      → Returns (notify env method path e r subscribers)
  unfolding notify
  notify-Returns method path e r [] free = pure-Returns tt
  notify-Returns method path e r (s ∷ subscribers) free =
      bind-Returns (authorize_event_type env s.space e r) _
        (authorize-Returns s.space e r (free s.space))
        (λ granted v is.
          bind-Returns (enqueue_granted env method path s granted) _
            (enqueue_granted-Returns method path s granted)
            (λ u w done. notify-Returns method path e r subscribers free))

  react-Returns : (e : Event J) → Returns (react env e)
  unfolding react
  react-Returns e =
      bind-Returns (perform (reacted e)) _ (perform-Returns _) (λ u v is. pure-Returns _)

  pub made-type_of :
      (event_type : String) (payload : Data J) (w : World J X) (system : Event J)
      → (on_heap (new_event env.formats event_type mime_json payload) w).0 ≡ some system
      → type_of system ≡ event_type
  unfolding on_heap new_event
  made-type_of event_type payload w system is = ap type_of (sym (some-injective is))

  module _ (unguarded : IsUnguarded) where
    emit-Returns :
        (event_type : String) (payload : Data J) (path : String)
        → has_prefix event_type "eventgateway." ≡ true
        → Returns (emit env event_type payload path)
    unfolding emit handle_async
    emit-Returns event_type payload path kept =
        bind-Returns (on_heap (new_event env.formats event_type mime_json payload)) _
          (on_heap-Returns _)
          (λ system v is.
            bind-Returns (handle_async env "POST" path system none) _
              (notify-Returns "POST" path system none _ (λ space.
                rw (made-type_of event_type payload v system is) (unguarded space event_type kept)))
              (λ u w done. pure-Returns system))

    emit_invoking-Returns :
        (space id : String) (e : Event J) → Returns (emit_invoking env space id e)
    unfolding emit_invoking has_prefix
    emit_invoking-Returns space id e = elim (Bool-cases (is_system e)) [
      | inl h ↦ rw h (pure-Returns none)
      | inr h ↦ rw h (
          bind-Returns
            (emit env function_invoking_type (function_invoking space id e)
              (env.paths.system_path_from_space space))
            _ (emit-Returns _ _ _ refl) (λ system v is. react-Returns system))
    ]

    emit_invoked-Returns :
        (space id : String) (e : Event J) (result : String)
        → Returns (emit_invoked env space id e result)
    unfolding emit_invoked has_prefix
    emit_invoked-Returns space id e result = elim (Bool-cases (is_system e)) [
      | inl h ↦ rw h (pure-Returns none)
      | inr h ↦ rw h (
          bind-Returns
            (emit env function_invoked_type (function_invoked space id e result)
              (env.paths.system_path_from_space space))
            _ (emit-Returns _ _ _ refl) (λ system v is. react-Returns system))
    ]

    emit_failed-Returns :
        (space id : String) (e : Event J) (failure : Failure)
        → Returns (emit_failed env space id e failure)
    unfolding emit_failed has_prefix
    emit_failed-Returns space id e failure = elim (Bool-cases (is_system e)) [
      | inl h ↦ rw h (pure-Returns tt)
      | inr h ↦ rw h (
          bind-Returns
            (emit env invocation_failed_type (invocation_failed space id e failure)
              (env.paths.system_path_from_space space))
            _ (emit-Returns _ _ _ refl) (λ system v is. pure-Returns tt))
    ]

    reported-Returns :
        (space id : String) (e : Event J) (payload : String) (result : Failure ⊎ String)
        → Returns (reported env space id e payload result)
    reported-Returns space id e payload (inl failure) =
        bind-Returns (emit_failed env space id e failure) _ (emit_failed-Returns space id e failure)
          (λ u v is. pure-Returns _)
    reported-Returns space id e payload (inr result) =
        bind-Returns (emit_invoked env space id e payload) _
          (emit_invoked-Returns space id e payload) (λ stopped v is. pure-Returns _)

    invoke_with-Returns :
        (space id : String) (e : Event J) (f : Function) (payload : String ⊎ String)
        → Returns (invoke_with env space id e f payload)
    invoke_with-Returns space id e f (inl m) = pure-Returns _
    invoke_with-Returns space id e f (inr payload) =
        bind-Returns (invoke env f payload) _ (invoke-Returns f payload)
          (λ result v is. reported-Returns space id e payload result)

    invoke_found-Returns :
        (space id : String) (e : Event J) (f : Option Function)
        → Returns (invoke_found env space id e f)
    invoke_found-Returns space id e none = pure-Returns _
    invoke_found-Returns space id e (some f) =
        bind-Returns read_heap _ read_heap-Returns
          (λ heap v is. invoke_with-Returns space id e f (env.marshal_event heap e))

    unless_stopped-Returns :
        (space id : String) (e : Event J) (stopped : Option String)
        → Returns (unless_stopped env space id e stopped)
    unless_stopped-Returns space id e (some m) = pure-Returns _
    unless_stopped-Returns space id e none =
        invoke_found-Returns space id e (function_of env.target space id)

    process_event-Returns : (work : Work J) → Returns (process_event env work)
    unfolding process_event call_function
    process_event-Returns work =
        bind-Returns (call_function env work.space work.function_id work.event) _
          (bind-Returns (emit_invoking env work.space work.function_id work.event) _
            (emit_invoking-Returns _ _ work.event)
            (λ stopped v is. unless_stopped-Returns _ _ work.event stopped))
          (λ result v is. pure-Returns tt)

    pub process_event-returns :
        (work : Work J) (w : World J X) → (process_event env work w).0 ≡ some tt
    process_event-returns work w = ((process_event-Returns work).returns w).1
