-- ===== src/Router/Emitting.antt =====
-- How many events the emission of a system event puts in the queue.
use event_gateway.Common.{
  ℕ, String, ◌+◌, suc, ◌≤◌, ◌≡◌, refl, sym, ap, ◌∙◌, subst, inl, inr, true, Option, none, some,
  List, [], ◌∷◌, Bool-cases, All, arith, has_prefix,
}
use event_gateway.Event.Defs.{
  Event, type_of, Data, function_invoking, function_invoked, invocation_failed, is_system,
  mime_json, function_invoking_type, function_invoked_type, invocation_failed_type, Failure,
  HttpRequest, Heap, size, new_event,
}
use event_gateway.Cache.Target.{AsyncSubscriber, async_subscribers}
use event_gateway.Router.World.{Effect, called, reacted, enqueued, Env, Run, perform, on_heap}
use event_gateway.Router.Calls.{
  authorize_event_type, enqueue_granted, notify, handle_async, react, emit, emit_invoking,
  emit_invoked, emit_failed,
}
use event_gateway.Router.Effects.{AllAfter, Adds}
use event_gateway.Router.Adding.{authorize_event_type-Adds}
use event_gateway.Router.Authorized.{authorize_event_type-type_of}
use event_gateway.Router.Silent.{IsCall}
use event_gateway.Router.Steady.{made-type_of}
use event_gateway.Router.Spawning.{
  works_of, IsOwn, Spawns, bind-Spawns, pure-Spawns, same-Spawns, perform-Spawns,
}

works_of-IsCall :
    {J : Type 0} (before new : List (Effect J)) → AllAfter IsCall before new → works_of new ≡ []
works_of-IsCall before [] h = refl
works_of-IsCall before (called f payload result ∷ new) h = works_of-IsCall _ new h.1
works_of-IsCall before (reacted e ∷ new) h = absurd h.0
works_of-IsCall before (enqueued work ∷ new) h = absurd h.0

module _ {J X : Type 0} (env : Env J X) where
  -- The events for the subscribers of a type of the router's own events.
  abbrev pub subscribed : (space event_type : String) → ℕ
  subscribed space event_type =
      size (async_subscribers env.target "POST" (env.paths.system_path_from_space space) event_type)

  -- The most events that a call of a function of the space puts in the queue.
  abbrev pub fan_out : String → ℕ
  fan_out space =
      subscribed space function_invoking_type
      + (subscribed space function_invoked_type + subscribed space invocation_failed_type)

  pub calls-Spawns : {A : Type 0} (n : ℕ) (m : Run J X A) → Adds IsCall m → Spawns n m
  calls-Spawns n m h = record {
    spawned = λ w.
        let g = h.grown w in
        let none_new = works_of-IsCall w.effects g.new g.all in
        record {
          new = g.new;
          effects_are = g.effects_are;
          few = subst (λ l. size l ≤ n) (sym none_new) (omega arith);
          own = subst (All IsOwn) (sym none_new) tt;
        };
  }

  enqueue_granted-Spawns :
      (method path : String) (s : AsyncSubscriber) (granted : Option (Event J))
      → ((e : Event J) → granted ≡ some e → is_system e ≡ true)
      → Spawns 1 (enqueue_granted env method path s granted)
  enqueue_granted-Spawns method path s none own = pure-Spawns 1 tt
  enqueue_granted-Spawns method path s (some e) own =
      perform-Spawns 1 _ (omega arith) (own e refl, tt)

  own_type :
      (e granted : Event J)
      → type_of granted ≡ type_of e
      → is_system e ≡ true
      → is_system granted ≡ true
  unfolding is_system
  own_type e granted same h = ap (λ t. has_prefix t "eventgateway.") same ∙ h

  notify-Spawns :
      (method path : String) (e : Event J) (r : Option HttpRequest)
      (subscribers : List AsyncSubscriber)
      → is_system e ≡ true
      → Spawns (size subscribers) (notify env method path e r subscribers)
  unfolding notify
  notify-Spawns method path e r [] h = pure-Spawns 0 tt
  notify-Spawns method path e r (s ∷ subscribers) h =
      bind-Spawns 0 (suc (size subscribers)) (suc (size subscribers))
        (authorize_event_type env s.space e r) _ (omega arith)
        (calls-Spawns 0 _
          (authorize_event_type-Adds env IsCall (λ before f payload result. tt) s.space e r))
        (λ granted v is.
          bind-Spawns 1 (size subscribers) (suc (size subscribers))
            (enqueue_granted env method path s granted) _ (omega arith)
            (enqueue_granted-Spawns method path s granted (λ g same.
              own_type e g (authorize_event_type-type_of env s.space e g r v (is ∙ ap some same))
                h))
            (λ u w done. notify-Spawns method path e r subscribers h))

  on_heap-Spawns : {A : Type 0} (f : Heap J → A × Heap J) → Spawns 0 (on_heap {X = X} f)
  unfolding on_heap
  on_heap-Spawns f = same-Spawns 0 (on_heap f) (λ w. refl)

  react-Spawns : (n : ℕ) (e : Event J) → Spawns n (react env e)
  unfolding react
  react-Spawns n e =
      bind-Spawns 0 n n (perform (reacted e)) _ (omega arith) (perform-Spawns 0 _ (omega arith) tt)
        (λ u v is. pure-Spawns n _)

  emit-Spawns :
      (event_type : String) (payload : Data J) (path : String)
      → has_prefix event_type "eventgateway." ≡ true
      → Spawns
          (size (async_subscribers env.target "POST" path event_type))
          (emit env event_type payload path)
  unfolding emit handle_async is_system
  emit-Spawns event_type payload path kept =
      let n = size (async_subscribers env.target "POST" path event_type) in
      bind-Spawns 0 n n (on_heap (new_event env.formats event_type mime_json payload)) _
        (omega arith) (on_heap-Spawns _)
        (λ system v is.
          let same = made-type_of env event_type payload v system is in
          bind-Spawns n 0 n (handle_async env "POST" path system none) _ (omega arith)
            (subst
              (λ t.
                Spawns (size (async_subscribers env.target "POST" path t))
                  (handle_async env "POST" path system none))
              same
              (notify-Spawns "POST" path system none _
                (ap (λ t. has_prefix t "eventgateway.") same ∙ kept)))
            (λ u w done. pure-Spawns 0 system))

  pub emit_invoking-Spawns :
      (space id : String) (e : Event J)
      → Spawns (subscribed space function_invoking_type) (emit_invoking env space id e)
  unfolding emit_invoking has_prefix
  emit_invoking-Spawns space id e = elim (Bool-cases (is_system e)) [
    | inl h ↦ rw h (pure-Spawns _ none)
    | inr h ↦ rw h (
        bind-Spawns (subscribed space function_invoking_type) 0
          (subscribed space function_invoking_type)
          (emit env function_invoking_type (function_invoking space id e)
            (env.paths.system_path_from_space space))
          _ (omega arith) (emit-Spawns _ _ _ refl) (λ system v is. react-Spawns 0 system))
  ]

  pub emit_invoked-Spawns :
      (space id : String) (e : Event J) (result : String)
      → Spawns (subscribed space function_invoked_type) (emit_invoked env space id e result)
  unfolding emit_invoked has_prefix
  emit_invoked-Spawns space id e result = elim (Bool-cases (is_system e)) [
    | inl h ↦ rw h (pure-Spawns _ none)
    | inr h ↦ rw h (
        bind-Spawns (subscribed space function_invoked_type) 0
          (subscribed space function_invoked_type)
          (emit env function_invoked_type (function_invoked space id e result)
            (env.paths.system_path_from_space space))
          _ (omega arith) (emit-Spawns _ _ _ refl) (λ system v is. react-Spawns 0 system))
  ]

  pub emit_failed-Spawns :
      (space id : String) (e : Event J) (failure : Failure)
      → Spawns (subscribed space invocation_failed_type) (emit_failed env space id e failure)
  unfolding emit_failed has_prefix
  emit_failed-Spawns space id e failure = elim (Bool-cases (is_system e)) [
    | inl h ↦ rw h (pure-Spawns _ tt)
    | inr h ↦ rw h (
        bind-Spawns (subscribed space invocation_failed_type) 0
          (subscribed space invocation_failed_type)
          (emit env invocation_failed_type (invocation_failed space id e failure)
            (env.paths.system_path_from_space space))
          _ (omega arith) (emit-Spawns _ _ _ refl) (λ system v is. pure-Spawns 0 tt))
  ]
