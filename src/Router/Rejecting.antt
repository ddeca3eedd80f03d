-- ===== src/Router/Rejecting.antt =====
-- The requests that the router turns away.
use event_gateway.Common.{String, ◌≡◌, refl, ◌⊎◌, inl, inr, Bool, true, false, Option, none, some}
use event_gateway.Resource.{Cors}
use event_gateway.Event.Defs.{Event, is_system, HttpRequest}
use event_gateway.Event.Binary.{Parsed, parsed, refused, panicked}
use event_gateway.Event.Parsing.{from_request}
use event_gateway.Router.World.{
  Response, CorsAction, answers, passes, Env, World, pure, continue_with, ◌>>=◌, on_heap,
}
use event_gateway.Router.Serving.{
  with_event, handle_request, on_action, under_cors, add_headers, serve,
}

module _ {J X : Type 0} (env : Env J X) where
  -- What is made of the request is an error, or an event of a type that is kept for the router itself.
  abbrev pub IsUnwanted : Parsed (Event J) → Type 0
  IsUnwanted (refused m) = Unit
  IsUnwanted panicked = ⊥
  IsUnwanted (parsed e) = is_system e ≡ true

  -- A response is written, and no function is called, no plugin is asked and nothing is put in the queue.
  pub record IsIdle (w : World J X) (out : Option Response × World J X) : Type 0 where
    pub response : Response
    pub responds : out.0 ≡ some response
    pub idle : out.1.effects ≡ w.effects

  with_event-IsIdle :
      (path : String) (r : HttpRequest) (made : Parsed (Event J)) (w : World J X)
      → IsUnwanted made
      → IsIdle w (with_event env path r made w)
  with_event-IsIdle path r (refused m) w h = record { response = _; responds = refl; idle = refl }
  with_event-IsIdle path r panicked w h = absurd h
  with_event-IsIdle path r (parsed e) w h =
      rw h (record { response = _; responds = refl; idle = refl })

  handle_request-IsIdle :
      (path : String) (r : HttpRequest) (w : World J X)
      → IsUnwanted (from_request env.formats r w.heap).0
      → IsIdle w (handle_request env path r w)
  unfolding handle_request ◌>>=◌ on_heap
  handle_request-IsIdle path r w h =
      let rest =
        with_event-IsIdle path r (from_request env.formats r w.heap).0
          (record w { heap = (from_request env.formats r w.heap).1 }) h in
      record { response = rest.response; responds = rest.responds; idle = rest.idle }

  continue_with-IsIdle :
      (w : World J X) (out : Option Response × World J X) (f : Response → Response)
      → IsIdle w out
      → IsIdle w (continue_with out (λ x. pure (f x)))
  continue_with-IsIdle w (some x, v) f h = record { response = f x; responds = refl; idle = h.idle }
  continue_with-IsIdle w (none, v) f h = absurd (let no = h.responds in cc)

  on_action-IsIdle :
      (action : CorsAction) (path : String) (r : HttpRequest) (w : World J X)
      → IsUnwanted (from_request env.formats r w.heap).0
      → IsIdle w (on_action env action path r w)
  unfolding ◌>>=◌
  on_action-IsIdle (answers x) path r w h = record { response = x; responds = refl; idle = refl }
  on_action-IsIdle (passes headers) path r w h =
      continue_with-IsIdle w (handle_request env path r w)
        (λ x. record x { headers = add_headers headers x.headers })
        (handle_request-IsIdle path r w h)

  under_cors-IsIdle :
      (c : Option Cors) (path : String) (r : HttpRequest) (w : World J X)
      → IsUnwanted (from_request env.formats r w.heap).0
      → IsIdle w (under_cors env c path r w)
  under_cors-IsIdle none path r w h = handle_request-IsIdle path r w h
  under_cors-IsIdle (some c) path r w h = on_action-IsIdle (env.cors c r) path r w h

  -- A request causes nothing but its response, with or without a CORS configuration, if the router is
  -- draining, if no event can be made of the request, or if its event has a type that is kept for the
  -- router itself: clients cannot bring in system events.
  pub serve-IsIdle :
      (draining : Bool) (r : HttpRequest) (w : World J X)
      → (draining ≡ true) ⊎ IsUnwanted (from_request env.formats r w.heap).0
      → IsIdle w (serve env draining r w)
  unfolding serve
  serve-IsIdle true r w h = record { response = _; responds = refl; idle = refl }
  serve-IsIdle false r w (inl h) = absurd (cc)
  serve-IsIdle false r w (inr h) = under_cors-IsIdle _ _ r w h
