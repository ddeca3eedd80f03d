-- ===== src/Router/World.antt =====
-- router/router.go: what the handling of events works on, and its outside.
use event_gateway.Common.{ℕ, String, ◌⊎◌, Option, none, some, List, [], ◌∷◌, ◌++◌, Dict}
use event_gateway.Resource.{Function, Cors}
use event_gateway.Event.Defs.{
  Event, HttpRequest, HttpRequestData, Authorization, Formats, Heap, Failure,
}
use event_gateway.Cache.Target.{Target}
use event_gateway.Router.Plugins.{Plugin}

-- backlogEvent
pub record Work (J : Type 0) : Type 0 where
  pub method : String
  pub path : String
  pub space : String
  pub function_id : String
  pub event : Event J

-- AuthorizerResponse of router/authorization.go; an error is its message.
pub record AuthorizerResponse : Type 0 where
  pub authorization : Option Authorization
  pub authorization_error : Option String

-- Go's int.
pub data ℤ : Type 0 where
  pos : ℕ → ℤ
  negsuc : ℕ → ℤ

-- HTTPResponse of router/http.go, as it is decoded: the status code may be missing.
pub record HttpResponse : Type 0 where
  pub status_code : Option ℤ
  pub headers : Dict String String
  pub body : String

-- What is written to the client. A header that is set after the status has no effect and is left out.
pub data ResponseBody : Type 0 where
  empty_body : ResponseBody
  error_message : String → ResponseBody
  function_body : String → ResponseBody

pub record Response : Type 0 where
  pub status : ℤ
  pub headers : Dict String String
  pub body : ResponseBody

-- What github.com/rs/cors does with a request: it answers it, or adds headers and passes it on.
pub data CorsAction : Type 0 where
  answers : Response → CorsAction
  passes : Dict String String → CorsAction

-- What the router does outside: the calls of functions with what they return, the plugins that are asked, and the events that are
-- given to the backlog, which may drop them.
pub data Effect (J : Type 0) : Type 0 where
  called : Function → (payload : String) → Failure ⊎ String → Effect J
  reacted : Event J → Effect J
  enqueued : Work J → Effect J

-- The paths of the two builds, router/path.go and router/path_hosted.go; none is a panic.
pub record Paths : Type 0 where
  pub extract_path : (host path : String) → String
  pub system_path_from_space : String → String
  pub system_path_from_url : (host path : String) → Option String

-- What does not change while an event is handled: the lookups, the plugins, and what is not the
-- program's. `X` is the state of the functions outside, which their calls read and change.
pub record Env (J X : Type 0) : Type 0 where
  pub formats : Formats J
  pub target : Target
  pub choice : ℕ → ℕ
  pub plugins : List (Plugin (Event J))
  pub paths : Paths
  pub call : Function → String → X → (Failure ⊎ String) × X
  pub marshal_event : Heap J → Event J → String ⊎ String
  pub marshal_authorizer : Heap J → HttpRequestData J → Event J → String ⊎ String
  pub unmarshal_authorizer : String → Option AuthorizerResponse
  pub unmarshal_response : String → Option HttpResponse
  pub cors : Cors → HttpRequest → CorsAction

pub record World (J X : Type 0) : Type 0 where
  pub heap : Heap J
  pub outside : X
  pub effects : List (Effect J)

-- A part of the handling: none is a panic.
abbrev pub Run : Type 0 → Type 0 → Type 0 → Type 0
Run J X A = World J X → Option A × World J X

module _ {J X : Type 0} where
  abbrev pub pure : {A : Type 0} → A → Run J X A
  pure a w = (some a, w)

  abbrev pub panic : {A : Type 0} → Run J X A
  panic w = (none, w)

  abbrev pub continue_with :
      {A B : Type 0} → Option A × World J X → (A → Run J X B) → Option B × World J X
  continue_with (some a, w) next = next a w
  continue_with (none, w) next = (none, w)

  infixl 5 ◌>>=◌ ◌>>◌
  unfoldable pub ◌>>=◌ : {A B : Type 0} → Run J X A → (A → Run J X B) → Run J X B
  ◌>>=◌ m next w = continue_with (m w) next

  abbrev pub ◌>>◌ : {A B : Type 0} → Run J X A → Run J X B → Run J X B
  ◌>>◌ m next = m >>= λ _. next

  unfoldable pub perform : Effect J → Run J X (Unit {0})
  perform e w = (some tt, record w { effects = w.effects ++ (e ∷ []) })

  unfoldable pub read_heap : Run J X (Heap J)
  read_heap w = (some w.heap, w)

  unfoldable pub write_heap : Heap J → Run J X (Unit {0})
  write_heap heap w = (some tt, record w { heap = heap })

  -- A result with the heap that it leaves.
  unfoldable pub on_heap : {A : Type 0} → (Heap J → A × Heap J) → Run J X A
  on_heap f w = let (a, heap) = f w.heap in (some a, record w { heap = heap })
