-- ===== src/Router/Serving.antt =====
-- router/router.go: `ServeHTTP`, from a request to a response, and router/path.go, router/path_hosted.go.
use event_gateway.Common.{
  ℕ, String, ◌⊎◌, inl, inr, Bool, true, false, not, ◌&&◌, Option, none, some, List, [], ◌∷◌, ◌==◌,
  if◌then◌else◌, Dict, ◌<+>◌, split_slash, string_key,
}
use event_gateway.PathTree.Resolve.{Params}
use event_gateway.Resource.{Cors}
use event_gateway.Event.Headers.{get_header, flatten_header}
use event_gateway.Event.Defs.{
  Event, data_of, type_of, Data, http_request, event_received, event_received_type,
  type_http_request, is_system, HttpRequest, Failure, access_denied,
}
use event_gateway.Event.Binary.{Parsed, parsed, refused, panicked}
use event_gateway.Event.Parsing.{from_request}
use event_gateway.Cache.Target.{SyncSubscriber, sync_subscriber, cors_of}
use event_gateway.Router.World.{
  ℤ, pos, HttpResponse, Response, empty_body, error_message, function_body, CorsAction, answers,
  passes, Paths, Env, Run, pure, panic, ◌>>=◌, ◌>>◌, read_heap, write_heap, on_heap,
}
use event_gateway.Router.Calls.{authorize_event_type, handle_async, react, emit, call_function}

-- router/path.go
abbrev pub plain_paths : Paths
plain_paths = record {
  extract_path = λ host path. path;
  system_path_from_space = λ space. "/";
  system_path_from_url = λ host path. some "/";
}

abbrev pub second : List String → Option String
second (x ∷ y ∷ rest) = some y
second _ = none

abbrev pub head_or_empty : List String → String
head_or_empty [] = ""
head_or_empty (x ∷ rest) = x

abbrev pub between_slashes : Option String → Option String
between_slashes none = none
between_slashes (some segment) = some ("/" <+> segment <+> "/")

-- router/path_hosted.go: `is_hosted` is the match of its regular expression, and `labels` the split of a
-- host at its dots.
unfoldable pub hosted_paths : (String → Bool) → (String → List String) → Paths
hosted_paths is_hosted labels = record {
  extract_path =
      λ host path. if is_hosted host then "/" <+> head_or_empty (labels host) <+> path else path;
  system_path_from_space = λ space. "/" <+> space <+> "/";
  system_path_from_url =
      λ host path. if is_hosted host then between_slashes (second (split_slash path)) else some "/";
}

abbrev pub message_of_code : String → String → String
message_of_code code standard =
    if code == "AccessDeniedException"
    then "Function call failed with AccessDeniedException. The provided credentials do not have the required IAM permissions to invoke this function. Please attach the lambda:invokeFunction permission to these credentials."
    else if code == "UnrecognizedClientException"
    then "Function call failed with UnrecognizedClientException. The provided credentials are invalid. Please provide valid credentials."
    else if code == "ExpiredTokenException"
    then "Function call failed with ExpiredTokenException. The provided security token for the function has expired. Please provide an updated security token or provide permanent credentials."
    else standard

abbrev pub standard_message : String
standard_message = "Function call failed. Please check logs."

-- determineErrorMessage
unfoldable pub determine_error_message : Failure → String
determine_error_message (access_denied (some code)) = message_of_code code standard_message
determine_error_message _ = standard_message

abbrev pub respond : ℕ → Response
respond status = record { status = pos status; headers = []; body = empty_body }

abbrev pub fail : ℕ → String → Response
fail status m = record { status = pos status; headers = []; body = error_message m }

-- `WriteHeader` of Go 1.9, which the program is built with, takes any status.
abbrev pub status_or_ok : Option ℤ → ℤ
status_or_ok none = pos 200
status_or_ok (some code) = code

abbrev pub set_params : ℕ → Option Params → List (Option Params) → List (Option Params)
set_params n params [] = []
set_params Prim.Native.Nat.zero params (p ∷ ps) = params ∷ ps
set_params (Prim.Native.Nat.suc n) params (p ∷ ps) = p ∷ set_params n params ps

abbrev pub add_headers : Dict String String → Dict String String → Dict String String
add_headers [] own = own
add_headers ((key, v) ∷ headers) own = (key, v) ∷ add_headers headers own

module _ {J X : Type 0} (env : Env J X) where
  abbrev pub decoded_response : Option HttpResponse → Response
  decoded_response none = fail 500 "HTTP response object malformed"
  decoded_response (some r) = record {
    status = status_or_ok r.status_code;
    headers = r.headers;
    body = function_body r.body;
  }

  abbrev pub response_of : Failure ⊎ String → Response
  response_of (inl failure) = fail 500 (determine_error_message failure)
  response_of (inr result) = decoded_response (env.unmarshal_response result)

  -- httpRequestHandler, for a response that the client takes
  unfoldable pub http_request_handler : (space id : String) → Event J → Run J X Response
  http_request_handler space id e = do
    result ← call_function env space id e
    pure (response_of result)

  -- The data of an event of the type "http.request" is taken to be that of an HTTP request.
  abbrev pub add_params : Data J → Option Params → Run J X (Unit {0})
  add_params (http_request n d) params = do
    heap ← read_heap
    write_heap (record heap { params = set_params n params heap.params })
  add_params _ params = panic

  abbrev pub params_added : Event J → Option Params → Run J X (Unit {0})
  params_added e params =
      if type_of e == type_http_request then add_params (data_of e) params else pure tt

  abbrev pub sync_granted : SyncSubscriber → Option (Event J) → Run J X Response
  sync_granted s none = pure (respond 403)
  sync_granted s (some e) = do params_added e s.params; http_request_handler s.space s.function_id e

  -- handleSyncSubscription
  unfoldable pub handle_sync : Event J → SyncSubscriber → HttpRequest → Run J X Response
  handle_sync e s r = do
    granted ← authorize_event_type env s.space e (some r)
    sync_granted s granted

  abbrev pub on_path :
      Option String → Event J → (path : String) → HttpRequest → Run J X (Option String)
  on_path none e path r = panic
  on_path (some system_path) e path r = do
    system ←
        emit env event_received_type (event_received path e (flatten_header r.headers)) system_path
    react env system

  -- emitSystemEventReceived
  unfoldable pub emit_received : (path : String) → Event J → HttpRequest → Run J X (Option String)
  emit_received path e r = on_path (env.paths.system_path_from_url r.host path) e path r

  abbrev pub to_subscribers :
      Option SyncSubscriber → (path : String) → Event J → HttpRequest → Run J X Response
  to_subscribers none path e r = do handle_async env r.method path e (some r); pure (respond 202)
  to_subscribers (some s) path e r = do
    response ← handle_sync e s r
    handle_async env r.method path e (some r)
    pure response

  -- A plugin that refuses the event stops it; nothing is written to the client then.
  abbrev pub unless_refused :
      Option String → (path : String) → Event J → HttpRequest → Run J X Response
  unless_refused (some m) path e r = pure (respond 200)
  unless_refused none path e r =
      to_subscribers (sync_subscriber env.choice env.target r.method path (type_of e)) path e r

  abbrev pub from_client : (path : String) → Event J → HttpRequest → Run J X Response
  from_client path e r = do stopped ← emit_received path e r; unless_refused stopped path e r

  abbrev pub with_event : (path : String) → HttpRequest → Parsed (Event J) → Run J X Response
  with_event path r (refused m) = pure (fail 400 m)
  with_event path r panicked = panic
  with_event path r (parsed e) = if is_system e then pure (respond 400) else from_client path e r

  -- The handler of `ServeHTTP`
  unfoldable pub handle_request : (path : String) → HttpRequest → Run J X Response
  handle_request path r = do made ← on_heap (from_request env.formats r); with_event path r made

  -- The method that CORS is looked up for: that of the actual request if it is a pre-flight request.
  unfoldable pub actual_method : HttpRequest → String
  actual_method r =
      if r.method == "OPTIONS" && not (get_header r.headers "Access-Control-Request-Method" == "")
      then get_header r.headers "Access-Control-Request-Method"
      else r.method

  abbrev pub on_action : CorsAction → (path : String) → HttpRequest → Run J X Response
  on_action (answers response) path r = pure response
  on_action (passes headers) path r = do
    response ← handle_request path r
    pure (record response { headers = add_headers headers response.headers })

  abbrev pub under_cors : Option Cors → (path : String) → HttpRequest → Run J X Response
  under_cors none path r = handle_request path r
  under_cors (some c) path r = on_action (env.cors c r) path r

  -- ServeHTTP; the first argument is `isDraining`.
  unfoldable pub serve : Bool → HttpRequest → Run J X Response
  serve true r = pure (fail 503 "Service Unavailable")
  serve false r =
      let path = env.paths.extract_path r.host r.escaped_path in
      under_cors (cors_of env.choice env.target (actual_method r) path) path r
