-- ===== src/Providers/Http.antt =====
-- providers/http. The client of net/http, the validator and encoding/json are parameters.
use event_gateway.Common.{ℕ, String, ◌⊎◌, inl, inr, Option, none, some, if◌then◌else◌, eqb, ◌<+>◌}
use event_gateway.Event.Defs.{call_failed, function_error, other_failure}
use event_gateway.Providers.Aws.{CallResult, returned, failed}

-- What `Post` gives: an error, or a status with a body that may fail to be read.
pub data PostResult : Type 0 where
  no_response : String → PostResult
  response : ℕ → String ⊎ String → PostResult

abbrev pub read_body : String ⊎ String → CallResult
read_body (inl m) = failed (other_failure m)
read_body (inr body) = returned body

abbrev pub post_result : PostResult → CallResult
post_result (no_response m) = failed (call_failed m)
post_result (response status body) =
    if eqb status 500 then failed (function_error "HTTP status code: 500") else read_body body

-- HTTP.Call
unfoldable pub http_call : ((url type body : String) → PostResult) → String → String → CallResult
http_call post url payload = post_result (post url "application/cloudevents+json" payload)

abbrev pub valid_url : Option String → String → String ⊎ String
valid_url (some m) url = inl "missing required fields for HTTP endpoint"
valid_url none url = inr url

abbrev pub decoded_url : (String → Option String) → String ⊎ String → String ⊎ String
decoded_url validate (inl m) = inl ("unable to load function provider config: " <+> m)
decoded_url validate (inr url) = valid_url (validate url) url

-- ProviderLoader.Load
unfoldable pub load_http :
    (String → String ⊎ String) → (String → Option String) → String → String ⊎ String
load_http decode validate text = decoded_url validate (decode text)
