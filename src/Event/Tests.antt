-- ===== src/Event/Tests.antt =====
-- Events of small requests.
use event_gateway.Common.{
  ◌≡◌, ◌↔◌, refl, [], ◌∷◌, string_key, at_key, set_key, delete_key, has_prefix, has_suffix,
  upper_letter, lower_letter, eq_iff,
}
use event_gateway.Event.Headers.{Headers, canonical_from, canonical_key, get_header, flatten_header}
use event_gateway.Event.Defs.{
  bytes, json, text, event, type_of, is_system, value, is_json, is_form, normalize_payload,
  new_event,
}
use event_gateway.Event.Binary.{
  parsed, panicked, no_extensions, is_cut, trim_cut, binary_extensions, is_binary_mode,
  is_legacy_mode, parse_binary,
}
use event_gateway.Event.Parsing.{
  parse_json, http_event, new_http_request_data, from_body, from_request,
}
use event_gateway.Event.Example.{formats, no_objects, created, sending}
use event_gateway.Event.Extensions.{HasNameless, parse_binary-panicked}
use event_gateway.Event.Normal.{bare, headers_of, Carries, from_request-Carries}

-- Opens all that the making of an event computes with.
run : Unit {0}
unfolding canonical_from canonical_key get_header flatten_header at_key set_key delete_key
    has_prefix has_suffix upper_letter lower_letter is_system is_json is_form normalize_payload
    new_event is_cut trim_cut binary_extensions is_binary_mode is_legacy_mode parse_binary
    parse_json http_event new_http_request_data from_body from_request
run = tt

binary_mode :
    (from_request formats
      (sending (("Ce-X-Team", ("a", [])) ∷ headers_of formats created) "{}")
      no_objects).0
    ≡ parsed (
        event
          (record created {
            extensions = record no_extensions { others = ("team", text "a") ∷ [] };
          })
          (value (json "{}")))
unfolding run
binary_mode = refl

legacy_mode :
    type_of (new_event formats "user.deleted" "text/plain" (value (bytes "x")) no_objects).0
    ≡ "user.deleted"
unfolding run
legacy_mode = refl

flattened : flatten_header (("Accept", ("a", "b" ∷ [])) ∷ []) ≡ ("Accept", "a, b") ∷ []
unfolding run
flattened = refl

canonical : canonical_key "content-TYPE" ≡ "Content-Type"
unfolding run
canonical = refl

-- The characters of the prefix are cut off the name as well.
cut_name : trim_cut "Ce-X-Cex-Event" ≡ "x-Event"
unfolding run
cut_name = refl

abbrev nameless : Headers
nameless = ("Ce-X-C", ("a", [])) ∷ headers_of formats created

parse_binary-panicked_example :
    (parse_binary formats nameless "{}" ≡ panicked) ↔ HasNameless (flatten_header nameless)
unfolding run
parse_binary-panicked_example = parse_binary-panicked formats nameless "{}" refl refl

-- A request that makes the program panic.
nameless_panics : (from_request formats (sending nameless "{}") no_objects).0 ≡ panicked
unfolding run
nameless_panics = refl

-- The headers of an event, and one more.
abbrev carried : Headers
carried = ("X-Request-Id", ("7", [])) ∷ headers_of formats created

carried-Carries : Carries formats carried created
unfolding run
carried-Carries = record {
  event_type = refl;
  event_type_version = refl;
  cloud_events_version = refl;
  source = refl;
  event_id = refl;
  schema_url = refl;
  content_type = refl;
  event_time = refl;
  no_extension = (refl, (refl, (refl, (refl, (refl, (refl, (refl, (refl, tt))))))));
}

from_request-Carries_example : from_request formats (sending carried "{}") no_objects ≡ (
  parsed (
      event
        (bare formats created)
        (value (normalize_payload formats (bytes "{}") "application/json"))),
  no_objects,
)
from_request-Carries_example =
    from_request-Carries formats created (sending carried "{}") "application/json" "{}" no_objects
      (λ e. let same = (eq_iff "user.created" "").1 e in absurd (cc)) (λ e. absurd (cc))
      (λ e. absurd (cc)) (λ e. absurd (cc)) carried-Carries refl refl (λ e. absurd (cc)) refl
