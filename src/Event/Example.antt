-- ===== src/Event/Example.antt =====
-- Formats, and an event, to try the program on.
use event_gateway.Common.{String, inl, inr, none, some, [], ◌==◌, if◌then◌else◌}
use event_gateway.Event.Headers.{Headers}
use event_gateway.Event.Defs.{Attributes, Heap, Formats, HttpRequest, media_type, no_media_type}
use event_gateway.Event.Binary.{no_extensions}

-- Formats that read a body as JSON if it is "{}".
abbrev pub formats : Formats String
formats = record {
  parse_media_type = λ t. if t == "" then no_media_type else media_type t;
  unmarshal_event = λ b. inl "unexpected end of JSON input";
  unmarshal_object = λ b. if b == "{}" then some "{}" else none;
  validate = λ a. none;
  parse_time = λ t. inr t;
  new_id = λ n. "id";
  now = λ n. "now";
}

abbrev pub no_objects : Heap String
no_objects = record { gateways = []; params = [] }

abbrev pub created : Attributes String
created = record {
  event_type = "user.created";
  event_type_version = "";
  cloud_events_version = "0.1";
  source = "/users";
  event_id = "1";
  event_time = none;
  schema_url = "";
  extensions = no_extensions;
  content_type = "application/json";
}

abbrev pub sending : Headers → String → HttpRequest
sending headers body = record {
  method = "POST";
  host = "localhost";
  path = "/";
  escaped_path = "/";
  query = [];
  headers = headers;
  body = inr body;
}
