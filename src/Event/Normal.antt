-- ===== src/Event/Normal.antt =====
-- Events that travel as headers.
use event_gateway.Common.{
  String, ◌≡◌, ◌≢◌, refl, ◌∙◌, inr, true, false, Option, none, some, [], ◌∷◌, string_key,
  has_prefix, ne_test,
}
use event_gateway.Event.Headers.{Headers, get_header, join_comma, flatten_header}
use event_gateway.Event.Defs.{
  bytes, Extensions, Attributes, event, value, Heap, Formats, HttpRequest, media_type,
  mime_cloud_events_json, normalize_payload,
}
use event_gateway.Event.Binary.{
  parsed, extension_prefix, no_extensions, add_header, binary_extensions, is_binary_mode,
  parse_binary,
}
use event_gateway.Event.Parsing.{from_body, from_request}

-- No header has the prefix of the extensions.
abbrev pub HasNoExtension : Headers → Type 0
HasNoExtension [] = Unit
HasNoExtension (header ∷ headers) =
    (has_prefix header.0 extension_prefix ≡ false) × HasNoExtension headers

module _ {J : Type 0} (formats : Formats J) where
  -- The headers of the attributes that the binary content mode requires or allows, apart from the time.
  abbrev pub headers_of : Attributes J → Headers
  headers_of a =
      ("Ce-Eventtype", (a.event_type, []))
      ∷ ("Ce-Eventtypeversion", (a.event_type_version, []))
      ∷ ("Ce-Cloudeventsversion", (a.cloud_events_version, []))
      ∷ ("Ce-Source", (a.source, []))
      ∷ ("Ce-Eventid", (a.event_id, []))
      ∷ ("Ce-Schemaurl", (a.schema_url, []))
      ∷ ("Content-Type", (a.content_type, []))
      ∷ []

  -- The attributes without the time and the extensions.
  abbrev pub bare : Attributes J → Attributes J
  bare a = record a { event_time = none; extensions = no_extensions }

  -- The headers give the attributes, apart from a time, and no extensions; there may be others.
  pub record Carries (headers : Headers) (a : Attributes J) : Type 0 where
    pub event_type : get_header headers "CE-EventType" ≡ a.event_type
    pub event_type_version : get_header headers "CE-EventTypeVersion" ≡ a.event_type_version
    pub cloud_events_version : get_header headers "CE-CloudEventsVersion" ≡ a.cloud_events_version
    pub source : get_header headers "CE-Source" ≡ a.source
    pub event_id : get_header headers "CE-EventID" ≡ a.event_id
    pub schema_url : get_header headers "CE-SchemaURL" ≡ a.schema_url
    pub content_type : get_header headers "Content-Type" ≡ a.content_type
    pub event_time : get_header headers "CE-EventTime" ≡ ""
    pub no_extension : HasNoExtension headers

  add_header-none :
      (key v : String) (extensions : Option (Extensions J))
      → has_prefix key extension_prefix ≡ false
      → add_header (key, v) extensions ≡ extensions
  add_header-none key v extensions h = rw h refl

  binary_extensions-none :
      (headers : Headers) (extensions : Option (Extensions J))
      → HasNoExtension headers
      → binary_extensions (flatten_header headers) extensions ≡ extensions
  unfolding binary_extensions flatten_header
  binary_extensions-none [] extensions h = refl
  binary_extensions-none ((key, (v, values)) ∷ headers) extensions h =
      binary_extensions-none headers _ h.1
      ∙ add_header-none key (join_comma v values) extensions h.0

  parse_binary-Carries :
      (a : Attributes J) (headers : Headers) (body : String)
      → Carries headers a
      → formats.validate (record (bare a) { schema_url = "" }) ≡ none
      → parse_binary formats headers body
        ≡ parsed (event (bare a) (value (normalize_payload formats (bytes body) a.content_type)))
  unfolding parse_binary
  parse_binary-Carries a headers body c valid =
      rw
        (
          c.event_type,
          c.event_type_version,
          c.cloud_events_version,
          c.source,
          c.event_id,
          c.content_type,
          valid,
          c.event_time,
          binary_extensions-none headers (some no_extensions) c.no_extension,
          c.schema_url,
        )
        refl

  is_binary_mode-Carries :
      (a : Attributes J) (headers : Headers)
      → Carries headers a
      → a.event_type ≢ ""
      → a.cloud_events_version ≢ ""
      → a.source ≢ ""
      → a.event_id ≢ ""
      → is_binary_mode headers ≡ true
  unfolding is_binary_mode
  is_binary_mode-Carries a headers c type version source id =
      rw
        (
          c.event_type,
          c.cloud_events_version,
          c.source,
          c.event_id,
          ne_test a.event_type "" type,
          ne_test a.cloud_events_version "" version,
          ne_test a.source "" source,
          ne_test a.event_id "" id,
        )
        refl

  -- What a client sends of an event in the binary content mode arrives as the same event: if the headers of
  -- a request give the attributes of an event, none of the required ones empty, without a time and without
  -- extensions, whatever other headers there are, and its media type is not that of the structured mode,
  -- then `FromRequest` makes an event with those attributes and with the normalized body, if the attributes
  -- are valid without their schema.
  pub from_request-Carries :
      (a : Attributes J) (r : HttpRequest) (mime body : String) (heap : Heap J)
      → a.event_type ≢ ""
      → a.cloud_events_version ≢ ""
      → a.source ≢ ""
      → a.event_id ≢ ""
      → Carries r.headers a
      → r.body ≡ inr body
      → formats.parse_media_type a.content_type ≡ media_type mime
      → mime ≢ mime_cloud_events_json
      → formats.validate (record (bare a) { schema_url = "" }) ≡ none
      → from_request formats r heap ≡ (
        parsed (event (bare a) (value (normalize_payload formats (bytes body) a.content_type))),
        heap,
      )
  unfolding from_request from_body
  from_request-Carries a r mime body heap type version source id c sent media other valid =
      rw
        (
          c.content_type,
          media,
          sent,
          ne_test mime mime_cloud_events_json other,
          is_binary_mode-Carries a r.headers c type version source id,
          parse_binary-Carries a r.headers body c valid,
        )
        refl
