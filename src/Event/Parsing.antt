-- ===== src/Event/Parsing.antt =====
-- event/event.go: `FromRequest`, the content modes of a request.
use event_gateway.Common.{
  String, ◌⊎◌, inl, inr, Option, none, some, [], ◌∷◌, ◌++◌, ◌==◌, if◌then◌else◌,
}
use event_gateway.Event.Headers.{get_header, flatten_header}
use event_gateway.Event.Defs.{
  Value, bytes, HttpRequestData, Gateway, absent, object, not_object, Event, event, value,
  http_request, Heap, allocate, decoded_object, size, mime_json, mime_cloud_events_json,
  type_http_request, MediaType, media_type, no_media_type, bad_media_type, JsonGateway, json_absent,
  json_object, json_other, JsonEvent, Formats, HttpRequest, normalize_payload, new_event,
}
use event_gateway.Event.Binary.{
  Parsed, parsed, refused, panicked, is_legacy_mode, is_binary_mode, parse_binary,
}

-- The extension of an event in JSON: an object gets an address.
abbrev pub place : {J : Type 0} → JsonGateway J → Heap J → Gateway × Heap J
place json_absent heap = (absent, heap)
place json_other heap = (not_object, heap)
place (json_object o) heap = let (at, next) = allocate (decoded_object o) heap in (object at, next)

module _ {J : Type 0} (formats : Formats J) where
  -- The fields of an event in JSON, with its extension and its data.
  abbrev pub json_event : JsonEvent J → Heap J → Event J × Heap J
  json_event e heap =
      let (gateway, next) = place e.gateway heap in
      let a = e.attributes in
      (
        event (record a { extensions = record a.extensions { gateway = gateway } })
            (value (normalize_payload formats e.payload a.content_type)),
        next,
      )

  abbrev json_validated : JsonEvent J → Heap J → Option String → Parsed (Event J) × Heap J
  json_validated e heap (some m) = (refused m, heap)
  json_validated e heap none = let (made, next) = json_event e heap in (parsed made, next)

  abbrev json_decoded : Heap J → String ⊎ JsonEvent J → Parsed (Event J) × Heap J
  json_decoded heap (inl m) = (refused m, heap)
  json_decoded heap (inr e) = json_validated e heap (formats.validate e.attributes)

  -- parseAsCloudEvent, of the bytes of a body
  unfoldable pub parse_json : String → Heap J → Parsed (Event J) × Heap J
  parse_json body heap = json_decoded heap (formats.unmarshal_event body)

  abbrev fresh : Event J × Heap J → Parsed (Event J) × Heap J
  fresh made = (parsed made.0, made.1)

  -- The event of an error is made by `New` instead.
  abbrev or_new : Event J × Heap J → Parsed (Event J) × Heap J → Parsed (Event J) × Heap J
  or_new made (parsed e, heap) = (parsed e, heap)
  or_new made (refused m, heap) = fresh made
  or_new made (panicked, heap) = (panicked, heap)

  -- NewHTTPRequestData
  unfoldable pub new_http_request_data : HttpRequest → Value J → HttpRequestData J
  new_http_request_data r payload = record {
    headers = flatten_header r.headers;
    query = r.query;
    body = normalize_payload formats payload (get_header r.headers "content-type");
    host = r.host;
    path = r.path;
    method = r.method;
  }

  -- The event of a request without an event: the request is its data, at an address.
  unfoldable pub http_event : HttpRequest → String → Heap J → Event J × Heap J
  http_event r body heap =
      let data_at = size heap.params in
      new_event formats type_http_request mime_json
        (http_request data_at (new_http_request_data r (bytes body)))
        (record heap { params = heap.params ++ (none ∷ []) })

  -- The modes, once the media type and the body are known.
  unfoldable pub from_body : HttpRequest → String → String → Heap J → Parsed (Event J) × Heap J
  from_body r mime body heap =
      let legacy =
        new_event formats (get_header r.headers "event") mime (value (bytes body)) heap in
      if mime == mime_cloud_events_json
      then parse_json body heap
      else if is_binary_mode r.headers
      then (parse_binary formats r.headers body, heap)
      else if is_legacy_mode r.headers
      then (if mime == mime_json then or_new legacy (parse_json body heap) else fresh legacy)
      else fresh (http_event r body heap)

  abbrev with_bytes : HttpRequest → String → String ⊎ String → Heap J → Parsed (Event J) × Heap J
  with_bytes r mime (inl m) heap = (refused m, heap)
  with_bytes r mime (inr body) heap = from_body r mime body heap

  abbrev with_media_type : HttpRequest → MediaType → Heap J → Parsed (Event J) × Heap J
  with_media_type r (bad_media_type m) heap = (refused m, heap)
  with_media_type r no_media_type heap = with_bytes r "application/octet-stream" r.body heap
  with_media_type r (media_type mime) heap = with_bytes r mime r.body heap

  -- FromRequest
  unfoldable pub from_request : HttpRequest → Heap J → Parsed (Event J) × Heap J
  from_request r heap =
      with_media_type r (formats.parse_media_type (get_header r.headers "Content-Type")) heap
