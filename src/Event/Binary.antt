-- ===== src/Event/Binary.antt =====
-- event/event.go: events in the binary content mode, whose attributes are headers.
use Prim.Native.String.{String, [], ◌∷◌}
use mathlib.Core.List.{[], ◌∷◌}
use event_gateway.Common.{
  ◌⊎◌, inl, inr, Bool, ◌&&◌, ◌||◌, not, Option, none, some, ◌==◌, ℕ, eqb, code, if◌then◌else◌,
  string_key, Dict, set_key, has_prefix, lower_letter,
}
use event_gateway.Event.Headers.{Headers, get_header, flatten_header}
use event_gateway.Event.Defs.{
  text, bytes, absent, not_object, Extensions, Attributes, Event, event, value, Formats,
  normalize_payload,
}

-- What comes of a request: an event, an error, or a panic.
pub data Parsed (A : Type 0) : Type 0 where
  parsed : A → Parsed A
  refused : String → Parsed A
  panicked : Parsed A

-- Is the character one of "Ce-X-"?
unfoldable pub is_cut : ℕ → Bool
is_cut c = eqb c b'C' || (eqb c b'e' || (eqb c b'-' || eqb c b'X'))

-- strings.TrimLeft(key, "Ce-X-"): all leading characters of the set are removed.
unfoldable pub trim_cut : String → String
unfolding is_cut
trim_cut [] = []
trim_cut (c ∷ s) = let rest = trim_cut s in if is_cut (code c) then rest else c ∷ s

-- The name of the extension of a header, none where its first character is missing.
abbrev pub lower_first : String → Option String
lower_first [] = none
lower_first (c ∷ s) = some (lower_letter c ∷ s)

-- The extension "eventgateway" of a header is a text, so that it is not an object.
abbrev pub insert_extension : {J : Type 0} → String → String → Extensions J → Extensions J
insert_extension name v extensions =
    if name == "eventgateway"
    then record extensions { gateway = not_object }
    else record extensions { others = set_key extensions.others name (text v) }

abbrev pub insert_named :
    {J : Type 0} → Option String → String → Option (Extensions J) → Option (Extensions J)
insert_named (some name) v (some extensions) = some (insert_extension name v extensions)
insert_named _ v _ = none

abbrev pub extension_prefix : String
extension_prefix = "Ce-X-"

abbrev pub no_extensions : {J : Type 0} → Extensions J
no_extensions = record { others = []; gateway = absent }

-- A header whose key has the prefix adds an extension; none is the panic of `runes[0]`.
abbrev pub add_header :
    {J : Type 0} → String × String → Option (Extensions J) → Option (Extensions J)
add_header (key, v) extensions =
    if has_prefix key extension_prefix
    then insert_named (lower_first (trim_cut key)) v extensions
    else extensions

-- The loop over the flattened headers.
unfoldable pub binary_extensions :
    {J : Type 0} → Dict String String → Option (Extensions J) → Option (Extensions J)
binary_extensions [] extensions = extensions
binary_extensions (header ∷ headers) extensions =
    binary_extensions headers (add_header header extensions)

-- isLegacyMode
unfoldable pub is_legacy_mode : Headers → Bool
is_legacy_mode headers = not (get_header headers "Event" == "")

-- isCloudEventsBinaryContentMode
unfoldable pub is_binary_mode : Headers → Bool
is_binary_mode headers =
    not (get_header headers "CE-EventType" == "")
    && (not (get_header headers "CE-CloudEventsVersion" == "")
        && (not (get_header headers "CE-Source" == "")
            && not (get_header headers "CE-EventID" == "")))

module _ {J : Type 0} (formats : Formats J) where
  -- The attributes before the time, the schema and the extensions are read.
  abbrev pub header_attributes : Headers → Attributes J
  header_attributes headers = record {
    event_type = get_header headers "CE-EventType";
    event_type_version = get_header headers "CE-EventTypeVersion";
    cloud_events_version = get_header headers "CE-CloudEventsVersion";
    source = get_header headers "CE-Source";
    event_id = get_header headers "CE-EventID";
    event_time = none;
    schema_url = "";
    extensions = no_extensions;
    content_type = get_header headers "Content-Type";
  }

  abbrev time_of : String → String ⊎ Option String
  time_of t =
      if t == ""
      then inr none
      else elim (formats.parse_time t) [ inl m ↦ inl m | inr v ↦ inr (some v) ]

  abbrev pub finished : Attributes J → Headers → String → Option (Extensions J) → Parsed (Event J)
  finished a headers body none = panicked
  finished a headers body (some extensions) = parsed (
      event (record a { schema_url = get_header headers "CE-SchemaURL"; extensions = extensions })
        (value (normalize_payload formats (bytes body) a.content_type)))

  abbrev timed : Attributes J → Headers → String → String ⊎ Option String → Parsed (Event J)
  timed a headers body (inl m) = refused m
  timed a headers body (inr time) =
      finished (record a { event_time = time }) headers body
        (binary_extensions (flatten_header headers) (some no_extensions))

  abbrev validated : Attributes J → Headers → String → Option String → Parsed (Event J)
  validated a headers body (some m) = refused m
  validated a headers body none = timed a headers body (time_of (get_header headers "CE-EventTime"))

  -- parseAsCloudEventBinary
  unfoldable pub parse_binary : Headers → String → Parsed (Event J)
  parse_binary headers body =
      let a = header_attributes headers in validated a headers body (formats.validate a)
