-- ===== src/Event/Headers.antt =====
-- internal/http/headers.go, and the lookup of headers by net/http.
use Prim.Native.String.{String, [], ◌∷◌}
use mathlib.Core.List.{List, [], ◌∷◌}
use event_gateway.Common.{
  Bool, true, Option, none, some, code, if◌then◌else◌, eqb, string_key, Dict, at_key, ◌<+>◌,
  upper_letter, lower_letter,
}

-- http.Header: a key has at least one value, and net/http makes the keys canonical.
abbrev pub Headers : Type 0
Headers = Dict String (String × List String)

unfoldable pub canonical_from : Bool → String → String
canonical_from up [] = []
canonical_from up (c ∷ s) =
    let rest = canonical_from (eqb (code c) b'-') s in
    (if up then upper_letter c else lower_letter c) ∷ rest

-- CanonicalMIMEHeaderKey, for the bytes that a header may have.
unfoldable pub canonical_key : String → String
unfolding canonical_from
canonical_key key = canonical_from true key

abbrev pub first_value : Option (String × List String) → String
first_value none = ""
first_value (some values) = values.0

-- http.Header.Get
unfoldable pub get_header : Headers → String → String
get_header headers key = first_value (at_key headers (canonical_key key))

-- strings.Join(values, ", ")
abbrev pub join_comma : String → List String → String
join_comma value [] = value
join_comma value (next ∷ values) = value <+> ", " <+> join_comma next values

-- FlattenHeader
unfoldable pub flatten_header : Headers → Dict String String
flatten_header [] = []
flatten_header ((key, (value, values)) ∷ headers) =
    (key, join_comma value values) ∷ flatten_header headers
