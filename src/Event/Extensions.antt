-- ===== src/Event/Extensions.antt =====
-- When the extensions of a request in the binary mode cannot be read.
use Prim.Native.String.{String, [], ◌∷◌}
use mathlib.Core.List.{[], ◌∷◌}
use event_gateway.Common.{
  ◌≡◌, refl, ap, sym, ◌∙◌, ◌↔◌, some-ne-none, Option-cases, arith, ◌⊎◌, inl, inr, true, Option,
  none, some, Dict, has_prefix, Bool-cases,
}
use event_gateway.Event.Headers.{Headers, get_header, flatten_header}
use event_gateway.Event.Defs.{Attributes, Extensions, Formats}
use event_gateway.Event.Binary.{
  panicked, trim_cut, lower_first, insert_extension, extension_prefix, no_extensions,
  binary_extensions, header_attributes, finished, parse_binary,
}

-- A header with the prefix of the extensions that has only characters of that prefix.
abbrev pub IsNameless : String × String → Type 0
IsNameless (key, v) = (has_prefix key extension_prefix ≡ true) × (trim_cut key ≡ "")

abbrev pub HasNameless : Dict String String → Type 0
HasNameless [] = ⊥
HasNameless (header ∷ headers) = IsNameless header ⊎ HasNameless headers

lower_first-none : (s : String) → lower_first s ≡ none → s ≡ ""
lower_first-none [] e = refl
lower_first-none (c ∷ s) e = absurd (cc)

module _ {J : Type 0} where
  binary_extensions-none :
      (headers : Dict String String) → binary_extensions {J = J} headers none ≡ none
  unfolding binary_extensions
  binary_extensions-none [] = refl
  binary_extensions-none ((key, v) ∷ headers) =
      elim (Bool-cases (has_prefix key extension_prefix)) [
        | inl e ↦ rw e (elim (Option-cases (lower_first (trim_cut key))) [
          | inl f ↦ rw f (binary_extensions-none headers)
          | inr (name, f) ↦ rw f (binary_extensions-none headers)
        ])
        | inr e ↦ rw e (binary_extensions-none headers)
      ]

  -- The loop ends with the panic exactly if there is a header without a name.
  pub binary_extensions_iff :
      (headers : Dict String String) (extensions : Extensions J)
      → (binary_extensions headers (some extensions) ≡ none) ↔ HasNameless headers
  unfolding binary_extensions
  binary_extensions_iff [] extensions = (λ e. absurd (cc), λ h. absurd h)
  binary_extensions_iff ((key, v) ∷ headers) extensions =
      elim (Bool-cases (has_prefix key extension_prefix)) [
        | inr e ↦
            let rest = binary_extensions_iff headers extensions in
            rw e (
              λ failed. inr (rest.0 failed),
              λ has. elim has [ inl h ↦ absurd (ground arith) | inr later ↦ rest.1 later ],
            )
        | inl e ↦ elim (Option-cases (lower_first (trim_cut key))) [
          | inl f ↦
              rw (e, f)
                (
                  λ failed. inl (refl, lower_first-none (trim_cut key) f),
                  λ has. binary_extensions-none headers,
                )
          | inr (name, f) ↦
              let rest = binary_extensions_iff headers (insert_extension name v extensions) in
              rw (e, f)
                (
                  λ failed. inr (rest.0 failed),
                  λ has. elim has [
                    | inl h ↦ absurd (some-ne-none (sym (ap lower_first h.1) ∙ f) refl)
                    | inr later ↦ rest.1 later
                  ],
                )
        ]
      ]

finished-panicked :
    {J : Type 0} (formats : Formats J) (a : Attributes J) (headers : Headers) (body : String)
    (extensions : Option (Extensions J))
    → (finished formats a headers body extensions ≡ panicked) ↔ (extensions ≡ none)
finished-panicked formats a headers body none = (λ e. refl, λ e. refl)
finished-panicked formats a headers body (some x) = (λ e. absurd (cc), λ e. absurd (cc))

-- A request in the binary mode whose attributes are valid and that gives no time makes the program panic
-- exactly if one of its headers has the prefix "Ce-X-" and no other characters than those of that
-- prefix, as "Ce-X-C" has.
pub parse_binary-panicked :
    {J : Type 0} (formats : Formats J) (headers : Headers) (body : String)
    → formats.validate (header_attributes formats headers) ≡ none
    → get_header headers "CE-EventTime" ≡ ""
    → (parse_binary formats headers body ≡ panicked) ↔ HasNameless (flatten_header headers)
unfolding parse_binary
parse_binary-panicked formats headers body valid untimed =
    rw (valid, untimed)
      (let f =
          finished-panicked formats (header_attributes formats headers) headers body
            (binary_extensions (flatten_header headers) (some no_extensions)) in
        let g = binary_extensions_iff (flatten_header headers) no_extensions in
        (λ e. g.0 (f.0 e), λ h. f.1 (g.1 h)))
