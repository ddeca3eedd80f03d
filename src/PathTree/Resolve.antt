-- ===== src/PathTree/Resolve.antt =====
-- internal/pathtree/tree.go: `Resolve`.
use event_gateway.Common.{
  ℕ, suc, String, ◌||◌, Option, none, some, List, [], ◌∷◌, ◌==◌, if◌then◌else◌, join_slash, Dict,
  set_key, string_key,
}
use event_gateway.PathTree.Defs.{
  Node, Children, children, parameter, is_parameter, is_wildcard, value, get, first, to_segments,
}

-- map[string]string
abbrev pub Params : Type 0
Params = Dict String String

module _ {V : Type 0} where
  -- The child that a round of the loop goes on with.
  unfoldable pub step : ℕ → String → Children V → Option (Node V)
  unfolding get first
  step start s cs = elim (get s cs) [
    | some child ↦ some child
    | none ↦ elim (first start cs) [
      | none ↦ none
      | some child ↦ if is_parameter child || is_wildcard child then some child else none
    ]
  ]

  abbrev pub bind_parameter : Node V → String → Params → Params
  bind_parameter child s params =
      if is_parameter child then set_key params (parameter child) s else params

  abbrev pub bind_wildcard : Node V → List String → Params → Params
  bind_wildcard child segments params = set_key params (parameter child) (join_slash segments)

  -- The loop of `Resolve`: the value, nil for `none`, and the parameters.
  unfoldable pub resolve_segments :
      (ℕ → ℕ) → Params → List String → Node V → Option V × Option Params
  resolve_segments choice params [] n = (none, none)
  resolve_segments choice params (s ∷ []) n = elim (step (choice 0) s (children n)) [
    | none ↦ (none, none)
    | some child ↦
        let bound = bind_parameter child s params in
        if is_wildcard child
        then (value child, some (bind_wildcard child (s ∷ []) bound))
        else (value child, some bound)
  ]
  resolve_segments choice params (s ∷ t ∷ rest) n = elim (step (choice 0) s (children n)) [
    | none ↦ (none, none)
    | some child ↦
        let bound = bind_parameter child s params in
        let later = resolve_segments (λ i. choice (suc i)) bound (t ∷ rest) child in
        if is_wildcard child
        then (value child, some (bind_wildcard child (s ∷ t ∷ rest) bound))
        else later
  ]

  unfoldable pub resolve : (ℕ → ℕ) → String → Node V → Option V × Option Params
  resolve choice path n =
      if path == "/" then (value n, none) else resolve_segments choice [] (to_segments path) n
