-- ===== src/PathTree/Add.antt =====
-- internal/pathtree/tree.go: `AddRoute`.
use event_gateway.Common.{
  ℕ, suc, String, ◌≡◌, refl, ◌⊎◌, inl, inr, arith, not, ◌&&◌, ◌||◌, Option, none, some, List, [],
  ◌∷◌, ◌==◌, if◌then◌else◌,
}
use event_gateway.PathTree.Defs.{
  Node, Children, segment, children, parameter, is_static, is_parameter, is_wildcard, value,
  with_value, get, first, is_wildcard_segment, is_static_segment, create_node, to_segments, replace,
}

-- The errors of `AddRoute`, with what their messages quote.
pub data AddError : Type 0 where
  root_conflict : AddError
  wildcard_not_last : AddError
  wildcard_defined : (parameter route : String) → AddError
  parameter_defined : (parameter route : String) → AddError
  static_defined : String → AddError
  route_conflict : String → AddError

-- What a round of the loop goes on with: an error, or the child under the segment.
pub data Visit (V : Type 0) : Type 0 where
  refused : AddError → Visit V
  enter : Node V → Visit V

module _ {V : Type 0} where
  -- The three tests of the loop of `AddRoute` on the child that it found.
  unfoldable pub conflict : String → String → Node V → Option AddError
  unfolding is_static_segment
  conflict route s child =
      if is_wildcard child || is_wildcard_segment s
      then some (wildcard_defined (parameter child) route)
      else if is_parameter child && not (segment child == s)
      then some (parameter_defined (parameter child) route)
      else if is_static child && not (is_static_segment s)
      then some (static_defined route)
      else none

  -- children[segment], created where it is nil.
  unfoldable pub get_or_create : String → Children V → Node V
  unfolding get create_node
  get_or_create s cs = elim (get s cs) [ none ↦ create_node s | some child ↦ child ]

  -- The child found for a segment: its own, or else an arbitrary one.
  unfoldable pub find_child : ℕ → String → Children V → Option (Node V)
  unfolding get first
  find_child start s cs = elim (get s cs) [ none ↦ first start cs | some child ↦ some child ]

  unfoldable pub visit : ℕ → String → String → Node V → Visit V
  visit start route s n =
      if is_wildcard n then refused wildcard_not_last else elim (find_child start s (children n)) [
        | none ↦ enter (create_node s)
        | some child ↦ elim (conflict route s child) [
          | some e ↦ refused e
          | none ↦ enter (get_or_create s (children n))
        ]
      ]

  -- The last round: the value is set unless there is one.
  unfoldable pub set_value : String → V → Node V → Node V × Option AddError
  set_value route v n = elim (value n) [
    | none ↦ (with_value (some v) n, none)
    | some _ ↦ (n, some (route_conflict route))
  ]

  -- The loop of `AddRoute`. Nodes created before an error stay.
  unfoldable pub add_segments :
      String → V → (ℕ → ℕ) → List String → Node V → Node V × Option AddError
  add_segments route v choice [] n = (n, none)
  add_segments route v choice (s ∷ []) n = elim (visit (choice 0) route s n) [
    | refused e ↦ (n, some e)
    | enter child ↦ let (child', e) = set_value route v child in (replace s n child', e)
  ]
  add_segments route v choice (s ∷ t ∷ rest) n = elim (visit (choice 0) route s n) [
    | refused e ↦ (n, some e)
    | enter child ↦
        let (child', e) = add_segments route v (λ i. choice (suc i)) (t ∷ rest) child in
        (replace s n child', e)
  ]

  -- The route "/".
  unfoldable pub set_root : V → Node V → Node V × Option AddError
  set_root v n = elim (value n) [
    | none ↦ (with_value (some v) n, none)
    | some _ ↦ (n, some root_conflict)
  ]

  unfoldable pub add_route : (ℕ → ℕ) → String → V → Node V → Node V × Option AddError
  add_route choice route v n =
      if route == "/" then set_root v n else add_segments route v choice (to_segments route) n

module _ {V : Type 0} where
  pub Visit-cases :
      (x : Visit V) → ((e : AddError) × (x ≡ refused e)) ⊎ ((child : Node V) × (x ≡ enter child))
  Visit-cases (refused e) = inl (e, refl)
  Visit-cases (enter child) = inr (child, refl)

  -- A round goes on with the child under the segment, which it creates where there is none.
  pub visit-eq-enter :
      (start : ℕ) (route s : String) (n child : Node V)
      → visit start route s n ≡ enter child
      → child ≡ get_or_create s (children n)
  unfolding visit find_child get_or_create
  visit-eq-enter start route s n child h = ground arith
