-- ===== src/PathTree/Defs.antt =====
-- internal/pathtree/tree.go: `Node`, the map of its children, and the helpers of the operations.
use event_gateway.Common.{
  ℕ, zero, suc, ◌%◌, String, Bool, false, not, ◌&&◌, Option, none, some, List, [], ◌∷◌, ◌==◌,
  if◌then◌else◌, has_prefix, trim_prefix, split_slash,
}

mutual
  pub data Node (V : Type 0) : Type 0 where
    node :
        (segment : String) (children : Children V) (parameter : String)
        (is_static is_parameter is_wildcard : Bool) (value : Option V)
        → Node V

  -- map[string]*Node
  pub data Children (V : Type 0) : Type 0 where
    nil : Children V
    entry : String → Node V → Children V → Children V

module _ {V : Type 0} where
  abbrev pub segment : Node V → String
  segment (node s cs p st pa wi v) = s

  abbrev pub children : Node V → Children V
  children (node s cs p st pa wi v) = cs

  abbrev pub parameter : Node V → String
  parameter (node s cs p st pa wi v) = p

  abbrev pub is_static : Node V → Bool
  is_static (node s cs p st pa wi v) = st

  abbrev pub is_parameter : Node V → Bool
  is_parameter (node s cs p st pa wi v) = pa

  abbrev pub is_wildcard : Node V → Bool
  is_wildcard (node s cs p st pa wi v) = wi

  abbrev pub value : Node V → Option V
  value (node s cs p st pa wi v) = v

  abbrev pub with_children : Children V → Node V → Node V
  with_children cs (node s _ p st pa wi v) = node s cs p st pa wi v

  abbrev pub with_value : Option V → Node V → Node V
  with_value v (node s cs p st pa wi _) = node s cs p st pa wi v

  unfoldable pub new_node : Node V
  new_node = node "" nil "" false false false none

  -- currentNode.children[segment]
  unfoldable pub get : String → Children V → Option (Node V)
  get k nil = none
  get k (entry j n cs) = if j == k then some n else get k cs

  unfoldable pub put : String → Node V → Children V → Children V
  put k n nil = entry k n nil
  put k n (entry j m cs) = if j == k then entry k n cs else entry j m (put k n cs)

  unfoldable pub delete : String → Children V → Children V
  delete k nil = nil
  delete k (entry j n cs) = let rest = delete k cs in if j == k then rest else entry j n rest

  abbrev pub length : Children V → ℕ
  length nil = 0
  length (entry _ _ cs) = suc (length cs)

  unfoldable pub nth : ℕ → Children V → Option (Node V)
  nth i nil = none
  nth zero (entry _ n cs) = some n
  nth (suc i) (entry _ n cs) = nth i cs

  -- An arbitrary entry: the one at which the iteration of the map begins.
  unfoldable pub first : ℕ → Children V → Option (Node V)
  unfolding nth
  first start cs = nth (start % length cs) cs

  -- `child` stands under `s` of `n` now.
  abbrev pub replace : String → Node V → Node V → Node V
  replace s n child = with_children (put s child (children n)) n

unfoldable pub is_param_segment : String → Bool
is_param_segment s = has_prefix s ":"

unfoldable pub is_wildcard_segment : String → Bool
is_wildcard_segment s = has_prefix s "*"

unfoldable pub is_static_segment : String → Bool
unfolding is_param_segment is_wildcard_segment
is_static_segment s = not (is_param_segment s) && not (is_wildcard_segment s)

unfoldable pub parameter_of : String → String
unfolding is_param_segment is_wildcard_segment
parameter_of s =
    if is_param_segment s
    then trim_prefix s ":"
    else if is_wildcard_segment s
    then trim_prefix s "*"
    else ""

unfoldable pub create_node : {V : Type 0} → String → Node V
unfolding is_static_segment parameter_of
create_node s =
    node s nil (parameter_of s) (is_static_segment s) (is_param_segment s) (is_wildcard_segment s)
      none

-- The segments of a route, less the first.
unfoldable pub to_segments : String → List String
to_segments route = elim (split_slash route) [ [] ↦ [] | _ ∷ segments ↦ segments ]
