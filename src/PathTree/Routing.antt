-- ===== src/PathTree/Routing.antt =====
-- `Resolve` finds exactly the routes that match a path, whatever order Go iterates its maps in.
mod Rounds
pub mod Sound
pub mod Complete
pub mod Contract
pub mod Unique
use event_gateway.Common.{
  ℕ, String, ◌≡◌, true, List, [], ◌∷◌, if◌then◌else◌, set_key, string_key, join_slash,
}
use event_gateway.PathTree.Defs.{
  is_static_segment, is_param_segment, is_wildcard_segment, parameter_of,
}
use event_gateway.PathTree.Resolve.{Params}

-- A route matches a path, segment by segment: ":name" stands for any segment, and a last "*name"
-- for one or more.
pub data Matches : List String → List String → Type 0 where
  end : Matches [] []
  static :
      {s q : String} {route path : List String}
      → is_static_segment s ≡ true
      → s ≡ q
      → Matches route path
      → Matches (s ∷ route) (q ∷ path)
  param :
      {s q : String} {route path : List String}
      → is_param_segment s ≡ true
      → Matches route path
      → Matches (s ∷ route) (q ∷ path)
  wildcard :
      {s q : String} {path : List String}
      → is_wildcard_segment s ≡ true
      → Matches (s ∷ []) (q ∷ path)

-- The parameters that a route takes from a path.
unfoldable pub captured : Params → List String → List String → Params
captured params (s ∷ route) (q ∷ path) =
    let bound = (if is_param_segment s then set_key params (parameter_of s) q else params) in
    let later = captured bound route path in
    if is_wildcard_segment s then set_key bound (parameter_of s) (join_slash (q ∷ path)) else later
captured params _ _ = params
