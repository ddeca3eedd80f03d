-- ===== src/PathTree/Delete.antt =====
-- internal/pathtree/tree.go: `DeleteRoute`.
use event_gateway.Common.{String, none, some, List, [], ◌∷◌, ◌==◌, eqb, if◌then◌else◌}
use event_gateway.PathTree.Defs.{
  Node, children, with_children, with_value, get, delete, length, to_segments, replace,
}

pub data DeleteResult : Type 0 where
  deleted not_existing : DeleteResult
  -- A nil pointer is dereferenced.
  panicked : DeleteResult

module _ {V : Type 0} where
  -- The last round: a node with children stays, without its value.
  unfoldable pub delete_last : String → Node V → Node V × DeleteResult
  delete_last s n = elim (get s (children n)) [
    | none ↦ (n, not_existing)
    | some child ↦
        if eqb (length (children child)) 0
        then (with_children (delete s (children n)) n, deleted)
        else (replace s n (with_value none child), deleted)
  ]

  -- The loop of `DeleteRoute`.
  unfoldable pub delete_segments : List String → Node V → Node V × DeleteResult
  delete_segments [] n = (n, deleted)
  delete_segments (s ∷ []) n = delete_last s n
  delete_segments (s ∷ t ∷ rest) n = elim (get s (children n)) [
    | none ↦ (n, panicked)
    | some child ↦ let (child', r) = delete_segments (t ∷ rest) child in (replace s n child', r)
  ]

  unfoldable pub delete_route : String → Node V → Node V × DeleteResult
  delete_route route n =
      if route == "/" then (with_value none n, deleted) else delete_segments (to_segments route) n
