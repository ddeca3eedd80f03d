-- ===== src/PathTree.antt =====
-- internal/pathtree/tree.go: the tree of path segments that routes requests.
-- The operations are in `Defs`, `Add`, `Delete` and `Resolve`; what is proved of them is in the
-- other modules.
pub mod Defs
pub mod Add
pub mod Delete
pub mod Resolve
pub mod Children
pub mod Stored
pub mod Shape
pub mod Routing
mod Tests
