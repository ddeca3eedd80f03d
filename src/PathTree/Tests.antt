-- ===== src/PathTree/Tests.antt =====
-- The operations of the tree on small inputs, after internal/pathtree/tree_test.go.
use event_gateway.Common.{
  ℕ, ◌≡◌, ◌↔◌, refl, none, some, [], ◌∷◌, set_key, delete_key, join_slash, split_slash, has_prefix,
  trim_prefix,
}
use event_gateway.PathTree.Defs.{
  Node, new_node, get, put, delete, first, create_node, is_static_segment, to_segments,
}
use event_gateway.PathTree.Add.{
  wildcard_defined, static_defined, conflict, get_or_create, find_child, visit, set_value,
  add_segments, set_root, add_route,
}
use event_gateway.PathTree.Delete.{delete_last, delete_segments, delete_route}
use event_gateway.PathTree.Resolve.{step, resolve_segments, resolve}
use event_gateway.PathTree.Shape.{IsWellFormed}
use event_gateway.PathTree.Shape.Keep.{add_route-WellFormed}
use event_gateway.PathTree.Shape.KeepDelete.{new_node-WellFormed, delete_route-WellFormed}
use event_gateway.PathTree.Stored.{stored, stored-add_route, after_add, route_key}
use event_gateway.PathTree.Stored.Delete.{after_delete, stored-delete_route}
use event_gateway.PathTree.Routing.{end, static, param, captured}
use event_gateway.PathTree.Routing.Sound.{IsRouted}
use event_gateway.PathTree.Routing.Contract.{resolve_iff, resolve-choice, resolve-add_route}
use event_gateway.PathTree.Routing.Unique.{resolve-delete_route}

-- Opens all that a run of an operation computes with.
run : Unit {0}
unfolding set_key delete_key join_slash split_slash has_prefix trim_prefix new_node get put delete
    first create_node is_static_segment to_segments conflict get_or_create find_child visit
    set_value add_segments set_root add_route delete_last delete_segments delete_route step
    resolve_segments resolve stored captured
run = tt

abbrev at_first : ℕ → ℕ
at_first _ = 0

abbrev small : Node ℕ
small = (add_route at_first "/b/*rest" 2 (add_route at_first "/a/:id/c" 1 new_node).0).0

resolve_param : resolve at_first "/a/7/c" small ≡ (some 1, some (("id", "7") ∷ []))
unfolding run
resolve_param = refl

resolve_wildcard : resolve at_first "/b/x/y" small ≡ (some 2, some (("rest", "x/y") ∷ []))
unfolding run
resolve_wildcard = refl

add_conflict : (add_route at_first "/b/x" 3 small).1 ≡ some (wildcard_defined "rest" "/b/x")
unfolding run
add_conflict = refl

resolve_deleted : (resolve at_first "/a/7/c" (delete_route "/a/:id/c" small).0).0 ≡ none
unfolding run
resolve_deleted = refl

abbrev emptied : Node ℕ
emptied = (delete_route "/a/b" (add_route at_first "/a/b" 1 new_node).0).0

-- The node of "a" stays after the only route below it is deleted, and is in the way of a parameter.
add_after_delete : (add_route at_first "/:x" 2 emptied).1 ≡ some (static_defined "/:x")
unfolding run
add_after_delete = refl

small-WellFormed : IsWellFormed small
small-WellFormed =
    add_route-WellFormed at_first "/b/*rest" 2 _
      (add_route-WellFormed at_first "/a/:id/c" 1 _ (new_node-WellFormed ℕ))

add_route-WellFormed_example : IsWellFormed (add_route at_first "/a/:x" 3 small).0
add_route-WellFormed_example = add_route-WellFormed at_first "/a/:x" 3 small small-WellFormed

delete_route-WellFormed_example : IsWellFormed (delete_route "/a/:id/c" small).0
delete_route-WellFormed_example = delete_route-WellFormed "/a/:id/c" small small-WellFormed

stored-add_route_example :
    stored ("d" ∷ []) (add_route at_first "/d" 3 small).0
    ≡ after_add (add_route at_first "/d" 3 small).1 (route_key "/d") 3 ("d" ∷ []) small
unfolding run
stored-add_route_example = stored-add_route at_first "/d" 3 small ("d" ∷ []) refl

stored-delete_route_example :
    stored ("b" ∷ "*rest" ∷ []) (delete_route "/b/*rest" small).0
    ≡ after_delete
        (delete_route "/b/*rest" small).1
        (route_key "/b/*rest")
        ("b" ∷ "*rest" ∷ [])
        small
unfolding run
stored-delete_route_example = stored-delete_route "/b/*rest" small ("b" ∷ "*rest" ∷ []) refl

resolve_iff_example :
    (resolve at_first "/a/7/c" small ≡ (some 1, some (("id", "7") ∷ [])))
    ↔ IsRouted [] (to_segments "/a/7/c") small 1 (some (("id", "7") ∷ []))
unfolding run
resolve_iff_example =
    resolve_iff at_first "/a/7/c" small 1 (some (("id", "7") ∷ [])) small-WellFormed refl refl

abbrev at_last : ℕ → ℕ
at_last level = 5

resolve-choice_example : resolve at_first "/a/7/c" small ≡ resolve at_last "/a/7/c" small
resolve-choice_example = resolve-choice at_first at_last "/a/7/c" small small-WellFormed

resolve-add_route_example :
    resolve at_last "/a/7/d" (add_route at_first "/a/:id/d" 3 small).0
    ≡ (some 3, some (captured [] (route_key "/a/:id/d") (to_segments "/a/7/d")))
unfolding run
resolve-add_route_example =
    resolve-add_route at_first at_last "/a/:id/d" "/a/7/d" 3 small small-WellFormed refl refl refl
      refl (static refl refl (param refl (static refl refl end)))

resolve-delete_route_example : (resolve at_last "/a/7/c" (delete_route "/a/:id/c" small).0).0 ≡ none
unfolding run
resolve-delete_route_example =
    resolve-delete_route at_last "/a/:id/c" "/a/7/c" small 1 small-WellFormed refl refl refl refl
      refl (static refl refl (param refl (static refl refl end)))
