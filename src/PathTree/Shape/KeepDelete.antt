-- ===== src/PathTree/Shape/KeepDelete.antt =====
-- `DeleteRoute` keeps the shape.
use event_gateway.Common.{
  String, ◌≡◌, refl, false, none, some, List, [], ◌∷◌, ◌==◌, Option-cases, Bool-cases, inl, inr,
  eqb, sym, ◌∙◌, some-ne-none, ap,
}
use event_gateway.PathTree.Defs.{
  Node, node, get, delete, length, children, with_value, with_children, is_wildcard, to_segments,
  new_node,
}
use event_gateway.PathTree.Delete.{delete_last, delete_segments, delete_route}
use event_gateway.PathTree.Shape.{
  HasShape, IsWellFormed, AreWellFormed, get-AreWellFormed, delete-AreWellFormed,
}
use event_gateway.PathTree.Shape.Siblings.{IsAlone-delete}
use event_gateway.PathTree.Shape.Keep.{replace-WellFormed, replace-HasShape, with_value-keeps}

pub new_node-WellFormed : (V : Type 0) → IsWellFormed (new_node {V = V})
unfolding new_node IsWellFormed AreWellFormed
new_node-WellFormed V = (tt, tt, λ _. refl)

module _ {V : Type 0} where
  without-keeps :
      (k s : String) (n : Node V)
      → IsWellFormed n
      → IsWellFormed (with_children (delete s (children n)) n)
  unfolding IsWellFormed
  without-keeps k s (node l cs p st pa wi v) w = (
    delete-AreWellFormed s cs w.0,
    IsAlone-delete s cs w.1,
    λ e. ap (delete s) (w.2 e) ∙ (unfold delete in refl),
  )

  -- A node with a child under `s` is no wildcard, and the child is well-formed.
  child-WellFormed :
      (s : String) (n child : Node V)
      → get s (children n) ≡ some child
      → IsWellFormed n
      → (is_wildcard n ≡ false) × HasShape s child × IsWellFormed child
  unfolding IsWellFormed
  child-WellFormed s (node l cs p st pa wi v) child e w =
      let (shape, ok) = get-AreWellFormed s cs child e w.0 in
      (
        elim (Bool-cases wi) [
          | inl wild ↦ absurd (some-ne-none (sym (ap (get s) (w.2 wild)) ∙ e) (unfold get in refl))
          | inr plain ↦ plain
        ],
        shape,
        ok,
      )

  delete_last-WellFormed :
      (s : String) (n : Node V) → IsWellFormed n → IsWellFormed (delete_last s n).0
  unfolding delete_last
  delete_last-WellFormed s n w = elim (Option-cases (get s (children n))) [
    | inl e ↦ rw (e, delete_last) w
    | inr (child, e) ↦ elim (Bool-cases (eqb (length (children child)) 0)) [
      | inl leaf ↦ rw (e, delete_last) (rw leaf (without-keeps s s n w))
      | inr inner ↦
          let (plain, shape, ok) = child-WellFormed s n child e w in
          let (shape', ok') = with_value-keeps s none child shape ok in
          rw (e, delete_last)
            (rw inner (replace-WellFormed s n _ w plain (inl (child, e)) shape' ok'))
    ]
  ]

  delete_last-HasShape : (k s : String) (n : Node V) → HasShape k n → HasShape k (delete_last s n).0
  unfolding delete_last
  delete_last-HasShape k s (node l cs p st pa wi v) h = elim (Option-cases (get s cs)) [
    | inl e ↦ rw (e, delete_last) h
    | inr (child, e) ↦ elim (Bool-cases (eqb (length (children child)) 0)) [
      | inl leaf ↦ rw (e, delete_last) (rw leaf h)
      | inr inner ↦ rw (e, delete_last) (rw inner h)
    ]
  ]

  delete_segments-HasShape :
      (k : String) (segments : List String) (n : Node V)
      → HasShape k n
      → HasShape k (delete_segments segments n).0
  unfolding delete_segments
  delete_segments-HasShape k [] n h = h
  delete_segments-HasShape k (s ∷ []) n h = delete_last-HasShape k s n h
  delete_segments-HasShape k (s ∷ t ∷ rest) n h = elim (Option-cases (get s (children n))) [
    | inl e ↦ rw (e, delete_segments) h
    | inr (child, e) ↦ rw (e, delete_segments) (replace-HasShape k s n _ h)
  ]

  delete_segments-WellFormed :
      (segments : List String) (n : Node V)
      → IsWellFormed n
      → IsWellFormed (delete_segments segments n).0
  unfolding delete_segments
  delete_segments-WellFormed [] n w = w
  delete_segments-WellFormed (s ∷ []) n w = delete_last-WellFormed s n w
  delete_segments-WellFormed (s ∷ t ∷ rest) n w = elim (Option-cases (get s (children n))) [
    | inl e ↦ rw (e, delete_segments) w
    | inr (child, e) ↦
        let (plain, shape, ok) = child-WellFormed s n child e w in
        rw (e, delete_segments)
          (replace-WellFormed s n _ w plain (inl (child, e))
            (delete_segments-HasShape s (t ∷ rest) child shape)
            (delete_segments-WellFormed (t ∷ rest) child ok))
  ]

  with_none-WellFormed : (n : Node V) → IsWellFormed n → IsWellFormed (with_value none n)
  unfolding IsWellFormed
  with_none-WellFormed (node l cs p st pa wi v) w = w

  -- `DeleteRoute` keeps the tree well-formed, whatever it returns.
  pub delete_route-WellFormed :
      (route : String) (n : Node V) → IsWellFormed n → IsWellFormed (delete_route route n).0
  unfolding delete_route
  delete_route-WellFormed route n w = elim (Bool-cases (route == "/")) [
    | inl root ↦ rw root (with_none-WellFormed n w)
    | inr other ↦ rw other (delete_segments-WellFormed (to_segments route) n w)
  ]
