-- ===== src/PathTree/Stored/Delete.antt =====
-- What `DeleteRoute` does to the value of each route.
use event_gateway.Common.{
  String, true, ◌&&◌, ◌∙◌, sym, has_prefix, ◌≡◌, refl, none, some, List, [], ◌∷◌, ◌==◌, eq_iff,
  arith, if◌then◌else◌, Option, Option-cases, inl, inr, Bool-cases, eqb,
}
use event_gateway.PathTree.Defs.{
  Node, nil, entry, node, get, delete, children, value, replace, with_children, with_value, length,
}
use event_gateway.PathTree.Delete.{
  DeleteResult, deleted, not_existing, panicked, delete_last, delete_segments, delete_route,
}
use event_gateway.PathTree.Children.{get-delete, value-replace}
use event_gateway.PathTree.Stored.{
  same_segments, stored, stored-replace, route_key, to_segments-cons,
}

module _ {V : Type 0} where
  -- What a deletion of the segments `k` leaves under the segments `j`.
  abbrev pub after_delete : DeleteResult → List String → List String → Node V → Option V
  after_delete deleted k j n = if same_segments k j then none else stored j n
  after_delete not_existing k j n = stored j n
  after_delete panicked k j n = stored j n

  stored_without_children :
      (k : List String) (s : String) (n : Node V)
      → eqb (length (children n)) 0 ≡ true
      → stored (s ∷ k) n ≡ none
  unfolding stored get
  stored_without_children k s (node _ nil p st pa wi v) h = refl
  stored_without_children k s (node _ (entry j m cs) p st pa wi v) h = ground arith

  stored-with_value :
      (v : Option V) (j : List String) (n : Node V)
      → stored j (with_value v n) ≡ (if same_segments [] j then v else stored j n)
  unfolding stored
  stored-with_value v [] (node _ cs p st pa wi w) = refl
  stored-with_value v (s ∷ j) (node _ cs p st pa wi w) = refl

  stored-with_children :
      (s t : String) (j : List String) (n : Node V)
      → stored (t ∷ j) (with_children (delete s (children n)) n)
        ≡ (if s == t then none else stored (t ∷ j) n)
  unfolding stored
  stored-with_children s t j (node _ cs p st pa wi v) = ground (arith, get-delete s t cs)

  stored-cons :
      (s : String) (j : List String) (n child : Node V)
      → get s (children n) ≡ some child
      → stored (s ∷ j) n ≡ stored j child
  unfolding stored
  stored-cons s j n child e = rw (e, stored)

  value-delete_last : (s : String) (n : Node V) → value (delete_last s n).0 ≡ value n
  unfolding delete_last
  value-delete_last s (node _ cs p st pa wi v) = ground arith

  after_delete_root :
      (r : DeleteResult) (s : String) (k : List String) (n : Node V)
      → after_delete r (s ∷ k) [] n ≡ value n
  unfolding stored
  after_delete_root deleted s k n = refl
  after_delete_root not_existing s k n = refl
  after_delete_root panicked s k n = refl

  stored-root : (n : Node V) → stored [] n ≡ value n
  unfolding stored
  stored-root n = refl

  stored-delete_leaf :
      (s t : String) (j : List String) (n child : Node V)
      → get s (children n) ≡ some child
      → eqb (length (children child)) 0 ≡ true
      → stored (t ∷ j) (with_children (delete s (children n)) n)
        ≡ (if s == t && same_segments [] j then none else stored (t ∷ j) n)
  stored-delete_leaf s t [] n child e leaf = ground (arith, stored-with_children s t [] n)
  stored-delete_leaf s t (u ∷ j) n child e leaf = ground (
    arith,
    stored-with_children s t (u ∷ j) n,
    stored_without_children j u child leaf,
    stored-cons s (u ∷ j) n child e,
    eq_iff s t,
  )

  stored-delete_last :
      (s : String) (j : List String) (n : Node V)
      → stored j (delete_last s n).0 ≡ after_delete (delete_last s n).1 (s ∷ []) j n
  unfolding delete_last
  stored-delete_last s [] n =
      stored-root _ ∙ value-delete_last s n ∙ sym (after_delete_root (delete_last s n).1 s [] n)
  stored-delete_last s (t ∷ j) n = elim (Option-cases (get s (children n))) [
    | inl e ↦ rw (e, delete_last)
    | inr (child, e) ↦ elim (Bool-cases (eqb (length (children child)) 0)) [
      | inl leaf ↦ rw (e, delete_last) (rw leaf (stored-delete_leaf s t j n child e leaf))
      | inr inner ↦
          rw (e, delete_last)
            (rw inner (
              ground (
                arith,
                stored-replace s t j n (with_value none child),
                stored-with_value none j child,
                stored-cons s j n child e,
                eq_iff s t,
              )))
    ]
  ]

  stored-descend :
      (s : String) (k j : List String) (r : DeleteResult) (n child old : Node V)
      → get s (children n) ≡ some old
      → ((i : List String) → stored i child ≡ after_delete r k i old)
      → stored j (replace s n child) ≡ after_delete r (s ∷ k) j n
  stored-descend s k [] r n child old e h =
      stored-root _ ∙ value-replace s n child ∙ sym (after_delete_root r s k n)
  stored-descend s k (t ∷ j) deleted n child old e h =
      ground (arith, stored-replace s t j n child, h j, stored-cons s j n old e, eq_iff s t)
  stored-descend s k (t ∷ j) r n child old e h =
      ground (arith, stored-replace s t j n child, h j, stored-cons s j n old e, eq_iff s t)

  stored-delete_segments :
      (s : String) (k j : List String) (n : Node V)
      → stored j (delete_segments (s ∷ k) n).0
        ≡ after_delete (delete_segments (s ∷ k) n).1 (s ∷ k) j n
  unfolding delete_segments
  stored-delete_segments s [] j n = stored-delete_last s j n
  stored-delete_segments s (t ∷ k) j n = elim (Option-cases (get s (children n))) [
    | inl e ↦ rw (e, delete_segments)
    | inr (child, e) ↦
        rw (e, delete_segments)
          (stored-descend s (t ∷ k) j _ n _ child e (λ i. stored-delete_segments t k i child))
  ]

  -- `DeleteRoute` of a route "/…" that succeeds takes the value of that route and of no other; one
  -- that fails, by its error or by a nil pointer, takes none.
  pub stored-delete_route :
      (route : String) (n : Node V) (j : List String)
      → has_prefix route "/" ≡ true
      → stored j (delete_route route n).0
        ≡ after_delete (delete_route route n).1 (route_key route) j n
  unfolding delete_route
  stored-delete_route route n j h = elim (Bool-cases (route == "/")) [
    | inl root ↦ rw root (stored-with_value none j n)
    | inr other ↦
        let (s, k, parts) = to_segments-cons route h in
        rw (other, parts) (stored-delete_segments s k j n)
  ]
