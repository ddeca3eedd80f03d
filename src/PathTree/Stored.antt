-- ===== src/PathTree/Stored.antt =====
-- What `AddRoute` and `DeleteRoute` do to the value of each route.
pub mod Delete
use event_gateway.Common.{
  ℕ, suc, String, ◌≡◌, refl, Bool, true, false, ◌&&◌, Option, none, some, List, [], ◌∷◌, ◌==◌,
  eq_iff, eq_refl, arith, if◌then◌else◌, has_prefix, split_slash, split_slash-cons, eqb, code, ap,
  refl, sym, ◌∙◌, Bool-cases, inl, inr,
}
use event_gateway.PathTree.Defs.{
  Node, node, get, children, value, replace, create_node, to_segments,
}
use event_gateway.PathTree.Add.{
  AddError, Visit-cases, get_or_create, visit, visit-eq-enter, set_value, add_segments, set_root,
  add_route,
}
use event_gateway.PathTree.Children.{get-put, value-replace}

abbrev pub same_segments : List String → List String → Bool
same_segments [] [] = true
same_segments (s ∷ ss) (t ∷ ts) = s == t && same_segments ss ts
same_segments _ _ = false

pub same_segments_refl : (k : List String) → same_segments k k ≡ true
same_segments_refl [] = refl
same_segments_refl (s ∷ k) = rw (eq_refl s, same_segments_refl k)

pub same_segments_eq : (k j : List String) → same_segments k j ≡ true → k ≡ j
same_segments_eq [] [] h = refl
same_segments_eq [] (t ∷ j) h = absurd (cc)
same_segments_eq (s ∷ k) [] h = absurd (cc)
same_segments_eq (s ∷ k) (t ∷ j) h =
    let same : s ≡ t = ground (arith, eq_iff s t) in
    let rest : same_segments k j ≡ true = ground arith in λ i. same i ∷ same_segments_eq k j rest i

module _ {V : Type 0} where
  -- The value under exactly these segments.
  unfoldable pub stored : List String → Node V → Option V
  stored [] n = value n
  stored (s ∷ rest) n = elim (get s (children n)) [ none ↦ none | some child ↦ stored rest child ]

  pub stored-create_node : (s : String) (k : List String) → stored k (create_node {V = V} s) ≡ none
  unfolding stored create_node get
  stored-create_node s [] = refl
  stored-create_node s (t ∷ k) = refl

  -- The value of a route below the child that a round creates or finds is the one from above.
  pub stored-get_or_create :
      (s : String) (k : List String) (n : Node V)
      → stored k (get_or_create s (children n)) ≡ stored (s ∷ k) n
  unfolding stored get_or_create
  stored-get_or_create s k n = ground (arith, stored-create_node s k)

  pub stored-replace :
      (s t : String) (k : List String) (n child : Node V)
      → stored (t ∷ k) (replace s n child) ≡ (if s == t then stored k child else stored (t ∷ k) n)
  unfolding stored
  stored-replace s t k (node _ cs p st pa wi v) child = ground (arith, get-put s t child cs)

  -- What an operation on the segments `k` leaves under the segments `j`.
  abbrev pub after_add : Option AddError → List String → V → List String → Node V → Option V
  after_add none k v j n = if same_segments k j then some v else stored j n
  after_add (some _) k v j n = stored j n

  -- The value set by the last round, or kept by it.
  pub stored-set_value :
      (route : String) (v : V) (k : List String) (n : Node V)
      → stored k (set_value route v n).0 ≡ after_add (set_value route v n).1 [] v k n
  unfolding stored set_value
  stored-set_value route v [] (node s cs p st pa wi none) = refl
  stored-set_value route v [] (node s cs p st pa wi (some w)) = refl
  stored-set_value route v (t ∷ k) (node s cs p st pa wi none) = refl
  stored-set_value route v (t ∷ k) (node s cs p st pa wi (some w)) = refl

  stored-enter :
      (s : String) (k j : List String) (v : V) (e : Option AddError) (n child : Node V)
      → ((i : List String) → stored i child ≡ after_add e k v i (get_or_create s (children n)))
      → stored j (replace s n child) ≡ after_add e (s ∷ k) v j n
  stored-enter s k [] v none n child h = unfold stored in value-replace s n child
  stored-enter s k [] v (some e) n child h = unfold stored in value-replace s n child
  stored-enter s k (t ∷ j) v none n child h =
      ground (arith, stored-replace s t j n child, h j, stored-get_or_create s j n, eq_iff s t)
  stored-enter s k (t ∷ j) v (some e) n child h =
      ground (arith, stored-replace s t j n child, h j, stored-get_or_create s j n, eq_iff s t)

  pub stored-add_segments :
      (route : String) (v : V) (choice : ℕ → ℕ) (s : String) (k j : List String) (n : Node V)
      → stored j (add_segments route v choice (s ∷ k) n).0
        ≡ after_add (add_segments route v choice (s ∷ k) n).1 (s ∷ k) v j n
  unfolding add_segments
  stored-add_segments route v choice s [] j n = elim (Visit-cases (visit (choice 0) route s n)) [
    | inl (e, found) ↦ rw (found, add_segments)
    | inr (child, found) ↦
        rw (found, add_segments)
          (stored-enter s [] j v _ n _
            (λ i. rw (← visit-eq-enter _ route s n child found) (stored-set_value route v i child)))
  ]
  stored-add_segments route v choice s (t ∷ k) j n =
      elim (Visit-cases (visit (choice 0) route s n)) [
        | inl (e, found) ↦ rw (found, add_segments)
        | inr (child, found) ↦
            rw (found, add_segments)
              (stored-enter s (t ∷ k) j v _ n _ (λ i.
                rw (← visit-eq-enter _ route s n child found)
                  (stored-add_segments route v (λ d. choice (suc d)) t k i child)))
      ]

-- The segments under which a route is kept: none for "/", the root itself.
abbrev pub route_key : String → List String
route_key route = if route == "/" then [] else to_segments route

pub to_segments-cons :
    (route : String)
    → has_prefix route "/" ≡ true
    → (s : String) × (k : List String) × (to_segments route ≡ s ∷ k)
unfolding to_segments has_prefix split_slash
to_segments-cons String.[] h = absurd (cc)
to_segments-cons (String.◌∷◌ c route) h =
    let (x, xs, parts) = split_slash-cons route in
    let first_slash : eqb (code c) b'/' ≡ true = ground arith in
    let split : split_slash (String.◌∷◌ c route) ≡ "" ∷ split_slash route =
      rw (first_slash, split_slash) in
    (x, xs, rw (split, to_segments) parts)

module _ {V : Type 0} where
  stored-set_root :
      (v : V) (j : List String) (n : Node V)
      → stored j (set_root v n).0 ≡ after_add (set_root v n).1 [] v j n
  unfolding stored set_root
  stored-set_root v [] (node s cs p st pa wi none) = refl
  stored-set_root v [] (node s cs p st pa wi (some w)) = refl
  stored-set_root v (t ∷ j) (node s cs p st pa wi none) = refl
  stored-set_root v (t ∷ j) (node s cs p st pa wi (some w)) = refl

  -- `AddRoute` of a route "/…" gives the route its value and leaves every other value as it was;
  -- one that returns an error leaves all of them.
  pub stored-add_route :
      (choice : ℕ → ℕ) (route : String) (v : V) (n : Node V) (j : List String)
      → has_prefix route "/" ≡ true
      → stored j (add_route choice route v n).0
        ≡ after_add (add_route choice route v n).1 (route_key route) v j n
  unfolding add_route
  stored-add_route choice route v n j h = elim (Bool-cases (route == "/")) [
    | inl root ↦ rw root (stored-set_root v j n)
    | inr other ↦
        let (s, k, parts) = to_segments-cons route h in
        rw (other, parts) (stored-add_segments route v choice s k j n)
  ]
