-- ===== src/PathTree/Shape/Keep.antt =====
-- `AddRoute` and `DeleteRoute` keep the shape.
use event_gateway.Common.{
  ℕ, suc, String, ◌≡◌, refl, sym, ◌⊎◌, inl, inr, true, false, Option, none, some, List, [], ◌∷◌,
  ◌==◌, arith, Option-cases, Bool-cases, subst, ne_test, String-cases, some-ne-none,
}
use event_gateway.PathTree.Defs.{
  Node, Children, nil, node, get, put, first, children, with_value, replace, is_static_segment,
  is_wildcard, create_node, to_segments,
}
use event_gateway.PathTree.Add.{
  Visit-cases, enter, conflict, get_or_create, find_child, visit, visit-eq-enter, set_value,
  add_segments, set_root, add_route,
}
use event_gateway.PathTree.Shape.{
  HasShape, AllStatic, IsAlone, IsWellFormed, AreWellFormed, get-AreWellFormed, put-AreWellFormed,
  nth-AreWellFormed,
}
use event_gateway.PathTree.Shape.Siblings.{
  AllStatic-IsAlone, AllStatic-put, IsAlone-put_existing, IsAlone-static, first-cases,
}

module _ {V : Type 0} where
  -- A child may be put under `s`: it is there, or it is the first, or it and all others are static.
  abbrev pub HasRoom : String → Children V → Type 0
  HasRoom s cs =
      ((child : Node V) × (get s cs ≡ some child))
      ⊎ (cs ≡ nil)
      ⊎ (AllStatic cs × (is_static_segment s ≡ true))

  IsAlone-put :
      (s : String) (cs : Children V) (child : Node V)
      → HasRoom s cs
      → IsAlone cs
      → IsAlone (put s child cs)
  IsAlone-put s cs child (inl (old, e)) h = IsAlone-put_existing s cs old child e h
  IsAlone-put s cs child (inr (inl e)) h = rw e (unfold put in tt)
  IsAlone-put s cs child (inr (inr (all, static))) h =
      AllStatic-IsAlone _ (AllStatic-put s cs child static all)

  -- A child that no test of `AddRoute` refuses, met under another key, is static, and so is `s`.
  conflict-static :
      (route s k : String) (child : Node V)
      → HasShape k child
      → conflict route s child ≡ none
      → (k ≡ s) ⊎ ((is_static_segment k ≡ true) × (is_static_segment s ≡ true))
  unfolding conflict is_static_segment
  conflict-static route s k (node l cs p st pa wi v) shape e = elim (String-cases k s) [
    | inl same ↦ inl same
    | inr other ↦
        let differ : (l == s) ≡ false = rw shape.0 (ne_test k s other) in
        inr (ground arith, ground arith)
  ]

  -- An entry met under another key leaves room where the tests pass.
  HasRoom-first :
      (route s : String) (cs : Children V) (other : Node V) (start : ℕ)
      → AreWellFormed cs
      → IsAlone cs
      → get s cs ≡ none
      → first start cs ≡ some other
      → conflict route s other ≡ none
      → HasRoom s cs
  unfolding first
  HasRoom-first route s cs other start w alone missing met passed =
      let (k, found) = nth-AreWellFormed _ cs other met w in
      let (shape, _) = get-AreWellFormed k cs other found w in
      elim (conflict-static route s k other shape passed) [
        | inl same ↦ absurd (some-ne-none found (subst (λ j. get j cs ≡ none) (sym same) missing))
        | inr (old, new) ↦ inr (inr (IsAlone-static k cs other found alone old, new))
      ]

  visit-HasRoom :
      (start : ℕ) (route s : String) (n child : Node V)
      → IsWellFormed n
      → visit start route s n ≡ enter child
      → (is_wildcard n ≡ false) × HasRoom s (children n)
  unfolding visit find_child IsWellFormed
  visit-HasRoom start route s (node l cs p st pa wi v) child w e = elim (Option-cases (get s cs)) [
    | inr (old, found) ↦ (ground arith, inl (old, found))
    | inl missing ↦ elim (first-cases start cs) [
      | inl empty ↦ (ground arith, inr (inl empty))
      | inr (other, met) ↦
          (ground arith, HasRoom-first route s cs other start w.0 w.1 missing met (ground arith))
    ]
  ]

  get_or_create-WellFormed :
      (s : String) (cs : Children V)
      → AreWellFormed cs
      → HasShape s (get_or_create s cs) × IsWellFormed (get_or_create s cs)
  unfolding get_or_create create_node IsWellFormed
  get_or_create-WellFormed s cs w = elim (Option-cases (get s cs)) [
    | inl e ↦ rw (e, get_or_create) ((refl, refl, refl, refl, refl), (tt, tt, λ _. refl))
    | inr (child, e) ↦ rw (e, get_or_create) (get-AreWellFormed s cs child e w)
  ]

  pub replace-WellFormed :
      (s : String) (n child : Node V)
      → IsWellFormed n
      → is_wildcard n ≡ false
      → HasRoom s (children n)
      → HasShape s child
      → IsWellFormed child
      → IsWellFormed (replace s n child)
  unfolding IsWellFormed
  replace-WellFormed s (node l cs p st pa wi v) child w plain room shape ok =
      (put-AreWellFormed s cs child shape ok w.0, IsAlone-put s cs child room w.1, λ e. absurd (cc))

  -- What an operation does to a node keeps its shape under its key.
  pub replace-HasShape :
      (k s : String) (n child : Node V) → HasShape k n → HasShape k (replace s n child)
  replace-HasShape k s (node l cs p st pa wi v) child h = h

  pub with_value-keeps :
      (k : String) (v : Option V) (n : Node V)
      → HasShape k n
      → IsWellFormed n
      → HasShape k (with_value v n) × IsWellFormed (with_value v n)
  unfolding IsWellFormed
  with_value-keeps k v (node l cs p st pa wi u) h w = (h, w)

  -- The child that a round goes on with.
  entered :
      (s : String) (n child : Node V) (start : ℕ) (route : String)
      → IsWellFormed n
      → visit start route s n ≡ enter child
      → HasShape s child × IsWellFormed child
  unfolding IsWellFormed
  entered s (node l cs p st pa wi v) child start route w found =
      subst (λ c. HasShape s c × IsWellFormed c) (sym (visit-eq-enter start route s _ child found))
        (get_or_create-WellFormed s cs w.0)

  set_root-WellFormed : (v : V) (n : Node V) → IsWellFormed n → IsWellFormed (set_root v n).0
  unfolding set_root IsWellFormed
  set_root-WellFormed v (node l cs p st pa wi none) w = w
  set_root-WellFormed v (node l cs p st pa wi (some u)) w = w

  set_value-keeps :
      (k route : String) (v : V) (n : Node V)
      → HasShape k n
      → IsWellFormed n
      → HasShape k (set_value route v n).0 × IsWellFormed (set_value route v n).0
  unfolding set_value
  set_value-keeps k route v (node l cs p st pa wi none) h w =
      with_value-keeps k (some v) (node l cs p st pa wi none) h w
  set_value-keeps k route v (node l cs p st pa wi (some u)) h w = (h, w)

  add_segments-HasShape :
      (k route : String) (v : V) (choice : ℕ → ℕ) (segments : List String) (n : Node V)
      → HasShape k n
      → HasShape k (add_segments route v choice segments n).0
  unfolding add_segments
  add_segments-HasShape k route v choice [] n h = h
  add_segments-HasShape k route v choice (s ∷ []) n h =
      elim (Visit-cases (visit (choice 0) route s n)) [
        | inl (e, found) ↦ rw (found, add_segments) h
        | inr (child, found) ↦ rw (found, add_segments) (replace-HasShape k s n _ h)
      ]
  add_segments-HasShape k route v choice (s ∷ t ∷ rest) n h =
      elim (Visit-cases (visit (choice 0) route s n)) [
        | inl (e, found) ↦ rw (found, add_segments) h
        | inr (child, found) ↦ rw (found, add_segments) (replace-HasShape k s n _ h)
      ]

  add_segments-WellFormed :
      (route : String) (v : V) (choice : ℕ → ℕ) (segments : List String) (n : Node V)
      → IsWellFormed n
      → IsWellFormed (add_segments route v choice segments n).0
  unfolding add_segments
  add_segments-WellFormed route v choice [] n w = w
  add_segments-WellFormed route v choice (s ∷ []) n w =
      elim (Visit-cases (visit (choice 0) route s n)) [
        | inl (e, found) ↦ rw (found, add_segments) w
        | inr (child, found) ↦
            let (plain, room) = visit-HasRoom _ route s n child w found in
            let (shape, ok) = entered s n child _ route w found in
            let (shape', ok') = set_value-keeps s route v child shape ok in
            rw (found, add_segments) (replace-WellFormed s n _ w plain room shape' ok')
      ]
  add_segments-WellFormed route v choice (s ∷ t ∷ rest) n w =
      elim (Visit-cases (visit (choice 0) route s n)) [
        | inl (e, found) ↦ rw (found, add_segments) w
        | inr (child, found) ↦
            let (plain, room) = visit-HasRoom _ route s n child w found in
            let (shape, ok) = entered s n child _ route w found in
            rw (found, add_segments)
              (replace-WellFormed s n _ w plain room
                (add_segments-HasShape s route v (λ i. choice (suc i)) (t ∷ rest) child shape)
                (add_segments-WellFormed route v (λ i. choice (suc i)) (t ∷ rest) child ok))
      ]

  -- `AddRoute` keeps the tree well-formed, whatever it returns.
  pub add_route-WellFormed :
      (choice : ℕ → ℕ) (route : String) (v : V) (n : Node V)
      → IsWellFormed n
      → IsWellFormed (add_route choice route v n).0
  unfolding add_route
  add_route-WellFormed choice route v n w = elim (Bool-cases (route == "/")) [
    | inl root ↦ rw root (set_root-WellFormed v n w)
    | inr other ↦ rw other (add_segments-WellFormed route v choice (to_segments route) n w)
  ]
