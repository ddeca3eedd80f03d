-- ===== src/PathTree/Shape.antt =====
-- The shape that routing relies on: each node is the one its key describes, a child that is a
-- parameter or a wildcard has no siblings, and a wildcard has no children.
pub mod Siblings
pub mod Keep
pub mod KeepDelete
use event_gateway.Common.{
  String, ◌≡◌, refl, Bool, true, false, Option, none, some, ◌==◌, eq_iff, eq_refl, arith,
  if◌then◌else◌, ℕ, sym, ◌∙◌, subst, ap, ne_test, some-ne-none, String-cases, inl, inr, zero, suc,
}
use event_gateway.PathTree.Children.{get-entry_self, get-entry_ne, get-put_ne, get-delete-none}
use event_gateway.PathTree.Defs.{
  Node, Children, nil, entry, node, get, put, delete, nth, children, segment, parameter, is_static,
  is_parameter, is_wildcard, parameter_of, is_static_segment, is_param_segment, is_wildcard_segment,
  create_node, with_value, replace,
}

-- The node that `createNode` makes for the segment `k`, but for its children and its value.
abbrev pub HasShape : {V : Type 0} → String → Node V → Type 0
HasShape k n =
    (segment n ≡ k)
    × (parameter n ≡ parameter_of k)
    × (is_static n ≡ is_static_segment k)
    × (is_parameter n ≡ is_param_segment k)
    × (is_wildcard n ≡ is_wildcard_segment k)

module _ {V : Type 0} where
  abbrev pub AllStatic : Children V → Type 0
  AllStatic nil = Unit
  AllStatic (entry k n cs) = (is_static_segment k ≡ true) × AllStatic cs

  -- A child that is no static segment is the only child.
  abbrev pub IsAlone : Children V → Type 0
  IsAlone nil = Unit
  IsAlone (entry k n nil) = Unit
  IsAlone (entry k n (entry j m cs)) = AllStatic (entry k n (entry j m cs))

unfoldable mutual
  pub IsWellFormed : {V : Type 0} → Node V → Type 0
  IsWellFormed (node s cs p st pa wi v) = AreWellFormed cs × IsAlone cs × (wi ≡ true → cs ≡ nil)

  pub AreWellFormed : {V : Type 0} → Children V → Type 0
  AreWellFormed nil = Unit
  AreWellFormed (entry k n cs) =
      HasShape k n × (get k cs ≡ none) × IsWellFormed n × AreWellFormed cs

module _ {V : Type 0} where
  pub get-AreWellFormed :
      (s : String) (cs : Children V) (child : Node V)
      → get s cs ≡ some child
      → AreWellFormed cs
      → HasShape s child × IsWellFormed child
  unfolding AreWellFormed
  get-AreWellFormed s nil child e w = unfold get in absurd (cc)
  get-AreWellFormed s (entry k n cs) child e w = elim (String-cases k s) [
    | inl same ↦
        let found : n ≡ child = cc (get-entry_self k s n cs same) in
        subst (λ c. HasShape s c × IsWellFormed c) found
          (subst (λ j. HasShape j n × IsWellFormed n) same (w.0, w.2))
    | inr other ↦ get-AreWellFormed s cs child (sym (get-entry_ne k s n cs other) ∙ e) w.3
  ]

  pub put-AreWellFormed :
      (s : String) (cs : Children V) (child : Node V)
      → HasShape s child
      → IsWellFormed child
      → AreWellFormed cs
      → AreWellFormed (put s child cs)
  unfolding AreWellFormed get put
  put-AreWellFormed s nil child shape ok w = (shape, refl, ok, tt)
  put-AreWellFormed s (entry k n cs) child shape ok w = elim (String-cases k s) [
    | inl same ↦ rw ((eq_iff k s).1 same) (shape, subst (λ j. get j cs ≡ none) same w.1, ok, w.3)
    | inr other ↦ rw (ne_test k s other) (
      w.0,
      get-put_ne s k child cs w.1 (λ e. other (sym e)),
      w.2,
      put-AreWellFormed s cs child shape ok w.3,
    )
  ]

  pub delete-AreWellFormed :
      (s : String) (cs : Children V) → AreWellFormed cs → AreWellFormed (delete s cs)
  unfolding AreWellFormed delete
  delete-AreWellFormed s nil w = tt
  delete-AreWellFormed s (entry k n cs) w = elim (String-cases k s) [
    | inl same ↦ rw ((eq_iff k s).1 same) (delete-AreWellFormed s cs w.3)
    | inr other ↦
        rw (ne_test k s other) (w.0, get-delete-none s k cs w.1, w.2, delete-AreWellFormed s cs w.3)
  ]

  -- An entry that the iteration of the map meets is the one under some key.
  pub nth-AreWellFormed :
      (i : ℕ) (cs : Children V) (child : Node V)
      → nth i cs ≡ some child
      → AreWellFormed cs
      → (k : String) × (get k cs ≡ some child)
  unfolding AreWellFormed nth
  nth-AreWellFormed i nil child e w = absurd (cc)
  nth-AreWellFormed zero (entry k n cs) child e w = (k, get-entry_self k k n cs refl ∙ e)
  nth-AreWellFormed (suc i) (entry k n cs) child e w =
      let (j, found) = nth-AreWellFormed i cs child e w.3 in
      (
        j,
        get-entry_ne k j n cs
              (λ same. absurd (some-ne-none found (subst (λ t. get t cs ≡ none) same w.1)))
            ∙ found,
      )

  pub children-WellFormed : (n : Node V) → IsWellFormed n → AreWellFormed (children n)
  unfolding IsWellFormed
  children-WellFormed (node s cs p st pa wi v) w = w.0

  pub children-IsAlone : (n : Node V) → IsWellFormed n → IsAlone (children n)
  unfolding IsWellFormed
  children-IsAlone (node s cs p st pa wi v) w = w.1

  pub WellFormed_wildcard : (n : Node V) → IsWellFormed n → is_wildcard n ≡ true → children n ≡ nil
  unfolding IsWellFormed
  WellFormed_wildcard (node s cs p st pa wi v) w h = w.2 h
