-- ===== src/PathTree/Shape/Siblings.antt =====
-- A child that is no static segment has no siblings, and which child the iteration of the map meets
-- first then does not matter.
use event_gateway.Common.{
  ℕ, zero, suc, ◌%◌, ◌<◌, String, ◌≡◌, refl, sym, ◌∙◌, ◌⊎◌, inl, inr, true, false, some, eq_iff,
  arith, String-cases, ne_test, subst, some-ne-none,
}
use event_gateway.PathTree.Defs.{
  Node, Children, nil, entry, get, put, delete, nth, first, length, is_static_segment,
}
use event_gateway.PathTree.Children.{get-entry_self, get-entry_ne}
use event_gateway.PathTree.Shape.{AllStatic, IsAlone}

module _ {V : Type 0} where
  pub AllStatic-IsAlone : (cs : Children V) → AllStatic cs → IsAlone cs
  AllStatic-IsAlone nil h = tt
  AllStatic-IsAlone (entry k n nil) h = tt
  AllStatic-IsAlone (entry k n (entry j m cs)) h = h

  pub AllStatic-get :
      (s : String) (cs : Children V) (child : Node V)
      → get s cs ≡ some child
      → AllStatic cs
      → is_static_segment s ≡ true
  unfolding get
  AllStatic-get s nil child e h = absurd (cc)
  AllStatic-get s (entry k n cs) child e h = elim (String-cases k s) [
    | inl same ↦ subst (λ j. is_static_segment j ≡ true) same h.0
    | inr other ↦ AllStatic-get s cs child (sym (get-entry_ne k s n cs other) ∙ e) h.1
  ]

  pub AllStatic-put :
      (s : String) (cs : Children V) (child : Node V)
      → is_static_segment s ≡ true
      → AllStatic cs
      → AllStatic (put s child cs)
  unfolding put
  AllStatic-put s nil child static h = (static, tt)
  AllStatic-put s (entry k n cs) child static h = elim (String-cases k s) [
    | inl same ↦ rw ((eq_iff k s).1 same) (static, h.1)
    | inr other ↦ rw (ne_test k s other) (h.0, AllStatic-put s cs child static h.1)
  ]

  AllStatic-delete : (s : String) (cs : Children V) → AllStatic cs → AllStatic (delete s cs)
  unfolding delete
  AllStatic-delete s nil h = tt
  AllStatic-delete s (entry k n cs) h = elim (String-cases k s) [
    | inl same ↦ rw ((eq_iff k s).1 same) (AllStatic-delete s cs h.1)
    | inr other ↦ rw (ne_test k s other) (h.0, AllStatic-delete s cs h.1)
  ]

  pub IsAlone-delete : (s : String) (cs : Children V) → IsAlone cs → IsAlone (delete s cs)
  IsAlone-delete s nil h = unfold delete in tt
  IsAlone-delete s (entry k n nil) h =
      unfold delete in
      elim (String-cases k s) [
        | inl same ↦ rw ((eq_iff k s).1 same) tt
        | inr other ↦ rw (ne_test k s other) tt
      ]
  IsAlone-delete s (entry k n (entry j m cs)) h =
      AllStatic-IsAlone _ (AllStatic-delete s (entry k n (entry j m cs)) h)

  -- The only entry, where a child is there that is no static segment.
  pub IsAlone-get :
      (s : String) (cs : Children V) (child : Node V)
      → get s cs ≡ some child
      → IsAlone cs
      → is_static_segment s ≡ false
      → cs ≡ entry s child nil
  IsAlone-get s nil child e h dynamic = unfold get in absurd (cc)
  IsAlone-get s (entry k n nil) child e h dynamic = elim (String-cases k s) [
    | inl same ↦
        let found : n ≡ child = cc (get-entry_self k s n nil same) in
        λ i. entry (same i) (found i) nil
    | inr other ↦
        absurd (some-ne-none (sym (get-entry_ne k s n nil other) ∙ e) (unfold get in refl))
  ]
  IsAlone-get s (entry k n (entry j m cs)) child e h dynamic =
      absurd (let static = AllStatic-get s (entry k n (entry j m cs)) child e h in cc)

  pub IsAlone-put_existing :
      (s : String) (cs : Children V) (old child : Node V)
      → get s cs ≡ some old
      → IsAlone cs
      → IsAlone (put s child cs)
  IsAlone-put_existing s nil old child e h = unfold put in tt
  IsAlone-put_existing s (entry k n nil) old child e h = elim (String-cases k s) [
    | inl same ↦ unfold put in rw ((eq_iff k s).1 same) tt
    | inr other ↦
        absurd (some-ne-none (sym (get-entry_ne k s n nil other) ∙ e) (unfold get in refl))
  ]
  IsAlone-put_existing s (entry k n (entry j m cs)) old child e h =
      AllStatic-IsAlone _
        (AllStatic-put s _ child (AllStatic-get s (entry k n (entry j m cs)) old e h) h)

  -- A static child has only static siblings.
  pub IsAlone-static :
      (s : String) (cs : Children V) (child : Node V)
      → get s cs ≡ some child
      → IsAlone cs
      → is_static_segment s ≡ true
      → AllStatic cs
  IsAlone-static s nil child e h static = tt
  IsAlone-static s (entry k n nil) child e h static = elim (String-cases k s) [
    | inl same ↦ (subst (λ j. is_static_segment j ≡ true) (sym same) static, tt)
    | inr other ↦
        absurd (some-ne-none (sym (get-entry_ne k s n nil other) ∙ e) (unfold get in refl))
  ]
  IsAlone-static s (entry k n (entry j m cs)) child e h static = h

  nth-lt : (i : ℕ) (cs : Children V) → i < length cs → (child : Node V) × (nth i cs ≡ some child)
  unfolding nth
  nth-lt i nil h = absurd (omega arith)
  nth-lt zero (entry k n cs) h = (n, refl)
  nth-lt (suc i) (entry k n cs) h = nth-lt i cs (omega arith)

  -- The iteration of a map meets an entry, unless the map is empty.
  pub first-cases :
      (start : ℕ) (cs : Children V)
      → (cs ≡ nil) ⊎ ((child : Node V) × (first start cs ≡ some child))
  unfolding first
  first-cases start nil = inl refl
  first-cases start (entry k n cs) = inr (nth-lt _ (entry k n cs) (omega arith))

  pub first-entry : (start : ℕ) (k : String) (n : Node V) → first start (entry k n nil) ≡ some n
  unfolding first nth
  first-entry start k n = let only : start % 1 ≡ 0 = omega arith in rw only
