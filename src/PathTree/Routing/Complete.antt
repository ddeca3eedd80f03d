-- ===== src/PathTree/Routing/Complete.antt =====
-- A route that matches a path is found, and the order in which Go iterates the map of children does
-- not matter.
use event_gateway.Common.{
  ℕ, suc, has_prefix, String, ◌≡◌, refl, sym, ◌∙◌, ◌⊎◌, inl, inr, true, false, ◌||◌, none, some,
  List, [], ◌∷◌, arith, Option-cases, subst,
}
use event_gateway.PathTree.Defs.{
  Node, Children, nil, entry, node, get, first, value, children, is_parameter, is_wildcard,
  is_static_segment, is_param_segment, is_wildcard_segment,
}
use event_gateway.PathTree.Resolve.{Params, step, bind_parameter, resolve_segments}
use event_gateway.PathTree.Shape.{
  HasShape, AllStatic, IsAlone, IsWellFormed, AreWellFormed, get-AreWellFormed, nth-AreWellFormed,
  children-WellFormed, children-IsAlone,
}
use event_gateway.PathTree.Shape.Siblings.{IsAlone-get, first-cases, first-entry, AllStatic-get}
use event_gateway.PathTree.Routing.{captured}
use event_gateway.PathTree.Routing.Rounds.{dynamic, step-Found, captured-plain, captured-wildcard}

pub static_plain : (s : String) → is_static_segment s ≡ true → is_wildcard_segment s ≡ false
unfolding is_static_segment
static_plain s h = ground arith

-- A segment does not begin with both ':' and '*'.
pub param_plain : (s : String) → is_param_segment s ≡ true → is_wildcard_segment s ≡ false
unfolding is_param_segment is_wildcard_segment has_prefix
param_plain String.[] h = absurd (cc)
param_plain (String.◌∷◌ c s) h = ground arith

pub param_dynamic : (s : String) → is_param_segment s ≡ true → is_static_segment s ≡ false
unfolding is_static_segment
param_dynamic s h = ground arith

pub wildcard_dynamic : (s : String) → is_wildcard_segment s ≡ true → is_static_segment s ≡ false
unfolding is_static_segment
wildcard_dynamic s h = ground arith

module _ {V : Type 0} where
  -- The child that a key describes is the one that a round goes on with.
  step-static :
      (start : ℕ) (q : String) (cs : Children V) (child : Node V)
      → get q cs ≡ some child
      → step start q cs ≡ some child
  unfolding step
  step-static start q cs child e = rw (e, step)

  step-only :
      (start : ℕ) (q s : String) (child : Node V)
      → (is_parameter child || is_wildcard child) ≡ true
      → step start q (entry s child nil) ≡ some child
  unfolding step get
  step-only start q s child dyn = ground (arith, first-entry start s child)

  not_dynamic :
      (k : String) (child : Node V)
      → HasShape k child
      → is_static_segment k ≡ true
      → (is_parameter child || is_wildcard child) ≡ false
  unfolding is_static_segment
  not_dynamic k (node l cs p st pa wi v) shape h = ground arith

  step-dynamic :
      (start : ℕ) (s q : String) (cs : Children V) (child : Node V)
      → AreWellFormed cs
      → IsAlone cs
      → get s cs ≡ some child
      → (is_parameter child || is_wildcard child) ≡ true
      → step start q cs ≡ some child
  step-dynamic start s q cs child w alone e dyn =
      let (shape, _) = get-AreWellFormed s cs child e w in
      let only = IsAlone-get s cs child e alone (dynamic s child shape dyn) in
      rw only (step-only start q s child dyn)

  -- Only static children: a round finds none under another key.
  step-AllStatic :
      (start : ℕ) (q : String) (cs : Children V)
      → AreWellFormed cs
      → AllStatic cs
      → get q cs ≡ none
      → step start q cs ≡ none
  unfolding step first
  step-AllStatic start q cs w all missing = elim (first-cases start cs) [
    | inl empty ↦ ground arith
    | inr (child, met) ↦
        let (k, found) = nth-AreWellFormed _ cs child met w in
        let (shape, _) = get-AreWellFormed k cs child found w in
        let st = AllStatic-get k cs child found all in
        let plain : (is_parameter child || is_wildcard child) ≡ false =
          not_dynamic k child shape st in
        ground arith
  ]

  -- The choice that the iteration of the map makes does not matter to a round.
  step-choice :
      (start other : ℕ) (q : String) (cs : Children V)
      → AreWellFormed cs
      → IsAlone cs
      → step start q cs ≡ step other q cs
  step-choice start other q nil w alone = unfold step first get in refl
  step-choice start other q (entry k n nil) w alone =
      unfold step in ground (arith, first-entry start k n, first-entry other k n)
  step-choice start other q (entry k n (entry j m cs)) w alone =
      elim (Option-cases (get q (entry k n (entry j m cs)))) [
        | inl missing ↦
            step-AllStatic start q _ w alone missing
            ∙ sym (step-AllStatic other q _ w alone missing)
        | inr (child, e) ↦ step-static start q _ child e ∙ sym (step-static other q _ child e)
      ]

  is_dynamic :
      (k : String) (child : Node V)
      → HasShape k child
      → is_static_segment k ≡ false
      → (is_parameter child || is_wildcard child) ≡ true
  unfolding is_static_segment
  is_dynamic k (node l cs p st pa wi v) shape h = ground arith

  step-WellFormed :
      (start : ℕ) (q : String) (n child : Node V)
      → IsWellFormed n
      → step start q (children n) ≡ some child
      → IsWellFormed child
  step-WellFormed start q n child w met =
      (step-Found start q (children n) child (children-WellFormed n w) met).ok

  pub resolve_segments-choice :
      (choice other : ℕ → ℕ) (params : Params) (path : List String) (n : Node V)
      → IsWellFormed n
      → resolve_segments choice params path n ≡ resolve_segments other params path n
  unfolding resolve_segments
  resolve_segments-choice choice other params [] n w = refl
  resolve_segments-choice choice other params (q ∷ []) n w = ground (
    arith,
    step-choice (choice 0) (other 0) q (children n) (children-WellFormed n w)
        (children-IsAlone n w),
  )
  resolve_segments-choice choice other params (q ∷ t ∷ path) n w =
      let same =
        step-choice (choice 0) (other 0) q (children n) (children-WellFormed n w)
          (children-IsAlone n w) in
      elim (Option-cases (step (choice 0) q (children n))) [
        | inl missing ↦ ground arith
        | inr (child, met) ↦
            let ok = step-WellFormed (choice 0) q n child w met in
            let later =
              resolve_segments-choice (λ i. choice (suc i)) (λ i. other (suc i))
                (bind_parameter child q params) (t ∷ path) child ok in
            ground arith
      ]

  -- The round at a key of a route that matches.
  pub record Round (start : ℕ) (s q : String) (n child : Node V) : Type 0 where
    pub met : step start q (children n) ≡ some child
    pub shape : HasShape s child
    pub ok : IsWellFormed child

  pub round :
      (start : ℕ) (s q : String) (n child : Node V)
      → IsWellFormed n
      → get s (children n) ≡ some child
      → (s ≡ q) ⊎ (is_static_segment s ≡ false)
      → Round start s q n child
  round start s q n child w e fits =
      let (shape, ok) = get-AreWellFormed s (children n) child e (children-WellFormed n w) in
      record {
        met = elim fits [
          | inl same ↦
              step-static start q (children n) child
                (subst (λ k. get k (children n) ≡ some child) same e)
          | inr dyn ↦
              step-dynamic start s q (children n) child (children-WellFormed n w)
                (children-IsAlone n w) e (is_dynamic s child shape dyn)
        ];
        shape = shape;
        ok = ok;
      }

  pub resolve-wildcard :
      (choice : ℕ → ℕ) (params : Params) (s q : String) (path : List String) (n child : Node V)
      → Round (choice 0) s q n child
      → is_wildcard_segment s ≡ true
      → resolve_segments choice params (q ∷ path) n
        ≡ (value child, some (captured params (s ∷ []) (q ∷ path)))
  unfolding resolve_segments
  resolve-wildcard choice params s q [] n child r wild =
      ground (arith, r.met, captured-wildcard params q s child [] r.shape (r.shape.4 ∙ wild))
  resolve-wildcard choice params s q (t ∷ path) n child r wild =
      ground
        (arith, r.met, captured-wildcard params q s child (t ∷ path) r.shape (r.shape.4 ∙ wild))

  pub resolve-last :
      (choice : ℕ → ℕ) (params : Params) (s q : String) (n child : Node V)
      → Round (choice 0) s q n child
      → is_wildcard_segment s ≡ false
      → resolve_segments choice params (q ∷ []) n
        ≡ (value child, some (captured params (s ∷ []) (q ∷ [])))
  unfolding resolve_segments captured
  resolve-last choice params s q n child r plain =
      let (_, name, _, variable, wild) = r.shape in ground (arith, r.met)

  pub resolve-later :
      (choice : ℕ → ℕ) (params : Params) (s q t : String) (route path : List String)
      (n child : Node V) (v : V)
      → Round (choice 0) s q n child
      → is_wildcard_segment s ≡ false
      → resolve_segments (λ i. choice (suc i)) (bind_parameter child q params) (t ∷ path) child
        ≡ (some v, some (captured (bind_parameter child q params) route (t ∷ path)))
      → resolve_segments choice params (q ∷ t ∷ path) n
        ≡ (some v, some (captured params (s ∷ route) (q ∷ t ∷ path)))
  unfolding resolve_segments
  resolve-later choice params s q t route path n child v r plain later =
      let calm : is_wildcard child ≡ false = r.shape.4 ∙ plain in
      ground (arith, r.met, captured-plain params q s child route (t ∷ path) r.shape calm)
