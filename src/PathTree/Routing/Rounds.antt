-- ===== src/PathTree/Routing/Rounds.antt =====
-- One round of `Resolve`: the child that it goes on with.
use event_gateway.Common.{
  ℕ, String, ◌≡◌, refl, sym, ◌∙◌, ◌⊎◌, inl, inr, true, false, ◌||◌, some, List, [], ◌∷◌, arith,
  Option-cases, Bool-cases,
}
use event_gateway.PathTree.Defs.{
  Node, Children, node, get, first, children, is_parameter, is_wildcard, is_static_segment,
  is_param_segment, is_wildcard_segment,
}
use event_gateway.PathTree.Resolve.{Params, step, bind_parameter, bind_wildcard}
use event_gateway.PathTree.Shape.{
  HasShape, IsWellFormed, AreWellFormed, get-AreWellFormed, nth-AreWellFormed,
}
use event_gateway.PathTree.Stored.{stored}
use event_gateway.PathTree.Routing.{Matches, end, static, param, wildcard, captured}

pub fixed_static :
    (k : String)
    → is_param_segment k ≡ false
    → is_wildcard_segment k ≡ false
    → is_static_segment k ≡ true
unfolding is_static_segment
fixed_static k a b = ground arith

module _ {V : Type 0} where
  -- The key of a parameter or of a wildcard is no static segment.
  pub dynamic :
      (k : String) (child : Node V)
      → HasShape k child
      → (is_parameter child || is_wildcard child) ≡ true
      → is_static_segment k ≡ false
  unfolding is_static_segment
  dynamic k (node l cs p st pa wi v) shape h = ground arith

  -- The child of a round stands under some key: that of the segment, or a parameter or a wildcard.
  pub record Found (q : String) (cs : Children V) (child : Node V) : Type 0 where
    pub key : String
    pub found : get key cs ≡ some child
    pub shape : HasShape key child
    pub ok : IsWellFormed child
    pub fits : (key ≡ q) ⊎ (is_static_segment key ≡ false)

  pub step-Found :
      (start : ℕ) (q : String) (cs : Children V) (child : Node V)
      → AreWellFormed cs
      → step start q cs ≡ some child
      → Found q cs child
  unfolding step first
  step-Found start q cs child w e = elim (Option-cases (get q cs)) [
    | inr (other, here) ↦
        let same : other ≡ child = ground arith in
        let found : get q cs ≡ some child = cc in
        let (shape, ok) = get-AreWellFormed q cs child found w in
        record { key = q; found = found; shape = shape; ok = ok; fits = inl refl }
    | inl missing ↦
        let met : first start cs ≡ some child = ground arith in
        let (k, found) = nth-AreWellFormed _ cs child met w in
        let (shape, ok) = get-AreWellFormed k cs child found w in
        record {
          key = k;
          found = found;
          shape = shape;
          ok = ok;
          fits = inr (dynamic k child shape (ground arith));
        }
  ]

  pub Matches-Found :
      {q : String} {cs : Children V} {child : Node V} {route path : List String}
      → (f : Found q cs child) → is_wildcard child ≡ false
      → Matches route path
      → Matches (f.key ∷ route) (q ∷ path)
  Matches-Found {child} f plain m = elim (Bool-cases (is_param_segment f.key)) [
    | inl variable ↦ param variable m
    | inr fixed ↦
        let st : is_static_segment f.key ≡ true =
          unfold is_static_segment in fixed_static f.key fixed (sym f.shape.4 ∙ plain) in
        elim f.fits [ inl same ↦ static st same m | inr dyn ↦ absurd (cc) ]
  ]

  pub captured-plain :
      (params : Params) (q k : String) (child : Node V) (route path : List String)
      → HasShape k child
      → is_wildcard child ≡ false
      → captured params (k ∷ route) (q ∷ path) ≡ captured (bind_parameter child q params) route path
  unfolding captured
  captured-plain params q k (node l cs p st pa wi v) route path shape plain = ground arith

  pub captured-wildcard :
      (params : Params) (q k : String) (child : Node V) (path : List String)
      → HasShape k child
      → is_wildcard child ≡ true
      → captured params (k ∷ []) (q ∷ path)
        ≡ bind_wildcard child (q ∷ path) (bind_parameter child q params)
  unfolding captured
  captured-wildcard params q k (node l cs p st pa wi v) path shape wild = ground arith

pub Matches-nil : (route path : List String) → path ≡ [] → Matches route path → route ≡ []
Matches-nil _ _ e end = refl
Matches-nil _ _ e (static st same m) = absurd (cc)
Matches-nil _ _ e (param p m) = absurd (cc)
Matches-nil _ _ e (wildcard w) = absurd (cc)

module _ {V : Type 0} where
  pub stored-child :
      (s : String) (route : List String) (n : Node V) (v : V)
      → stored (s ∷ route) n ≡ some v
      → (child : Node V) × (get s (children n) ≡ some child) × (stored route child ≡ some v)
  unfolding stored
  stored-child s route n v e = elim (Option-cases (get s (children n))) [
    | inl missing ↦ absurd (ground arith)
    | inr (child, found) ↦ (child, found, ground arith)
  ]
