-- ===== src/PathTree/Routing/Sound.antt =====
-- What `Resolve` returns is stored under a route that matches.
use event_gateway.Common.{
  ℕ, suc, String, ◌≡◌, refl, sym, ◌∙◌, inl, inr, true, false, Option, some, List, [], ◌∷◌, arith,
  Option-cases, Bool-cases, subst, ap,
}
use event_gateway.PathTree.Defs.{Node, get, value, children, is_wildcard}
use event_gateway.PathTree.Resolve.{Params, step, bind_parameter, bind_wildcard, resolve_segments}
use event_gateway.PathTree.Shape.{IsWellFormed, children-WellFormed}
use event_gateway.PathTree.Stored.{stored}
use event_gateway.PathTree.Routing.{Matches, end, wildcard, captured}
use event_gateway.PathTree.Routing.Rounds.{
  Found, step-Found, Matches-Found, captured-plain, captured-wildcard,
}

module _ {V : Type 0} where
  -- A route under which `v` is stored, that matches, with the parameters that are bound.
  pub record IsRouted (params : Params) (path : List String) (n : Node V) (v : V)
      (p : Option Params) : Type 0 where
    pub route : List String
    pub stored_value : stored route n ≡ some v
    pub matches : Matches route path
    pub bound : p ≡ some (captured params route path)

  stored-under :
      (k : String) (route : List String) (n child : Node V)
      → get k (children n) ≡ some child
      → stored (k ∷ route) n ≡ stored route child
  unfolding stored
  stored-under k route n child e = rw (e, stored)

  -- The last round, or any round at a wildcard.
  IsRouted-wildcard :
      (params : Params) (q : String) (path : List String) (n child : Node V) (v : V)
      → Found q (children n) child
      → is_wildcard child ≡ true
      → value child ≡ some v
      → IsRouted params
          (q ∷ path)
          n
          v
          (some (bind_wildcard child (q ∷ path) (bind_parameter child q params)))
  IsRouted-wildcard params q path n child v f wild e = record {
    route = f.key ∷ [];
    stored_value = stored-under f.key [] n child f.found ∙ (unfold stored in e);
    matches = wildcard (sym f.shape.4 ∙ wild);
    bound = ap some (sym (captured-wildcard params q f.key child path f.shape wild));
  }

  IsRouted-later :
      (params : Params) (q : String) (path : List String) (n child : Node V) (v : V)
      (p : Option Params)
      → Found q (children n) child
      → is_wildcard child ≡ false
      → IsRouted (bind_parameter child q params) path child v p
      → IsRouted params (q ∷ path) n v p
  IsRouted-later params q path n child v p f plain r = record {
    route = f.key ∷ r.route;
    stored_value = stored-under f.key r.route n child f.found ∙ r.stored_value;
    matches = Matches-Found f plain r.matches;
    bound =
        r.bound ∙ ap some (sym (captured-plain params q f.key child r.route path f.shape plain));
  }

  IsRouted-end :
      (params : Params) (n : Node V) (v : V)
      → value n ≡ some v
      → IsRouted params [] n v (some params)
  IsRouted-end params n v e = record {
    route = [];
    stored_value = unfold stored in e;
    matches = end;
    bound = unfold captured in refl;
  }

  pub resolve_segments_sound :
      (choice : ℕ → ℕ) (params : Params) (path : List String) (n : Node V) (v : V)
      (p : Option Params)
      → IsWellFormed n
      → resolve_segments choice params path n ≡ (some v, p)
      → IsRouted params path n v p
  unfolding resolve_segments
  resolve_segments_sound choice params [] n v p w e = absurd (cc)
  resolve_segments_sound choice params (q ∷ []) n v p w e =
      elim (Option-cases (step (choice 0) q (children n))) [
        | inl missing ↦ absurd (ground arith)
        | inr (child, met) ↦
            let f = step-Found (choice 0) q (children n) child (children-WellFormed n w) met in
            elim (Bool-cases (is_wildcard child)) [
              | inl wild ↦
                  subst (IsRouted params (q ∷ []) n v) (ground arith)
                    (IsRouted-wildcard params q [] n child v f wild (ground arith))
              | inr plain ↦ IsRouted-later params q [] n child v p f plain (
                  subst (IsRouted (bind_parameter child q params) [] child v) (ground arith)
                    (IsRouted-end (bind_parameter child q params) child v (ground arith)))
            ]
      ]
  resolve_segments_sound choice params (q ∷ t ∷ path) n v p w e =
      elim (Option-cases (step (choice 0) q (children n))) [
        | inl missing ↦ absurd (ground arith)
        | inr (child, met) ↦
            let f = step-Found (choice 0) q (children n) child (children-WellFormed n w) met in
            elim (Bool-cases (is_wildcard child)) [
              | inl wild ↦
                  subst (IsRouted params (q ∷ t ∷ path) n v) (ground arith)
                    (IsRouted-wildcard params q (t ∷ path) n child v f wild (ground arith))
              | inr plain ↦ IsRouted-later params q (t ∷ path) n child v p f plain (
                  resolve_segments_sound (λ i. choice (suc i)) (bind_parameter child q params)
                    (t ∷ path) child v p f.ok (ground arith))
            ]
      ]
