-- ===== src/PathTree/Routing/Contract.antt =====
-- The contract of the tree: what `AddRoute`, `DeleteRoute` and `Resolve` promise together.
use event_gateway.Common.{
  ℕ, suc, String, ◌≡◌, ◌≢◌, refl, sym, ◌∙◌, ap, inl, inr, true, false, Option, none, some, List, [],
  ◌∷◌, ◌==◌, has_prefix, if◌then◌else◌, subst, ◌↔◌,
}
use event_gateway.PathTree.Defs.{Node, value, is_wildcard_segment, to_segments}
use event_gateway.PathTree.Add.{add_route}
use event_gateway.PathTree.Resolve.{Params, bind_parameter, resolve_segments, resolve}
use event_gateway.PathTree.Shape.{IsWellFormed}
use event_gateway.PathTree.Shape.Keep.{add_route-WellFormed}
use event_gateway.PathTree.Stored.{
  stored, stored-add_route, route_key, same_segments_refl, to_segments-cons, after_add,
}
use event_gateway.PathTree.Routing.{Matches, end, static, param, wildcard, captured}
use event_gateway.PathTree.Routing.Rounds.{Matches-nil, stored-child}
use event_gateway.PathTree.Routing.Sound.{IsRouted, resolve_segments_sound}
use event_gateway.PathTree.Routing.Complete.{
  Round, round, resolve_segments-choice, resolve-wildcard, resolve-last, resolve-later,
  static_plain, param_plain, param_dynamic, wildcard_dynamic,
}

segments-ne-nil : (path : String) → has_prefix path "/" ≡ true → to_segments path ≢ []
segments-ne-nil path h e = let (s, k, parts) = to_segments-cons path h in cc

module _ {V : Type 0} where
  -- What `Resolve` is to return of a route and a path.
  abbrev Finds : (ℕ → ℕ) → Params → List String → List String → Node V → V → Type 0
  Finds choice params route path n v =
      resolve_segments choice params path n ≡ (some v, some (captured params route path))

  resolve-plain :
      (choice : ℕ → ℕ) (params : Params) (s q : String) (route path : List String)
      (n child : Node V) (v : V)
      → Round (choice 0) s q n child
      → is_wildcard_segment s ≡ false
      → stored route child ≡ some v
      → Matches route path
      → (path ≢ [] → Finds (λ i. choice (suc i)) (bind_parameter child q params) route path child v)
      → Finds choice params (s ∷ route) (q ∷ path) n v
  resolve-plain choice params s q route [] n child v r plain e m later =
      let nothing : route ≡ [] = Matches-nil route [] refl m in
      let here : value child ≡ some v =
        unfold stored in subst (λ k. stored k child ≡ some v) nothing e in
      rw (nothing, resolve-last choice params s q n child r plain, here)
  resolve-plain choice params s q route (t ∷ path) n child v r plain e m later =
      resolve-later choice params s q t route path n child v r plain (later (λ empty. cc))

  resolve_segments_complete :
      {route path : List String} (choice : ℕ → ℕ) (params : Params) (n : Node V) (v : V)
      → Matches route path
      → IsWellFormed n
      → path ≢ []
      → stored route n ≡ some v
      → Finds choice params route path n v
  resolve_segments_complete choice params n v end w some_path e = absurd (some_path refl)
  resolve_segments_complete choice params n v (static {s} {q} {route} {path} st same m) w _ e =
      let (child, found, below) = stored-child s route n v e in
      let r = round (choice 0) s q n child w found (inl same) in
      resolve-plain choice params s q route path n child v r (static_plain s st) below m
        (λ more. resolve_segments_complete (λ i. choice (suc i)) _ child v m r.ok more below)
  resolve_segments_complete choice params n v (param {s} {q} {route} {path} p m) w _ e =
      let (child, found, below) = stored-child s route n v e in
      let r = round (choice 0) s q n child w found (inr (param_dynamic s p)) in
      resolve-plain choice params s q route path n child v r (param_plain s p) below m
        (λ more. resolve_segments_complete (λ i. choice (suc i)) _ child v m r.ok more below)
  resolve_segments_complete choice params n v (wildcard {s} {q} {path} p) w _ e =
      let (child, found, below) = stored-child s [] n v e in
      let r = round (choice 0) s q n child w found (inr (wildcard_dynamic s p)) in
      let here : value child ≡ some v = unfold stored in below in
      rw (resolve-wildcard choice params s q path n child r p, here)

  -- In a well-formed tree `Resolve` of a path "/…" other than "/" returns a value and parameters
  -- exactly when the value is stored under a route that matches the path segment by segment, and the
  -- parameters are those that the route takes from the path.
  pub resolve_iff :
      (choice : ℕ → ℕ) (path : String) (n : Node V) (v : V) (p : Option Params)
      → IsWellFormed n
      → has_prefix path "/" ≡ true
      → (path == "/") ≡ false
      → (resolve choice path n ≡ (some v, p)) ↔ IsRouted [] (to_segments path) n v p
  unfolding resolve
  resolve_iff choice path n v p w h other = (
    λ e. resolve_segments_sound choice [] (to_segments path) n v p w (rw other at e),
    λ r. rw other (
        resolve_segments_complete choice [] n v r.matches w (segments-ne-nil path h) r.stored_value
        ∙ ap (λ b. (some v, b)) (sym r.bound)),
  )

  -- What `Resolve` returns of a well-formed tree does not depend on the order in which Go iterates
  -- the maps of children.
  pub resolve-choice :
      (choice other : ℕ → ℕ) (path : String) (n : Node V)
      → IsWellFormed n
      → resolve choice path n ≡ resolve other path n
  unfolding resolve
  resolve-choice choice other path n w =
      ap (λ r. if path == "/" then (value n, none) else r)
        (resolve_segments-choice choice other [] (to_segments path) n w)

  stored-added :
      (choice : ℕ → ℕ) (route : String) (v : V) (n : Node V)
      → has_prefix route "/" ≡ true
      → (add_route choice route v n).1 ≡ none
      → stored (route_key route) (add_route choice route v n).0 ≡ some v
  stored-added choice route v n h e =
      stored-add_route choice route v n (route_key route) h
      ∙ ap (λ r. after_add r (route_key route) v (route_key route) n) e
      ∙ rw (same_segments_refl (route_key route))

  -- After an `AddRoute` of a route "/…" that succeeds in a well-formed tree, `Resolve` of every path
  -- "/…" other than "/" that the route matches returns the value with the parameters that the route
  -- takes from the path, whatever the order in which Go iterates its maps in either call.
  pub resolve-add_route :
      (choice other : ℕ → ℕ) (route path : String) (v : V) (n : Node V)
      → IsWellFormed n
      → has_prefix route "/" ≡ true
      → (add_route choice route v n).1 ≡ none
      → has_prefix path "/" ≡ true
      → (path == "/") ≡ false
      → Matches (route_key route) (to_segments path)
      → resolve other path (add_route choice route v n).0
        ≡ (some v, some (captured [] (route_key route) (to_segments path)))
  resolve-add_route choice other route path v n w hr added hp plain m =
      (resolve_iff other path (add_route choice route v n).0 v _
          (add_route-WellFormed choice route v n w) hp plain).1
        (record {
          route = route_key route;
          stored_value = stored-added choice route v n hr added;
          matches = m;
          bound = refl;
        })
