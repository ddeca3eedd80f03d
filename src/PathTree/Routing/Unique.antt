-- ===== src/PathTree/Routing/Unique.antt =====
-- Two routes of a well-formed tree never match the same path.
use event_gateway.Common.{
  ℕ, String, ◌≡◌, refl, sym, ◌∙◌, ap, ◌⊎◌, inl, inr, true, false, none, some, List, [], ◌∷◌, ◌==◌,
  has_prefix, arith, Option-cases, Bool-cases, subst, some-ne-none, String-cases,
}
use event_gateway.PathTree.Defs.{
  Node, Children, nil, get, children, is_static_segment, is_wildcard_segment, to_segments,
}
use event_gateway.PathTree.Delete.{deleted, delete_route}
use event_gateway.PathTree.Resolve.{resolve}
use event_gateway.PathTree.Children.{get-entry_ne}
use event_gateway.PathTree.Shape.{
  IsWellFormed, IsAlone, children-IsAlone, children-WellFormed, get-AreWellFormed,
  WellFormed_wildcard,
}
use event_gateway.PathTree.Shape.KeepDelete.{delete_route-WellFormed}
use event_gateway.PathTree.Shape.Siblings.{IsAlone-get}
use event_gateway.PathTree.Stored.{stored, route_key, same_segments, same_segments_refl}
use event_gateway.PathTree.Stored.Delete.{after_delete, stored-delete_route}
use event_gateway.PathTree.Routing.{Matches, static, param, wildcard}
use event_gateway.PathTree.Routing.Rounds.{stored-child}
use event_gateway.PathTree.Routing.Complete.{param_dynamic, wildcard_dynamic}
use event_gateway.PathTree.Routing.Contract.{resolve_iff}

-- The first segment of a route that matches is that of the path, or stands for any.
abbrev Fits : String → String → Type 0
Fits s q = (s ≡ q) ⊎ (is_static_segment s ≡ false)

not_same : (k j : List String) → k ≡ j → same_segments k j ≡ false → ⊥
not_same k j e h =
    let yes_same : same_segments k k ≡ false = subst (λ x. same_segments k x ≡ false) (sym e) h in
    let always = same_segments_refl k in cc

module _ {V : Type 0} where
  only-key :
      (s t : String) (cs : Children V) (child other : Node V)
      → IsAlone cs
      → get s cs ≡ some child
      → get t cs ≡ some other
      → is_static_segment s ≡ false
      → s ≡ t
  only-key s t cs child other alone e d dyn = elim (String-cases s t) [
    | inl same ↦ same
    | inr differ ↦
        let only = IsAlone-get s cs child e alone dyn in
        absurd (
          some-ne-none (sym (ap (get t) only ∙ get-entry_ne s t child nil differ) ∙ d)
            (unfold get in refl))
  ]

  same-key :
      (s t q : String) (cs : Children V) (child other : Node V)
      → IsAlone cs
      → get s cs ≡ some child
      → get t cs ≡ some other
      → Fits s q
      → Fits t q
      → s ≡ t
  same-key s t q cs child other alone e d (inl p) (inl r) = p ∙ sym r
  same-key s t q cs child other alone e d (inr p) r = only-key s t cs child other alone e d p
  same-key s t q cs child other alone e d (inl p) (inr r) =
      sym (only-key t s cs other child alone d e r)

-- The parts of a match at a first segment.
record Parts (s q : String) (route path : List String) : Type 0 where
  fits : Fits s q
  rest : Matches route path ⊎ (is_wildcard_segment s ≡ true) × (route ≡ [])

parts :
    {s q : String} {route path : List String}
    → Matches (s ∷ route) (q ∷ path)
    → Parts s q route path
parts (static st same m) = record { fits = inl same; rest = inl m }
parts (param {s} p m) = record { fits = inr (param_dynamic s p); rest = inl m }
parts (wildcard {s} p) = record { fits = inr (wildcard_dynamic s p); rest = inr (p, refl) }

module _ {V : Type 0} where
  -- A wildcard of a well-formed tree has no routes below it.
  below_wildcard :
      (s : String) (route : List String) (n child : Node V) (v : V)
      → IsWellFormed n
      → get s (children n) ≡ some child
      → is_wildcard_segment s ≡ true
      → stored route child ≡ some v
      → route ≡ []
  below_wildcard s [] n child v w e wild found = refl
  below_wildcard s (t ∷ route) n child v w e wild found =
      let (shape, ok) = get-AreWellFormed s (children n) child e (children-WellFormed n w) in
      let bare = WellFormed_wildcard child ok (shape.4 ∙ wild) in
      let (other, met, _) = stored-child t route child v found in
      absurd (some-ne-none (sym (ap (get t) bare) ∙ met) (unfold get in refl))

  -- Two routes with values that match the same path are one route.
  pub Matches-unique :
      (route other path : List String) (n : Node V) (v u : V)
      → IsWellFormed n
      → stored route n ≡ some v
      → stored other n ≡ some u
      → Matches route path
      → Matches other path
      → route ≡ other
  Matches-unique [] [] path n v u w e d m k = refl
  Matches-unique [] (t ∷ other) [] n v u w e d m k = elim k [ ]
  Matches-unique (s ∷ route) [] [] n v u w e d m k = elim m [ ]
  Matches-unique (s ∷ route) (t ∷ other) [] n v u w e d m k = elim m [ ]
  Matches-unique [] (t ∷ other) (q ∷ path) n v u w e d m k = elim m [ ]
  Matches-unique (s ∷ route) [] (q ∷ path) n v u w e d m k = elim k [ ]
  Matches-unique (s ∷ route) (t ∷ other) (q ∷ path) n v u w e d m k =
      let (child, found, below) = stored-child s route n v e in
      let (child', found', below') = stored-child t other n u d in
      let p = parts m in
      let r = parts k in
      let same =
        same-key s t q (children n) child child' (children-IsAlone n w) found found' p.fits
          r.fits in
      let one : child' ≡ child = cc (found, found', same) in
      let (_, ok) = get-AreWellFormed s (children n) child found (children-WellFormed n w) in
      let below_other : stored other child ≡ some u =
        subst (λ c. stored other c ≡ some u) one below' in
      let rests : route ≡ other = elim p.rest [
        | inr (wild, empty) ↦
            empty ∙ sym (below_wildcard s other n child u w found wild below_other)
        | inl m' ↦ elim r.rest [
          | inr (wild, empty) ↦
              below_wildcard s route n child v w found
                (subst (λ x. is_wildcard_segment x ≡ true) (sym same) wild) below
              ∙ sym empty
          | inl k' ↦ Matches-unique route other path child v u ok below below_other m' k'
        ]
      ] in
      λ i. same i ∷ rests i

  stored_after :
      (route : String) (n : Node V) (k : List String) (v : V)
      → has_prefix route "/" ≡ true
      → (delete_route route n).1 ≡ deleted
      → stored k (delete_route route n).0 ≡ some v
      → (stored k n ≡ some v) × (same_segments (route_key route) k ≡ false)
  stored_after route n k v h done e =
      let after : after_delete deleted (route_key route) k n ≡ some v =
        sym (stored-delete_route route n k h ∙ ap (λ r. after_delete r (route_key route) k n) done)
        ∙ e in
      elim (Bool-cases (same_segments (route_key route) k)) [
        | inl same ↦ absurd (ground arith)
        | inr differ ↦ (ground arith, differ)
      ]

  -- After a `DeleteRoute` of a route "/…" with a value that succeeds in a well-formed tree, `Resolve`
  -- returns no value for a path "/…" other than "/" that the deleted route matches.
  pub resolve-delete_route :
      (choice : ℕ → ℕ) (route path : String) (n : Node V) (u : V)
      → IsWellFormed n
      → has_prefix route "/" ≡ true
      → stored (route_key route) n ≡ some u
      → (delete_route route n).1 ≡ deleted
      → has_prefix path "/" ≡ true
      → (path == "/") ≡ false
      → Matches (route_key route) (to_segments path)
      → (resolve choice path (delete_route route n).0).0 ≡ none
  resolve-delete_route choice route path n u w hr e done hp plain m =
      let tree : Node V = (delete_route route n).0 in
      elim (Option-cases (resolve choice path tree).0) [
        | inl nothing ↦ nothing
        | inr (v, found) ↦
            let r =
              (resolve_iff choice path tree v (resolve choice path tree).1
                  (delete_route-WellFormed route n w) hp plain).0
                (λ i. (found i, (resolve choice path tree).1)) in
            let (before, differ) = stored_after route n r.route v hr done r.stored_value in
            let same =
              Matches-unique (route_key route) r.route (to_segments path) n u v w e before m
                r.matches in
            absurd (not_same (route_key route) r.route same differ)
      ]
