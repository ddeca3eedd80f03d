-- ===== src/PathTree/Children.antt =====
-- The laws of the map of children.
use event_gateway.Common.{
  String, ◌≡◌, ◌≢◌, refl, Option, none, some, ◌==◌, eq_iff, arith, if◌then◌else◌,
}
use event_gateway.PathTree.Defs.{
  Node, Children, nil, entry, node, get, put, delete, children, value, replace, with_children,
  with_value,
}

module _ {V : Type 0} where
  pub get-put :
      (k j : String) (n : Node V) (cs : Children V)
      → get j (put k n cs) ≡ (if k == j then some n else get j cs)
  unfolding get put
  get-put k j n nil = refl
  get-put k j n (entry i m cs) =
      ground (arith, eq_iff k j, eq_iff i k, eq_iff i j, get-put k j n cs)

  pub get-delete :
      (k j : String) (cs : Children V) → get j (delete k cs) ≡ (if k == j then none else get j cs)
  unfolding get delete
  get-delete k j nil = ground arith
  get-delete k j (entry i m cs) =
      ground (arith, eq_iff k j, eq_iff i k, eq_iff i j, get-delete k j cs)

  pub children-replace :
      (s : String) (n child : Node V) → children (replace s n child) ≡ put s child (children n)
  children-replace s (node _ cs p st pa wi v) child = refl

  pub value-replace : (s : String) (n child : Node V) → value (replace s n child) ≡ value n
  value-replace s (node _ cs p st pa wi v) child = refl

  pub children-with_value : (v : Option V) (n : Node V) → children (with_value v n) ≡ children n
  children-with_value v (node _ cs p st pa wi w) = refl

  pub value-with_value : (v : Option V) (n : Node V) → value (with_value v n) ≡ v
  value-with_value v (node _ cs p st pa wi w) = refl

  pub children-with_children : (cs : Children V) (n : Node V) → children (with_children cs n) ≡ cs
  children-with_children cs (node _ _ p st pa wi w) = refl

  pub value-with_children : (cs : Children V) (n : Node V) → value (with_children cs n) ≡ value n
  value-with_children cs (node _ _ p st pa wi w) = refl

  pub get-entry_self :
      (k s : String) (n : Node V) (cs : Children V) → k ≡ s → get s (entry k n cs) ≡ some n
  unfolding get
  get-entry_self k s n cs e = ground (arith, eq_iff k s)

  pub get-entry_ne :
      (k s : String) (n : Node V) (cs : Children V) → k ≢ s → get s (entry k n cs) ≡ get s cs
  unfolding get
  get-entry_ne k s n cs h = ground (arith, eq_iff k s)

  pub get-put_ne :
      (k j : String) (n : Node V) (cs : Children V)
      → get j cs ≡ none
      → k ≢ j
      → get j (put k n cs) ≡ none
  get-put_ne k j n cs e h = ground (arith, get-put k j n cs, eq_iff k j)

  pub get-delete-none :
      (k j : String) (cs : Children V) → get j cs ≡ none → get j (delete k cs) ≡ none
  get-delete-none k j cs e = ground (arith, get-delete k j cs)
