-- ===== src/Common/Prefixes.antt =====
-- Laws of prefixes.
use Prim.Native.Char.{Char}
use Prim.Native.String.{String, [], ◌∷◌}
use mathlib.Core.Path.{◌≡◌, refl, sym, ◌∙◌}
use mathlib.Core.Bool.{true}
use mathlib.Core.Logic.{inl, inr, ◌≢◌}
use native.Mathlib.Omega.{arith}
use text.Mathlib.Text.{◌==◌}
use text.Mathlib.TextPositions.{eq_refl}
use text.Mathlib.TextLemmas.{
  nil-append, cons-append, append_cancel_left, append-nil, append-ne-nil_of_right_ne-nil,
}
use event_gateway.Common.Tests.{String-cases, ne_test}
use event_gateway.Common.Text.{◌<+>◌, has_prefix, drop_prefix, trim_prefix}

has_prefix-cons : (c : Char) (s p : String) → has_prefix (c ∷ s) (c ∷ p) ≡ has_prefix s p
unfolding has_prefix
has_prefix-cons c s p = ground arith

-- A common root does not matter to a prefix.
pub has_prefix-append : (r k p : String) → has_prefix (r <+> k) (r <+> p) ≡ has_prefix k p
has_prefix-append [] k p = rw (nil-append k, nil-append p)
has_prefix-append (c ∷ r) k p =
    rw (cons-append c r k, cons-append c r p)
      (has_prefix-cons c (r <+> k) (r <+> p) ∙ has_prefix-append r k p)

pub has_prefix_self : (r k : String) → has_prefix (r <+> k) r ≡ true
unfolding has_prefix
has_prefix_self [] k = refl
has_prefix_self (c ∷ r) k =
    rw (cons-append c r k) (has_prefix-cons c (r <+> k) r ∙ has_prefix_self r k)

drop_prefix-append : (r k : String) → drop_prefix (r <+> k) r ≡ k
unfolding drop_prefix
drop_prefix-append [] k = nil-append k
drop_prefix-append (c ∷ r) k = rw (cons-append c r k) (drop_prefix-append r k)

pub trim_prefix-append : (r k : String) → trim_prefix (r <+> k) r ≡ k
unfolding trim_prefix
trim_prefix-append r k = rw (has_prefix_self r k) (drop_prefix-append r k)

pub same-append : (r k j : String) → (r <+> k == r <+> j) ≡ (k == j)
same-append r k j = elim (String-cases k j) [
  | inl e ↦ rw e (eq_refl (r <+> j) ∙ sym (eq_refl j))
  | inr h ↦ ne_test _ _ (λ e. h (append_cancel_left r k j e)) ∙ sym (ne_test k j h)
]

-- A text does not grow by nothing only.
pub append-ne_self : (r k : String) → k ≢ "" → r <+> k ≢ r
append-ne_self r k h e = h (append_cancel_left r k "" (e ∙ sym (append-nil r)))

-- What has a longer prefix has the shorter one.
pub has_prefix_shorter : (k r p : String) → has_prefix k (r <+> p) ≡ true → has_prefix k r ≡ true
unfolding has_prefix
has_prefix_shorter k [] p h = refl
has_prefix_shorter [] (c ∷ r) p h =
    let never : has_prefix [] (c ∷ (r <+> p)) ≡ true = rw cons-append at h in absurd (cc)
has_prefix_shorter (d ∷ k) (c ∷ r) p h =
    let whole : has_prefix (d ∷ k) (c ∷ (r <+> p)) ≡ true = rw cons-append at h in
    let rest : has_prefix k (r <+> p) ≡ true = ground arith in
    let later = has_prefix_shorter k r p rest in ground arith

pub append-ne-nil : (r k : String) → k ≢ "" → r <+> k ≢ ""
append-ne-nil r k h e = append-ne-nil_of_right_ne-nil r h e
