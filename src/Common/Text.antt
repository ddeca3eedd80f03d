-- ===== src/Common/Text.antt =====
-- The functions of Go's `strings` that the program calls, over code points.

use Prim.Native.Char.{Char, code}
use Prim.Native.String.{String, [], ◌∷◌, ◌++◌}
use mathlib.Core.Path.{◌≡◌, refl, ap, sym, ◌∙◌}
use mathlib.Core.Bool.{Bool, true, false, ◌&&◌, ◌||◌}
use mathlib.Core.Logic.{◌≢◌, inl, inr}
use mathlib.Core.List.{List, [], ◌∷◌}
use native.Mathlib.Omega.{arith}
use text.Mathlib.Text.{◌==◌}
use text.Mathlib.TextEquality.{Char-path}
use text.Mathlib.TextLemmas.{nil-append, cons-append, cons-eq-cons, append_cancel_left}
use event_gateway.Common.Tests.{eqb, if◌then◌else◌, Bool-cases}
use event_gateway.Common.Lists.{All}

infixr 65 ◌<+>◌
-- Go's `+` on strings.
abbrev pub ◌<+>◌ : String → String → String
s <+> t = s ++ t

-- strings.HasPrefix
unfoldable pub has_prefix : String → String → Bool
has_prefix s [] = true
has_prefix [] (d ∷ p) = false
has_prefix (c ∷ s) (d ∷ p) = eqb (code c) (code d) && has_prefix s p

unfoldable pub drop_prefix : String → String → String
drop_prefix s [] = s
drop_prefix [] (d ∷ p) = []
drop_prefix (c ∷ s) (d ∷ p) = drop_prefix s p

-- strings.TrimPrefix
unfoldable pub trim_prefix : String → String → String
unfolding drop_prefix
trim_prefix s p = if has_prefix s p then drop_prefix s p else s

-- strings.HasSuffix
unfoldable pub has_suffix : String → String → Bool
has_suffix [] p = [] == p
has_suffix (c ∷ s) p = (c ∷ s) == p || has_suffix s p

abbrev cons_head : Char → List String → List String
cons_head c [] = (c ∷ []) ∷ []
cons_head c (x ∷ xs) = (c ∷ x) ∷ xs

-- strings.Split(s, "/")
unfoldable pub split_slash : String → List String
split_slash [] = [] ∷ []
split_slash (c ∷ s) =
    let rest = split_slash s in if eqb (code c) b'/' then [] ∷ rest else cons_head c rest

-- strings.Join(xs, "/")
unfoldable pub join_slash : List String → String
join_slash [] = []
join_slash (x ∷ []) = x
join_slash (x ∷ y ∷ ys) = x <+> "/" <+> join_slash (y ∷ ys)

abbrev pub NoSlash : String → Type 0
NoSlash [] = Unit
NoSlash (c ∷ s) = (code c ≢ b'/') × NoSlash s

All-cons_head :
    (c : Char) (xs : List String) → code c ≢ b'/' → All NoSlash xs → All NoSlash (cons_head c xs)
All-cons_head c [] h all = ((h, tt), tt)
All-cons_head c (x ∷ xs) h all = ((h, all.0), all.1)

pub All-split_slash : (s : String) → All NoSlash (split_slash s)
unfolding split_slash
All-split_slash [] = (tt, tt)
All-split_slash (c ∷ s) = elim (Bool-cases (eqb (code c) b'/')) [
  | inl e ↦ rw e (tt, All-split_slash s)
  | inr e ↦ rw e (All-cons_head c (split_slash s) (ground arith) (All-split_slash s))
]

-- A text with a prefix is the prefix and the rest.
pub prefix-trim_prefix : (s p : String) → has_prefix s p ≡ true → p <+> trim_prefix s p ≡ s
unfolding has_prefix trim_prefix drop_prefix
prefix-trim_prefix s p h = rw h (go s p h)
  where
    go : (s p : String) → has_prefix s p ≡ true → p <+> drop_prefix s p ≡ s
    go s [] h = nil-append s
    go [] (d ∷ p) h = absurd (cc)
    go (c ∷ s) (d ∷ p) h =
        let same : code c ≡ code d = ground arith in
        let rest : has_prefix s p ≡ true = ground arith in
        cons-append d p (drop_prefix s p) ∙ (λ i. Char-path d c (sym same) i ∷ go s p rest i)

abbrev pub slash : Char
slash = "/"

pub slash-append : (x : String) → "/" <+> x ≡ slash ∷ x
slash-append x = cons-append slash [] x ∙ ap (λ t. slash ∷ t) (nil-append x)

head-ne-slash : (d : Char) (t x y : String) → code d ≢ b'/' → "/" <+> x ≡ (d ∷ t) <+> "/" <+> y → ⊥
head-ne-slash d t x y h e =
    let both = sym (slash-append x) ∙ e ∙ cons-append d t ("/" <+> y) in
    h (sym (ap code ((cons-eq-cons).0 both).0))

-- Two keys "space/rest" are equal only if their spaces and their rests are.
pub key-injective :
    (s t x y : String)
    → NoSlash s
    → NoSlash t
    → s <+> "/" <+> x ≡ t <+> "/" <+> y
    → (s ≡ t) × (x ≡ y)
key-injective [] [] x y hs ht e =
    (refl, append_cancel_left "/" x y (sym (nil-append _) ∙ e ∙ nil-append _))
key-injective [] (d ∷ t) x y hs ht e = absurd (head-ne-slash d t x y ht.0 (sym (nil-append _) ∙ e))
key-injective (c ∷ s) [] x y hs ht e =
    absurd (head-ne-slash c s y x hs.0 (sym (nil-append _) ∙ sym e))
key-injective (c ∷ s) (d ∷ t) x y hs ht e =
    let both = (cons-eq-cons).0 (sym (cons-append c s _) ∙ e ∙ cons-append d t _) in
    let (same, rest) = key-injective s t x y hs.1 ht.1 both.1 in (λ i. both.0 i ∷ same i, rest)

-- A split text has at least one part.
pub split_slash-cons : (s : String) → (x : String) × (xs : List String) × (split_slash s ≡ x ∷ xs)
unfolding split_slash
split_slash-cons [] = ([], [], refl)
split_slash-cons (c ∷ s) = elim (Bool-cases (eqb (code c) b'/')) [
  | inl e ↦ ([], split_slash s, rw e)
  | inr e ↦ let (x, xs, parts) = split_slash-cons s in (c ∷ x, xs, rw e (ap (cons_head c) parts))
]

pub split_slash-NoSlash : (x : String) → NoSlash x → split_slash x ≡ x ∷ []
unfolding split_slash
split_slash-NoSlash [] h = refl
split_slash-NoSlash (c ∷ x) h =
    let plain : eqb (code c) b'/' ≡ false = ground arith in
    rw (plain, split_slash-NoSlash x h.1) refl

pub split_slash-append :
    (s x : String) → NoSlash s → split_slash (s <+> "/" <+> x) ≡ s ∷ split_slash x
unfolding split_slash
split_slash-append [] x h = rw (nil-append ("/" <+> x), slash-append x) refl
split_slash-append (c ∷ s) x h =
    let plain : eqb (code c) b'/' ≡ false = ground arith in
    rw (cons-append c s ("/" <+> x), plain, split_slash-append s x h.1) refl
