-- ===== src/Service/Inversion.antt =====
-- What a check of the services tells when it succeeds.
use event_gateway.Common.{
  String, ◌≡◌, refl, ap, subst, ◌⊎◌, inl, inr, Bool, true, false, Option, none, some,
}
use event_gateway.Store.{KvStore, GetResult, IsKvStore, found, key_not_found}
use event_gateway.Resource.{Error, Result, ok, err, require, ◌>>=◌, ◌>>◌}
use event_gateway.Service.Defs.{
  Codec, encoded, marshal, decoded, reading, read_one, if_passed, written,
}
use event_gateway.Service.Validation.{checked}

pub Result-cases {ℓ} :
    {A : Type ℓ} (r : Result A) → ((a : A) × (r ≡ ok a)) ⊎ ((e : Error) × (r ≡ err e))
Result-cases (ok a) = inl (a, refl)
Result-cases (err e) = inr (e, refl)

pub bind-ok :
    {A B : Type 0} (m : Result A) (next : A → Result B) (b : B)
    → (m >>= next) ≡ ok b
    → (a : A) × (m ≡ ok a) × (next a ≡ ok b)
bind-ok (ok a) next b e = (a, refl, e)
bind-ok (err x) next b e = absurd (cc)

pub then-ok :
    {B : Type 0} (m : Result (Unit {0})) (next : Result B) (b : B)
    → (m >> next) ≡ ok b
    → (m ≡ ok tt) × (next ≡ ok b)
then-ok (ok tt) next b e = (refl, e)
then-ok (err x) next b e = absurd (cc)

pub require-ok : (t : Bool) (x : Error) → require t x ≡ ok tt → t ≡ true
require-ok true x e = refl
require-ok false x e = absurd (cc)

pub ok-injective : {A : Type 0} (a b : A) → ok a ≡ ok b → a ≡ b
ok-injective a b e = cc

encoded-ok :
    {B : Type 0} (fault : String → Error) (r : String ⊎ B) (b : B)
    → encoded fault r ≡ ok b
    → r ≡ inr b
encoded-ok fault (inl m) b e = absurd (cc)
encoded-ok fault (inr c) b e = cc

pub marshal-ok :
    {A B : Type 0} (c : Codec A B) (fault : String → Error) (a : A) (b : B)
    → marshal c fault a ≡ ok b
    → c.encode a ≡ inr b
marshal-ok c fault a b e = encoded-ok fault (c.encode a) b e

-- The end of the checks of a resource: its JSON.
pub marshal-ok_pair :
    {A B : Type 0} (c : Codec A B) (fault : String → Error) (a : A) (r : A × B)
    → (marshal c fault a >>= λ b. ok (a, b)) ≡ ok r
    → (a ≡ r.0) × (c.encode a ≡ inr r.1)
marshal-ok_pair {A = A} {B = B} c fault a r e =
    let (b, encoded, whole) = bind-ok (marshal c fault a) (λ b. ok (a, b)) r e in
    let both = ok-injective (a, b) r whole in
    (
      ap (λ p. p.0) both,
      subst (λ x. c.encode a ≡ inr x) (ap (λ p. p.1) both) (marshal-ok c fault a b encoded),
    )

pub decoded-ok : {A : Type 0} (o : Option A) (a : A) → decoded o ≡ ok a → o ≡ some a
decoded-ok none a e = absurd (cc)
decoded-ok (some x) a e = cc

reading-ok :
    {A B : Type 0} (c : Codec A B) (missing : Error) (r : GetResult B) (a : A)
    → reading c missing r ≡ ok a
    → (b : B) × (r ≡ found b) × (c.decode b ≡ some a)
reading-ok c missing (found b) a e = (b, refl, decoded-ok (c.decode b) a e)
reading-ok c missing key_not_found a e = absurd (cc)
reading-ok c missing (GetResult.failed m) a e = absurd (cc)

module _ {S B : Type 0} (kv : KvStore S B) (view : S → String → Option B)
    (laws : IsKvStore kv view) where
  -- What is read is what the store has under the key.
  pub read_one-ok :
      {A : Type 0} (c : Codec A B) (s : S) (k : String) (missing : Error) (a : A)
      → read_one kv c s k missing ≡ ok a
      → (b : B) × (view s k ≡ some b) × (c.decode b ≡ some a)
  unfolding read_one
  read_one-ok c s k missing a e =
      let (b, here, read) = reading-ok c missing (kv.get s k) a e in
      (b, laws.get_found s k b here, read)

-- What holds before an operation and after its write holds after the operation.
pub if_passed_keeps :
    {T A R : Type 0} (P : T → Type 0) (s : T) (checks : Result A) (write : A → T × Result R)
    → P s
    → ((a : A) → checks ≡ ok a → P (write a).0)
    → P (if_passed s checks write).0
unfolding if_passed
if_passed_keeps P s (ok a) write before after = after a refl
if_passed_keeps P s (err e) write before after = before

pub checked-ok :
    {A : Type 0} (o : Option String) (fault : String → Error) (a b : A)
    → checked o fault a ≡ ok b
    → (o ≡ none) × (a ≡ b)
checked-ok none fault a b e = (refl, ok-injective a b e)
checked-ok (some m) fault a b e = absurd (cc)

pub if_passed-ok :
    {T A R : Type 0} (s : T) (checks : Result A) (write : A → T × Result R) (r : R)
    → (if_passed s checks write).1 ≡ ok r
    → (a : A) × (checks ≡ ok a)
      × ((write a).1 ≡ ok r)
      × ((if_passed s checks write).0 ≡ (write a).0)
unfolding if_passed
if_passed-ok s (ok a) write r e = (a, refl, e, refl)
if_passed-ok s (err x) write r e = absurd (cc)

pub written-ok :
    {S A : Type 0} (r : S × Option String) (fault : String → Error) (a b : A)
    → (written r fault a).1 ≡ ok b
    → (r.1 ≡ none) × (a ≡ b)
written-ok (s, none) fault a b e = (refl, ok-injective a b e)
written-ok (s, some m) fault a b e = absurd (cc)
