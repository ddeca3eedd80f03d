-- ===== src/Service/Raising.antt =====
-- The errors that the parts of an operation return.
pub mod Parts
pub mod Reads
pub mod Writes
pub mod Routes
use event_gateway.Common.{
  String, ◌≡◌, refl, subst, ◌⊎◌, inl, inr, Bool, true, false, Option, none, some, List, [], ◌∷◌,
}
use event_gateway.Store.{KvStore, GetResult, ListResult, found, key_not_found, listed, no_directory}
use event_gateway.Resource.{
  Metadata, Filter, Error, store_error, json_error, Result, ok, err, require, ◌>>=◌, ◌>>◌,
}
use event_gateway.Service.Defs.{
  Codec, encoded, marshal, decoded, decode_all, listing, reading, read_one, read_all, written,
  if_passed,
}
use event_gateway.Service.Validation.{checked}

-- The error that is returned, if one is, has the property.
pub record Raises {A : Type 0} (P : Error → Type 0) (r : Result A) : Type 0 where
  pub raised : (e : Error) → r ≡ err e → P e

pub ok-Raises : {A : Type 0} (P : Error → Type 0) (a : A) → Raises P (ok a)
ok-Raises P a = record { raised = λ e is. absurd (cc) }

pub err-Raises : {A : Type 0} (P : Error → Type 0) (e : Error) → P e → Raises {A = A} P (err e)
err-Raises P e h = record { raised = λ f is. let same : e ≡ f = cc in subst P same h }

module _ (P : Error → Type 0) where
  pub bind-Raises :
      {A B : Type 0} (m : Result A) (next : A → Result B)
      → Raises P m
      → ((a : A) → Raises P (next a))
      → Raises P (m >>= next)
  bind-Raises (ok a) next first later = later a
  bind-Raises (err e) next first later = err-Raises P e (first.raised e refl)

  pub require-Raises : (test : Bool) (e : Error) → P e → Raises P (require test e)
  require-Raises true e h = ok-Raises P _
  require-Raises false e h = err-Raises P e h

  pub checked-Raises :
      {A : Type 0} (o : Option String) (fault : String → Error) (a : A)
      → ((m : String) → P (fault m))
      → Raises P (checked o fault a)
  checked-Raises none fault a h = ok-Raises P _
  checked-Raises (some m) fault a h = err-Raises P _ (h m)

  encoded-Raises :
      {B : Type 0} (fault : String → Error) (r : String ⊎ B)
      → ((m : String) → P (fault m))
      → Raises P (encoded fault r)
  encoded-Raises fault (inl m) h = err-Raises P _ (h m)
  encoded-Raises fault (inr b) h = ok-Raises P _

  -- The end of the checks of a resource: its JSON.
  pub marshal-Raises :
      {A B : Type 0} (c : Codec A B) (fault : String → Error) (a : A)
      → ((m : String) → P (fault m))
      → Raises {A = A × B} P (marshal c fault a >>= λ b. ok (a, b))
  marshal-Raises c fault a h =
      bind-Raises (marshal c fault a) _ (encoded-Raises fault (c.encode a) h)
        (λ b. ok-Raises P (a, b))

  pub written-Raises :
      {S A : Type 0} (r : S × Option String) (fault : String → Error) (a : A)
      → ((m : String) → P (fault m))
      → Raises P (written r fault a).1
  written-Raises (s, none) fault a h = ok-Raises P _
  written-Raises (s, some m) fault a h = err-Raises P _ (h m)

  pub if_passed-Raises :
      {T A R : Type 0} (s : T) (checks : Result A) (write : A → T × Result R)
      → Raises P checks
      → ((a : A) → Raises P (write a).1)
      → Raises P (if_passed s checks write).1
  unfolding if_passed
  if_passed-Raises s (ok a) write first later = later a
  if_passed-Raises s (err e) write first later = err-Raises P e (first.raised e refl)

  module _ (stored : (m : String) → P (store_error m))
      (json : (m : String) → P (json_error m)) where
    decoded-Raises : {A : Type 0} (o : Option A) → Raises P (decoded o)
    decoded-Raises none = err-Raises P _ (json _)
    decoded-Raises (some a) = ok-Raises P _

    reading-Raises :
        {A B : Type 0} (c : Codec A B) (missing : Error) (r : GetResult B)
        → P missing
        → Raises P (reading c missing r)
    reading-Raises c missing (found b) h = decoded-Raises (c.decode b)
    reading-Raises c missing key_not_found h = err-Raises P missing h
    reading-Raises c missing (GetResult.failed m) h = err-Raises P _ (stored m)

    pub read_one-Raises :
        {S A B : Type 0} (kv : KvStore S B) (c : Codec A B) (s : S) (k : String) (missing : Error)
        → P missing
        → Raises P (read_one kv c s k missing)
    unfolding read_one
    read_one-Raises kv c s k missing h = reading-Raises c missing (kv.get s k) h

    listing-Raises : {B : Type 0} (r : ListResult B) → Raises P (listing r)
    listing-Raises (listed kvs) = ok-Raises P _
    listing-Raises no_directory = ok-Raises P _
    listing-Raises (ListResult.failed m) = err-Raises P _ (stored m)

    decode_all-Raises :
        {A B : Type 0} (c : Codec A B) (kvs : List (String × B)) → Raises P (decode_all c kvs)
    unfolding decode_all
    decode_all-Raises c [] = ok-Raises P _
    decode_all-Raises c (item ∷ kvs) =
        bind-Raises _ _ (decoded-Raises (c.decode item.1))
          (λ a. bind-Raises _ _ (decode_all-Raises c kvs) (λ rest. ok-Raises P (a ∷ rest)))

    pub read_all-Raises :
        {S A B : Type 0} (kv : KvStore S B) (c : Codec A B) (metadata : A → Metadata) (s : S)
        (prefix : String) (filters : List Filter)
        → Raises P (read_all kv c metadata s prefix filters)
    unfolding read_all
    read_all-Raises kv c metadata s prefix filters =
        bind-Raises _ _ (listing-Raises (kv.list s prefix))
          (λ kvs. bind-Raises _ _ (decode_all-Raises c kvs) (λ all. ok-Raises P _))
