-- ===== src/Service/Changes.antt =====
-- What the writes of the services change in a store, and what a listing of it tells.
use event_gateway.Common.{
  String, ◌≡◌, refl, sym, ◌∙◌, ap, ◌≢◌, ◌⊎◌, inl, inr, true, Option, none, some, List, [], ◌∷◌,
  ◌==◌, eq_iff, if◌then◌else◌, has_prefix, Option-cases, subst, ne_test, String-cases,
}
use event_gateway.Store.{KvStore, MayBe, IsKvStore, ListResult, listed, no_directory, In}
use event_gateway.Resource.{Metadata, check, Error, ok}
use event_gateway.Service.Defs.{Codec, decoded, decode_all, kept, listing, read_all, written}
use event_gateway.Service.Inversion.{bind-ok, decoded-ok, ok-injective}

pub written-state :
    {S A : Type 0} (r : S × Option String) (fault : String → Error) (a : A)
    → (written r fault a).0 ≡ r.0
written-state (s, none) fault a = refl
written-state (s, some m) fault a = refl

module _ {S B : Type 0} (view : S → String → Option B) where
  -- From `s` to `t` at most the value under `k` has changed, to `new`.
  pub data Change (k : String) (new : Option B) (s t : S) : Type 0 where
    same : ((j : String) → view t j ≡ view s j) → Change k new s t
    changed : ((j : String) → view t j ≡ (if k == j then new else view s j)) → Change k new s t

  MayBe-Change : (k : String) (new : Option B) (s t : S) → MayBe view k new s t → Change k new s t
  MayBe-Change k new s t (inl h) = same h
  MayBe-Change k new s t (inr h) = changed h

  -- The store has a value under the key.
  abbrev pub Present : S → String → Type 0
  Present s k = (b : B) × (view s k ≡ some b)

  pub Present-Change :
      (k j : String) (new : Option B) (s t : S)
      → Change k new s t
      → (new ≡ none → k ≢ j)
      → Present s j
      → Present t j
  Present-Change k j new s t (same h) other (b, e) = (b, h j ∙ e)
  Present-Change k j none s t (changed h) other (b, e) = (b, h j ∙ rw (ne_test k j (other refl)) e)
  Present-Change k j (some c) s t (changed h) other (b, e) = elim (String-cases k j) [
    | inl here ↦ (c, h j ∙ rw ((eq_iff k j).1 here) refl)
    | inr off ↦ (b, h j ∙ rw (ne_test k j off) e)
  ]

  -- What is in the store after a change is new or was there.
  pub Change-cases :
      (k j : String) (new : Option B) (b : B) (s t : S)
      → Change k new s t
      → view t j ≡ some b
      → ((k ≡ j) × (new ≡ some b)) ⊎ (view s j ≡ some b)
  Change-cases k j new b s t (same h) e = inr (sym (h j) ∙ e)
  Change-cases k j new b s t (changed h) e = elim (String-cases k j) [
    | inl here ↦ inl (
      here,
      subst (λ c. (if c then new else view s j) ≡ some b) ((eq_iff k j).1 here) (sym (h j) ∙ e),
    )
    | inr off ↦
        inr (subst (λ c. (if c then new else view s j) ≡ some b) (ne_test k j off) (sym (h j) ∙ e))
  ]

  module _ (kv : KvStore S B) (laws : IsKvStore kv view) where
    pub put-Change :
        {A : Type 0} (s : S) (k : String) (b : B) (fault : String → Error) (a : A)
        → Change k (some b) s (written (kv.put s k b) fault a).0
    put-Change s k b fault a =
        subst (Change k (some b) s) (sym (written-state _ fault a))
          (elim (Option-cases (kv.put s k b).1) [
            | inl done ↦ changed (λ j. laws.put_ok s k b j done)
            | inr (m, failing) ↦ MayBe-Change k (some b) s _ (laws.put_failed s k b m failing)
          ])

    pub atomic_put-Change :
        {A : Type 0} (s : S) (k : String) (b : B) (fault : String → Error) (a : A)
        → Change k (some b) s (written (kv.atomic_put s k b) fault a).0
    atomic_put-Change s k b fault a =
        subst (Change k (some b) s) (sym (written-state _ fault a))
          (elim (Option-cases (kv.atomic_put s k b).1) [
            | inl done ↦ changed (λ j. (laws.atomic_put_ok s k b j done).1)
            | inr (m, failing) ↦
                MayBe-Change k (some b) s _ (laws.atomic_put_failed s k b m failing)
          ])

    pub delete-Change :
        {A : Type 0} (s : S) (k : String) (fault : String → Error) (a : A)
        → Change k none s (written (kv.delete s k) fault a).0
    delete-Change s k fault a =
        subst (Change k none s) (sym (written-state _ fault a))
          (elim (Option-cases (kv.delete s k).1) [
            | inl done ↦ changed (λ j. laws.delete_ok s k j done)
            | inr (m, failing) ↦ MayBe-Change k none s _ (laws.delete_failed s k m failing)
          ])

kept-all : {A : Type 0} (metadata : A → Metadata) (all : List A) → kept metadata [] all ≡ all
unfolding check
kept-all metadata [] = refl
kept-all metadata (a ∷ all) = ap (λ l. a ∷ l) (kept-all metadata all)

module _ {B : Type 0} where
  In-decode_all :
      {A : Type 0} (c : Codec A B) (kvs : List (String × B)) (all : List A) (k : String) (b : B)
      (a : A)
      → decode_all c kvs ≡ ok all
      → In (k, b) kvs
      → c.decode b ≡ some a
      → In a all
  unfolding decode_all
  In-decode_all c [] all k b a e m d = absurd m
  In-decode_all c (item ∷ kvs) all k b a e m d =
      let (x, first, more) = bind-ok (decoded (c.decode item.1)) _ all e in
      let (rest, others, whole) = bind-ok (decode_all c kvs) _ all more in
      let parts : x ∷ rest ≡ all = ok-injective _ _ whole in
      subst (In a) parts (elim m [
        | inl here ↦
            let same_text : b ≡ item.1 = λ i. (here i).1 in
            let read = decoded-ok _ _ first in
            let twice : some a ≡ some x = sym d ∙ ap c.decode same_text ∙ read in inl (cc)
        | inr later ↦ inr (In-decode_all c kvs rest k b a others later d)
      ])

module _ {S B : Type 0} (view : S → String → Option B) (kv : KvStore S B)
    (laws : IsKvStore kv view) where
  In-listing :
      (s : S) (p k : String) (b : B) (r : ListResult B) (kvs : List (String × B))
      → kv.list s p ≡ r
      → listing r ≡ ok kvs
      → has_prefix k p ≡ true
      → k ≢ ""
      → view s k ≡ some b
      → In (k, b) kvs
  In-listing s p k b (listed found) kvs is e below some_key v =
      subst (In (k, b)) (ok-injective _ _ e) (laws.list_complete s p k b found is below some_key v)
  In-listing s p k b no_directory kvs is e below some_key v =
      let gone = laws.list_missing s p k is below some_key in absurd (cc)
  In-listing s p k b (ListResult.failed m) kvs is e below some_key v = absurd (cc)

  -- A listing without filters has every resource of the space.
  pub read_all_complete :
      {A : Type 0} (c : Codec A B) (metadata : A → Metadata) (s : S) (p k : String) (b : B) (a : A)
      (all : List A)
      → read_all kv c metadata s p [] ≡ ok all
      → has_prefix k p ≡ true
      → k ≢ ""
      → view s k ≡ some b
      → c.decode b ≡ some a
      → In a all
  unfolding read_all
  read_all_complete c metadata s p k b a all e below some_key v d =
      let (kvs, these, more) = bind-ok (listing (kv.list s p)) _ all e in
      let (found, read, whole) = bind-ok (decode_all c kvs) _ all more in
      let same_list = sym (kept-all metadata found) ∙ ok-injective _ _ whole in
      subst (In a) same_list (
        In-decode_all c kvs found k b a read (In-listing s p k b _ kvs refl these below some_key v)
          d)
