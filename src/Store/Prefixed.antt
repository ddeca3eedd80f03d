-- ===== src/Store/Prefixed.antt =====
-- internal/store/prefixed.go: a store below a root of another.
use event_gateway.Common.{
  String, ◌≡◌, refl, sym, ◌∙◌, ap, ◌≢◌, inl, inr, true, false, Option, none, some, List, [], ◌∷◌,
  ◌==◌, if◌then◌else◌, has_prefix, has_suffix, trim_prefix, ◌<+>◌, Bool-cases, subst,
  has_prefix-append, trim_prefix-append, prefix-trim_prefix, same-append, has_prefix_shorter,
  has_prefix-append, append-ne_self, append-ne-nil, ne_test,
}
use event_gateway.Store.{KvStore, MayBe, IsKvStore, ListResult, listed, no_directory, In}

-- The root that `NewPrefixed` keeps ends in a slash.
unfoldable pub root_of : String → String
root_of root = if has_suffix root "/" then root else root <+> "/"

module _ {B : Type 0} where
  -- The loop of `List`: the directory itself is left out, and the root is cut off the keys.
  unfoldable pub unprefixed : String → List (String × B) → List (String × B)
  unprefixed root [] = []
  unprefixed root (kv ∷ kvs) =
      let rest = unprefixed root kvs in
      if kv.0 == root then rest else (trim_prefix kv.0 root, kv.1) ∷ rest

  unfoldable pub unprefixed_result : String → ListResult B → ListResult B
  unprefixed_result root (listed kvs) = listed (unprefixed root kvs)
  unprefixed_result root no_directory = no_directory
  unprefixed_result root (ListResult.failed e) = ListResult.failed e

module _ {S B : Type 0} where
  unfoldable pub prefixed : String → KvStore S B → KvStore S B
  prefixed root kv = record {
    get = λ s k. kv.get s (root <+> k);
    list = λ s p. unprefixed_result root (kv.list s (root <+> p));
    put = λ s k b. kv.put s (root <+> k) b;
    atomic_put = λ s k b. kv.atomic_put s (root <+> k) b;
    delete = λ s k. kv.delete s (root <+> k);
  }

  unfoldable pub new_prefixed : String → KvStore S B → KvStore S B
  unfolding root_of prefixed
  new_prefixed root kv = prefixed (root_of root) kv

module _ {B : Type 0} where
  In-unprefixed :
      (root k : String) (b : B) (kvs : List (String × B))
      → ((j : String) (c : B) → In (j, c) kvs → has_prefix j root ≡ true)
      → In (k, b) (unprefixed root kvs)
      → In (root <+> k, b) kvs
  unfolding unprefixed
  In-unprefixed root k b [] below m = m
  In-unprefixed root k b ((j, c) ∷ kvs) below m = elim (Bool-cases (j == root)) [
    | inl here ↦
        inr (In-unprefixed root k b kvs (λ i d n. below i d (inr n)) (rw (here, unprefixed) at m))
    | inr other ↦
        let cut : In (k, b) ((trim_prefix j root, c) ∷ unprefixed root kvs) =
          rw (other, unprefixed) at m in
        elim cut [
          | inl same ↦ inl λ i. (
            (ap (λ t. root <+> t) (λ l. (same l).0)
                  ∙ prefix-trim_prefix j root (below j c (inl refl)))
                i,
            (same i).1,
          )
          | inr n ↦ inr (In-unprefixed root k b kvs (λ i d o. below i d (inr o)) n)
        ]
  ]

  unprefixed_complete :
      (root k : String) (b : B) (kvs : List (String × B))
      → k ≢ ""
      → In (root <+> k, b) kvs
      → In (k, b) (unprefixed root kvs)
  unfolding unprefixed
  unprefixed_complete root k b [] some_key m = m
  unprefixed_complete root k b ((j, c) ∷ kvs) some_key (inl same) =
      let key : root <+> k ≡ j = λ i. (same i).0 in
      let differ : (j == root) ≡ false =
        subst (λ t. (t == root) ≡ false) key (ne_test _ _ (append-ne_self root k some_key)) in
      rw (differ, unprefixed)
        (inl
          λ i. ((sym (trim_prefix-append root k) ∙ ap (λ t. trim_prefix t root) key) i, (same i).1))
  unprefixed_complete root k b ((j, c) ∷ kvs) some_key (inr m) =
      let later = unprefixed_complete root k b kvs some_key m in
      elim (Bool-cases (j == root)) [
        | inl here ↦ rw (here, unprefixed) later
        | inr other ↦ rw (other, unprefixed) (inr later)
      ]

  listed-unprefixed :
      (root : String) (r : ListResult B) (kvs : List (String × B))
      → unprefixed_result root r ≡ listed kvs
      → (old : List (String × B)) × (r ≡ listed old) × (kvs ≡ unprefixed root old)
  unfolding unprefixed_result
  listed-unprefixed root (listed old) kvs e = (old, refl, cc)
  listed-unprefixed root no_directory kvs e = absurd (cc)
  listed-unprefixed root (ListResult.failed m) kvs e = absurd (cc)

  missing-unprefixed :
      (root : String) (r : ListResult B)
      → unprefixed_result root r ≡ no_directory
      → r ≡ no_directory
  unfolding unprefixed_result
  missing-unprefixed root (listed old) e = absurd (cc)
  missing-unprefixed root no_directory e = refl
  missing-unprefixed root (ListResult.failed m) e = absurd (cc)

module _ {S B : Type 0} where
  -- What a prefixed store holds under a key.
  abbrev pub view_below : String → (S → String → Option B) → S → String → Option B
  view_below root view s k = view s (root <+> k)

  -- A store below a root is a store too: it keeps the laws, for the keys below the root.
  pub prefixed-IsKvStore :
      (root : String) (kv : KvStore S B) (view : S → String → Option B)
      → IsKvStore kv view
      → IsKvStore (prefixed root kv) (view_below root view)
  unfolding prefixed
  prefixed-IsKvStore root kv view laws = record {
    get_found = λ s k b e. laws.get_found s (root <+> k) b e;
    get_missing = λ s k e. laws.get_missing s (root <+> k) e;
    put_ok = λ s k b j e. below k j (some b) s _ (laws.put_ok s (root <+> k) b (root <+> j) e);
    put_failed = λ s k b m e. maybe_below k (some b) s _ (laws.put_failed s (root <+> k) b m e);
    atomic_put_ok = λ s k b j e.
        let (fresh, written) = laws.atomic_put_ok s (root <+> k) b (root <+> j) e in
        (fresh, below k j (some b) s _ written);
    atomic_put_failed =
        λ s k b m e. maybe_below k (some b) s _ (laws.atomic_put_failed s (root <+> k) b m e);
    delete_ok = λ s k j e. below k j none s _ (laws.delete_ok s (root <+> k) (root <+> j) e);
    delete_failed = λ s k m e. maybe_below k none s _ (laws.delete_failed s (root <+> k) m e);
    list_sound = λ s p k b kvs e m.
        let (old, whole, cut) = listed-unprefixed root _ kvs e in
        laws.list_sound s (root <+> p) (root <+> k) b old whole
          (In-unprefixed root k b old (under s p old whole) (subst (In (k, b)) cut m));
    list_below = λ s p k b kvs e m.
        let (old, whole, cut) = listed-unprefixed root _ kvs e in
        sym (has_prefix-append root k p)
        ∙ laws.list_below s (root <+> p) (root <+> k) b old whole
            (In-unprefixed root k b old (under s p old whole) (subst (In (k, b)) cut m));
    list_complete = λ s p k b kvs e h some_key v.
        let (old, whole, cut) = listed-unprefixed root _ kvs e in
        subst (In (k, b)) (sym cut) (
          unprefixed_complete root k b old some_key (
            laws.list_complete s (root <+> p) (root <+> k) b old whole
              (has_prefix-append root k p ∙ h) (append-ne-nil root k some_key) v));
    list_missing = λ s p k e h some_key.
        laws.list_missing s (root <+> p) (root <+> k) (missing-unprefixed root _ e)
          (has_prefix-append root k p ∙ h) (append-ne-nil root k some_key);
  }
    where
      below :
          (k j : String) (new : Option B) (s t : S)
          → view t (root <+> j) ≡ (if root <+> k == root <+> j then new else view s (root <+> j))
          → view t (root <+> j) ≡ (if k == j then new else view s (root <+> j))
      below k j new s t e =
          e ∙ ap (λ c. if c then new else view s (root <+> j)) (same-append root k j)

      maybe_below :
          (k : String) (new : Option B) (s t : S)
          → MayBe view (root <+> k) new s t
          → MayBe (view_below root view) k new s t
      maybe_below k new s t (inl h) = inl (λ j. h (root <+> j))
      maybe_below k new s t (inr h) = inr (λ j. below k j new s t (h (root <+> j)))

      under :
          (s : S) (p : String) (old : List (String × B))
          → kv.list s (root <+> p) ≡ listed old
          → (j : String) (c : B) → In (j, c) old
          → has_prefix j root ≡ true
      under s p old whole j c m =
          has_prefix_shorter j root p (laws.list_below s (root <+> p) j c old whole m)
