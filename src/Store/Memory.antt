-- ===== src/Store/Memory.antt =====
-- A key-value store in memory: an instance of the laws of a store.
use event_gateway.Common.{
  String, ◌≡◌, ◌⊎◌, refl, sym, ap, ◌∙◌, subst, true, Option, none, some, List, [], ◌∷◌, ◌==◌,
  eq_iff, Bool-cases, Option-cases, inl, inr, if◌then◌else◌, string_key, Dict, at_key,
  at_key-set_key, at_key-delete_key, set_key, delete_key, has_prefix,
}
use event_gateway.Store.{
  KvStore, IsKvStore, GetResult, ListResult, found, key_not_found, listed, no_directory, In,
}

module _ {B : Type 0} where
  abbrev got : Option B → GetResult B
  got none = key_not_found
  got (some b) = found b

  abbrev cons_some : String → Option B → List (String × B) → List (String × B)
  cons_some k none rest = rest
  cons_some k (some b) rest = (k, b) ∷ rest

  -- The entries of `all` under the keys of `m` below the prefix.
  unfoldable pub entries_below : Dict String B → String → Dict String B → List (String × B)
  entries_below all p [] = []
  entries_below all p (item ∷ m) =
      let rest = entries_below all p m in
      if has_prefix item.0 p then cons_some item.0 (at_key all item.0) rest else rest

  abbrev listing : List (String × B) → ListResult B
  listing [] = no_directory
  listing (item ∷ items) = listed (item ∷ items)

  abbrev put_new : Dict String B → String → B → Option B → Dict String B × Option String
  put_new m k b none = (set_key m k b, none)
  put_new m k b (some old) = (m, some "key exists")

  abbrev delete_old : Dict String B → String → Option B → Dict String B × Option String
  delete_old m k none = (m, some "key not found")
  delete_old m k (some old) = (delete_key m k, none)

abbrev pub memory : (B : Type 0) → KvStore (Dict String B) B
memory B = record {
  get = λ m k. got (at_key m k);
  list = λ m p. listing (entries_below m p m);
  put = λ m k b. (set_key m k b, none);
  atomic_put = λ m k b. put_new m k b (at_key m k);
  delete = λ m k. delete_old m k (at_key m k);
}

module _ {B : Type 0} where
  got-found : (o : Option B) (b : B) → got o ≡ found b → o ≡ some b
  got-found none b e = absurd (cc)
  got-found (some c) b e = cc

  got-missing : (o : Option B) → got o ≡ key_not_found → o ≡ none
  got-missing none e = refl
  got-missing (some c) e = absurd (cc)

  listing-listed : (l kvs : List (String × B)) → listing l ≡ listed kvs → l ≡ kvs
  listing-listed [] kvs e = absurd (cc)
  listing-listed (x ∷ l) kvs e = cc

  listing-missing : (l : List (String × B)) → listing l ≡ no_directory → l ≡ []
  listing-missing [] e = refl
  listing-missing (x ∷ l) e = absurd (cc)

  In-cons_some :
      (j k : String) (o : Option B) (b : B) (rest : List (String × B))
      → In (k, b) (cons_some j o rest)
      → ((k ≡ j) × (o ≡ some b)) ⊎ In (k, b) rest
  In-cons_some j k none b rest m = inr m
  In-cons_some j k (some c) b rest (inl e) = inl (ap (λ p. p.0) e, ap some (sym (ap (λ p. p.1) e)))
  In-cons_some j k (some c) b rest (inr m) = inr m

  In-entries :
      (all : Dict String B) (p k : String) (b : B) (m : Dict String B)
      → In (k, b) (entries_below all p m)
      → (at_key all k ≡ some b) × (has_prefix k p ≡ true)
  unfolding entries_below
  In-entries all p k b [] h = absurd h
  In-entries all p k b (item ∷ m) h = elim (Bool-cases (has_prefix item.0 p)) [
    | inr off ↦ In-entries all p k b m (rw (off, entries_below) at h)
    | inl here ↦
        elim (In-cons_some item.0 k (at_key all item.0) b _ (rw (here, entries_below) at h)) [
          | inl (same, value) ↦ (ap (at_key all) same ∙ value, ap (λ x. has_prefix x p) same ∙ here)
          | inr later ↦ In-entries all p k b m later
        ]
  ]

  cons_some-later :
      (j : String) (x : String × B) (o : Option B) (rest : List (String × B))
      → In x rest
      → In x (cons_some j o rest)
  cons_some-later j x none rest h = h
  cons_some-later j x (some c) rest h = inr h

  entries_complete :
      (all : Dict String B) (p k : String) (b c : B) (m : Dict String B)
      → at_key all k ≡ some b
      → has_prefix k p ≡ true
      → at_key m k ≡ some c
      → In (k, b) (entries_below all p m)
  unfolding at_key entries_below
  entries_complete all p k b c [] here below e = absurd (cc)
  entries_complete all p k b c (item ∷ m) here below e = elim (Bool-cases (item.0 == k)) [
    | inl is ↦
        let same : item.0 ≡ k = (eq_iff item.0 k).0 is in
        subst
          (λ j.
            In (k, b)
              (if has_prefix j p
                then cons_some j (at_key all j) (entries_below all p m)
                else entries_below all p m))
          (sym same) (rw (below, here) (inl refl))
    | inr off ↦
        let later = entries_complete all p k b c m here below (rw off at e) in
        elim (Bool-cases (has_prefix item.0 p)) [
          | inl in_it ↦ rw in_it (cons_some-later item.0 (k, b) (at_key all item.0) _ later)
          | inr out ↦ rw out later
        ]
  ]

  put_new_ok :
      (m : Dict String B) (k : String) (b : B) (j : String) (o : Option B)
      → at_key m k ≡ o
      → (put_new m k b o).1 ≡ none
      → (at_key m k ≡ none)
        × (at_key (put_new m k b o).0 j ≡ (if k == j then some b else at_key m j))
  put_new_ok m k b j none is e = (is, at_key-set_key m k j b)
  put_new_ok m k b j (some old) is e = absurd (cc)

  put_new_failed :
      (m : Dict String B) (k : String) (b : B) (j e : String) (o : Option B)
      → (put_new m k b o).1 ≡ some e
      → at_key (put_new m k b o).0 j ≡ at_key m j
  put_new_failed m k b j e none fails = absurd (cc)
  put_new_failed m k b j e (some old) fails = refl

  delete_old_ok :
      (m : Dict String B) (k j : String) (o : Option B)
      → (delete_old m k o).1 ≡ none
      → at_key (delete_old m k o).0 j ≡ (if k == j then none else at_key m j)
  delete_old_ok m k j none e = absurd (cc)
  delete_old_ok m k j (some old) e = at_key-delete_key m k j

  delete_old_failed :
      (m : Dict String B) (k j e : String) (o : Option B)
      → (delete_old m k o).1 ≡ some e
      → at_key (delete_old m k o).0 j ≡ at_key m j
  delete_old_failed m k j e none fails = refl
  delete_old_failed m k j e (some old) fails = absurd (cc)

pub memory-IsKvStore : (B : Type 0) → IsKvStore (memory B) (λ m k. at_key m k)
memory-IsKvStore B = record {
  get_found = λ m k b e. got-found (at_key m k) b e;
  get_missing = λ m k e. got-missing (at_key m k) e;
  put_ok = λ m k b j e. at_key-set_key m k j b;
  put_failed = λ m k b e fails. absurd (cc);
  atomic_put_ok = λ m k b j e. put_new_ok m k b j (at_key m k) refl e;
  atomic_put_failed = λ m k b e fails. inl (λ j. put_new_failed m k b j e (at_key m k) fails);
  delete_ok = λ m k j e. delete_old_ok m k j (at_key m k) e;
  delete_failed = λ m k e fails. inl (λ j. delete_old_failed m k j e (at_key m k) fails);
  list_sound = λ m p k b kvs e h.
      (In-entries m p k b m (subst (In (k, b)) (sym (listing-listed _ kvs e)) h)).0;
  list_below = λ m p k b kvs e h.
      (In-entries m p k b m (subst (In (k, b)) (sym (listing-listed _ kvs e)) h)).1;
  list_complete = λ m p k b kvs e below some_key v.
      subst (In (k, b)) (listing-listed _ kvs e) (entries_complete m p k b b m v below v);
  list_missing = λ m p k e below some_key. elim (Option-cases (at_key m k)) [
    | inl nothing ↦ nothing
    | inr (b, v) ↦
        absurd (subst (In (k, b)) (listing-missing _ e) (entries_complete m p k b b m v below v))
  ];
}
