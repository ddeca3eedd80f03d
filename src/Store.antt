-- ===== src/Store.antt =====
-- The key-value store (github.com/serverless/libkv/store, which is not part of the repository) as the
-- program uses it: its operations are parameters, and `IsKvStore` states what it documents of them.
-- `view` is what the store holds under each key.
pub mod Prefixed
pub mod Memory
mod Tests
use event_gateway.Common.{
  String, ◌≡◌, ◌≢◌, Bool, true, Option, none, some, List, [], ◌∷◌, ◌==◌, if◌then◌else◌, has_prefix,
  ◌⊎◌,
}

pub data GetResult (B : Type 0) : Type 0 where
  found : B → GetResult B
  -- store.ErrKeyNotFound
  key_not_found : GetResult B
  failed : String → GetResult B

pub data ListResult (B : Type 0) : Type 0 where
  listed : List (String × B) → ListResult B
  no_directory : ListResult B
  failed : String → ListResult B

-- The methods of `store.Store` that the services call. `S` is the state of the store and `B` stands
-- for byte strings; a write returns an error message, or none.
pub record KvStore (S B : Type 0) : Type 0 where
  pub get : S → String → GetResult B
  pub list : S → String → ListResult B
  pub put : S → String → B → S × Option String
  -- AtomicPut with no previous value
  pub atomic_put : S → String → B → S × Option String
  pub delete : S → String → S × Option String

abbrev pub In : {A : Type 0} → A → List A → Type 0
In x [] = ⊥
In x (y ∷ ys) = (x ≡ y) ⊎ In x ys

-- From `s` to `t` the key has its new value, or nothing has changed: what is known of a write that has
-- returned an error, which may have been made all the same.
abbrev pub MayBe : {S B : Type 0} → (S → String → Option B) → String → Option B → S → S → Type 0
MayBe view k new s t =
    ((j : String) → view t j ≡ view s j)
    ⊎ ((j : String) → view t j ≡ (if k == j then new else view s j))

pub record IsKvStore {S B : Type 0} (kv : KvStore S B) (view : S → String → Option B) : Type 0 where
  pub get_found : (s : S) (k : String) (b : B) → kv.get s k ≡ found b → view s k ≡ some b
  pub get_missing : (s : S) (k : String) → kv.get s k ≡ key_not_found → view s k ≡ none
  pub put_ok :
      (s : S) (k : String) (b : B) (j : String)
      → (kv.put s k b).1 ≡ none
      → view (kv.put s k b).0 j ≡ (if k == j then some b else view s j)
  pub put_failed :
      (s : S) (k : String) (b : B) (e : String)
      → (kv.put s k b).1 ≡ some e
      → MayBe view k (some b) s (kv.put s k b).0
  pub atomic_put_ok :
      (s : S) (k : String) (b : B) (j : String)
      → (kv.atomic_put s k b).1 ≡ none
      → (view s k ≡ none) × (view (kv.atomic_put s k b).0 j ≡ (if k == j then some b else view s j))
  pub atomic_put_failed :
      (s : S) (k : String) (b : B) (e : String)
      → (kv.atomic_put s k b).1 ≡ some e
      → MayBe view k (some b) s (kv.atomic_put s k b).0
  pub delete_ok :
      (s : S) (k j : String)
      → (kv.delete s k).1 ≡ none
      → view (kv.delete s k).0 j ≡ (if k == j then none else view s j)
  pub delete_failed :
      (s : S) (k e : String) → (kv.delete s k).1 ≡ some e → MayBe view k none s (kv.delete s k).0
  -- A listing holds the keys below the prefix; one of a prefix with no key below it is an error.
  pub list_sound :
      (s : S) (p k : String) (b : B) (kvs : List (String × B))
      → kv.list s p ≡ listed kvs
      → In (k, b) kvs
      → view s k ≡ some b
  pub list_below :
      (s : S) (p k : String) (b : B) (kvs : List (String × B))
      → kv.list s p ≡ listed kvs
      → In (k, b) kvs
      → has_prefix k p ≡ true
  pub list_complete :
      (s : S) (p k : String) (b : B) (kvs : List (String × B))
      → kv.list s p ≡ listed kvs
      → has_prefix k p ≡ true
      → k ≢ ""
      → view s k ≡ some b
      → In (k, b) kvs
  pub list_missing :
      (s : S) (p k : String)
      → kv.list s p ≡ no_directory
      → has_prefix k p ≡ true
      → k ≢ ""
      → view s k ≡ none
