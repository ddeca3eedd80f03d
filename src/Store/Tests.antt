-- ===== src/Store/Tests.antt =====
-- The store below a root, over a store in memory.
use event_gateway.Common.{
  ℕ, String, ◌≡◌, refl, none, [], ◌∷◌, string_key, Dict, at_key, set_key, delete_key, has_prefix,
  has_suffix, trim_prefix,
}
use event_gateway.Store.{KvStore, IsKvStore, listed}
use event_gateway.Store.Memory.{memory, memory-IsKvStore, entries_below}
use event_gateway.Store.Prefixed.{
  prefixed, new_prefixed, unprefixed, unprefixed_result, root_of, view_below, prefixed-IsKvStore,
}

abbrev below_root : KvStore (Dict String ℕ) ℕ
below_root = prefixed "eg/" (memory ℕ)

list_below_root :
    below_root.list (("eg/a/x", 1) ∷ ("eg/", 0) ∷ ("eg/b/y", 2) ∷ []) ""
    ≡ listed (("a/x", 1) ∷ ("b/y", 2) ∷ [])
unfolding prefixed unprefixed unprefixed_result at_key entries_below trim_prefix has_prefix
list_below_root = refl

new_prefixed_test : (new_prefixed "eg" (memory ℕ)).put [] "a" 1 ≡ (("eg/a", 1) ∷ [], none)
unfolding new_prefixed root_of prefixed has_suffix set_key delete_key
new_prefixed_test = refl

prefixed-IsKvStore_example :
    IsKvStore (prefixed "eg/" (memory ℕ)) (view_below "eg/" (λ m k. at_key m k))
prefixed-IsKvStore_example =
    prefixed-IsKvStore "eg/" (memory ℕ) (λ m k. at_key m k) (memory-IsKvStore ℕ)
