-- ===== src/Cache/Mirror/Latest.antt =====
-- What the watcher and the function cache make of a sequence of batches of updates.
use event_gateway.Common.{
  String, ◌≡◌, ◌≢◌, ◌⊎◌, refl, sym, ap, ◌∙◌, subst, false, Option, none, some, List, [], ◌∷◌, ◌++◌,
  ◌==◌, eq_iff, Bool-cases, inl, inr, if◌then◌else◌, string_key, Dict, at_key, at_key-set_key,
  at_key-delete_key, NoSlash, ◌<+>◌, append-ne_self, ne_test, All,
}
use event_gateway.Resource.{Function}
use event_gateway.Service.Defs.{Codec, resource_key}
use event_gateway.Service.Integrity.Keys.{resource_key-ne-nil}
use event_gateway.Cache.Watcher.{
  Pair, Event, send, process_pair, process_pairs, process_events, react, react_event, proceed,
  Reactor,
}
use event_gateway.Cache.Keyed.{FunctionCache, function_key, function_reactor}
use event_gateway.Cache.Target.{Target, function_of}
use event_gateway.Cache.Mirror.{decode_value, Mirrors, IsFunctionPair, Followed, send-Followed}

proceed_assoc :
    {A C D : Type 0} (o : Option A) (f : A → Option C) (g : C → Option D)
    → proceed o (λ a. proceed (f a) g) ≡ proceed (proceed o f) g
proceed_assoc none f g = refl
proceed_assoc (some a) f g = refl

react-append :
    {B C : Type 0} (reactor : Reactor B C) (path : String) (xs ys : List (Event B)) (c : C)
    → react reactor path (xs ++ ys) c ≡ proceed (react reactor path xs c) (react reactor path ys)
unfolding react
react-append reactor path [] ys c = refl
react-append reactor path (x ∷ xs) ys c =
    (λ i. proceed (react_event reactor path x c) (λ next. react-append reactor path xs ys next i))
    ∙ proceed_assoc (react_event reactor path x c) (react reactor path xs) (react reactor path ys)

module _ {B : Type 0} where
  -- The last value that the updates give a key; none after a removal.
  abbrev pub latest : String → List (Pair B) → Option B → Option B
  latest k [] old = old
  latest k (kv ∷ kvs) old = latest k kvs (if kv.key == k then kv.value else old)

  abbrev pub latest_all : String → List (List (Pair B)) → Option B → Option B
  latest_all k [] old = old
  latest_all k (batch ∷ batches) old = latest_all k batches (latest k batch old)

  at_key-send :
      (key k : String) (new old : Option B) (cache : Dict String B)
      → at_key cache key ≡ old
      → at_key (send key new old cache).1 k ≡ (if key == k then new else at_key cache k)
  at_key-send key k (some v) old cache e = at_key-set_key cache key k v
  at_key-send key k none (some v) cache e = at_key-delete_key cache key k
  at_key-send key k none none cache e = elim (Bool-cases (key == k)) [
    | inl here ↦ rw here (ap (at_key cache) (sym ((eq_iff key k).0 here)) ∙ e)
    | inr off ↦ rw off refl
  ]

  at_key-process_pair :
      (path k : String) (kv : Pair B) (cache : Dict String B)
      → path ≢ k
      → at_key (process_pair path kv cache).1 k ≡ (if kv.key == k then kv.value else at_key cache k)
  unfolding process_pair
  at_key-process_pair path k kv cache other = elim (Bool-cases (kv.key == path)) [
    | inl here ↦
        let differ : (kv.key == k) ≡ false =
          ne_test kv.key k (λ e. other (sym ((eq_iff kv.key path).0 here) ∙ e)) in
        rw (here, differ) refl
    | inr off ↦ rw off (at_key-send kv.key k kv.value _ cache refl)
  ]

  at_key-process_pairs :
      (path k : String) (kvs : List (Pair B)) (cache : Dict String B)
      → path ≢ k
      → at_key (process_pairs path kvs cache).1 k ≡ latest k kvs (at_key cache k)
  unfolding process_pairs
  at_key-process_pairs path k [] cache other = refl
  at_key-process_pairs path k (kv ∷ kvs) cache other =
      at_key-process_pairs path k kvs (process_pair path kv cache).1 other
      ∙ ap (latest k kvs) (at_key-process_pair path k kv cache other)

  -- The cache of a watcher has the last value of each key but that of the directory.
  pub at_key-process_events :
      (path k : String) (batches : List (List (Pair B))) (cache : Dict String B)
      → path ≢ k
      → at_key (process_events path batches cache).1 k ≡ latest_all k batches (at_key cache k)
  unfolding process_events
  at_key-process_events path k [] cache other = refl
  at_key-process_events path k (batch ∷ batches) cache other =
      at_key-process_events path k batches (process_pairs path batch cache).1 other
      ∙ ap (latest_all k batches) (at_key-process_pairs path k batch cache other)

module _ {B : Type 0} (codec : Codec Function B) (path : String) where
  -- What the watcher of the functions is sent: the directory, or a function.
  abbrev pub IsOfFunctions : Pair B → Type 0
  IsOfFunctions kv = (kv.key ≡ path) ⊎ IsFunctionPair codec path kv

  pair-Followed :
      (kv : Pair B) (values : Dict String B) (functions : FunctionCache)
      → IsOfFunctions kv
      → Mirrors codec path values functions
      → Followed codec path (process_pair path kv values) functions
  unfolding process_pair react
  pair-Followed kv values functions (inl directory) m =
      rw ((eq_iff kv.key path).1 directory) (functions, refl, m)
  pair-Followed kv values functions (inr of) m =
      let off : (kv.key == path) ≡ false = ne_test kv.key path (λ e.
        append-ne_self path (resource_key of.space of.id) (resource_key-ne-nil of.space of.id)
          (sym of.key ∙ e)) in
      rw off (
        subst (λ k. Followed codec path (send k kv.value (at_key values kv.key) values) functions)
          (sym of.key)
          (send-Followed codec path of.space of.id kv.value (at_key values kv.key) values functions
            of.space_plain of.id_plain of.json m))

  append-Followed :
      (xs ys : List (Event B)) (middle last : Dict String B) (functions : FunctionCache)
      → Followed codec path (xs, middle) functions
      → ((next : FunctionCache)
          → Mirrors codec path middle next
          → Followed codec path (ys, last) next)
      → Followed codec path (xs ++ ys, last) functions
  append-Followed xs ys middle last functions (next, first, m) more =
      let (end, second, final) = more next m in
      (
        end,
        react-append (function_reactor codec) path xs ys functions
            ∙ ap (λ o. proceed o (react (function_reactor codec) path ys)) first
            ∙ second,
        final,
      )

  pairs-Followed :
      (kvs : List (Pair B)) (values : Dict String B) (functions : FunctionCache)
      → All IsOfFunctions kvs
      → Mirrors codec path values functions
      → Followed codec path (process_pairs path kvs values) functions
  unfolding process_pairs react
  pairs-Followed [] values functions all m = (functions, refl, m)
  pairs-Followed (kv ∷ kvs) values functions all m =
      append-Followed _ _ (process_pair path kv values).1 _ functions
        (pair-Followed kv values functions all.0 m)
        (λ next here. pairs-Followed kvs (process_pair path kv values).1 next all.1 here)

  events-Followed :
      (batches : List (List (Pair B))) (values : Dict String B) (functions : FunctionCache)
      → All (All IsOfFunctions) batches
      → Mirrors codec path values functions
      → Followed codec path (process_events path batches values) functions
  unfolding process_events react
  events-Followed [] values functions all m = (functions, refl, m)
  events-Followed (batch ∷ batches) values functions all m =
      append-Followed _ _ (process_pairs path batch values).1 _ functions
        (pairs-Followed batch values functions all.0 m)
        (λ next here. events-Followed batches (process_pairs path batch values).1 next all.1 here)

  -- However the updates of the functions' directory come in batches, the watcher and the cache follow
  -- them without a panic, and then `Function` of the target returns for a space and an ID without slashes
  -- the function that the last value under their key is JSON of, and nothing if the last update removed it
  -- or there was none. Each update is of the directory itself, or of a key "space/id" with JSON of a
  -- function or with no value.
  pub function_of-process_events :
      (batches : List (List (Pair B))) (t : Target) (space id : String)
      → All (All IsOfFunctions) batches
      → NoSlash space
      → NoSlash id
      → (functions : FunctionCache) × (react
            (function_reactor codec)
            path
            (process_events path batches []).0
            []
          ≡ some functions)
        × (function_of (record t { functions = functions }) space id
            ≡ decode_value codec (latest_all (path <+> resource_key space id) batches none))
  unfolding function_of at_key
  function_of-process_events batches t space id all hs hi =
      let (functions, done, mirror) = events-Followed batches [] [] all (λ space id hs hi. refl) in
      (
        functions,
        done,
        mirror space id hs hi
            ∙ ap (decode_value codec) (
                at_key-process_events path (path <+> resource_key space id) batches [] (λ e.
                  append-ne_self path (resource_key space id) (resource_key-ne-nil space id)
                    (sym e))),
      )
