-- ===== src/Cache/Watcher.antt =====
-- internal/cache/watcher.go: the events that a watcher makes of the updates of the store, and the
-- reactors that it passes them to.
use event_gateway.Common.{
  ◌≡◌, refl, subst, String, Option, none, some, List, [], ◌∷◌, ◌++◌, ◌==◌, if◌then◌else◌, Dict,
  string_key, at_key, set_key, delete_key, trim_prefix, has_prefix, has_suffix, ◌<+>◌,
}

-- store.KVPair: no value stands for nil.
pub record Pair (B : Type 0) : Type 0 where
  pub key : String
  pub value : Option B

-- `event` with its `eventType`.
pub data Event (B : Type 0) : Type 0 where
  modified_node : (key : String) → B → Event B
  deleted_node : (key : String) → B → Event B

-- Reactor: no state is left where a reactor panics.
pub record Reactor (B C : Type 0) : Type 0 where
  pub modified : String → B → C → Option C
  pub deleted : String → B → C → Option C

-- Go on unless there was a panic.
abbrev pub proceed : {A C : Type 0} → Option A → (A → Option C) → Option C
proceed none next = none
proceed (some a) next = next a

pub proceed-some :
    {A C : Type 0} (o : Option A) (next : A → Option C) (d : C)
    → proceed o next ≡ some d
    → (a : A) × (o ≡ some a) × (next a ≡ some d)
proceed-some none next d e = absurd (cc)
proceed-some (some a) next d e = (a, refl, e)

-- What a reactor does with the value that it decodes; one that it cannot decode is only logged.
abbrev pub if_decoded : {A C : Type 0} → Option A → C → (A → Option C) → Option C
if_decoded none c next = some c
if_decoded (some a) c next = next a

-- The path that `NewWatcher` keeps; it panics for the root and for a path that is not absolute.
unfoldable pub watcher_path : String → Option String
watcher_path path =
    if path == "/"
    then none
    else if has_prefix path "/"
    then some (if has_suffix path "/" then path else path <+> "/")
    else none

module _ {B : Type 0} where
  -- What is sent for a key with its new value and the one in the `cache`.
  abbrev pub send : String → Option B → Option B → Dict String B → List (Event B) × Dict String B
  send key (some v) old cache = (modified_node key v ∷ [], set_key cache key v)
  send key none (some old) cache = (deleted_node key old ∷ [], delete_key cache key)
  send key none none cache = ([], cache)

  -- What `processEvents` does for one pair: the events that it sends, and its `cache` of the values.
  -- The directory itself is passed over.
  unfoldable pub process_pair : String → Pair B → Dict String B → List (Event B) × Dict String B
  process_pair path kv cache =
      if kv.key == path then ([], cache) else send kv.key kv.value (at_key cache kv.key) cache

  unfoldable pub process_pairs :
      String → List (Pair B) → Dict String B → List (Event B) × Dict String B
  process_pairs path [] cache = ([], cache)
  process_pairs path (kv ∷ kvs) cache =
      let (sent, next) = process_pair path kv cache in
      let (later, last) = process_pairs path kvs next in (sent ++ later, last)

  -- The loop of `processEvents` over the batches that arrive until the channel is closed or the
  -- gateway shuts down.
  unfoldable pub process_events :
      String → List (List (Pair B)) → Dict String B → List (Event B) × Dict String B
  process_events path [] cache = ([], cache)
  process_events path (batch ∷ batches) cache =
      let (sent, next) = process_pairs path batch cache in
      let (later, last) = process_events path batches next in (sent ++ later, last)

  module _ {C : Type 0} (reactor : Reactor B C) (path : String) where
    -- The calls that `React` makes for an event.
    unfoldable pub react_event : Event B → C → Option C
    react_event (modified_node key v) c = reactor.modified (trim_prefix key path) v c
    react_event (deleted_node key v) c = reactor.deleted (trim_prefix key path) v c

    unfoldable pub react : List (Event B) → C → Option C
    react [] c = some c
    react (event ∷ events) c = proceed (react_event event c) (react events)

    -- What every event keeps is kept by a sequence of events.
    pub react_keeps :
        (P : C → Type 0)
        → ((event : Event B) (c d : C) → react_event event c ≡ some d → P c → P d)
        → (events : List (Event B)) (c d : C) → react events c ≡ some d
        → P c
        → P d
    unfolding react
    react_keeps P step [] c d e h = let same : c ≡ d = cc in subst P same h
    react_keeps P step (event ∷ events) c d e h =
        let (next, first, rest) = proceed-some (react_event event c) (react events) d e in
        react_keeps P step events next d rest (step event c next first h)
