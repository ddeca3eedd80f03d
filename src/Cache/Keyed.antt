-- ===== src/Cache/Keyed.antt =====
-- internal/cache/function_cache.go and eventtype_cache.go: the caches that keep one resource under
-- each key "space/id".
use event_gateway.Common.{
  String, ◌≡◌, ◌↔◌, ap, ap, Bool, true, ◌&&◌, Option, none, some, List, ◌∷◌, ◌==◌, eq_iff, arith,
  Key, Dict, set_key, delete_key, split_slash,
}
use event_gateway.Resource.{Function, EventType}
use event_gateway.Service.Defs.{Codec}
use event_gateway.Service.Subscriptions.{FunctionKey}
use event_gateway.Cache.Watcher.{Reactor, if_decoded, proceed}

abbrev pub same_function_key : FunctionKey → FunctionKey → Bool
same_function_key a b = a.space == b.space && a.id == b.id

pub same_function_key_iff : (a b : FunctionKey) → (same_function_key a b ≡ true) ↔ (a ≡ b)
same_function_key_iff a b = (
  λ e.
      let spaces : a.space ≡ b.space = (eq_iff a.space b.space).0 (ground arith) in
      let ids : a.id ≡ b.id = (eq_iff a.id b.id).0 (ground arith) in
      λ i. record { space = spaces i; id = ids i },
  λ e.
      let spaces = (eq_iff a.space b.space).1 (ap (λ k. k.space) e) in
      let ids = (eq_iff a.id b.id).1 (ap (λ k. k.id) e) in ground arith,
)

instance abbrev pub function_key : Key FunctionKey
function_key = record { same = same_function_key; same_iff = same_function_key_iff }

-- EventTypeKey of libkv/eventtype.go
pub record EventTypeKey : Type 0 where
  pub space : String
  pub name : String

abbrev pub same_event_type_key : EventTypeKey → EventTypeKey → Bool
same_event_type_key a b = a.space == b.space && a.name == b.name

pub same_event_type_key_iff : (a b : EventTypeKey) → (same_event_type_key a b ≡ true) ↔ (a ≡ b)
same_event_type_key_iff a b = (
  λ e.
      let spaces : a.space ≡ b.space = (eq_iff a.space b.space).0 (ground arith) in
      let names : a.name ≡ b.name = (eq_iff a.name b.name).0 (ground arith) in
      λ i. record { space = spaces i; name = names i },
  λ e.
      let spaces = (eq_iff a.space b.space).1 (ap (λ k. k.space) e) in
      let names = (eq_iff a.name b.name).1 (ap (λ k. k.name) e) in ground arith,
)

instance abbrev pub event_type_key : Key EventTypeKey
event_type_key = record { same = same_event_type_key; same_iff = same_event_type_key_iff }

abbrev pub two_of : List String → Option (String × String)
two_of (x ∷ y ∷ more) = some (x, y)
two_of _ = none

-- segments[0] and segments[1] of a key; Go panics where there is no second one.
unfoldable pub two_segments : String → Option (String × String)
two_segments k = two_of (split_slash k)

abbrev pub FunctionCache : Type 0
FunctionCache = Dict FunctionKey Function

abbrev pub EventTypeCache : Type 0
EventTypeCache = Dict EventTypeKey EventType

module _ {B : Type 0} where
  -- functionCache.Modified; a value that is not JSON of a function is only logged.
  unfoldable pub function_modified :
      Codec Function B → String → B → FunctionCache → Option FunctionCache
  function_modified codec k v cache = if_decoded (codec.decode v) cache (λ f.
      proceed (two_segments k) (λ s. some (set_key cache (record { space = s.0; id = s.1 }) f)))

  -- functionCache.Deleted
  unfoldable pub function_deleted : String → B → FunctionCache → Option FunctionCache
  function_deleted k v cache =
      proceed (two_segments k) (λ s. some (delete_key cache (record { space = s.0; id = s.1 })))

  abbrev pub function_reactor : Codec Function B → Reactor B FunctionCache
  function_reactor codec = record { modified = function_modified codec; deleted = function_deleted }

  -- eventTypeCache.Modified
  unfoldable pub event_type_modified :
      Codec EventType B → String → B → EventTypeCache → Option EventTypeCache
  event_type_modified codec k v cache = if_decoded (codec.decode v) cache (λ t.
      proceed (two_segments k) (λ s. some (set_key cache (record { space = s.0; name = s.1 }) t)))

  -- eventTypeCache.Deleted
  unfoldable pub event_type_deleted : String → B → EventTypeCache → Option EventTypeCache
  event_type_deleted k v cache =
      proceed (two_segments k) (λ s. some (delete_key cache (record { space = s.0; name = s.1 })))

  abbrev pub event_type_reactor : Codec EventType B → Reactor B EventTypeCache
  event_type_reactor codec = record {
    modified = event_type_modified codec;
    deleted = event_type_deleted;
  }
