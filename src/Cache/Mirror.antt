-- ===== src/Cache/Mirror.antt =====
-- The function cache behind the watcher has what the store last told of each function.
pub mod Latest
use event_gateway.Common.{
  String, ◌≡◌, ◌≢◌, ◌⊎◌, refl, sym, ap, ◌∙◌, subst, Bool, true, false, Option, none, some, List, [],
  ◌∷◌, ◌++◌, ◌==◌, eq_iff, Bool-cases, inl, inr, if◌then◌else◌, string_key, Dict, at_key,
  at_key-set_key, at_key-delete_key, set_key, delete_key, NoSlash, ◌<+>◌, split_slash,
  split_slash-append, split_slash-NoSlash, slash, slash-append, eqb, code, arith, trim_prefix,
  trim_prefix-append, append-ne_self, ne_test, All, String-cases,
}
use text.Mathlib.TextLemmas.{nil-append, cons-append, append_cancel_left}
use event_gateway.Resource.{Function}
use event_gateway.Service.Defs.{Codec, resource_key}
use event_gateway.Service.Subscriptions.{FunctionKey}
use event_gateway.Service.Integrity.Keys.{resource_key-ne-nil, resource_key-injective}
use event_gateway.Cache.Watcher.{
  Pair, Event, modified_node, deleted_node, send, process_pair, process_pairs, process_events,
  react, react_event, proceed, if_decoded,
}
use event_gateway.Cache.Keyed.{
  FunctionCache, function_key, two_segments, two_of, function_modified, function_deleted,
  function_reactor, same_function_key, same_function_key_iff,
}

-- The caches read a key as `resource_key` wrote it.
pub two_segments-resource_key :
    (space id : String)
    → NoSlash space
    → NoSlash id
    → two_segments (resource_key space id) ≡ some (space, id)
unfolding two_segments resource_key
two_segments-resource_key space id hs hi =
    ap two_of (split_slash-append space id hs ∙ ap (λ l. space ∷ l) (split_slash-NoSlash id hi))

same-function_keys :
    (path s i t j : String)
    → NoSlash s
    → NoSlash t
    → (path <+> resource_key s i == path <+> resource_key t j)
      ≡ same_function_key (record { space = s; id = i }) (record { space = t; id = j })
same-function_keys path s i t j hs ht =
    elim (Bool-cases
      (same_function_key (record { space = s; id = i }) (record { space = t; id = j }))) [
        | inl e ↦
            let same =
              (same_function_key_iff (record { space = s; id = i })
                  (record { space = t; id = j })).0
                e in
            (eq_iff _ _).1 (ap (λ (k : FunctionKey). path <+> resource_key k.space k.id) same)
            ∙ sym e
        | inr e ↦
            ne_test _ _ (λ keys.
              let (spaces, ids) =
                resource_key-injective s t i j hs ht (append_cancel_left path _ _ keys) in
              let same =
                (same_function_key_iff (record { space = s; id = i })
                    (record { space = t; id = j })).1
                  (λ l. record { space = spaces l; id = ids l }) in
              absurd (cc))
            ∙ sym e
      ]

-- The function that a value is JSON of.
abbrev pub decode_value : {B : Type 0} → Codec Function B → Option B → Option Function
decode_value codec none = none
decode_value codec (some v) = codec.decode v

decode_value-if :
    {B : Type 0} (codec : Codec Function B) (b : Bool) (x y : Option B)
    → decode_value codec (if b then x else y)
      ≡ (if b then decode_value codec x else decode_value codec y)
decode_value-if codec true x y = refl
decode_value-if codec false x y = refl

module _ {B : Type 0} (codec : Codec Function B) (path : String) where
  -- The functions are what the values under their keys decode to.
  abbrev pub Mirrors : Dict String B → FunctionCache → Type 0
  Mirrors values functions =
      (space id : String)
      → NoSlash space
      → NoSlash id
      → at_key functions (record { space = space; id = id })
        ≡ decode_value codec (at_key values (path <+> resource_key space id))

  -- A pair of the functions' directory, as the services write it: its value is JSON of a function.
  pub record IsFunctionPair (kv : Pair B) : Type 0 where
    pub space : String
    pub id : String
    pub space_plain : NoSlash space
    pub id_plain : NoSlash id
    pub key : kv.key ≡ path <+> resource_key space id
    pub json : (v : B) → kv.value ≡ some v → (f : Function) × (codec.decode v ≡ some f)

  -- What a step leaves, together with the functions after the events that it sends.
  abbrev pub Followed : List (Event B) × Dict String B → FunctionCache → Type 0
  Followed sent functions =
      (next : FunctionCache) × (react (function_reactor codec) path sent.0 functions ≡ some next)
      × Mirrors sent.1 next

  Mirrors-set :
      (space id : String) (v : B) (f : Function) (values : Dict String B)
      (functions : FunctionCache)
      → NoSlash space
      → codec.decode v ≡ some f
      → Mirrors values functions
      → Mirrors
          (set_key values (path <+> resource_key space id) v)
          (set_key functions (record { space = space; id = id }) f)
  Mirrors-set space id v f values functions hs d m t j ht hj =
      at_key-set_key functions (record { space = space; id = id }) (record { space = t; id = j }) f
      ∙ (λ l. if sym (same-function_keys path space id t j hs ht) l then sym d l else m t j ht hj l)
      ∙ sym (
          decode_value-if codec (path <+> resource_key space id == path <+> resource_key t j)
            (some v) (at_key values (path <+> resource_key t j)))
      ∙ ap (decode_value codec) (
          sym
            (at_key-set_key values (path <+> resource_key space id) (path <+> resource_key t j) v))

  Mirrors-delete :
      (space id : String) (values : Dict String B) (functions : FunctionCache)
      → NoSlash space
      → Mirrors values functions
      → Mirrors
          (delete_key values (path <+> resource_key space id))
          (delete_key functions (record { space = space; id = id }))
  Mirrors-delete space id values functions hs m t j ht hj =
      at_key-delete_key functions (record { space = space; id = id }) (record { space = t; id = j })
      ∙ (λ l. if sym (same-function_keys path space id t j hs ht) l then none else m t j ht hj l)
      ∙ sym (
          decode_value-if codec (path <+> resource_key space id == path <+> resource_key t j) none
            (at_key values (path <+> resource_key t j)))
      ∙ ap (decode_value codec) (
          sym
            (at_key-delete_key values (path <+> resource_key space id) (path <+> resource_key t j)))

  -- What is sent for a function's new value, and passed on to the cache, keeps the mirror.
  pub send-Followed :
      (space id : String) (new old : Option B) (values : Dict String B) (functions : FunctionCache)
      → NoSlash space
      → NoSlash id
      → ((v : B) → new ≡ some v → (f : Function) × (codec.decode v ≡ some f))
      → Mirrors values functions
      → Followed (send (path <+> resource_key space id) new old values) functions
  unfolding react react_event function_modified function_deleted
  send-Followed space id none none values functions hs hi json m = (functions, refl, m)
  send-Followed space id none (some old) values functions hs hi json m = (
    delete_key functions (record { space = space; id = id }),
    rw (trim_prefix-append path (resource_key space id), two_segments-resource_key space id hs hi)
        refl,
    Mirrors-delete space id values functions hs m,
  )
  send-Followed space id (some v) old values functions hs hi json m =
      let (f, d) = json v refl in
      (
        set_key functions (record { space = space; id = id }) f,
        rw
            (
              d,
              trim_prefix-append path (resource_key space id),
              two_segments-resource_key space id hs hi,
            )
            refl,
        Mirrors-set space id v f values functions hs d m,
      )
