-- ===== src/Service/Defs.antt =====
-- libkv/service.go, libkv/space.go and the keys of the resources; the reads that all services make.
use event_gateway.Common.{
  String, ◌≡◌, ◌⊎◌, inl, inr, Option, none, some, List, [], ◌∷◌, if◌then◌else◌, ◌<+>◌,
}
use event_gateway.Store.{KvStore, GetResult, ListResult, found, key_not_found, listed, no_directory}
use event_gateway.Resource.{
  Function, EventType, Subscription, Cors, Metadata, Filter, check, Error, store_error, json_error,
  Result, ok, err, ◌>>=◌,
}

-- The JSON of a resource, read and written by encoding/json; a failure to write has a message.
pub record Codec (A B : Type 0) : Type 0 where
  pub encode : A → String ⊎ B
  pub decode : B → Option A

-- What JSON writes of a resource it reads back.
pub record IsCodec {A B : Type 0} (c : Codec A B) : Type 0 where
  pub decode_encode : (a : A) (b : B) → c.encode a ≡ inr b → c.decode b ≡ some a

-- What the services are built on: the store, JSON, and `validate.Struct` of the validator for each
-- resource, which returns a message or none.
pub record Service (S B : Type 0) : Type 0 where
  pub kv : KvStore S B
  pub functions : Codec Function B
  pub event_types : Codec EventType B
  pub subscriptions : Codec Subscription B
  pub corses : Codec Cors B
  pub check_function : Function → Option String
  pub check_event_type : EventType → Option String
  pub check_subscription : Subscription → Option String
  pub check_cors : Cors → Option String

-- The states of the four stores of `Service`.
pub record Stores (S : Type 0) : Type 0 where
  pub event_type_store : S
  pub function_store : S
  pub subscription_store : S
  pub cors_store : S

abbrev pub default_space : String
default_space = "default"

unfoldable pub space_path : String → String
space_path space = space <+> "/"

-- FunctionKey.String, EventTypeKey.String, CORSKey.String
unfoldable pub resource_key : String → String → String
resource_key space id = space <+> "/" <+> id

abbrev pub encoded : {B : Type 0} → (String → Error) → String ⊎ B → Result B
encoded fault (inl m) = err (fault m)
encoded fault (inr b) = ok b

-- json.Marshal, with the error that the caller makes of the message.
abbrev pub marshal : {A B : Type 0} → Codec A B → (String → Error) → A → Result B
marshal codec fault a = encoded fault (codec.encode a)

abbrev pub decoded : {A : Type 0} → Option A → Result A
decoded none = err (json_error "decode")
decoded (some a) = ok a

unfoldable pub decode_all : {A B : Type 0} → Codec A B → List (String × B) → Result (List A)
decode_all codec [] = ok []
decode_all codec (item ∷ kvs) = do
  a ← decoded (codec.decode item.1)
  rest ← decode_all codec kvs
  ok (a ∷ rest)

abbrev pub kept : {A : Type 0} → (A → Metadata) → List Filter → List A → List A
kept metadata filters [] = []
kept metadata filters (a ∷ others) =
    let rest = kept metadata filters others in if check (metadata a) filters then a ∷ rest else rest

-- The entries of a listing; a directory that is not there has none.
abbrev pub listing : {B : Type 0} → ListResult B → Result (List (String × B))
listing (listed kvs) = ok kvs
listing no_directory = ok []
listing (ListResult.failed m) = err (store_error m)

-- What is made of one entry that the store returns.
abbrev pub reading : {A B : Type 0} → Codec A B → Error → GetResult B → Result A
reading codec missing (found b) = decoded (codec.decode b)
reading codec missing key_not_found = err missing
reading codec missing (GetResult.failed m) = err (store_error m)

module _ {S B : Type 0} (kv : KvStore S B) where
  -- The reading of one resource: its key is looked up and its JSON is decoded.
  unfoldable pub read_one : {A : Type 0} → Codec A B → S → String → Error → Result A
  read_one codec s key missing = reading codec missing (kv.get s key)

  -- The listing of the resources of a space: those with the metadata that the filters ask for.
  unfoldable pub read_all :
      {A : Type 0} → Codec A B → (A → Metadata) → S → String → List Filter → Result (List A)
  read_all codec metadata s prefix filters = do
    kvs ← listing (kv.list s prefix)
    all ← decode_all codec kvs
    ok (kept metadata filters all)

-- What a write to a store leaves, and what it returns.
abbrev pub written : {S A : Type 0} → S × Option String → (String → Error) → A → S × Result A
written (s, none) fault a = (s, ok a)
written (s, some m) fault a = (s, err (fault m))

-- The write of an operation is made if its checks pass; otherwise the stores are left as they are.
unfoldable pub if_passed : {T A R : Type 0} → T → Result A → (A → T × Result R) → T × Result R
if_passed s (err e) write = (s, err e)
if_passed s (ok a) write = write a
