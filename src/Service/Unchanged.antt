-- ===== src/Service/Unchanged.antt =====
-- Stores that nothing has been written to, but for writes that have failed.
use event_gateway.Common.{String, ◌≡◌, refl, Option, none, some}
use event_gateway.Store.{KvStore}
use event_gateway.Resource.{Error, Result, ok, err}
use event_gateway.Service.Defs.{Stores, if_passed, written}

-- What holds before an operation holds after it fails if it holds after its write fails.
pub if_passed-err :
    {T A R : Type 0} (P : T → Type 0) (s : T) (checks : Result A) (write : A → T × Result R)
    (e : Error)
    → P s
    → ((a : A) → (write a).1 ≡ err e → P (write a).0)
    → (if_passed s checks write).1 ≡ err e
    → P (if_passed s checks write).0
unfolding if_passed
if_passed-err P s (ok a) write e before after failed = after a failed
if_passed-err P s (err x) write e before after failed = before

pub written-err :
    {S A : Type 0} (r : S × Option String) (fault : String → Error) (a : A) (e : Error)
    → (written r fault a).1 ≡ err e
    → (m : String) × (r.1 ≡ some m)
written-err (s, none) fault a e failed = absurd (cc)
written-err (s, some m) fault a e failed = (m, refl)

module _ {S B : Type 0} (kv : KvStore S B) where
  -- The store is the one that it was, or what a write has left to which the store has returned an error.
  pub data Kept (s t : S) : Type 0 where
    same : t ≡ s → Kept s t
    put_error :
        (k : String) (b : B) (m : String)
        → (kv.put s k b).1 ≡ some m
        → t ≡ (kv.put s k b).0
        → Kept s t
    atomic_put_error :
        (k : String) (b : B) (m : String)
        → (kv.atomic_put s k b).1 ≡ some m
        → t ≡ (kv.atomic_put s k b).0
        → Kept s t
    delete_error : (k m : String) → (kv.delete s k).1 ≡ some m → t ≡ (kv.delete s k).0 → Kept s t

  -- No store has been written, but for writes that have failed.
  pub record IsUnchanged (s t : Stores S) : Type 0 where
    pub functions : Kept s.function_store t.function_store
    pub event_types : Kept s.event_type_store t.event_type_store
    pub subscriptions : Kept s.subscription_store t.subscription_store
    pub corses : Kept s.cors_store t.cors_store

  pub IsUnchanged-refl : (s : Stores S) → IsUnchanged s s
  IsUnchanged-refl s = record {
    functions = same refl;
    event_types = same refl;
    subscriptions = same refl;
    corses = same refl;
  }

  pub function_store-IsUnchanged :
      (s : Stores S) (t : S)
      → Kept s.function_store t
      → IsUnchanged s (record s { function_store = t })
  function_store-IsUnchanged s t h = record {
    functions = h;
    event_types = same refl;
    subscriptions = same refl;
    corses = same refl;
  }

  pub event_type_store-IsUnchanged :
      (s : Stores S) (t : S)
      → Kept s.event_type_store t
      → IsUnchanged s (record s { event_type_store = t })
  event_type_store-IsUnchanged s t h = record {
    functions = same refl;
    event_types = h;
    subscriptions = same refl;
    corses = same refl;
  }

  pub subscription_store-IsUnchanged :
      (s : Stores S) (t : S)
      → Kept s.subscription_store t
      → IsUnchanged s (record s { subscription_store = t })
  subscription_store-IsUnchanged s t h = record {
    functions = same refl;
    event_types = same refl;
    subscriptions = h;
    corses = same refl;
  }

  pub cors_store-IsUnchanged :
      (s : Stores S) (t : S) → Kept s.cors_store t → IsUnchanged s (record s { cors_store = t })
  cors_store-IsUnchanged s t h = record {
    functions = same refl;
    event_types = same refl;
    subscriptions = same refl;
    corses = h;
  }
