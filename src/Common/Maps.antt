-- ===== src/Common/Maps.antt =====
-- Go's `map[K]V` for keys that `==` compares, as an association list.
use Prim.Native.String.{String}
use mathlib.Core.Path.{◌≡◌}
use mathlib.Core.Logic.{◌↔◌}
use mathlib.Core.Bool.{Bool, true}
use mathlib.Core.Option.{Option, none, some}
use mathlib.Core.List.{List, [], ◌∷◌}
use native.Mathlib.Omega.{arith}
use text.Mathlib.Text.{◌==◌}
use text.Mathlib.TextEquality.{eq_iff}
use event_gateway.Common.Tests.{if◌then◌else◌}

-- A type of keys with Go's `==`.
pub record Key (K : Type 0) : Type 0 where
  pub same : K → K → Bool
  pub same_iff : (a b : K) → (same a b ≡ true) ↔ (a ≡ b)

instance abbrev pub string_key : Key String
string_key = record { same = ◌==◌; same_iff = eq_iff }

abbrev pub Dict : Type 0 → Type 0 → Type 0
Dict K V = List (K × V)

module _ {K V : Type 0} ⦃e : Key K⦄ where
  -- m[k]
  unfoldable pub at_key : Dict K V → K → Option V
  at_key [] k = none
  at_key (item ∷ m) k = if e.same item.0 k then some item.1 else at_key m k

  -- delete(m, k)
  unfoldable pub delete_key : Dict K V → K → Dict K V
  delete_key [] k = []
  delete_key (item ∷ m) k =
      let others = delete_key m k in if e.same item.0 k then others else item ∷ others

  -- m[k] = v
  unfoldable pub set_key : Dict K V → K → V → Dict K V
  set_key m k v = (k, v) ∷ delete_key m k

  pub at_key-delete_key :
      (m : Dict K V) (k j : K)
      → at_key (delete_key m k) j ≡ (if e.same k j then none else at_key m j)
  unfolding at_key delete_key
  at_key-delete_key [] k j = ground arith
  at_key-delete_key (item ∷ m) k j =
      ground
        (arith, e.same_iff item.0 j, e.same_iff k j, at_key-delete_key m k j, e.same_iff item.0 k)

  pub at_key-set_key :
      (m : Dict K V) (k j : K) (v : V)
      → at_key (set_key m k v) j ≡ (if e.same k j then some v else at_key m j)
  unfolding at_key set_key
  at_key-set_key m k j v = ground (arith, at_key-delete_key m k j)
