-- ===== src/Base/IdMap.antt =====
-- `std::map<int, V>` with keys that are not negative: an association list.
use Prim.Native.Nat.{ℕ}
use mathlib.Core.Path.{◌≡◌, refl}
use mathlib.Core.Option.{Option, none, some}
use mathlib.Core.List.{List, [], ◌∷◌}
use native.Mathlib.Omega.{arith}
use keen_trader.Base.Tests.{◌==◌, if◌then◌else◌}
use keen_trader.Base.Int.{ℤ, pos, negsuc}

abbrev pub IdMap {ℓ} : Type ℓ → Type ℓ
IdMap V = List (ℕ × V)

module _ {ℓ} {V : Type ℓ} where
  unfoldable pub lookup_id : ℕ → IdMap V → Option V
  lookup_id k [] = none
  lookup_id k ((j, v) ∷ m) = if j == k then some v else lookup_id k m

  unfoldable pub insert_id : ℕ → V → IdMap V → IdMap V
  insert_id k v [] = (k, v) ∷ []
  insert_id k v ((j, w) ∷ m) = if j == k then (k, v) ∷ m else (j, w) ∷ insert_id k v m

  -- `find` of an `int`.
  abbrev pub find_int : ℤ → IdMap V → Option V
  find_int (pos n) m = lookup_id n m
  find_int (negsuc n) m = none

  pub lookup-insert_id :
      (k j : ℕ) (v : V) (m : IdMap V)
      → lookup_id j (insert_id k v m) ≡ (if k == j then some v else lookup_id j m)
  unfolding lookup_id insert_id
  lookup-insert_id k j v [] = refl
  lookup-insert_id k j v ((i, w) ∷ m) = ground (arith, lookup-insert_id k j v m)

  pub lookup-insert_id_self : (k : ℕ) (v : V) (m : IdMap V) → lookup_id k (insert_id k v m) ≡ some v
  lookup-insert_id_self k v m = ground (arith, lookup-insert_id k k v m)
