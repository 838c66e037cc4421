-- ===== src/Base/Map.antt =====
-- `std::map<AString, V>`: an association list in the order of the keys, and `std::set<AString>`.
-- An `unordered_map` is one too: where the program walks one, its order is unspecified.
use mathlib.Core.Path.{◌≡◌, refl}
use mathlib.Core.Bool.{Bool, false, ◌||◌}
use mathlib.Core.Option.{Option, none, some}
use mathlib.Core.List.{List, [], ◌∷◌}
use native.Mathlib.Omega.{arith}
use mathlib.Core.Logic.{inl, inr}
use keen_trader.Base.Tests.{if◌then◌else◌, is_some, Bool-cases}
use keen_trader.Base.Lists.{All}
use keen_trader.Base.Text.{AString, str_eq, str_lt, str_eq_iff, str_eq_refl}

abbrev pub Map {ℓ} : Type ℓ → Type ℓ
Map V = List (AString × V)

module _ {ℓ} {V : Type ℓ} where
  unfoldable pub lookup : AString → Map V → Option V
  lookup k [] = none
  lookup k ((j, v) ∷ m) = if str_eq j k then some v else lookup k m

  -- `m[k] = v`
  unfoldable pub insert : AString → V → Map V → Map V
  insert k v [] = (k, v) ∷ []
  insert k v ((j, w) ∷ m) =
      if str_eq j k
      then (k, v) ∷ m
      else if str_lt k j
      then (k, v) ∷ (j, w) ∷ m
      else (j, w) ∷ insert k v m

  unfoldable pub erase : AString → Map V → Map V
  erase k [] = []
  erase k ((j, w) ∷ m) = if str_eq j k then erase k m else (j, w) ∷ erase k m

  abbrev pub contains : AString → Map V → Bool
  contains k m = is_some (lookup k m)

  abbrev pub map_values : Map V → List V
  map_values [] = []
  map_values ((k, v) ∷ m) = v ∷ map_values m

  abbrev pub map_keys : Map V → List AString
  map_keys [] = []
  map_keys ((k, v) ∷ m) = k ∷ map_keys m

  pub lookup-insert :
      (k j : AString) (v : V) (m : Map V)
      → lookup j (insert k v m) ≡ (if str_eq k j then some v else lookup j m)
  unfolding lookup insert
  lookup-insert k j v [] = refl
  lookup-insert k j v ((i, w) ∷ m) =
      ground (arith, str_eq_iff k j, str_eq_iff i k, str_eq_iff i j, lookup-insert k j v m)

  pub lookup-erase :
      (k j : AString) (m : Map V) → lookup j (erase k m) ≡ (if str_eq k j then none else lookup j m)
  unfolding lookup erase
  lookup-erase k j [] = ground arith
  lookup-erase k j ((i, w) ∷ m) =
      ground (arith, str_eq_iff k j, str_eq_iff i k, str_eq_iff i j, lookup-erase k j m)

  pub lookup-insert_self : (k : AString) (v : V) (m : Map V) → lookup k (insert k v m) ≡ some v
  lookup-insert_self k v m = simp (lookup-insert, str_eq_refl)

  pub lookup-erase_self : (k : AString) (m : Map V) → lookup k (erase k m) ≡ none
  lookup-erase_self k m = simp (lookup-erase, str_eq_refl)

module _ {ℓ κ} {V : Type ℓ} (P : V → Type κ) where
  pub All-insert :
      (k : AString) (v : V) (m : Map V)
      → P v
      → All P (map_values m)
      → All P (map_values (insert k v m))
  unfolding insert
  All-insert k v [] p h = (p, h)
  All-insert k v ((j, w) ∷ m) p h = elim (Bool-cases (str_eq j k)) [
    | inl same ↦ rw same (p, h.1)
    | inr other ↦ elim (Bool-cases (str_lt k j)) [
      | inl before ↦ rw (other, before) (p, h)
      | inr after ↦ rw (other, after) (h.0, All-insert k v m p h.1)
    ]
  ]

  pub All-erase : (k : AString) (m : Map V) → All P (map_values m) → All P (map_values (erase k m))
  unfolding erase
  All-erase k [] h = h
  All-erase k ((j, w) ∷ m) h = elim (Bool-cases (str_eq j k)) [
    | inl same ↦ rw same (All-erase k m h.1)
    | inr other ↦ rw other (h.0, All-erase k m h.1)
  ]

abbrev pub found_or {ℓ} : {A : Type ℓ} → A → Option A → A
found_or default none = default
found_or default (some a) = a

abbrev pub AStringSet : Type 0
AStringSet = List AString

unfoldable pub member : AString → AStringSet → Bool
member k [] = false
member k (j ∷ s) = str_eq j k || member k s

unfoldable pub add : AString → AStringSet → AStringSet
add k [] = k ∷ []
add k (j ∷ s) = if str_eq j k then j ∷ s else if str_lt k j then k ∷ j ∷ s else j ∷ add k s

unfoldable pub remove : AString → AStringSet → AStringSet
remove k [] = []
remove k (j ∷ s) = if str_eq j k then remove k s else j ∷ remove k s

pub member-add : (k j : AString) (s : AStringSet) → member j (add k s) ≡ (str_eq k j || member j s)
unfolding member add
member-add k j [] = refl
member-add k j (i ∷ s) =
    ground (arith, str_eq_iff k j, str_eq_iff i k, str_eq_iff i j, member-add k j s)

pub member-remove :
    (k j : AString) (s : AStringSet)
    → member j (remove k s) ≡ (if str_eq k j then false else member j s)
unfolding member remove
member-remove k j [] = ground arith
member-remove k j (i ∷ s) =
    ground (arith, str_eq_iff k j, str_eq_iff i k, str_eq_iff i j, member-remove k j s)

pub ruleset map_laws =
    (lookup-insert, lookup-erase, lookup-insert_self, lookup-erase_self, str_eq_refl)
