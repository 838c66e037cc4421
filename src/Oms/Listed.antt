-- ===== src/Oms/Listed.antt =====
-- core/engine/engine.cpp: the query for the active orders of a symbol.
use keen_trader.Base.{◌⊎◌, ◌≡◌, List, [], ◌∷◌}
use keen_trader.Base.Map.{Map}

module _ {A : Type 0} where
  abbrev pub IsListed : A → List A → Type 0
  IsListed x [] = ⊥
  IsListed x (y ∷ ys) = (y ≡ x) ⊎ IsListed x ys
