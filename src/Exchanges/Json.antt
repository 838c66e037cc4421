-- ===== src/Exchanges/Json.antt =====
-- What the exchanges use of the package nlohmann json: a parameter. `none` is an exception. And
-- `JsonToFloat` of core/engine/utility.cpp.
use keen_trader.Base.{
  zero, suc, [], ◌∷◌, ◌&&◌, ℕ, ◌≡◌, Bool, true, false, Option, none, some, List, if◌then◌else◌,
}
use keen_trader.Base.Int.{ℤ, pos, zero_float}
use keen_trader.Base.Text.{AString, str_eq}
use keen_trader.Objects.Market.{Float}
use keen_trader.Exchanges.Utils.{atoll}

pub record JsonApi (J : Type 0) : Type 0 where
  pub contains : J → AString → Bool
  pub at : J → AString → J
  pub index : J → ℕ → J
  pub is_array : J → Bool
  pub is_string : J → Bool
  pub is_number : J → Bool
  -- The values of an array or of an object, which a loop visits.
  pub items : J → List J
  pub string_of : J → AString
  pub float_of : J → Float
  pub int_of : J → ℤ
  -- `value(key, default)`, by the type of the default.
  pub value_text : J → AString → AString → Option AString
  pub value_float : J → AString → Float → Option Float
  pub value_int : J → AString → ℤ → Option ℤ
  pub value_array : J → AString → Option J
  -- A value that is there is converted, and one of another type throws.
  pub value-text :
      (j : J) (key default : AString)
      → contains j key ≡ true
      → is_string (at j key) ≡ true
      → value_text j key default ≡ some (string_of (at j key))
  pub value-int :
      (j : J) (key : AString) (default : ℤ)
      → contains j key ≡ true
      → is_number (at j key) ≡ true
      → value_int j key default ≡ some (int_of (at j key))
  pub value-not_number :
      (j : J) (key : AString) (default : Float)
      → contains j key ≡ true
      → is_number (at j key) ≡ false
      → value_float j key default ≡ none
  pub value-not_string :
      (j : J) (key default : AString)
      → contains j key ≡ true
      → is_string (at j key) ≡ false
      → value_text j key default ≡ none

-- Floats have no fixed unit, so that reading and printing one are parameters too: `atof`, `std::stof`,
-- which may throw, `"%g"`, and the unit's 1.0.
pub record FloatText : Type 0 where
  pub one : ℕ
  pub atof : AString → Float
  pub stof : AString → Option Float
  pub print : Float → AString

module _ {J : Type 0} (api : JsonApi J) (floats : FloatText) where
  unfoldable pub json_to_float : J → Float
  json_to_float j =
      if api.is_string j
      then floats.atof (api.string_of j)
      else if api.is_number j
      then api.float_of j
      else zero_float

-- `JsonToInt`
module _ {J : Type 0} (api : JsonApi J) where
  unfoldable pub json_to_int : J → ℤ
  json_to_int j =
      if api.is_string j
      then atoll (api.string_of j)
      else if api.is_number j
      then api.int_of j
      else pos 0

  -- `j[key]` on a constant value: a key that is not there is undefined behaviour, here `none`.
  abbrev pub field : J → AString → Option J
  field j key = if api.contains j key then some (api.at j key) else none

  -- The conversion to a text, which throws for anything else.
  abbrev pub text_of : J → Option AString
  text_of j = if api.is_string j then some (api.string_of j) else none

  abbrev pub text_in : Option J → Option AString
  text_in none = none
  text_in (some j) = text_of j

  abbrev pub field_text : J → AString → Option AString
  field_text j key = text_in (field j key)

  -- The comparison with a text, which is false for anything else.
  abbrev pub is_text : J → AString → Bool
  is_text j s = api.is_string j && str_eq (api.string_of j) s

  -- `j[n]` on a constant array.
  unfoldable pub nth : List J → ℕ → Option J
  nth [] n = none
  nth (j ∷ js) zero = some j
  nth (j ∷ js) (suc n) = nth js n
