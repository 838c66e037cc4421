-- ===== src/Tests/JsonSamples.antt =====
-- Values of JSON, and what the exchanges use of them.
use keen_trader.Base.{
  ℕ, zero, suc, ◌≡◌, refl, Bool, true, false, Option, none, some, is_some, List, [], ◌∷◌,
  if◌then◌else◌,
}
use keen_trader.Base.Int.{ℤ, pos}
use keen_trader.Base.Text.{AString, str_eq}
use keen_trader.Exchanges.Json.{JsonApi}

mutual
  pub data Value : Type 0 where
    null : Value
    num : ℤ → Value
    text : AString → Value
    arr : Items → Value
    obj : Fields → Value

  pub data Items : Type 0 where
    nil : Items
    cons : Value → Items → Items

  pub data Fields : Type 0 where
    end : Fields
    field : AString → Value → Fields → Fields

abbrev pub items_of : List Value → Items
items_of [] = nil
items_of (v ∷ vs) = cons v (items_of vs)

abbrev pub fields_of : List (AString × Value) → Fields
fields_of [] = end
fields_of ((k, v) ∷ fs) = field k v (fields_of fs)

abbrev pub find : AString → Fields → Option Value
find k end = none
find k (field j v fs) = if str_eq j k then some v else find k fs

abbrev pub member_of : Value → AString → Option Value
member_of (obj fs) k = find k fs
member_of _ k = none

abbrev pub or_null : Option Value → Value
or_null none = null
or_null (some v) = v

abbrev pub list_of : Items → List Value
list_of nil = []
list_of (cons v vs) = v ∷ list_of vs

abbrev pub nth : ℕ → List Value → Value
nth n [] = null
nth zero (v ∷ vs) = v
nth (suc n) (v ∷ vs) = nth n vs

abbrev pub items : Value → List Value
items (arr vs) = list_of vs
items _ = []

abbrev pub is_array : Value → Bool
is_array (arr vs) = true
is_array _ = false

abbrev pub is_string : Value → Bool
is_string (text s) = true
is_string _ = false

abbrev pub is_number : Value → Bool
is_number (num n) = true
is_number _ = false

abbrev pub string_of : Value → AString
string_of (text s) = s
string_of _ = []

abbrev pub int_of : Value → ℤ
int_of (num n) = n
int_of _ = pos 0

abbrev pub as_text : AString → Option Value → Option AString
as_text default none = some default
as_text default (some (text s)) = some s
as_text default (some _) = none

abbrev pub as_number : ℤ → Option Value → Option ℤ
as_number default none = some default
as_number default (some (num n)) = some n
as_number default (some _) = none

abbrev pub as_array : Option Value → Option Value
as_array none = some (arr nil)
as_array (some (arr vs)) = some (arr vs)
as_array (some _) = none

pub text_found :
    (default : AString) (o : Option Value)
    → is_some o ≡ true
    → is_string (or_null o) ≡ true
    → as_text default o ≡ some (string_of (or_null o))
text_found default none h k = cc
text_found default (some (text s)) h k = refl
text_found default (some null) h k = cc
text_found default (some (num n)) h k = cc
text_found default (some (arr vs)) h k = cc
text_found default (some (obj fs)) h k = cc

pub text_wrong :
    (default : AString) (o : Option Value)
    → is_some o ≡ true
    → is_string (or_null o) ≡ false
    → as_text default o ≡ none
text_wrong default none h k = cc
text_wrong default (some (text s)) h k = cc
text_wrong default (some null) h k = refl
text_wrong default (some (num n)) h k = refl
text_wrong default (some (arr vs)) h k = refl
text_wrong default (some (obj fs)) h k = refl

pub number_found :
    (default : ℤ) (o : Option Value)
    → is_some o ≡ true
    → is_number (or_null o) ≡ true
    → as_number default o ≡ some (int_of (or_null o))
number_found default none h k = cc
number_found default (some (num n)) h k = refl
number_found default (some null) h k = cc
number_found default (some (text s)) h k = cc
number_found default (some (arr vs)) h k = cc
number_found default (some (obj fs)) h k = cc

pub number_wrong :
    (default : ℤ) (o : Option Value)
    → is_some o ≡ true
    → is_number (or_null o) ≡ false
    → as_number default o ≡ none
number_wrong default none h k = cc
number_wrong default (some (num n)) h k = cc
number_wrong default (some null) h k = refl
number_wrong default (some (text s)) h k = refl
number_wrong default (some (arr vs)) h k = refl
number_wrong default (some (obj fs)) h k = refl

-- A number is its float in the unit.
abbrev pub json : JsonApi Value
json = record {
  contains = λ j k. is_some (member_of j k);
  at = λ j k. or_null (member_of j k);
  index = λ j n. nth n (items j);
  is_array = is_array;
  is_string = is_string;
  is_number = is_number;
  items = items;
  string_of = string_of;
  float_of = int_of;
  int_of = int_of;
  value_text = λ j k default. as_text default (member_of j k);
  value_float = λ j k default. as_number default (member_of j k);
  value_int = λ j k default. as_number default (member_of j k);
  value_array = λ j k. as_array (member_of j k);
  value-text = λ j k default. text_found default (member_of j k);
  value-int = λ j k default. number_found default (member_of j k);
  value-not_number = λ j k default. number_wrong default (member_of j k);
  value-not_string = λ j k default. text_wrong default (member_of j k);
}
