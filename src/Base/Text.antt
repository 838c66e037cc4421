-- ===== src/Base/Text.antt =====
-- `AString`: a text as the list of its bytes, with the operations of `std::string` in use.
use Prim.Native.Nat.{ℕ, ◌+◌, ◌/◌, ◌%◌}
use Prim.Native.Char.{code}
use Prim.Native.String.{String}
use mathlib.Core.Path.{◌≡◌, refl, ap}
use mathlib.Core.Logic.{◌↔◌}
use mathlib.Core.Bool.{Bool, true, false, ◌&&◌, ◌||◌}
use mathlib.Core.List.{List, [], ◌∷◌, ◌++◌}
use native.Mathlib.Omega.{arith}
use keen_trader.Base.Tests.{ltb, ◌==◌, if◌then◌else◌}

abbrev pub AString : Type 0
AString = List ℕ

abbrev pub codes : String → AString
codes String.[] = []
codes (String.◌∷◌ c s) = code c ∷ codes s

abbrev pub dot : ℕ
dot = b'.'

unfoldable pub str_eq : AString → AString → Bool
str_eq [] [] = true
str_eq [] (y ∷ ys) = false
str_eq (x ∷ xs) [] = false
str_eq (x ∷ xs) (y ∷ ys) = (x == y) && str_eq xs ys

-- The order of `std::less<std::string>`.
unfoldable pub str_lt : AString → AString → Bool
str_lt [] [] = false
str_lt [] (y ∷ ys) = true
str_lt (x ∷ xs) [] = false
str_lt (x ∷ xs) (y ∷ ys) = ltb x y || (x == y) && str_lt xs ys

abbrev pub is_empty : AString → Bool
is_empty [] = true
is_empty (x ∷ xs) = false

abbrev pub has_byte : ℕ → AString → Bool
has_byte c [] = false
has_byte c (x ∷ xs) = (x == c) || has_byte c xs

pub str_eq_refl : (s : AString) → str_eq s s ≡ true
unfolding str_eq
str_eq_refl [] = refl
str_eq_refl (x ∷ xs) = ground (arith, str_eq_refl xs)

pub eq_of_str_eq : (s t : AString) → str_eq s t ≡ true → s ≡ t
unfolding str_eq
eq_of_str_eq [] [] h = refl
eq_of_str_eq [] (y ∷ ys) h = cc
eq_of_str_eq (x ∷ xs) [] h = cc
eq_of_str_eq (x ∷ xs) (y ∷ ys) h = ground (arith, eq_of_str_eq xs ys)

pub str_eq_iff : (s t : AString) → (str_eq s t ≡ true) ↔ (s ≡ t)
str_eq_iff s t = (eq_of_str_eq s t, λ e. ground (arith, ap (str_eq s) e, str_eq_refl s))

-- `s.substr(0, s.find(c))`: the whole text if there is no such byte.
unfoldable pub before_first : ℕ → AString → AString
before_first c [] = []
before_first c (x ∷ xs) = if x == c then [] else x ∷ before_first c xs

-- `s.substr(s.find(c) + 1)`: the whole text if there is no such byte, since `npos + 1` is 0.
after_first_or : AString → ℕ → AString → AString
after_first_or whole c [] = whole
after_first_or whole c (x ∷ xs) = if x == c then xs else after_first_or whole c xs

unfoldable pub after_first : ℕ → AString → AString
unfolding after_first_or
after_first c s = after_first_or s c s

after_first_or-append :
    (w : AString) (c : ℕ) (s t : AString)
    → has_byte c s ≡ false
    → after_first_or w c (s ++ c ∷ t) ≡ t
unfolding after_first_or
after_first_or-append w c [] t h = ground arith
after_first_or-append w c (x ∷ xs) t h = ground (arith, after_first_or-append w c xs t)

pub before_first-append :
    (c : ℕ) (s t : AString) → has_byte c s ≡ false → before_first c (s ++ c ∷ t) ≡ s
unfolding before_first
before_first-append c [] t h = ground arith
before_first-append c (x ∷ xs) t h = ground (arith, before_first-append c xs t)

pub after_first-append :
    (c : ℕ) (s t : AString) → has_byte c s ≡ false → after_first c (s ++ c ∷ t) ≡ t
unfolding after_first
after_first-append c s t h = after_first_or-append (s ++ c ∷ t) c s t h

-- The bytes of a text in UTF-8, for characters of up to sixteen bits.
abbrev utf8_of : ℕ → AString
utf8_of c =
    if ltb c 128
    then c ∷ []
    else if ltb c 2048
    then (192 + c / 64) ∷ (128 + c % 64) ∷ []
    else (224 + c / 4096) ∷ (128 + c / 64 % 64) ∷ (128 + c % 64) ∷ []

abbrev pub utf8 : String → AString
utf8 String.[] = []
utf8 (String.◌∷◌ c s) = utf8_of (code c) ++ utf8 s

pub nonempty : (name rest : AString) → is_empty (name ++ dot ∷ rest) ≡ false
nonempty [] rest = refl
nonempty (c ∷ name) rest = refl
