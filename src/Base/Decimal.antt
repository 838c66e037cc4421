-- ===== src/Base/Decimal.antt =====
-- `std::to_string` and `%d`: the decimal text of a number.
use Prim.Native.Nat.{ℕ, zero, suc, ◌+◌, ◌-◌, ◌*◌, ◌/◌, ◌%◌, ◌<◌}
use mathlib.Core.Path.{◌≡◌, sym, ap, ◌∙◌}
use mathlib.Core.Logic.{inl, inr}
use mathlib.Core.List.{[], ◌∷◌}
use native.Mathlib.Omega.{arith}
use keen_trader.Base.Tests.{◌==◌, if◌then◌else◌, Bool-cases}
use keen_trader.Base.Int.{ℤ, pos, negsuc}
use keen_trader.Base.Text.{AString}

-- With as many steps as the number itself and one.
unfoldable pub digits_from : ℕ → ℕ → AString → AString
digits_from zero n later = later
digits_from (suc fuel) n later =
    let here = (48 + n % 10) ∷ later in
    let before = digits_from fuel (n / 10) here in if n / 10 == 0 then here else before

abbrev pub decimal : ℕ → AString
decimal n = digits_from (suc n) n []

abbrev pub int_text : ℤ → AString
int_text (pos n) = decimal n
int_text (negsuc n) = b'-' ∷ decimal (suc n)

-- The number that digits continue.
read_from : ℕ → AString → ℕ
read_from n [] = n
read_from n (c ∷ s) = read_from (n * 10 + (c - 48)) s

read-digits :
    (fuel n : ℕ) (later : AString)
    → n < fuel
    → read_from 0 (digits_from fuel n later) ≡ read_from n later
unfolding digits_from read_from
read-digits zero n later h = elim h [ ]
read-digits (suc fuel) n later h = elim (Bool-cases (n / 10 == 0)) [
  | inl last ↦ rw last (ap (λ m. read_from m later) (ground arith))
  | inr more ↦ rw more (
      read-digits fuel (n / 10) ((48 + n % 10) ∷ later) (ground arith)
      ∙ ap (λ m. read_from m later) (omega arith))
]

read-decimal : (n : ℕ) → read_from 0 (decimal n) ≡ n
unfolding read_from
read-decimal n = read-digits (suc n) n [] (omega arith)

-- Two numbers with the same text are equal.
pub decimal_inj : (n m : ℕ) → decimal n ≡ decimal m → n ≡ m
decimal_inj n m e = sym (read-decimal n) ∙ ap (read_from 0) e ∙ read-decimal m
