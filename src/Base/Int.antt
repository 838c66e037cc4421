-- ===== src/Base/Int.antt =====
-- Integers over the native numbers. A `float` of the program is such an integer in a fixed unit:
-- its sums and comparisons are exact, and its rounding to 24 bits is not modelled.
use Prim.Native.Nat.{ℕ, suc, ◌+◌, ◌-◌, ◌*◌, ◌/◌, ◌≤◌, ◌<◌}
use mathlib.Core.Path.{◌≡◌}
use mathlib.Core.Logic.{◌⊎◌}
use mathlib.Core.Bool.{Bool, true, false, not}
use native.Mathlib.Omega.{arith}
use mathlib.Core.Logic.{inl, inr}
use keen_trader.Base.Tests.{Bool-cases, ltb, leb, if◌then◌else◌}

-- `negsuc n` is -(n + 1).
pub data ℤ : Type 0 where
  pos : ℕ → ℤ
  negsuc : ℕ → ℤ

-- `0.f`
abbrev pub zero_float : ℤ
zero_float = pos 0

abbrev pub pos_part : ℤ → ℕ
pos_part (pos n) = n
pos_part (negsuc n) = 0

abbrev pub neg_part : ℤ → ℕ
neg_part (pos n) = 0
neg_part (negsuc n) = suc n

abbrev pub sub_ℕ : ℕ → ℕ → ℤ
sub_ℕ a b = if leb b a then pos (a - b) else negsuc (b - a - 1)

infixl 65 ◌+ℤ◌ ◌-ℤ◌
infix 50 ◌≤ℤ◌ ◌<ℤ◌
unfoldable pub ◌+ℤ◌ : ℤ → ℤ → ℤ
a +ℤ b = sub_ℕ (pos_part a + pos_part b) (neg_part a + neg_part b)

unfoldable pub ◌-ℤ◌ : ℤ → ℤ → ℤ
a -ℤ b = sub_ℕ (pos_part a + neg_part b) (neg_part a + pos_part b)

abbrev pub ◌≤ℤ◌ : ℤ → ℤ → Type 0
a ≤ℤ b = pos_part a + neg_part b ≤ pos_part b + neg_part a

abbrev pub ◌<ℤ◌ : ℤ → ℤ → Type 0
a <ℤ b = pos_part a + neg_part b < pos_part b + neg_part a

abbrev pub ltb_ℤ : ℤ → ℤ → Bool
ltb_ℤ a b = ltb (pos_part a + neg_part b) (pos_part b + neg_part a)

abbrev pub leb_ℤ : ℤ → ℤ → Bool
leb_ℤ a b = leb (pos_part a + neg_part b) (pos_part b + neg_part a)

-- A float as a condition: it is not zero.
abbrev pub is_nonzero : ℤ → Bool
is_nonzero a = not (leb (pos_part a + neg_part a) 0)

-- `std::min` and `std::max`
unfoldable pub min_ℤ : ℤ → ℤ → ℤ
min_ℤ a b = if ltb_ℤ b a then b else a

unfoldable pub max_ℤ : ℤ → ℤ → ℤ
max_ℤ a b = if ltb_ℤ a b then b else a

unfoldable pub abs_ℤ : ℤ → ℤ
abs_ℤ a = pos (pos_part a + neg_part a)

-- A float stored in an `int`: towards zero, to whole multiples of `one`, the unit's 1.0.
unfoldable pub trunc : ℕ → ℤ → ℤ
trunc one a = sub_ℕ (pos_part a / one * one) (neg_part a / one * one)

-- One lemma for each operation lets `omega` work with the operations shut, at any depth.
pub +ℤ_parts :
    (a b : ℤ)
    → pos_part (a +ℤ b) + neg_part a + neg_part b ≡ neg_part (a +ℤ b) + pos_part a + pos_part b
unfolding ◌+ℤ◌
+ℤ_parts a b = ground arith

pub -ℤ_parts :
    (a b : ℤ)
    → pos_part (a -ℤ b) + neg_part a + pos_part b ≡ neg_part (a -ℤ b) + pos_part a + neg_part b
unfolding ◌-ℤ◌
-ℤ_parts a b = ground arith

pub eq_of_parts : (a b : ℤ) → pos_part a + neg_part b ≡ pos_part b + neg_part a → a ≡ b
eq_of_parts a b h = ground arith

pub min_ℤ_bounds : (a b : ℤ) → (min_ℤ a b ≤ℤ a) × (min_ℤ a b ≤ℤ b)
unfolding min_ℤ
min_ℤ_bounds a b = ground arith

pub min_ℤ_cases : (a b : ℤ) → ((a ≤ℤ min_ℤ a b) × (a ≤ℤ b)) ⊎ ((b ≤ℤ min_ℤ a b) × (b ≤ℤ a))
unfolding min_ℤ
min_ℤ_cases a b = ground arith

pub max_ℤ_bounds : (a b : ℤ) → (a ≤ℤ max_ℤ a b) × (b ≤ℤ max_ℤ a b)
unfolding max_ℤ
max_ℤ_bounds a b = ground arith

pub max_ℤ_cases : (a b : ℤ) → ((max_ℤ a b ≤ℤ a) × (b ≤ℤ a)) ⊎ ((max_ℤ a b ≤ℤ b) × (a ≤ℤ b))
unfolding max_ℤ
max_ℤ_cases a b = ground arith

div_mul_le : (a b : ℕ) → a / b * b ≤ a
div_mul_le a b = grind arith

-- The conversion to `int` does not raise a value that is not negative, nor change its sign.
pub trunc_bounds : (one : ℕ) (a : ℤ) → pos 0 ≤ℤ a → (pos 0 ≤ℤ trunc one a) × (trunc one a ≤ℤ a)
unfolding trunc
trunc_bounds one (pos n) h = ground (arith, div_mul_le n one)
trunc_bounds one (negsuc n) h = absurd (omega arith)

pub ltb_ℤ→lt : (a b : ℤ) → ltb_ℤ a b ≡ true → a <ℤ b
ltb_ℤ→lt a b h = ground arith

pub ltb_ℤ→le : (a b : ℤ) → ltb_ℤ a b ≡ false → b ≤ℤ a
ltb_ℤ→le a b h = ground arith

pub leb_ℤ→le : (a b : ℤ) → leb_ℤ a b ≡ true → a ≤ℤ b
leb_ℤ→le a b h = ground arith

pub leb_ℤ→lt : (a b : ℤ) → leb_ℤ a b ≡ false → b <ℤ a
leb_ℤ→lt a b h = ground arith

pub lt→ltb_ℤ : (a b : ℤ) → a <ℤ b → ltb_ℤ a b ≡ true
lt→ltb_ℤ a b h = ground arith

pub le→ltb_ℤ : (a b : ℤ) → b ≤ℤ a → ltb_ℤ a b ≡ false
le→ltb_ℤ a b h = ground arith

pub min_ℤ_nonneg : (a b : ℤ) → pos 0 ≤ℤ a → pos 0 ≤ℤ b → pos 0 ≤ℤ min_ℤ a b
unfolding min_ℤ
min_ℤ_nonneg a b h k = ground arith

pub le→leb_ℤ : (a b : ℤ) → a ≤ℤ b → leb_ℤ a b ≡ true
le→leb_ℤ a b h = ground arith

pub lt→leb_ℤ : (a b : ℤ) → b <ℤ a → leb_ℤ a b ≡ false
lt→leb_ℤ a b h = ground arith

-- A minimum of two whole values is whole, and so is a maximum with zero.
pub trunc_min :
    (one : ℕ) (a b : ℤ) → trunc one a ≡ a → trunc one b ≡ b → trunc one (min_ℤ a b) ≡ min_ℤ a b
unfolding min_ℤ
trunc_min one a b h k = elim (Bool-cases (ltb_ℤ b a)) [ inl e ↦ rw e k | inr e ↦ rw e h ]

trunc_zero : (one : ℕ) → trunc one zero_float ≡ zero_float
unfolding trunc
trunc_zero one = ground (arith, div_mul_le 0 one)

pub trunc_max :
    (one : ℕ) (a : ℤ) → trunc one a ≡ a → trunc one (max_ℤ zero_float a) ≡ max_ℤ zero_float a
unfolding max_ℤ
trunc_max one a h = elim (Bool-cases (ltb_ℤ zero_float a)) [
  | inl e ↦ rw e h
  | inr e ↦ rw e (trunc_zero one)
]

pub ruleset int_laws = (arith, +ℤ_parts, -ℤ_parts, eq_of_parts)

pub ruleset min_laws =
    (arith, +ℤ_parts, -ℤ_parts, eq_of_parts, min_ℤ_bounds, min_ℤ_cases, max_ℤ_bounds, max_ℤ_cases)
