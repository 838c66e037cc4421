-- ===== src/Cta/Rounding.antt =====
-- core/engine/utility.cpp: `round_to`, which rounds prices and volumes to their steps.
use keen_trader.Base.{
  ◌≡◌, ◌≤◌, ◌<◌, refl, sym, subst, arith, ℕ, zero, suc, ◌+◌, ◌*◌, ◌/◌, Bool, true, false, Option,
  none, some, if◌then◌else◌, ◌==◌, leb,
}
use keen_trader.Base.Int.{pos, negsuc, sub_ℕ, ◌-ℤ◌}
use keen_trader.Objects.Market.{Float}

abbrev pub size_of : Float → ℕ
size_of (pos n) = n
size_of (negsuc n) = suc n

-- The `int` of a quotient of the given size and sign, times the target; `none` where an `int` cannot hold it, which is undefined.
unfoldable pub steps_of : Bool → ℕ → ℕ → Option Float
steps_of negative q target =
    if negative
    then if leb q 2147483648 then some (sub_ℕ 0 (q * target)) else none
    else if leb q 2147483647
    then some (pos (q * target))
    else none

abbrev pub is_negative : Float → Bool
is_negative (pos n) = false
is_negative (negsuc n) = true

-- `round(a / b)` for sizes: to the nearest, a half away from zero.
abbrev pub rounded : ℕ → ℕ → ℕ
rounded a b = (2 * a + b) / (2 * b)

-- A target of zero makes the quotient infinite or no number, and its `int` undefined. The target's sign cancels in the product.
unfoldable pub round_to : Float → Float → Option Float
unfolding steps_of
round_to value target =
    if size_of target == 0
    then none
    else steps_of (is_negative value) (rounded (size_of value) (size_of target)) (size_of target)

nearest :
    (a b : ℕ) → 0 < b → (2 * (rounded a b * b) ≤ 2 * a + b) × (2 * a ≤ 2 * (rounded a b * b) + b)
nearest a b h = grind arith

whole : (q b : ℕ) → 0 < b → rounded (q * b) b ≡ q
whole q b h = grind arith

-- The result of a rounding: within half a step of the value, a multiple of the step, and left as it is by another.
pub record IsRounding (value target r : Float) : Type 0 where
  pub near : 2 * size_of (r -ℤ value) ≤ size_of target
  pub steps : ℕ
  pub multiple : size_of r ≡ steps * size_of target
  pub on_step : round_to r target ≡ some r

small : (n : ℕ) → (size_of (pos n) ≡ n) × (is_negative (pos n) ≡ false)
small n = (refl, refl)

steps_of-near :
    (value r : Float) (q b : ℕ)
    → 2 * (q * b) ≤ 2 * size_of value + b
    → 2 * size_of value ≤ 2 * (q * b) + b
    → steps_of (is_negative value) q b ≡ some r
    → 2 * size_of (r -ℤ value) ≤ b
unfolding steps_of ◌-ℤ◌
steps_of-near (pos n) r q b h k e = ground arith
steps_of-near (negsuc n) r q b h k e = ground arith

positive_on_step :
    (q b : ℕ)
    → 0 < b
    → q ≤ 2147483647
    → steps_of (is_negative (pos (q * b))) (rounded (size_of (pos (q * b))) b) b
      ≡ some (pos (q * b))
unfolding steps_of
positive_on_step q b h k = rw (whole q b h) (ground arith)

negative_on_step :
    (q b n : ℕ)
    → 0 < b
    → q ≤ 2147483647
    → q * b ≡ suc n
    → steps_of (is_negative (negsuc n)) (rounded (size_of (negsuc n)) b) b ≡ some (negsuc n)
unfolding steps_of
negative_on_step q b n h k e =
    let w : rounded (suc n) b ≡ q = subst (λ m. rounded m b ≡ q) e (whole q b h) in
    rw (w, e) (ground arith)

quotient_fits : (a b : ℕ) → 0 < b → a ≤ 2147483646 * b → rounded a b ≤ 2147483647
quotient_fits a b h k = grind arith

zero_on_step : (b : ℕ) → 0 < b → steps_of (is_negative (pos 0)) (rounded 0 b) b ≡ some (pos 0)
unfolding steps_of
zero_on_step b h = let z : rounded 0 b ≡ 0 = grind arith in rw z (ground arith)

round_by_steps :
    (value target r : Float)
    → 0 < size_of target
    → steps_of (is_negative value) (rounded (size_of value) (size_of target)) (size_of target)
      ≡ some r
    → round_to value target ≡ some r
unfolding round_to
round_by_steps value target r h e =
    let nonzero : (size_of target == 0) ≡ false = ground arith in rw (round_to, nonzero) e

positive-IsRounding :
    (n : ℕ) (target : Float)
    → 0 < size_of target
    → n ≤ 2147483646 * size_of target
    → (r : Float) × (round_to (pos n) target ≡ some r) × IsRounding (pos n) target r
unfolding steps_of
positive-IsRounding n target h k =
    let b = size_of target in
    let q = rounded n b in
    let q_fits = quotient_fits n b h k in
    let fits : leb q 2147483647 ≡ true = ground arith in
    let e : steps_of false q b ≡ some (pos (q * b)) = rw (steps_of, fits) refl in
    let near = nearest n b h in
    (
      pos (q * b),
      round_by_steps (pos n) target (pos (q * b)) h e,
      record {
        near = steps_of-near (pos n) (pos (q * b)) q b near.0 near.1 e;
        steps = q;
        multiple = refl;
        on_step =
            round_by_steps (pos (q * b)) target (pos (q * b)) h (positive_on_step q b h q_fits);
      },
    )

negative-IsRounding :
    (n m : ℕ) (target : Float)
    → 0 < size_of target
    → suc n ≤ 2147483646 * size_of target
    → rounded (suc n) (size_of target) * size_of target ≡ m
    → (r : Float) × (round_to (negsuc n) target ≡ some r) × IsRounding (negsuc n) target r
unfolding steps_of
negative-IsRounding n zero target h k z =
    let b = size_of target in
    let q = rounded (suc n) b in
    let q_fits = quotient_fits (suc n) b h k in
    let fits : leb q 2147483648 ≡ true = ground arith in
    let e : steps_of true q b ≡ some (pos 0) = rw (steps_of, fits, z) refl in
    let near = nearest (suc n) b h in
    (
      pos 0,
      round_by_steps (negsuc n) target (pos 0) h e,
      record {
        near = steps_of-near (negsuc n) (pos 0) q b near.0 near.1 e;
        steps = 0;
        multiple = omega arith;
        on_step = round_by_steps (pos 0) target (pos 0) h (zero_on_step b h);
      },
    )
negative-IsRounding n (suc m) target h k z =
    let b = size_of target in
    let q = rounded (suc n) b in
    let q_fits = quotient_fits (suc n) b h k in
    let fits : leb q 2147483648 ≡ true = ground arith in
    let e : steps_of true q b ≡ some (negsuc m) = rw (steps_of, fits, z) (ground arith) in
    let near = nearest (suc n) b h in
    (
      negsuc m,
      round_by_steps (negsuc n) target (negsuc m) h e,
      record {
        near = steps_of-near (negsuc n) (negsuc m) q b near.0 near.1 e;
        steps = q;
        multiple = sym z;
        on_step = round_by_steps (negsuc m) target (negsuc m) h (negative_on_step q b m h q_fits z);
      },
    )

-- A step that is not zero, and a value within the range of an `int` of steps, round to a whole number of steps that is at most half a step away; rounding it again changes nothing.
pub round_to-IsRounding :
    (value target : Float)
    → 0 < size_of target
    → size_of value ≤ 2147483646 * size_of target
    → (r : Float) × (round_to value target ≡ some r) × IsRounding value target r
round_to-IsRounding (pos n) target h k = positive-IsRounding n target h k
round_to-IsRounding (negsuc n) target h k = negative-IsRounding n _ target h k refl
