-- ===== src/Base/Doubles.antt =====
-- JavaScript's arithmetic on doubles where it rounds: to the nearest double, to the even one of two.
use Prim.Native.Nat.{ℕ, zero, suc, ◌+◌, ◌-◌, ◌*◌, ◌/◌, ◌%◌, ◌^◌}
use mathlib.Core.Path.{◌≡◌, refl}
use mathlib.Core.Logic.{inl, inr}
use mathlib.Core.Bool.{Bool, true, false}
use native.Mathlib.Omega.{arith}
use native.Mathlib.Nat.{zero-div, zero-mod}
use swarm_z.Base.Tests.{ltb, ◌==◌, if◌then◌else◌, Bool-cases}
use swarm_z.Base.Numbers.{
  ℤ, pos, negsuc, pos_part, neg_part, sub_ℕ, Number, finite, infinity, neg_infinity, nan, unit,
  neg_num, add_num, floor_num, le_num, of_nat,
}

-- The distance of the doubles next to `whole` units, `step` where that is below 2 ^ 53 steps.
unfoldable step_from : ℕ → ℕ → ℕ → ℕ
step_from zero step whole = step
step_from (suc fuel) step whole = elim (ltb whole 9007199254740992) [
  | true ↦ step
  | false ↦ step_from fuel (2 * step) (whole / 2)
]

-- The double next to num / den units. A product of two doubles is below 2 ^ 3122 units.
unfoldable pub round_even : (num den : ℕ) → ℕ
unfolding step_from
round_even num den =
    let step = step_from 4096 1 (num / den) in
    let whole = num / (den * step) in
    let rest = 2 * (num % (den * step)) in
    let up = if ltb (den * step) rest then 1 else if rest == den * step then whole % 2 else 0 in
    (whole + up) * step

-- The same with a sign.
unfoldable pub round_signed : ℤ → ℕ → ℤ
round_signed num den = sub_ℕ (round_even (pos_part num) den) (round_even (neg_part num) den)

-- A rounded result, infinite from 2 ^ 1024 on.
unfoldable to_double : ℤ → Number
to_double (pos n) = if ltb n (2 ^ 2098) then finite (pos n) else infinity
to_double (negsuc n) = if ltb n (2 ^ 2098 - 1) then finite (negsuc n) else neg_infinity

unfoldable pub product : ℤ → ℤ → ℤ
product a b =
    sub_ℕ (pos_part a * pos_part b + neg_part a * neg_part b)
      (pos_part a * neg_part b + neg_part a * pos_part b)

-- `Infinity * b`.
unfoldable infinite_times : ℤ → Number
infinite_times (pos zero) = nan
infinite_times (pos (suc n)) = infinity
infinite_times (negsuc n) = neg_infinity

-- `a * b`.
unfoldable pub mul_num : Number → Number → Number
unfolding to_double product infinite_times neg_num round_signed round_even unit
mul_num (finite a) (finite b) = to_double (round_signed (product a b) unit)
mul_num (finite a) infinity = infinite_times a
mul_num (finite a) neg_infinity = neg_num (infinite_times a)
mul_num infinity (finite b) = infinite_times b
mul_num infinity infinity = infinity
mul_num infinity neg_infinity = neg_infinity
mul_num neg_infinity (finite b) = neg_num (infinite_times b)
mul_num neg_infinity infinity = neg_infinity
mul_num neg_infinity neg_infinity = infinity
mul_num a b = nan

-- `Math.round(n)`: the whole number next to n, the greater one of two.
unfoldable pub round_num : Number → Number
unfolding floor_num add_num
round_num n = floor_num (add_num n (finite (pos (2 ^ 1073))))

finite-number : (k : ℤ) → le_num (finite k) (finite k) ≡ true
unfolding le_num
finite-number k = ground arith

infinity-number : le_num infinity infinity ≡ true
unfolding le_num
infinity-number = refl

neg_infinity-number : le_num neg_infinity neg_infinity ≡ true
unfolding le_num
neg_infinity-number = refl

if-number :
    (b : Bool) (x y : Number)
    → le_num x x ≡ true
    → le_num y y ≡ true
    → le_num (if b then x else y) (if b then x else y) ≡ true
if-number true x y h k = h
if-number false x y h k = k

to_double-number : (k : ℤ) → le_num (to_double k) (to_double k) ≡ true
unfolding to_double
to_double-number (pos n) =
    if-number (ltb n (2 ^ 2098)) (finite (pos n)) infinity (finite-number (pos n)) infinity-number
to_double-number (negsuc n) =
    if-number (ltb n (2 ^ 2098 - 1)) (finite (negsuc n)) neg_infinity (finite-number (negsuc n))
      neg_infinity-number

-- A product of finite numbers is a number.
pub mul_num-number :
    (a b : ℤ) → le_num (mul_num (finite a) (finite b)) (mul_num (finite a) (finite b)) ≡ true
unfolding mul_num
mul_num-number a b = to_double-number (round_signed (product a b) unit)

floor_num-number : (n : Number) → le_num n n ≡ true → le_num (floor_num n) (floor_num n) ≡ true
unfolding floor_num of_nat
floor_num-number (finite (pos n)) h = finite-number _
floor_num-number (finite (negsuc n)) h = finite-number _
floor_num-number infinity h = h
floor_num-number neg_infinity h = h
floor_num-number nan h = h

add_num-number :
    (n : Number) (k : ℤ)
    → le_num n n ≡ true
    → le_num (add_num n (finite k)) (add_num n (finite k)) ≡ true
unfolding add_num
add_num-number (finite a) k h = finite-number _
add_num-number infinity k h = infinity-number
add_num-number neg_infinity k h = neg_infinity-number
add_num-number nan k h = h

-- And so is what a number is rounded to.
pub round_num-number : (n : Number) → le_num n n ≡ true → le_num (round_num n) (round_num n) ≡ true
unfolding round_num
round_num-number n h =
    let half : ℤ = pos (2 ^ 1073) in
    floor_num-number (add_num n (finite half)) (add_num-number n half h)

rounded_zero :
    (d step : ℕ)
    → (0 / d + (if ltb d (2 * (0 % d)) then 1 else if 2 * (0 % d) == d then 0 / d % 2 else 0))
        * step
      ≡ 0
rounded_zero d step = ground (arith, zero-div d, zero-mod d, zero-mod 2)

round_even-zero : (den : ℕ) → round_even 0 den ≡ 0
unfolding round_even
round_even-zero den = let step = step_from 4096 1 (0 / den) in rounded_zero (den * step) step

product-pos : (n m : ℕ) → product (pos n) (pos m) ≡ pos (n * m)
unfolding product
product-pos n m = ground arith

round_signed-pos : (n den : ℕ) → round_signed (pos n) den ≡ pos (round_even n den)
unfolding round_signed
round_signed-pos n den = ground (arith, round_even-zero den)

zero_le : (n : ℕ) → le_num (of_nat 0) (finite (pos n)) ≡ true
unfolding le_num of_nat
zero_le n = ground arith

zero_le_infinity : le_num (of_nat 0) infinity ≡ true
unfolding le_num of_nat
zero_le_infinity = refl

to_double-pos : (n : ℕ) → le_num (of_nat 0) (to_double (pos n)) ≡ true
unfolding to_double
to_double-pos n = elim (Bool-cases (ltb n (2 ^ 2098))) [
  | inl e ↦ rw e (zero_le n)
  | inr e ↦ rw e zero_le_infinity
]

-- A product of numbers that are not negative is not negative.
pub mul_num-pos : (n m : ℕ) → le_num (of_nat 0) (mul_num (finite (pos n)) (finite (pos m))) ≡ true
unfolding mul_num
mul_num-pos n m =
    rw (product-pos n m, round_signed-pos (n * m) unit) (to_double-pos (round_even (n * m) unit))
