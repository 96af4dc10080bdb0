-- ===== src/Base/Numbers.antt =====
-- JavaScript numbers. Every finite double is a whole multiple of 2 ^ -1074, the least positive one,
-- so `finite k` stands for k * 2 ^ -1074 and comparisons are exact.
use Prim.Native.Nat.{ℕ, suc, ◌+◌, ◌-◌, ◌*◌, ◌/◌, ◌%◌, ◌^◌}
use mathlib.Core.Bool.{Bool, true, false, ◌&&◌}
use swarm_z.Base.Tests.{ltb, leb, ◌==◌, if◌then◌else◌}

-- `negsuc n` is -(n + 1).
pub data ℤ : Type 0 where
  pos : ℕ → ℤ
  negsuc : ℕ → ℤ

abbrev pub pos_part : ℤ → ℕ
pos_part (pos n) = n
pos_part (negsuc n) = 0

abbrev pub neg_part : ℤ → ℕ
neg_part (pos n) = 0
neg_part (negsuc n) = suc n

-- a - b, as an integer.
abbrev pub sub_ℕ : ℕ → ℕ → ℤ
sub_ℕ a b = if leb b a then pos (a - b) else negsuc (b - a - 1)

pub data Number : Type 0 where
  finite : ℤ → Number
  infinity neg_infinity nan : Number

-- The number of units in 1.
unfoldable pub unit : ℕ
unit = 2 ^ 1074

-- A whole number that is not negative, such as `array.length` or a literal.
unfoldable pub of_nat : ℕ → Number
unfolding unit
of_nat n = finite (pos (n * unit))

-- `Number.isFinite`.
unfoldable pub is_finite : Number → Bool
is_finite (finite k) = true
is_finite _ = false

-- `Number.isInteger`.
unfoldable pub is_integer : Number → Bool
unfolding unit
is_integer (finite k) = (pos_part k + neg_part k) % unit == 0
is_integer _ = false

-- `a < b`, false where one is NaN.
unfoldable pub lt_num : Number → Number → Bool
lt_num (finite a) (finite b) = ltb (pos_part a + neg_part b) (pos_part b + neg_part a)
lt_num (finite a) infinity = true
lt_num (finite a) _ = false
lt_num neg_infinity (finite b) = true
lt_num neg_infinity infinity = true
lt_num neg_infinity _ = false
lt_num infinity b = false
lt_num nan b = false

-- `a <= b`.
unfoldable pub le_num : Number → Number → Bool
le_num (finite a) (finite b) = leb (pos_part a + neg_part b) (pos_part b + neg_part a)
le_num (finite a) infinity = true
le_num (finite a) _ = false
le_num neg_infinity nan = false
le_num neg_infinity _ = true
le_num infinity infinity = true
le_num infinity _ = false
le_num nan b = false

-- `a === b`.
unfoldable pub eq_num : Number → Number → Bool
unfolding le_num
eq_num a b = le_num a b && le_num b a

-- `n + k` and `n - k` for a whole k, exact as they are on whole milliseconds.
unfoldable pub add_nat : Number → ℕ → Number
unfolding unit
add_nat (finite a) k = finite (sub_ℕ (pos_part a + k * unit) (neg_part a))
add_nat n k = n

unfoldable pub sub_nat : Number → ℕ → Number
unfolding unit
sub_nat (finite a) k = finite (sub_ℕ (pos_part a) (neg_part a + k * unit))
sub_nat n k = n

-- `-n`.
unfoldable pub neg_num : Number → Number
neg_num (finite a) = finite (sub_ℕ (neg_part a) (pos_part a))
neg_num infinity = neg_infinity
neg_num neg_infinity = infinity
neg_num nan = nan

-- `a + b` and `a - b`, exact on finite numbers, as they are on whole milliseconds.
unfoldable pub add_num : Number → Number → Number
add_num (finite a) (finite b) = finite (sub_ℕ (pos_part a + pos_part b) (neg_part a + neg_part b))
add_num (finite a) b = b
add_num infinity neg_infinity = nan
add_num infinity nan = nan
add_num infinity b = infinity
add_num neg_infinity infinity = nan
add_num neg_infinity nan = nan
add_num neg_infinity b = neg_infinity
add_num nan b = nan

unfoldable pub sub_num : Number → Number → Number
unfolding add_num neg_num
sub_num a b = add_num a (neg_num b)

-- `Math.max(a, b)` and `Math.min(a, b)`.
unfoldable pub max_num : Number → Number → Number
unfolding lt_num
max_num nan b = nan
max_num a nan = nan
max_num a b = if lt_num a b then b else a

unfoldable pub min_num : Number → Number → Number
unfolding lt_num
min_num nan b = nan
min_num a nan = nan
min_num a b = if lt_num b a then b else a

-- `Math.floor(n)`.
unfoldable pub floor_num : Number → Number
unfolding unit
floor_num (finite (pos n)) = of_nat (n / unit)
floor_num (finite (negsuc n)) = finite (sub_ℕ 0 ((n / unit + 1) * unit))
floor_num other = other

-- 2 ^ 53 - 1, `Number.MAX_SAFE_INTEGER`.
abbrev pub max_safe_integer : ℕ
max_safe_integer = 9007199254740991

-- `Number.isSafeInteger(n) && n >= 0`.
unfoldable pub is_safe_natural : Number → Bool
unfolding is_integer le_num of_nat
is_safe_natural n = is_integer n && le_num (of_nat 0) n && le_num n (of_nat max_safe_integer)
