-- ===== src/Base/Bounds.antt =====
-- Bounds on JavaScript numbers against whole ones.
use Prim.Native.Nat.{ℕ, suc, ◌*◌, ◌%◌, ◌≤◌, ◌<◌}
use mathlib.Core.Path.{◌≡◌, refl}
use mathlib.Core.Bool.{true, false}
use native.Mathlib.Omega.{arith}
use swarm_z.Base.Numbers.{
  sub_ℕ, neg_part, pos_part, max_num, sub_num, add_num, neg_num, is_finite, pos, negsuc, Number,
  finite, infinity, neg_infinity, nan, unit, of_nat, is_integer, lt_num, le_num,
}

unit_lt-suc : (u p n : ℕ) → (p % u) ≡ 0 → n * u < p → suc n * u ≤ p
unit_lt-suc u p n d h = grind arith

-- A whole number that is not at most n is at least n + 1.
pub le_num-suc :
    (m : Number) (n : ℕ)
    → is_integer m ≡ true
    → le_num m (of_nat n) ≡ false
    → le_num (of_nat (suc n)) m ≡ true
unfolding is_integer le_num of_nat
le_num-suc (finite (pos p)) n i h = ground (arith, unit_lt-suc unit p n)
le_num-suc (finite (negsuc p)) n i h = ground arith
le_num-suc infinity n i h = cc
le_num-suc neg_infinity n i h = cc
le_num-suc nan n i h = cc

-- On finite numbers, `!(a < b)` says `b <= a`.
pub le_num-of_not_lt :
    (a : Number) (n : ℕ)
    → is_integer a ≡ true
    → lt_num a (of_nat n) ≡ false
    → le_num (of_nat n) a ≡ true
unfolding is_integer le_num lt_num of_nat
le_num-of_not_lt (finite a) n i h = ground arith
le_num-of_not_lt infinity n i h = cc
le_num-of_not_lt neg_infinity n i h = cc
le_num-of_not_lt nan n i h = cc

pub le_num-zero : (m : Number) → le_num (of_nat 1) m ≡ true → le_num (of_nat 0) m ≡ true
unfolding le_num of_nat
le_num-zero (finite a) h = ground arith
le_num-zero infinity h = refl
le_num-zero neg_infinity h = cc
le_num-zero nan h = cc

pub max_num-finite :
    (a b : Number) → is_finite a ≡ true → is_finite b ≡ true → is_finite (max_num a b) ≡ true
unfolding max_num is_finite lt_num
max_num-finite (finite a) (finite b) h k = ground arith
max_num-finite (finite a) infinity h k = cc
max_num-finite (finite a) neg_infinity h k = cc
max_num-finite (finite a) nan h k = cc
max_num-finite infinity b h k = cc
max_num-finite neg_infinity b h k = cc
max_num-finite nan b h k = cc

-- A maximum of finite numbers is at least each.
pub max_num-le :
    (a b : Number)
    → is_finite a ≡ true
    → is_finite b ≡ true
    → (le_num a (max_num a b) ≡ true) × (le_num b (max_num a b) ≡ true)
unfolding max_num is_finite lt_num le_num
max_num-le (finite a) (finite b) h k = ground arith
max_num-le (finite a) infinity h k = cc
max_num-le (finite a) neg_infinity h k = cc
max_num-le (finite a) nan h k = cc
max_num-le infinity b h k = cc
max_num-le neg_infinity b h k = cc
max_num-le nan b h k = cc

pub le_num_trans : (a b c : Number) → le_num a b ≡ true → le_num b c ≡ true → le_num a c ≡ true
unfolding le_num
le_num_trans (finite a) (finite b) (finite c) h k = ground arith
le_num_trans (finite a) (finite b) infinity h k = refl
le_num_trans (finite a) (finite b) neg_infinity h k = cc
le_num_trans (finite a) (finite b) nan h k = cc
le_num_trans (finite a) infinity (finite c) h k = cc
le_num_trans (finite a) infinity infinity h k = refl
le_num_trans (finite a) infinity neg_infinity h k = cc
le_num_trans (finite a) infinity nan h k = cc
le_num_trans (finite a) neg_infinity c h k = cc
le_num_trans (finite a) nan c h k = cc
le_num_trans infinity infinity c h k = k
le_num_trans infinity (finite b) c h k = cc
le_num_trans infinity neg_infinity c h k = cc
le_num_trans infinity nan c h k = cc
le_num_trans neg_infinity (finite b) nan h k = cc
le_num_trans neg_infinity infinity nan h k = cc
le_num_trans neg_infinity neg_infinity nan h k = cc
le_num_trans neg_infinity nan nan h k = cc
le_num_trans neg_infinity b (finite c) h k = refl
le_num_trans neg_infinity b infinity h k = refl
le_num_trans neg_infinity b neg_infinity h k = refl
le_num_trans nan b c h k = cc

pub le_num-of_lt : (a b : Number) → lt_num a b ≡ true → le_num a b ≡ true
unfolding le_num lt_num
le_num-of_lt (finite a) (finite b) h = ground arith
le_num-of_lt (finite a) infinity h = refl
le_num-of_lt (finite a) neg_infinity h = cc
le_num-of_lt (finite a) nan h = cc
le_num-of_lt infinity b h = cc
le_num-of_lt neg_infinity (finite b) h = refl
le_num-of_lt neg_infinity infinity h = refl
le_num-of_lt neg_infinity neg_infinity h = cc
le_num-of_lt neg_infinity nan h = cc
le_num-of_lt nan b h = cc

-- On finite numbers, one is less or the other is at most as great.
pub le_num-of_finite :
    (a b : Number)
    → is_finite a ≡ true
    → is_finite b ≡ true
    → lt_num a b ≡ false
    → le_num b a ≡ true
unfolding is_finite le_num lt_num
le_num-of_finite (finite a) (finite b) ha hb h = ground arith
le_num-of_finite (finite a) infinity ha hb h = cc
le_num-of_finite (finite a) neg_infinity ha hb h = cc
le_num-of_finite (finite a) nan ha hb h = cc
le_num-of_finite infinity b ha hb h = cc
le_num-of_finite neg_infinity b ha hb h = cc
le_num-of_finite nan b ha hb h = cc

-- A difference that is not below m is not below it either when less is subtracted.
pub sub_num-le :
    (a b c m : Number)
    → is_finite a ≡ true
    → is_finite b ≡ true
    → is_finite c ≡ true
    → le_num c b ≡ true
    → lt_num (sub_num a b) m ≡ false
    → lt_num (sub_num a c) m ≡ false
unfolding is_finite le_num lt_num sub_num add_num neg_num
sub_num-le (finite a) (finite b) (finite c) (finite m) ha hb hc h k = ground arith
sub_num-le (finite a) (finite b) (finite c) infinity ha hb hc h k = cc
sub_num-le (finite a) (finite b) (finite c) neg_infinity ha hb hc h k = refl
sub_num-le (finite a) (finite b) (finite c) nan ha hb hc h k = refl
sub_num-le (finite a) (finite b) infinity m ha hb hc h k = cc
sub_num-le (finite a) (finite b) neg_infinity m ha hb hc h k = cc
sub_num-le (finite a) (finite b) nan m ha hb hc h k = cc
sub_num-le (finite a) infinity c m ha hb hc h k = cc
sub_num-le (finite a) neg_infinity c m ha hb hc h k = cc
sub_num-le (finite a) nan c m ha hb hc h k = cc
sub_num-le infinity b c m ha hb hc h k = cc
sub_num-le neg_infinity b c m ha hb hc h k = cc
sub_num-le nan b c m ha hb hc h k = cc

pub add_num-finite :
    (a b : Number) → is_finite a ≡ true → is_finite b ≡ true → is_finite (add_num a b) ≡ true
unfolding is_finite add_num
add_num-finite (finite a) (finite b) h k = refl
add_num-finite (finite a) infinity h k = cc
add_num-finite (finite a) neg_infinity h k = cc
add_num-finite (finite a) nan h k = cc
add_num-finite infinity b h k = cc
add_num-finite neg_infinity b h k = cc
add_num-finite nan b h k = cc

pub sub_num-finite :
    (a b : Number) → is_finite a ≡ true → is_finite b ≡ true → is_finite (sub_num a b) ≡ true
unfolding is_finite sub_num neg_num
sub_num-finite a (finite b) h k = add_num-finite a (finite (sub_ℕ (neg_part b) (pos_part b))) h refl
sub_num-finite a infinity h k = cc
sub_num-finite a neg_infinity h k = cc
sub_num-finite a nan h k = cc
