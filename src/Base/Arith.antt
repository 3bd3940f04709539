-- ===== src/Base/Arith.antt =====
-- Arithmetic on C's signed `int`: sums that may leave its range, and the order.
use Prim.Native.Nat.{ℕ, zero, suc, ◌<◌, ◌+◌, ◌-◌, ◌*◌, ◌/◌, ◌^◌}
use mathlib.Core.Path.{◌≡◌}
use mathlib.Core.Bool.{Bool, false, not, ◌&&◌}
use mathlib.Core.Option.{Option, none, some}
use native.Mathlib.Omega.{arith}
use android_external_libevde.Base.Tests.{ltb, if◌then◌else◌}
use android_external_libevde.Base.Int.{ℤ, pos, negsuc, neg, lt_ℤ, pos_part}

-- INT_MAX and INT_MIN
abbrev pub int_max : ℤ
int_max = pos (2 ^ 31 - 1)

abbrev pub int_min : ℤ
int_min = negsuc (2 ^ 31 - 1)

abbrev pub neg_part : ℤ → ℕ
neg_part (pos n) = 0
neg_part (negsuc n) = suc n

-- a - b for two numbers.
abbrev pub difference : ℕ → ℕ → ℤ
difference a b = if ltb a b then negsuc (b - suc a) else pos (a - b)

infixl 65 ◌+ℤ◌ ◌-ℤ◌
unfoldable pub ◌+ℤ◌ : ℤ → ℤ → ℤ
a +ℤ b = difference (pos_part a + pos_part b) (neg_part a + neg_part b)

unfoldable pub ◌-ℤ◌ : ℤ → ℤ → ℤ
a -ℤ b = difference (pos_part a + neg_part b) (neg_part a + pos_part b)

-- `abs`, before its result is cut to an `int`.
abbrev pub abs_ℤ : ℤ → ℤ
abs_ℤ a = pos (pos_part a + neg_part a)

abbrev pub is_int : ℤ → Bool
is_int a = not (lt_ℤ a int_min) && not (lt_ℤ int_max a)

-- A result of type `int`; `none` is an overflow, which C leaves undefined.
abbrev pub as_int : ℤ → Option ℤ
as_int a = if is_int a then some a else none

-- A product with a number.
abbrev pub scale : ℤ → ℕ → ℤ
scale (pos m) n = pos (m * n)
scale (negsuc m) n = neg (suc m * n)

pub as_int_small : (n : ℕ) → n < 2147483648 → as_int (pos n) ≡ some (pos n)
as_int_small n small = ground arith

-- The quotient of two `int` by their absolute values. Division by 0 is undefined.
abbrev pub divide : (ℕ → ℕ → ℕ) → ℤ → ℤ → Option ℤ
divide by a (pos zero) = none
divide by (pos m) (pos n) = as_int (pos (by m n))
divide by (pos m) (negsuc n) = as_int (neg (by m (suc n)))
divide by (negsuc m) (pos n) = as_int (neg (by (suc m) n))
divide by (negsuc m) (negsuc n) = as_int (pos (by (suc m) (suc n)))

-- The operator `/`, which rounds towards 0.
abbrev pub quotient : ℤ → ℤ → Option ℤ
quotient = divide (λ m n. m / n)

-- `round` of a quotient in `double`: to the nearest, a half away from 0. A `double` is exact enough
-- for the quotient of two `int` to be rounded as the fraction is.
abbrev pub round_quotient : ℤ → ℤ → Option ℤ
round_quotient = divide (λ m n. (2 * m + n) / (2 * n))

-- The macros min and max.
abbrev pub min_ℤ : ℤ → ℤ → ℤ
min_ℤ a b = if lt_ℤ b a then b else a

abbrev pub max_ℤ : ℤ → ℤ → ℤ
max_ℤ a b = if lt_ℤ b a then a else b

pub lt_ℤ-irrefl : (a : ℤ) → lt_ℤ a a ≡ false
lt_ℤ-irrefl a = ground arith

-- `a ≤ b` is `lt_ℤ b a ≡ false`.
pub le_ℤ_trans : (a b c : ℤ) → lt_ℤ b a ≡ false → lt_ℤ c b ≡ false → lt_ℤ c a ≡ false
le_ℤ_trans a b c h k = ground arith

pub min_ℤ_left : (a b : ℤ) → lt_ℤ a (min_ℤ a b) ≡ false
min_ℤ_left a b = ground arith

pub min_ℤ_right : (a b : ℤ) → lt_ℤ b (min_ℤ a b) ≡ false
min_ℤ_right a b = ground arith

pub max_ℤ_left : (a b : ℤ) → lt_ℤ (max_ℤ a b) a ≡ false
max_ℤ_left a b = ground arith

pub max_ℤ_right : (a b : ℤ) → lt_ℤ (max_ℤ a b) b ≡ false
max_ℤ_right a b = ground arith

-- A sum within the range of `int` is the sum of the two parts.
pub +ℤ_parts :
    (a b : ℤ)
    → pos_part (a +ℤ b) + neg_part a + neg_part b ≡ neg_part (a +ℤ b) + pos_part a + pos_part b
unfolding ◌+ℤ◌
+ℤ_parts a b = ground arith

-- Equal parts are equal integers.
pub eq_of_parts : (a b : ℤ) → pos_part a + neg_part b ≡ pos_part b + neg_part a → a ≡ b
eq_of_parts a b h = ground arith

pub +ℤ_assoc : (a b c : ℤ) → (a +ℤ b) +ℤ c ≡ a +ℤ (b +ℤ c)
+ℤ_assoc a b c =
    eq_of_parts ((a +ℤ b) +ℤ c) (a +ℤ (b +ℤ c))
      (omega (arith, +ℤ_parts (a +ℤ b) c, +ℤ_parts a b, +ℤ_parts a (b +ℤ c), +ℤ_parts b c))

pub +ℤ_zero : (a : ℤ) → a +ℤ pos 0 ≡ a
+ℤ_zero a = eq_of_parts (a +ℤ pos 0) a (omega (arith, +ℤ_parts a (pos 0)))
