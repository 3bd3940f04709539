-- ===== src/Bitfield/Digits.antt =====
-- Single binary digits of `&`, `|` and of the masks that the bit arrays use, at every position.
use Prim.Native.Nat.{min, max, digits, bitwise, bit_and-bitwise, bit_or-bitwise}
use native.Mathlib.Nat.{pow-suc, one-le-pow}
use android_external_libevde.Base.{
  ℕ, zero, suc, ◌+◌, ◌-◌, ◌*◌, ◌/◌, ◌%◌, ◌^◌, ◌≤◌, ◌<◌, bit_and, bit_or, ◌≡◌, refl, ap, ◌==◌,
  if◌then◌else◌, arith, ◌∙◌, Bool-cases, ==→eq, inl, inr,
}

-- The fuel of a digit-wise operation: once it covers the first operand, more changes nothing.
module _ (z : ℕ → ℕ) (f : ℕ → ℕ → ℕ) where
  one_more : (n a b : ℕ) → a ≤ n → digits z f (suc n) a b ≡ digits z f n a b
  one_more zero zero b covered = refl
  one_more (suc n) zero b covered = refl
  one_more zero (suc a) b covered = absurd (omega arith)
  one_more (suc n) (suc a) b covered =
      ap (λ high. high * 2 + f (suc a % 2) (b % 2)) (one_more n (suc a / 2) (b / 2) (omega arith))

  some_more : (k n fuel a b : ℕ) → a ≤ n → fuel ≡ k + n → digits z f fuel a b ≡ digits z f n a b
  some_more zero n fuel a b covered total = ap (λ g. digits z f g a b) (omega arith)
  some_more (suc k) n fuel a b covered total =
      let last : fuel ≡ suc (k + n) = omega arith in
      ap (λ g. digits z f g a b) last
      ∙ one_more (k + n) a b (omega arith)
      ∙ some_more k n (k + n) a b covered refl

  -- What the operation does to the lowest digits and to the others.
  split_low :
      (a b : ℕ)
      → bitwise z f (suc a) b ≡ bitwise z f (suc a / 2) (b / 2) * 2 + f (suc a % 2) (b % 2)
  split_low a b =
      let half = suc a / 2 in
      ap (λ high. high * 2 + f (suc a % 2) (b % 2))
        (some_more (a - half) half a half (b / 2) (omega arith) (omega arith))

and_low : (a b : ℕ) → bit_and a b ≡ bit_and (a / 2) (b / 2) * 2 + min (a % 2) (b % 2)
and_low (suc a) b = simp bit_and-bitwise (split_low (λ rest. 0) min a b)
and_low zero b = simp bit_and-bitwise (omega arith)

or_low : (a b : ℕ) → bit_or a b ≡ bit_or (a / 2) (b / 2) * 2 + max (a % 2) (b % 2)
or_low (suc a) b = simp bit_or-bitwise (split_low (λ rest. rest) max a b)
or_low zero b = simp bit_or-bitwise (omega arith)

-- The digit of `w` at position `k`.
abbrev pub digit : ℕ → ℕ → ℕ
digit w zero = w % 2
digit w (suc k) = digit (w / 2) k

pub digit-bit_and : (k a b : ℕ) → digit (bit_and a b) k ≡ min (digit a k) (digit b k)
digit-bit_and zero a b = omega (arith, and_low a b)
digit-bit_and (suc k) a b =
    let half : bit_and a b / 2 ≡ bit_and (a / 2) (b / 2) = omega (arith, and_low a b) in
    rw half (digit-bit_and k (a / 2) (b / 2))

pub digit-bit_or : (k a b : ℕ) → digit (bit_or a b) k ≡ max (digit a k) (digit b k)
digit-bit_or zero a b = omega (arith, or_low a b)
digit-bit_or (suc k) a b =
    let half : bit_or a b / 2 ≡ bit_or (a / 2) (b / 2) = omega (arith, or_low a b) in
    rw half (digit-bit_or k (a / 2) (b / 2))

pub digit-lt : (k w : ℕ) → digit w k < 2
digit-lt zero w = omega arith
digit-lt (suc k) w = digit-lt k (w / 2)

pub digit-zero : (k : ℕ) → digit 0 k ≡ 0
digit-zero zero = refl
digit-zero (suc k) = digit-zero k

pub digit-pow : (n k : ℕ) → digit (2 ^ n) k ≡ (if n == k then 1 else 0)
digit-pow zero zero = refl
digit-pow zero (suc k) = ground (arith, digit-zero k)
digit-pow (suc n) zero = ground (arith, pow-suc 2 n)
digit-pow (suc n) (suc k) =
    let half : 2 ^ suc n / 2 ≡ 2 ^ n = omega (arith, pow-suc 2 n) in
    rw half (ground (arith, digit-pow n k))

digit-ones : (m k : ℕ) → k < m → digit (2 ^ m - 1) k ≡ 1
digit-ones zero k h = absurd (omega arith)
digit-ones (suc m) zero h = omega (arith, pow-suc 2 m, one-le-pow m 2)
digit-ones (suc m) (suc k) h =
    let half : (2 ^ suc m - 1) / 2 ≡ 2 ^ m - 1 = omega (arith, pow-suc 2 m, one-le-pow m 2) in
    rw half (digit-ones m k (omega arith))

pow-lt : (n m : ℕ) → n < m → 2 ^ n < 2 ^ m
pow-lt n zero h = absurd (omega arith)
pow-lt zero (suc m) h = omega (arith, pow-suc 2 m, one-le-pow m 2)
pow-lt (suc n) (suc m) h = omega (arith, pow-suc 2 m, pow-suc 2 n, pow-lt n m (omega arith))

-- The complement of a single bit has every other bit.
pub digit-complement :
    (m n k : ℕ) → n < m → k < m → digit (2 ^ m - 1 - 2 ^ n) k ≡ (if n == k then 0 else 1)
digit-complement zero n k hn hk = absurd (omega arith)
digit-complement (suc m) zero zero hn hk = ground (arith, pow-suc 2 m, one-le-pow m 2)
digit-complement (suc m) zero (suc k) hn hk =
    let half : (2 ^ suc m - 1 - 2 ^ 0) / 2 ≡ 2 ^ m - 1 =
      omega (arith, pow-suc 2 m, one-le-pow m 2) in
    rw half (ground (arith, digit-ones m k))
digit-complement (suc m) (suc n) zero hn hk = ground (arith, pow-suc 2 m, pow-suc 2 n, pow-lt n m)
digit-complement (suc m) (suc n) (suc k) hn hk =
    let half : (2 ^ suc m - 1 - 2 ^ suc n) / 2 ≡ 2 ^ m - 1 - 2 ^ n =
      omega (arith, pow-suc 2 m, pow-suc 2 n, pow-lt n m (omega arith)) in
    rw half (ground (arith, digit-complement m n k))

-- A mask of one bit picks that digit.
pub bit_and-pow : (k w : ℕ) → bit_and w (2 ^ k) ≡ digit w k * 2 ^ k
bit_and-pow zero w = omega (arith, and_low w 1, no_digits (suc w) (w / 2) (omega arith))
  where
    no_digits : (bound v : ℕ) → v < bound → bit_and v 0 ≡ 0
    no_digits zero v below = absurd (omega arith)
    no_digits (suc bound) v below = elim (Bool-cases (v == 0)) [
      | inl nothing ↦ rw (==→eq v 0 nothing) (omega (arith, bit_and-bitwise 0 0))
      | inr more ↦ omega (arith, and_low v 0, no_digits bound (v / 2) (ground arith))
    ]
bit_and-pow (suc k) w =
    let half : 2 ^ suc k / 2 ≡ 2 ^ k = omega (arith, pow-suc 2 k) in
    let even : 2 ^ suc k % 2 ≡ 0 = omega (arith, pow-suc 2 k) in
    let low = rw half at (and_low w (2 ^ suc k)) in
    omega
      (arith, low, even, bit_and-pow k (w / 2), ap (λ (t : ℕ). digit (w / 2) k * t) (pow-suc 2 k))
