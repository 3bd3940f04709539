-- ===== src/Bitfield/Laws.antt =====
-- What the bit arrays promise: a write changes one bit and no other.
use native.Mathlib.Nat.{one-le-pow}
use android_external_libevde.Base.{
  ℕ, zero, suc, ◌-◌, ◌*◌, ◌/◌, ◌%◌, ◌^◌, ◌≤◌, ◌<◌, bit_and, bit_or, ◌≡◌, refl, Bool, true, false,
  not, ◌==◌, if◌then◌else◌, [], ◌∷◌, length, length-set, get_or, set, get_or-set_self,
  get_or-set_ne, get_or-replicate, arith, inl, inr, Bool-cases, ==→eq, ap,
}
use android_external_libevde.Bitfield.{
  Words, zeros, bit_is_set, set_bit, clear_bit, set_bit_state, copy_bytes,
}
use android_external_libevde.Bitfield.Digits.{
  digit, digit-zero, digit-lt, digit-bit_and, digit-bit_or, digit-pow, digit-complement,
  bit_and-pow,
}

abbrev digit_at : Words → ℕ → ℕ
digit_at a i = digit (get_or a (i / 64) 0) (i % 64)

bit_is_set-eq-digit : (a : Words) (i : ℕ) → bit_is_set a i ≡ (digit_at a i == 1)
unfolding bit_is_set
bit_is_set-eq-digit a i =
    let w = get_or a (i / 64) 0 in
    rw (bit_and-pow (i % 64) w) (cases (digit w (i % 64)) (digit-lt (i % 64) w))
  where
    cases : (d : ℕ) → d < 2 → not (d * 2 ^ (i % 64) == 0) ≡ (d == 1)
    cases zero h = ground arith
    cases (suc zero) h = ground (arith, one-le-pow (i % 64) 2)
    cases (suc (suc d)) h = absurd (omega arith)

pub length-set_bit : (a : Words) (i : ℕ) → length (set_bit a i) ≡ length a
unfolding set_bit
length-set_bit a i = length-set a (i / 64) _

pub length-clear_bit : (a : Words) (i : ℕ) → length (clear_bit a i) ≡ length a
unfolding clear_bit
length-clear_bit a i = length-set a (i / 64) _

pub length-set_bit_state : (a : Words) (i : ℕ) (s : Bool) → length (set_bit_state a i s) ≡ length a
unfolding set_bit_state
length-set_bit_state a i true = length-set_bit a i
length-set_bit_state a i false = length-clear_bit a i

-- The digit at `j` once the word that holds `i` has been replaced.
digit_at-set :
    (a : Words) (i j v : ℕ)
    → i < 64 * length a
    → digit_at (set a (i / 64) v) j ≡ (if i / 64 == j / 64 then digit v (j % 64) else digit_at a j)
digit_at-set a i j v h = elim (Bool-cases (i / 64 == j / 64)) [
  | inl same ↦
      let e = ==→eq (i / 64) (j / 64) same in
      rw same (rw (← e) (ap (λ w. digit w (j % 64)) (get_or-set_self a (i / 64) v 0 (omega arith))))
  | inr other ↦ rw other (
      ap (λ w. digit w (j % 64))
        (get_or-set_ne a (i / 64) (j / 64) v 0 (λ e. ground (arith, e, other))))
]

-- Setting bit `i` of an array that has it sets that bit, and no other bit changes.
pub bit_is_set-set_bit :
    (a : Words) (i j : ℕ)
    → i < 64 * length a
    → bit_is_set (set_bit a i) j ≡ (if i == j then true else bit_is_set a j)
unfolding set_bit
bit_is_set-set_bit a i j h =
    rw (bit_is_set-eq-digit (set_bit a i) j, bit_is_set-eq-digit a j)
      (ground (
        arith,
        digit_at-set a i j (bit_or (get_or a (i / 64) 0) (2 ^ (i % 64))),
        digit-bit_or (j % 64) (get_or a (i / 64) 0) (2 ^ (i % 64)),
        digit-pow (i % 64) (j % 64),
        digit-lt (j % 64) (get_or a (i / 64) 0),
        word_eq,
      ))
  where
    word_eq : i / 64 ≡ j / 64 → get_or a (i / 64) 0 ≡ get_or a (j / 64) 0
    word_eq e = ap (λ k. get_or a k 0) e

-- Clearing bit `i` of an array that has it clears that bit, and no other bit changes.
pub bit_is_set-clear_bit :
    (a : Words) (i j : ℕ)
    → i < 64 * length a
    → bit_is_set (clear_bit a i) j ≡ (if i == j then false else bit_is_set a j)
unfolding clear_bit
bit_is_set-clear_bit a i j h =
    rw (bit_is_set-eq-digit (clear_bit a i) j, bit_is_set-eq-digit a j)
      (ground (
        arith,
        digit_at-set a i j (bit_and (get_or a (i / 64) 0) (2 ^ 64 - 1 - 2 ^ (i % 64))),
        digit-bit_and (j % 64) (get_or a (i / 64) 0) (2 ^ 64 - 1 - 2 ^ (i % 64)),
        digit-complement 64 (i % 64) (j % 64),
        digit-lt (j % 64) (get_or a (i / 64) 0),
        word_eq,
      ))
  where
    word_eq : i / 64 ≡ j / 64 → get_or a (i / 64) 0 ≡ get_or a (j / 64) 0
    word_eq e = ap (λ k. get_or a k 0) e

-- Setting bit i of an array to a state changes that bit alone, for i within the array.
pub bit_is_set-set_bit_state :
    (a : Words) (i j : ℕ) (s : Bool)
    → i < 64 * length a
    → bit_is_set (set_bit_state a i s) j ≡ (if i == j then s else bit_is_set a j)
unfolding set_bit_state
bit_is_set-set_bit_state a i j true h = bit_is_set-set_bit a i j h
bit_is_set-set_bit_state a i j false h = bit_is_set-clear_bit a i j h

-- A cleared array has no bit set.
pub bit_is_set-zeros : (n i : ℕ) → bit_is_set (zeros n) i ≡ false
bit_is_set-zeros n i =
    rw bit_is_set-eq-digit
      (rw (get_or-replicate {A = ℕ} n (i / 64) 0) (ground (arith, digit-zero (i % 64))))

-- A copy of at least as many bytes as both arrays have replaces the array.
pub copy_bytes_all :
    (n : ℕ) (src dst : Words)
    → length src ≡ length dst
    → 8 * length dst ≤ n
    → copy_bytes n src dst ≡ src
unfolding copy_bytes
copy_bytes_all n [] [] e h = refl
copy_bytes_all n [] (d ∷ dst) e h = absurd (omega arith)
copy_bytes_all n (s ∷ src) [] e h = absurd (omega arith)
copy_bytes_all n (s ∷ src) (d ∷ dst) e h = ground (arith, copy_bytes_all (n - 8) src dst)

pub length-copy_bytes :
    (n : ℕ) (src dst : Words) → length src ≡ length dst → length (copy_bytes n src dst) ≡ length dst
unfolding copy_bytes
length-copy_bytes n [] dst e = refl
length-copy_bytes n (s ∷ src) [] e = refl
length-copy_bytes n (s ∷ src) (d ∷ dst) e = ap suc (length-copy_bytes (n - 8) src dst (omega arith))
