-- ===== src/Bitfield.antt =====
-- The bit arrays of libevdev/libevdev-util.h: `unsigned long` words of 64 bits.
pub mod Digits
pub mod Laws
use android_external_libevde.Base.{
  ℕ, zero, suc, ◌+◌, ◌-◌, ◌*◌, ◌/◌, ◌%◌, ◌^◌, bit_and, bit_or, Bool, true, false, not, ◌==◌, leb,
  if◌then◌else◌, List, [], ◌∷◌, get_or, set, replicate,
}

abbrev pub Words : Type 0
Words = List ℕ

abbrev pub long_bits : ℕ
long_bits = 64

-- NLONGS
abbrev pub nlongs : ℕ → ℕ
nlongs x = (x + long_bits - 1) / long_bits

-- An array that `calloc` or `memset` has cleared.
abbrev pub zeros : ℕ → Words
zeros n = replicate n 0

-- `!!(array[bit / LONG_BITS] & (1LL << (bit % LONG_BITS)))`
unfoldable pub bit_is_set : Words → ℕ → Bool
bit_is_set array bit = not (bit_and (get_or array (bit / long_bits) 0) (2 ^ (bit % long_bits)) == 0)

unfoldable pub set_bit : Words → ℕ → Words
set_bit array bit =
    set array (bit / long_bits) (bit_or (get_or array (bit / long_bits) 0) (2 ^ (bit % long_bits)))

-- `~x` on 64 bits is `2 ^ 64 - 1 - x`.
unfoldable pub clear_bit : Words → ℕ → Words
clear_bit array bit =
    set array (bit / long_bits)
      (bit_and (get_or array (bit / long_bits) 0) (2 ^ long_bits - 1 - 2 ^ (bit % long_bits)))

unfoldable pub set_bit_state : Words → ℕ → Bool → Words
set_bit_state array bit state = if state then set_bit array bit else clear_bit array bit

-- `memcpy` of `n` bytes between arrays of words, the lowest byte of a word first.
unfoldable pub copy_bytes : ℕ → Words → Words → Words
copy_bytes n [] dst = dst
copy_bytes n (s ∷ src) [] = []
copy_bytes n (s ∷ src) (d ∷ dst) =
    (if leb 8 n then s else s % 256 ^ n + d / 256 ^ n * 256 ^ n) ∷ copy_bytes (n - 8) src dst
