-- ===== src/Uinput/Told.antt =====
-- The ioctls that tell the kernel of a type or a code, and the ranges of codes.
use android_external_libevde.Base.{
  ℕ, suc, ◌+◌, ◌≤◌, ◌<◌, ◌≡◌, inl, inr, ap, Bool, true, false, ◌&&◌, ◌||◌, ◌==◌, pos, minus_one,
  eq_ℤ, none, some, List, [], ◌∷◌, arith, ==→eq, Bool-cases, leb, ltb, pos_part,
}
use android_external_libevde.Codes.{ev_syn, ev_rep, event_type_get_max}
use android_external_libevde.Device.{Masks, has_event_type, has_event_code, type_to_mask, mask_of}
use android_external_libevde.Uinput.{
  SysCall, open_uinput, ui_set, ui_abs_setup, ui_dev_setup, write_user_dev, ui_get_version,
  ui_dev_create, ui_dev_destroy, ui_get_sysname, write_event, open_name, fstat, read_name, close,
  time, UiBit, ev_bit, key_bit, rel_bit, abs_bit, msc_bit, led_bit, snd_bit, ff_bit, sw_bit,
  prop_bit,
}
use android_external_libevde.Uinput.Setup.{uinput_bit}

abbrev pub bit_index : UiBit → ℕ
bit_index ev_bit = 0
bit_index key_bit = 1
bit_index rel_bit = 2
bit_index abs_bit = 3
bit_index msc_bit = 4
bit_index led_bit = 5
bit_index snd_bit = 6
bit_index ff_bit = 7
bit_index sw_bit = 8
bit_index prop_bit = 9

abbrev pub same_bit : UiBit → UiBit → Bool
same_bit a b = bit_index a == bit_index b

abbrev pub sets : UiBit → ℕ → SysCall → Bool
sets b n (ui_set fd bit m) = same_bit b bit && m == n
sets b n (close fd) = false
sets b n open_uinput = false
sets b n (ui_abs_setup fd code a) = false
sets b n (ui_dev_setup fd u) = false
sets b n (write_user_dev fd u) = false
sets b n (ui_get_version fd) = false
sets b n (ui_dev_create fd) = false
sets b n (ui_dev_destroy fd) = false
sets b n (ui_get_sysname fd m) = false
sets b n (write_event fd e) = false
sets b n (open_name path) = false
sets b n (fstat fd) = false
sets b n (read_name fd size) = false
sets b n time = false

-- Whether the kernel was told of a number by one of the ioctls.
abbrev pub was_set : UiBit → ℕ → List SysCall → Bool
was_set b n [] = false
was_set b n (c ∷ calls) = sets b n c || was_set b n calls

-- The types that the switch knows have codes, and the others are left before it.
pub known_max :
    (type : ℕ) (bit : UiBit)
    → uinput_bit type ≡ some bit
    → ((type == ev_rep) ≡ false)
      × ((type == ev_syn) ≡ false)
      × ((type_to_mask type).0 ≡ pos (pos_part (type_to_mask type).0))
unfolding uinput_bit type_to_mask mask_of event_type_get_max
known_max type bit h = ground arith

-- Each type has an ioctl of its own.
pub uinput_bit_injective :
    (t type : ℕ) (b : UiBit)
    → uinput_bit type ≡ some b
    → elim (uinput_bit t) [ none ↦ false | some bit ↦ same_bit b bit ] ≡ (t == type)
unfolding uinput_bit
uinput_bit_injective t type b known = ground arith

pub not_ev_bit : (type : ℕ) (b : UiBit) → uinput_bit type ≡ some b → same_bit b ev_bit ≡ false
unfolding uinput_bit
not_ev_bit type b known = ground arith

pub known_small : (type : ℕ) (b : UiBit) → uinput_bit type ≡ some b → type < 32
unfolding uinput_bit
known_small type b known = ground arith

pub has_type_of_code :
    (m : Masks) (type code : ℕ) → has_event_code m type code ≡ true → has_event_type m type ≡ true
unfolding has_event_code
has_type_of_code m type code h = ground arith

pub unknown_type :
    (type : ℕ)
    → uinput_bit type ≡ none
    → (type == ev_rep || eq_ℤ (type_to_mask type).0 minus_one) ≡ true
unfolding uinput_bit type_to_mask mask_of event_type_get_max
unknown_type type h = ground arith

-- A code that a device has is no greater than the type's highest.
pub has_code-le :
    (m : Masks) (type code max : ℕ)
    → (type == ev_syn) ≡ false
    → (type_to_mask type).0 ≡ pos max
    → has_event_code m type code ≡ true
    → code ≤ max
unfolding has_event_code
has_code-le m type code max not_syn e h = ground arith

abbrev pub in_range : (ℕ → Bool) → ℕ → ℕ → ℕ → Bool
in_range f k n m = leb k m && ltb m (k + n) && f m

-- A number is in a range that starts at `k` if it is `k`, or in the rest of the range.
module _ (f : ℕ → Bool) (x y : Bool) (k m n : ℕ) where
  pub range_absent :
      f k ≡ false → (x || y && in_range f (k + 1) n m) ≡ (x || y && in_range f k (suc n) m)
  range_absent h = elim (Bool-cases (k == m)) [
    | inl here ↦ ground (arith, ap f (==→eq k m here))
    | inr other ↦ ground (arith, other)
  ]

  pub range_present :
      f k ≡ true
      → (x || (y && k == m || y && in_range f (k + 1) n m)) ≡ (x || y && in_range f k (suc n) m)
  range_present h = elim (Bool-cases (k == m)) [
    | inl here ↦ ground (arith, ap f (==→eq k m here))
    | inr other ↦ ground (arith, other)
  ]

pub range_any :
    (y : Bool) (k m n : ℕ)
    → (k == m && y || leb (k + 1) m && ltb m (k + 1 + n) && y) ≡ (leb k m && ltb m (k + suc n) && y)
range_any y k m n = ground arith

pub whole_range : (y : Bool) (m : ℕ) → m < 32 → (leb 0 m && ltb m (0 + 32) && y) ≡ y
whole_range y m h = ground arith
