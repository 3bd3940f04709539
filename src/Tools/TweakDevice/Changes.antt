-- ===== src/Tools/TweakDevice/Changes.antt =====
-- The bits for the options of parse_options_abs (tools/libevdev-tweak-device.c).
use android_external_libevde.Base.{
  ℕ, zero, suc, bit_or, ◌<◌, ◌&&◌, ◌≡◌, refl, inl, inr, Bool, true, not, ltb, ◌==◌, ◌||◌, ltb→lt,
  Bool-cases, ℤ, arith,
}
use android_external_libevde.Event.{AbsInfo}
use android_external_libevde.Tools.TweakDevice.{
  opt_abs, opt_min, opt_max, opt_fuzz, opt_flat, opt_res,
}
use android_external_libevde.Tools.TweakDevice.Apply.{asks}
use android_external_libevde.Tools.TweakDevice.Asked.{Agrees}

-- The options of parse_options_abs are the bits below 64, and a new one leaves the others alone.
unfoldable pub all_below : ℕ → (ℕ → Bool) → Bool
all_below zero p = true
all_below (suc n) p = let rest = all_below n p in p n && rest

all_below-true : (n : ℕ) (p : ℕ → Bool) (x : ℕ) → all_below n p ≡ true → x < n → p x ≡ true
unfolding all_below
all_below-true zero p x h less = absurd (omega arith)
all_below-true (suc n) p x h less = elim (Bool-cases (x == n)) [
  | inl here ↦ let same : x ≡ n = ground arith in rw same (ground (arith, h))
  | inr there ↦ all_below-true n p x (ground (arith, h)) (ground arith)
]

-- Adding the option `f` to the changes `c` does not ask for `g`.
abbrev leaves_alone : ℕ → ℕ → ℕ → Bool
leaves_alone f g c = not (asks (bit_or c f) g) || asks c g

abbrev stays_small : ℕ → ℕ → Bool
stays_small f c = ltb (bit_or c f) 64

asks-before :
    (f g c : ℕ)
    → all_below 64 (leaves_alone f g) ≡ true
    → c < 64
    → asks (bit_or c f) g ≡ true
    → asks c g ≡ true
asks-before f g c table small asked =
    let here = all_below-true 64 (leaves_alone f g) c table small in ground (arith, here, asked)

pub bit_or_small : (f c : ℕ) → all_below 64 (stays_small f) ≡ true → c < 64 → bit_or c f < 64
bit_or_small f c table small =
    ltb→lt (bit_or c f) 64 (all_below-true 64 (stays_small f) c table small)

-- An option keeps what agreed, and makes its own member agree.
pub Agrees-abs : (c : ℕ) (a b : AbsInfo) → c < 64 → Agrees c a b → Agrees (bit_or c opt_abs) a b
unfolding all_below
Agrees-abs c a b small s = record {
  minimum = λ asked. s.minimum (asks-before opt_abs opt_min c refl small asked);
  maximum = λ asked. s.maximum (asks-before opt_abs opt_max c refl small asked);
  fuzz = λ asked. s.fuzz (asks-before opt_abs opt_fuzz c refl small asked);
  flat = λ asked. s.flat (asks-before opt_abs opt_flat c refl small asked);
  resolution = λ asked. s.resolution (asks-before opt_abs opt_res c refl small asked);
}

pub Agrees-minimum :
    (c : ℕ) (v : ℤ) (a b : AbsInfo)
    → c < 64
    → Agrees c a b
    → Agrees (bit_or c opt_min) (record a { minimum = v }) (record b { minimum = v })
unfolding all_below
Agrees-minimum c v a b small s = record {
  minimum = λ asked. refl;
  maximum = λ asked. s.maximum (asks-before opt_min opt_max c refl small asked);
  fuzz = λ asked. s.fuzz (asks-before opt_min opt_fuzz c refl small asked);
  flat = λ asked. s.flat (asks-before opt_min opt_flat c refl small asked);
  resolution = λ asked. s.resolution (asks-before opt_min opt_res c refl small asked);
}

pub Agrees-maximum :
    (c : ℕ) (v : ℤ) (a b : AbsInfo)
    → c < 64
    → Agrees c a b
    → Agrees (bit_or c opt_max) (record a { maximum = v }) (record b { maximum = v })
unfolding all_below
Agrees-maximum c v a b small s = record {
  minimum = λ asked. s.minimum (asks-before opt_max opt_min c refl small asked);
  maximum = λ asked. refl;
  fuzz = λ asked. s.fuzz (asks-before opt_max opt_fuzz c refl small asked);
  flat = λ asked. s.flat (asks-before opt_max opt_flat c refl small asked);
  resolution = λ asked. s.resolution (asks-before opt_max opt_res c refl small asked);
}

pub Agrees-fuzz :
    (c : ℕ) (v : ℤ) (a b : AbsInfo)
    → c < 64
    → Agrees c a b
    → Agrees (bit_or c opt_fuzz) (record a { fuzz = v }) (record b { fuzz = v })
unfolding all_below
Agrees-fuzz c v a b small s = record {
  minimum = λ asked. s.minimum (asks-before opt_fuzz opt_min c refl small asked);
  maximum = λ asked. s.maximum (asks-before opt_fuzz opt_max c refl small asked);
  fuzz = λ asked. refl;
  flat = λ asked. s.flat (asks-before opt_fuzz opt_flat c refl small asked);
  resolution = λ asked. s.resolution (asks-before opt_fuzz opt_res c refl small asked);
}

pub Agrees-flat :
    (c : ℕ) (v : ℤ) (a b : AbsInfo)
    → c < 64
    → Agrees c a b
    → Agrees (bit_or c opt_flat) (record a { flat = v }) (record b { flat = v })
unfolding all_below
Agrees-flat c v a b small s = record {
  minimum = λ asked. s.minimum (asks-before opt_flat opt_min c refl small asked);
  maximum = λ asked. s.maximum (asks-before opt_flat opt_max c refl small asked);
  fuzz = λ asked. s.fuzz (asks-before opt_flat opt_fuzz c refl small asked);
  flat = λ asked. refl;
  resolution = λ asked. s.resolution (asks-before opt_flat opt_res c refl small asked);
}

pub Agrees-resolution :
    (c : ℕ) (v : ℤ) (a b : AbsInfo)
    → c < 64
    → Agrees c a b
    → Agrees (bit_or c opt_res) (record a { resolution = v }) (record b { resolution = v })
unfolding all_below
Agrees-resolution c v a b small s = record {
  minimum = λ asked. s.minimum (asks-before opt_res opt_min c refl small asked);
  maximum = λ asked. s.maximum (asks-before opt_res opt_max c refl small asked);
  fuzz = λ asked. s.fuzz (asks-before opt_res opt_fuzz c refl small asked);
  flat = λ asked. s.flat (asks-before opt_res opt_flat c refl small asked);
  resolution = λ asked. refl;
}
