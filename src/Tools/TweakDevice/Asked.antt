-- ===== src/Tools/TweakDevice/Asked.antt =====
-- What the options have to do with what is changed.
use android_external_libevde.Base.{
  ℕ, ◌≡◌, refl, inl, inr, Bool, true, false, if◌then◌else◌, ℤ, Option-cases, ◌>>=◌, List, [], arith,
}
use android_external_libevde.Event.{AbsInfo}
use android_external_libevde.Codes.{abs_x, abs_y, abs_mt_position_x, abs_mt_position_y}
use android_external_libevde.Device.{Libevdev, get_abs_info}
use android_external_libevde.Names.{NameMaps}
use android_external_libevde.Tools.TweakDevice.{opt_min, opt_max, opt_fuzz, opt_flat, opt_res}
use android_external_libevde.Tools.TweakDevice.Apply.{
  Requested, Complaint, changed_abs, set_abs, set_axis_resolution, set_resolution, asks,
}

-- Two axes that agree where the changes are asked for.
pub record Agrees (changes : ℕ) (a b : AbsInfo) : Type 0 where
  pub minimum : asks changes opt_min ≡ true → a.minimum ≡ b.minimum
  pub maximum : asks changes opt_max ≡ true → a.maximum ≡ b.maximum
  pub fuzz : asks changes opt_fuzz ≡ true → a.fuzz ≡ b.fuzz
  pub flat : asks changes opt_flat ≡ true → a.flat ≡ b.flat
  pub resolution : asks changes opt_res ≡ true → a.resolution ≡ b.resolution

choose_same :
    (c : Bool) (a b old : ℤ) → (c ≡ true → a ≡ b) → (if c then a else old) ≡ (if c then b else old)
choose_same true a b old same = same refl
choose_same false a b old same = refl

changed_abs-Agrees :
    (changes : ℕ) (old a b : AbsInfo)
    → Agrees changes a b
    → changed_abs changes old a ≡ changed_abs changes old b
unfolding changed_abs
changed_abs-Agrees changes old a b same = λ i. record old {
  minimum = choose_same (asks changes opt_min) a.minimum b.minimum old.minimum same.minimum i;
  maximum = choose_same (asks changes opt_max) a.maximum b.maximum old.maximum same.maximum i;
  fuzz = choose_same (asks changes opt_fuzz) a.fuzz b.fuzz old.fuzz same.fuzz i;
  flat = choose_same (asks changes opt_flat) a.flat b.flat old.flat same.flat i;
  resolution =
      choose_same (asks changes opt_res) a.resolution b.resolution old.resolution same.resolution i;
}

-- set_abs looks only at the members of `absinfo` that the changes name.
pub set_abs-Agrees :
    (sys : Requested) (maps : NameMaps) (d : Libevdev) (changes axis : ℕ) (a b : AbsInfo)
    → Agrees changes a b
    → set_abs sys maps d changes axis a ≡ set_abs sys maps d changes axis b
unfolding set_abs
set_abs-Agrees sys maps d changes axis a b same = elim (Option-cases (get_abs_info d axis)) [
  | inl absent ↦ rw (absent, set_abs) refl
  | inr (old, there) ↦ rw (there, set_abs, changed_abs-Agrees changes old a b same) refl
]

set_axis_resolution-Agrees :
    (sys : Requested) (maps : NameMaps) (axis : ℕ) (a b : AbsInfo) (s : Libevdev × List Complaint)
    → Agrees opt_res a b
    → set_axis_resolution sys maps axis a s ≡ set_axis_resolution sys maps axis b s
unfolding set_axis_resolution
set_axis_resolution-Agrees sys maps axis a b (d, said) same =
    rw (set_abs-Agrees sys maps d opt_res axis a b same) refl

abbrev at_resolution : AbsInfo → ℤ → AbsInfo
at_resolution a res = record a { resolution = res }

at_resolution-Agrees :
    (a b : AbsInfo) (res : ℤ) → Agrees opt_res (at_resolution a res) (at_resolution b res)
at_resolution-Agrees a b res = record {
  minimum = λ asked. absurd (ground (arith, asked));
  maximum = λ asked. absurd (ground (arith, asked));
  fuzz = λ asked. absurd (ground (arith, asked));
  flat = λ asked. absurd (ground (arith, asked));
  resolution = λ asked. refl;
}

-- set_resolution does not depend on what its local variable held.
pub set_resolution-local :
    (sys : Requested) (maps : NameMaps) (local other : AbsInfo) (d : Libevdev) (xres yres : ℤ)
    → set_resolution sys maps local d xres yres ≡ set_resolution sys maps other d xres yres
unfolding set_resolution
set_resolution-local sys maps local other d xres yres = λ i.
    step abs_x xres (d, []) i
    >>= (λ s. step abs_mt_position_x xres s i)
    >>= (λ s. step abs_y yres s i)
    >>= (λ s. step abs_mt_position_y yres s i)
  where
    step :
        (axis : ℕ) (res : ℤ) (s : Libevdev × List Complaint)
        → set_axis_resolution sys maps axis (at_resolution local res) s
          ≡ set_axis_resolution sys maps axis (at_resolution other res) s
    step axis res s =
        set_axis_resolution-Agrees sys maps axis (at_resolution local res) (at_resolution other res)
          s (at_resolution-Agrees local other res)
