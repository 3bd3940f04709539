-- ===== src/Tools/TweakDevice/Parsed.antt =====
-- The option parsers of tools/libevdev-tweak-device.c, and the variables that are not initialised.
use mathlib.Core.Path.{subst}
use android_external_libevde.Base.{
  ℕ, bit_or, ◌<◌, ◌≡◌, refl, sym, ap, inl, inr, true, ◌==◌, ==→eq, Bool-cases, ℤ, minus_one, eq_ℤ,
  Option, none, some, List, [], ◌∷◌,
}
use android_external_libevde.Codes.{ev_abs}
use android_external_libevde.Event.{AbsInfo}
use android_external_libevde.Names.{Tables}
use android_external_libevde.Tools.TweakDevice.{
  opt_abs, opt_min, opt_max, opt_fuzz, opt_flat, opt_res, Library, Found, AbsOptions, take_options,
  take_abs_option, parse_event_code,
}
use android_external_libevde.Tools.TweakDevice.Asked.{Agrees}
use android_external_libevde.Tools.TweakDevice.Changes.{
  all_below, bit_or_small, Agrees-abs, Agrees-minimum, Agrees-maximum, Agrees-fuzz, Agrees-flat,
  Agrees-resolution,
}

-- Parsed options that differ at most in the members of `absinfo` that were not asked for.
pub record Alike (o p : AbsOptions) : Type 0 where
  pub same_changes : o.changes ≡ p.changes
  pub same_axis : o.axis ≡ p.axis
  pub small : o.changes < 64
  pub agrees : Agrees o.changes o.absinfo p.absinfo

pub data BothAlike : Option AbsOptions → Option AbsOptions → Type 0 where
  both_none : BothAlike none none
  both_some : (o p : AbsOptions) → Alike o p → BothAlike (some o) (some p)

-- The options after one of the code `code`, which is what getopt_long gave.
option_taken :
    (o p : AbsOptions) (c code : ℕ) (x y : ℤ) (a b : AbsInfo)
    → (c == code) ≡ true
    → Alike o p
    → x ≡ y
    → bit_or o.changes code < 64
    → Agrees (bit_or o.changes code) a b
    → Alike
        (record { changes = bit_or o.changes c; axis = x; absinfo = a })
        (record { changes = bit_or p.changes c; axis = y; absinfo = b })
option_taken o p c code x y a b found s same small agrees =
    let is_code : c ≡ code = ==→eq c code found in
    let now : bit_or o.changes code ≡ bit_or o.changes c = ap (bit_or o.changes) (sym is_code) in
    record {
      same_changes = ap (λ n. bit_or n c) s.same_changes;
      same_axis = same;
      small = rw is_code small;
      agrees = subst (λ n. Agrees n a b) now agrees;
    }

module _ (lib : Library) (t : Tables) where
  take_abs_option-Alike :
      (o p : AbsOptions) (f : Found)
      → Alike o p
      → BothAlike (take_abs_option lib t o f) (take_abs_option lib t p f)
  unfolding take_abs_option all_below
  take_abs_option-Alike o p f s = elim (Bool-cases (f.c == opt_abs)) [
    | inl here ↦ elim (Bool-cases (eq_ℤ (parse_event_code lib t ev_abs f.optarg) minus_one)) [
      | inl unknown ↦ rw (here, unknown) both_none
      | inr known ↦
          let axis = parse_event_code lib t ev_abs f.optarg in
          rw (here, known)
            (both_some _ _ (
              option_taken o p f.c opt_abs axis axis o.absinfo p.absinfo here s refl
                (bit_or_small opt_abs o.changes refl s.small)
                (Agrees-abs o.changes o.absinfo p.absinfo s.small s.agrees)))
    ]
    | inr no_abs ↦ elim (Bool-cases (f.c == opt_min)) [
      | inl here ↦
          let v = lib.atoi f.optarg in
          rw (no_abs, here)
            (both_some _ _ (
              option_taken o p f.c opt_min o.axis p.axis (record o.absinfo { minimum = v })
                (record p.absinfo { minimum = v }) here s s.same_axis
                (bit_or_small opt_min o.changes refl s.small)
                (Agrees-minimum o.changes v o.absinfo p.absinfo s.small s.agrees)))
      | inr no_min ↦ elim (Bool-cases (f.c == opt_max)) [
        | inl here ↦
            let v = lib.atoi f.optarg in
            rw (no_abs, no_min, here)
              (both_some _ _ (
                option_taken o p f.c opt_max o.axis p.axis (record o.absinfo { maximum = v })
                  (record p.absinfo { maximum = v }) here s s.same_axis
                  (bit_or_small opt_max o.changes refl s.small)
                  (Agrees-maximum o.changes v o.absinfo p.absinfo s.small s.agrees)))
        | inr no_max ↦ elim (Bool-cases (f.c == opt_fuzz)) [
          | inl here ↦
              let v = lib.atoi f.optarg in
              rw (no_abs, no_min, no_max, here)
                (both_some _ _ (
                  option_taken o p f.c opt_fuzz o.axis p.axis (record o.absinfo { fuzz = v })
                    (record p.absinfo { fuzz = v }) here s s.same_axis
                    (bit_or_small opt_fuzz o.changes refl s.small)
                    (Agrees-fuzz o.changes v o.absinfo p.absinfo s.small s.agrees)))
          | inr no_fuzz ↦ elim (Bool-cases (f.c == opt_flat)) [
            | inl here ↦
                let v = lib.atoi f.optarg in
                rw (no_abs, no_min, no_max, no_fuzz, here)
                  (both_some _ _ (
                    option_taken o p f.c opt_flat o.axis p.axis (record o.absinfo { flat = v })
                      (record p.absinfo { flat = v }) here s s.same_axis
                      (bit_or_small opt_flat o.changes refl s.small)
                      (Agrees-flat o.changes v o.absinfo p.absinfo s.small s.agrees)))
            | inr no_flat ↦ elim (Bool-cases (f.c == opt_res)) [
              | inl here ↦
                  let v = lib.atoi f.optarg in
                  rw (no_abs, no_min, no_max, no_fuzz, no_flat, here)
                    (both_some _ _ (
                      option_taken o p f.c opt_res o.axis p.axis
                        (record o.absinfo { resolution = v }) (record p.absinfo { resolution = v })
                        here s s.same_axis (bit_or_small opt_res o.changes refl s.small)
                        (Agrees-resolution o.changes v o.absinfo p.absinfo s.small s.agrees)))
              | inr no_res ↦ rw (no_abs, no_min, no_max, no_fuzz, no_flat, no_res) both_none
            ]
          ]
        ]
      ]
    ]
  ]

  then-Alike :
      (x y : Option AbsOptions) (rest : AbsOptions → Option AbsOptions)
      → BothAlike x y
      → ((o p : AbsOptions) → Alike o p → BothAlike (rest o) (rest p))
      → BothAlike
          (elim x [ none ↦ none | some o ↦ rest o ])
          (elim y [ none ↦ none | some p ↦ rest p ])
  then-Alike x y rest both_none later = both_none
  then-Alike x y rest (both_some o p s) later = later o p s

  -- The parsed options differ at most in the members that were not asked for.
  pub take_options-Alike :
      (fs : List Found) (o p : AbsOptions)
      → Alike o p
      → BothAlike
          (take_options (take_abs_option lib t) o fs)
          (take_options (take_abs_option lib t) p fs)
  unfolding take_options
  take_options-Alike [] o p s = both_some o p s
  take_options-Alike (f ∷ fs) o p s =
      then-Alike (take_abs_option lib t o f) (take_abs_option lib t p f)
        (λ o1. take_options (take_abs_option lib t) o1 fs) (take_abs_option-Alike o p f s)
        (λ o1 p1 s1. take_options-Alike fs o1 p1 s1)
