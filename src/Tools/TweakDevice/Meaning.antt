-- ===== src/Tools/TweakDevice/Meaning.antt =====
-- What the arguments of the options mean.
use android_external_libevde.Base.{
  ℕ, ◌≡◌, refl, sym, ap, ◌∙◌, Bool, true, false, ltb, ◌==◌, ◌||◌, if◌then◌else◌, Bool-cases, inl,
  inr, Option-cases, ◌⊎◌, ℤ, pos, minus_one, eq_ℤ, some, some_injective, List, [], ◌∷◌, arith,
}
use android_external_libevde.Event.{Text}
use android_external_libevde.Codes.{ev_led}
use android_external_libevde.Names.{Tables, event_code_get_name, event_code_from_name}
use android_external_libevde.Names.Lookup.{BsearchLaws}
use android_external_libevde.Names.EventNames.{tables, name_maps}
use android_external_libevde.Names.Found.{is_status}
use android_external_libevde.Names.RoundTrip.{code_name_round_trip}
use android_external_libevde.Requests.{led_on, led_off}
use android_external_libevde.Tools.TweakDevice.{
  opt_led, opt_on, opt_off, Library, Options, Found, LedOptions, take_options, take_led_option,
  parse_event_code, parse_options_led,
}
use android_external_libevde.Tools.TweakDevice.Apply.{led_value}

-- If a code of a type has a name, libevdev-tweak-device understands that name as the code, for
-- every `bsearch` that keeps what the C library documents. The two names FF_STATUS_ are left out.
pub parse_event_code_name :
    (lib : Library)
    → BsearchLaws lib.bsearch
    → (type code : ℕ) (n : Text) → event_code_get_name name_maps type code ≡ some n
    → is_status type code ≡ false
    → parse_event_code lib tables type n ≡ pos code
unfolding parse_event_code
parse_event_code_name lib laws type code n named ordinary =
    let (found, type_back, code_back) =
      code_name_round_trip lib.bsearch laws type code n named ordinary in
    let known : eq_ℤ (event_code_from_name lib.bsearch tables type n) minus_one ≡ false =
      ap (λ z. eq_ℤ z minus_one) found in
    rw (known, found) refl

-- Whether one of the options is `--off`.
unfoldable pub has_off : List Found → Bool
has_off [] = false
has_off (f ∷ fs) = let rest = has_off fs in f.c == opt_off || rest

unfoldable pub has_on : List Found → Bool
has_on [] = false
has_on (f ∷ fs) = let rest = has_on fs in f.c == opt_on || rest

-- The state behind the options, from the one before them.
abbrev next_state : ℤ → List Found → ℤ
next_state before fs = if has_off fs then pos 0 else if has_on fs then pos 1 else before

module _ (lib : Library) (t : Tables) where
  -- One option sets the state only if it was not set.
  take_led_option-state :
      (o o1 : LedOptions) (f : Found)
      → take_led_option lib t o f ≡ some o1
      → ((f.c == opt_on) ≡ false) × ((f.c == opt_off) ≡ false) × (o1.led_state ≡ o.led_state)
        ⊎ (eq_ℤ o.led_state minus_one ≡ true)
          × (((f.c == opt_on) ≡ true) × ((f.c == opt_off) ≡ false) × (o1.led_state ≡ pos 1)
              ⊎ ((f.c == opt_on) ≡ false) × ((f.c == opt_off) ≡ true) × (o1.led_state ≡ pos 0))
  unfolding take_led_option
  take_led_option-state o o1 f h = elim (Bool-cases (f.c == opt_led)) [
    | inl here ↦
        let no_on : (f.c == opt_on) ≡ false = ground (arith, here) in
        let no_off : (f.c == opt_off) ≡ false = ground (arith, here) in
        elim (Bool-cases (eq_ℤ (parse_event_code lib t ev_led f.optarg) minus_one)) [
          | inl unknown ↦ absurd (ground (arith, h, here, unknown))
          | inr known ↦
              inl (
                no_on,
                no_off,
                ap (λ x. x.led_state) (sym (some_injective (rw (here, known) at h))),
              )
        ]
    | inr no_led ↦ elim (Bool-cases (f.c == opt_on)) [
      | inl on ↦
          let no_off : (f.c == opt_off) ≡ false = ground (arith, on) in
          elim (Bool-cases (eq_ℤ o.led_state minus_one)) [
            | inl unset ↦ inr (
              unset,
              inl (
                on,
                no_off,
                ap (λ x. x.led_state) (sym (some_injective (rw (no_led, on, unset) at h))),
              ),
            )
            | inr set ↦ absurd (ground (arith, h, no_led, on, set))
          ]
      | inr no_on ↦ elim (Bool-cases (f.c == opt_off)) [
        | inl off ↦ elim (Bool-cases (eq_ℤ o.led_state minus_one)) [
          | inl unset ↦ inr (
            unset,
            inr (
              no_on,
              off,
              ap (λ x. x.led_state) (sym (some_injective (rw (no_led, no_on, off, unset) at h))),
            ),
          )
          | inr set ↦ absurd (ground (arith, h, no_led, no_on, off, set))
        ]
        | inr no_off ↦ absurd (ground (arith, h, no_led, no_on, no_off))
      ]
    ]
  ]

  -- Once the state is set, no option sets it again.
  set_once :
      (fs : List Found) (o p : LedOptions)
      → eq_ℤ o.led_state minus_one ≡ false
      → take_options (take_led_option lib t) o fs ≡ some p
      → (p.led_state ≡ o.led_state) × (has_on fs ≡ false) × (has_off fs ≡ false)
  unfolding take_options has_on has_off
  set_once [] o p set h = (ap (λ x. x.led_state) (sym (some_injective h)), refl, refl)
  set_once (f ∷ fs) o p set h = elim (Option-cases (take_led_option lib t o f)) [
    | inl refused ↦ absurd (ground (arith, h, refused))
    | inr (o1, taken) ↦
        let rest : take_options (take_led_option lib t) o1 fs ≡ some p =
          rw (taken, take_options) at h in
        elim (take_led_option-state o o1 f taken) [
          | inr (unset, how) ↦ absurd (ground (arith, unset, set))
          | inl (no_on, no_off, same) ↦
              let (kept, none_on, none_off) =
                set_once fs o1 p (ap (λ z. eq_ℤ z minus_one) same ∙ set) rest in
              (kept ∙ same, rw (no_on, none_on) refl, rw (no_off, none_off) refl)
        ]
  ]

  take_led_options-state :
      (fs : List Found) (o p : LedOptions)
      → take_options (take_led_option lib t) o fs ≡ some p
      → p.led_state ≡ next_state o.led_state fs
  unfolding take_options has_off has_on
  take_led_options-state [] o p h = ap (λ x. x.led_state) (sym (some_injective h))
  take_led_options-state (f ∷ fs) o p h = elim (Option-cases (take_led_option lib t o f)) [
    | inl refused ↦ absurd (ground (arith, h, refused))
    | inr (o1, taken) ↦
        let rest : take_options (take_led_option lib t) o1 fs ≡ some p =
          rw (taken, take_options) at h in
        elim (take_led_option-state o o1 f taken) [
          | inl (no_on, no_off, same) ↦
              rw (no_on, no_off)
                (take_led_options-state fs o1 p rest ∙ ap (λ z. next_state z fs) same)
          | inr (unset, inl (on, no_off, now)) ↦
              let (kept, none_on, none_off) =
                set_once fs o1 p (ap (λ z. eq_ℤ z minus_one) now) rest in
              rw (no_off, none_off, on) (kept ∙ now)
          | inr (unset, inr (no_on, off, now)) ↦
              let (kept, none_on, none_off) =
                set_once fs o1 p (ap (λ z. eq_ℤ z minus_one) now) rest in
              rw off (kept ∙ now)
        ]
  ]

  -- If the options of a LED are accepted, libevdev-tweak-device switches the LED off exactly if
  -- `--off` is one of them, and on in every other case, also where `--on` is missing.
  pub parse_options_led_value :
      (argc : ℕ) (options : Options) (led : ℤ) (p : LedOptions)
      → parse_options_led lib t argc options (record { led = led; led_state = minus_one }) ≡ some p
      → led_value p.led_state ≡ (if has_off options.found then led_off else led_on)
  unfolding parse_options_led
  parse_options_led_value argc options led p h = elim (Bool-cases (ltb argc 2)) [
    | inl few ↦ absurd (ground (arith, h, few))
    | inr enough ↦
        let state =
          take_led_options-state options.found (record { led = led; led_state = minus_one }) p
            (rw enough at h) in
        ap led_value state ∙ on_or_off options.found
  ]
    where
      on_or_off :
          (fs : List Found)
          → led_value (next_state minus_one fs) ≡ (if has_off fs then led_off else led_on)
      on_or_off fs = elim (Bool-cases (has_off fs)) [
        | inl off ↦ rw off refl
        | inr no_off ↦ elim (Bool-cases (has_on fs)) [
          | inl on ↦ rw (no_off, on) refl
          | inr neither ↦ rw (no_off, neither) refl
        ]
      ]
