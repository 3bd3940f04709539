-- ===== src/Tools/TweakDevice.antt =====
-- The options of tools/libevdev-tweak-device.c.
pub mod Apply
pub mod Main
pub mod Asked
pub mod Changes
pub mod Parsed
pub mod Locals
pub mod Meaning
use android_external_libevde.Base.{
  ℕ, bit_or, Bool, true, false, not, ltb, leb, ◌==◌, ◌||◌, ◌&&◌, if◌then◌else◌, ℤ, pos, minus_one,
  eq_ℤ, Option, none, some, List, [], ◌∷◌, length, is_int,
}
use android_external_libevde.Codes.{ev_abs, ev_led}
use android_external_libevde.Event.{AbsInfo, Text}
use android_external_libevde.Names.{Bsearch, Tables, event_code_from_name}

-- enum mode
pub data Mode : Type 0 where
  mode_none mode_abs mode_led mode_resolution mode_help : Mode

-- enum opts
abbrev pub opt_abs : ℕ
opt_abs = 0x001

abbrev pub opt_min : ℕ
opt_min = 0x002

abbrev pub opt_max : ℕ
opt_max = 0x004

abbrev pub opt_fuzz : ℕ
opt_fuzz = 0x008

abbrev pub opt_flat : ℕ
opt_flat = 0x010

abbrev pub opt_res : ℕ
opt_res = 0x020

abbrev pub opt_led : ℕ
opt_led = 0x040

abbrev pub opt_on : ℕ
opt_on = 0x080

abbrev pub opt_off : ℕ
opt_off = 0x100

abbrev pub opt_resolution : ℕ
opt_resolution = 0x200

abbrev pub opt_help : ℕ
opt_help = 0x400

-- What one call of getopt_long gives: its result, `optarg`, and `optind` behind it.
pub record Found : Type 0 where
  pub c : ℕ
  pub optarg : Text
  pub optind : ℕ

-- The results of getopt_long up to the call that gives -1, and `optind` then.
pub record Options : Type 0 where
  pub found : List Found
  pub last : ℕ

-- The C library's part: `sscanf` with "%d,%d" and the numbers that it matched, `strtol` with the
-- number of bytes that it took, `atoi` and `bsearch`.
pub record Library : Type 0 where
  pub sscanf : Text → Option (ℤ × Option ℤ)
  pub strtol : Text → ℤ × ℕ
  pub atoi : Text → ℤ
  pub bsearch : Bsearch

module _ (lib : Library) where
  -- parse_resolution_argument
  unfoldable pub parse_resolution_argument : Text → Option (ℤ × ℤ)
  parse_resolution_argument arg = elim (lib.sscanf arg) [
    | none ↦ none
    | some (x, none) ↦ some (x, x)
    | some (x, some y) ↦ some (x, y)
  ]

  -- safe_atoi: nothing was taken, or something is left behind, or the number is no `int`.
  unfoldable pub safe_atoi : Text → Option ℤ
  safe_atoi str =
      let (v, taken) = lib.strtol str in
      if taken == 0
      then none
      else if not (length str == 0) && not (taken == length str)
      then none
      else if not (is_int v)
      then none
      else some v

  -- parse_event_code
  unfoldable pub parse_event_code : Tables → ℕ → Text → ℤ
  unfolding safe_atoi event_code_from_name
  parse_event_code t type str =
      let code = event_code_from_name lib.bsearch t type str in
      if not (eq_ℤ code minus_one)
      then code
      else elim (safe_atoi str) [ none ↦ minus_one | some v ↦ v ]

-- What parse_options_abs fills in.
pub record AbsOptions : Type 0 where
  pub changes : ℕ
  pub axis : ℤ
  pub absinfo : AbsInfo

-- One option of parse_options_abs; `none` is the jump to its label `error`.
unfoldable pub take_abs_option : Library → Tables → AbsOptions → Found → Option AbsOptions
take_abs_option lib t o f =
    let changed = record o { changes = bit_or o.changes f.c } in
    let axis = parse_event_code lib t ev_abs f.optarg in
    let value = lib.atoi f.optarg in
    if f.c == opt_abs
    then (if eq_ℤ axis minus_one then none else some (record changed { axis = axis }))
    else if f.c == opt_min
    then some (record changed { absinfo = record o.absinfo { minimum = value } })
    else if f.c == opt_max
    then some (record changed { absinfo = record o.absinfo { maximum = value } })
    else if f.c == opt_fuzz
    then some (record changed { absinfo = record o.absinfo { fuzz = value } })
    else if f.c == opt_flat
    then some (record changed { absinfo = record o.absinfo { flat = value } })
    else if f.c == opt_res
    then some (record changed { absinfo = record o.absinfo { resolution = value } })
    else none

-- The loop of an option parser.
unfoldable pub take_options {ℓ} : {A : Type ℓ} → (A → Found → Option A) → A → List Found → Option A
take_options step a [] = some a
take_options step a (f ∷ fs) = elim (step a f) [ none ↦ none | some a1 ↦ take_options step a1 fs ]

-- parse_options_abs; `none` is the result 1, with which the program ends.
unfoldable pub parse_options_abs : Library → Tables → ℕ → Options → AbsOptions → Option AbsOptions
unfolding take_abs_option
parse_options_abs lib t argc options o =
    let parsed = take_options (take_abs_option lib t) o options.found in
    if ltb argc 2 then none else parsed

-- What parse_options_led fills in.
pub record LedOptions : Type 0 where
  pub led : ℤ
  pub led_state : ℤ

unfoldable pub take_led_option : Library → Tables → LedOptions → Found → Option LedOptions
take_led_option lib t o f =
    let led = parse_event_code lib t ev_led f.optarg in
    if f.c == opt_led
    then (if eq_ℤ led minus_one then none else some (record o { led = led }))
    else if f.c == opt_on
    then (if not (eq_ℤ o.led_state minus_one) then none else some (record o { led_state = pos 1 }))
    else if f.c == opt_off
    then (if not (eq_ℤ o.led_state minus_one) then none else some (record o { led_state = pos 0 }))
    else none

-- parse_options_led
unfoldable pub parse_options_led : Library → Tables → ℕ → Options → LedOptions → Option LedOptions
unfolding take_led_option
parse_options_led lib t argc options o =
    let parsed = take_options (take_led_option lib t) o options.found in
    if ltb argc 2 then none else parsed

unfoldable pub take_resolution_option : Library → ℤ × ℤ → Found → Option (ℤ × ℤ)
unfolding parse_resolution_argument
take_resolution_option lib o f =
    let parsed = parse_resolution_argument lib f.optarg in
    if f.c == opt_resolution then parsed else none

-- parse_options_resolution
unfoldable pub parse_options_resolution : Library → ℕ → Options → ℤ × ℤ → Option (ℤ × ℤ)
unfolding take_resolution_option
parse_options_resolution lib argc options o =
    let parsed = take_options (take_resolution_option lib) o options.found in
    if ltb argc 2 then none else parsed

-- The switch of parse_options_mode: `h` is 104.
abbrev mode_of : ℕ → Mode
mode_of c =
    if c == 104 || c == opt_help
    then mode_help
    else if c == opt_abs
    then mode_abs
    else if c == opt_led
    then mode_led
    else if c == opt_resolution
    then mode_resolution
    else mode_none

abbrev is_none_mode : Mode → Bool
is_none_mode mode_none = true
is_none_mode _ = false

abbrev is_help_mode : Mode → Bool
is_help_mode mode_help = true
is_help_mode _ = false

-- Its loop: the mode and `optind`.
unfoldable pub find_mode : List Found → ℕ → Mode × ℕ
find_mode [] last = (mode_none, last)
find_mode (f ∷ fs) last =
    let rest = find_mode fs last in
    if is_none_mode (mode_of f.c) then rest else (mode_of f.c, f.optind)

-- parse_options_mode
unfoldable pub parse_options_mode : ℕ → Options → Mode
unfolding find_mode
parse_options_mode argc options =
    let (mode, optind) = find_mode options.found options.last in
    if ltb argc 2
    then mode_none
    else if leb argc optind && not (is_help_mode mode)
    then mode_none
    else mode
