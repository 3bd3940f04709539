-- ===== src/Uinput/Setup.antt =====
-- Telling the kernel what a virtual device has: `set_evbits`, `set_props`, `uinput_create_write` and
-- `uinput_create_DEV_SETUP`.
use android_external_libevde.Base.{
  ℕ, zero, suc, ◌+◌, Bool, true, false, not, ltb, ◌==◌, if◌then◌else◌, ℤ, pos, minus_one, neg, eq_ℤ,
  is_neg, to_unsigned, pos_part, Option, none, some, [], set, replicate, take,
}
use android_external_libevde.Codes.{
  ev_key, ev_rel, ev_abs, ev_msc, ev_sw, ev_led, ev_snd, ev_rep, ev_ff, ev_cnt, input_prop_max,
  abs_cnt,
}
use android_external_libevde.Event.{Text, einval}
use android_external_libevde.Device.{
  Libevdev, has_event_type, has_event_code, has_property, type_to_mask, abs_at,
}
use android_external_libevde.Uinput.{
  UiBit, ev_bit, key_bit, rel_bit, abs_bit, msc_bit, led_bit, snd_bit, ff_bit, sw_bit, prop_bit,
  UinputSetup, UinputUserDev, user_dev_size, ui_set, ui_abs_setup, ui_dev_setup, write_user_dev,
  System, M, ◌>>=◌, give, get_errno, set_errno, sys_rc,
}

-- libevdev_get_name
abbrev pub dev_name : Libevdev → Text
dev_name d = elim d.name [ none ↦ [] | some n ↦ n ]

-- `set_abs`, for a code that the device has, so that libevdev_get_abs_info does not give NULL.
unfoldable pub set_abs : System → Libevdev → ℤ → ℕ → M ℤ
set_abs system d fd code = sys_rc system (ui_abs_setup fd code (abs_at d code))

-- The members of `*uidev` for an axis.
abbrev pub fill_abs : Libevdev → ℕ → UinputUserDev → UinputUserDev
fill_abs d code u = record u {
  absmin = set u.absmin code (abs_at d code).minimum;
  absmax = set u.absmax code (abs_at d code).maximum;
  absfuzz = set u.absfuzz code (abs_at d code).fuzz;
  absflat = set u.absflat code (abs_at d code).flat;
}

-- Whether the code jumps to `out` or leaves the loop, with `rc`, and `*uidev` if it is not NULL.
abbrev pub Round : Type 0
Round = Bool × ℤ × Option UinputUserDev

-- One code that the device has; `next` goes on with the loop.
unfoldable pub set_code :
    System
    → Libevdev
    → ℤ
    → ℕ
    → UiBit
    → ℕ
    → Option UinputUserDev
    → (ℤ → Option UinputUserDev → M Round)
    → M Round
set_code system d fd type bit code uidev next = sys_rc system (ui_set fd bit code) >>= λ rc.
    if eq_ℤ rc minus_one
    then give (true, rc, uidev)
    else if type == ev_abs
    then elim uidev [
      | none ↦ set_abs system d fd code >>= λ rc'.
          if not (eq_ℤ rc' (pos 0)) then give (true, rc', none) else next rc' none
      | some u ↦ next rc (some (fill_abs d code u))
    ]
    else next rc uidev

-- The loop over the codes, with the rounds left and the code that is next.
unfoldable pub set_codes :
    System → Libevdev → ℤ → ℕ → UiBit → ℕ → ℕ → ℤ → Option UinputUserDev → M Round
set_codes system d fd type bit zero code rc uidev = give (false, rc, uidev)
set_codes system d fd type bit (suc n) code rc uidev =
    let next = set_codes system d fd type bit n (code + 1) in
    if not (has_event_code d.masks type code)
    then next rc uidev
    else set_code system d fd type bit code uidev next

-- The switch; none is its default.
unfoldable pub uinput_bit : ℕ → Option UiBit
uinput_bit type =
    if type == ev_key
    then some key_bit
    else if type == ev_rel
    then some rel_bit
    else if type == ev_abs
    then some abs_bit
    else if type == ev_msc
    then some msc_bit
    else if type == ev_led
    then some led_bit
    else if type == ev_snd
    then some snd_bit
    else if type == ev_ff
    then some ff_bit
    else if type == ev_sw
    then some sw_bit
    else none

-- One type that the device has; `next` goes on with the loop over the types.
unfoldable pub set_type :
    System
    → Libevdev
    → ℤ
    → ℕ
    → Option UinputUserDev
    → (ℤ → Option UinputUserDev → M Round)
    → M Round
set_type system d fd type uidev next = sys_rc system (ui_set fd ev_bit type) >>= λ rc.
    if eq_ℤ rc minus_one
    then give (true, rc, uidev)
    else if type == ev_rep
    then next rc uidev
    else if eq_ℤ (type_to_mask type).0 minus_one
    then next rc uidev
    else elim (uinput_bit type) [
      | none ↦ set_errno einval >>= λ _. give (true, minus_one, uidev)
      | some bit ↦
          set_codes system d fd type bit (pos_part (type_to_mask type).0 + 1) 0 rc uidev >>= λ r.
          if r.0 then give r else next r.1 r.2
    ]

unfoldable pub set_types : System → Libevdev → ℤ → ℕ → ℕ → ℤ → Option UinputUserDev → M Round
set_types system d fd zero type rc uidev = give (false, rc, uidev)
set_types system d fd (suc n) type rc uidev =
    let next = set_types system d fd n (type + 1) in
    if not (has_event_type d.masks type)
    then next rc uidev
    else set_type system d fd type uidev next

-- `rc`, and `*uidev` if it is not NULL.
unfoldable pub set_evbits :
    System → Libevdev → ℤ → Option UinputUserDev → M (ℤ × Option UinputUserDev)
set_evbits system d fd uidev = set_types system d fd ev_cnt 0 (pos 0) uidev >>= λ r. give (r.1, r.2)

-- The loop of `set_props`.
unfoldable pub set_props_from : System → Libevdev → ℤ → ℕ → ℕ → ℤ → M ℤ
set_props_from system d fd zero prop rc = give rc
set_props_from system d fd (suc n) prop rc =
    let next = set_props_from system d fd n (prop + 1) in
    if not (has_property d.masks prop)
    then next rc
    else (sys_rc system (ui_set fd prop_bit prop) >>= λ rc'.
        if eq_ℤ rc' minus_one
        then (get_errno >>= λ e. give (if e == einval then pos 0 else rc'))
        else next rc')

unfoldable pub set_props : System → Libevdev → ℤ → M ℤ
set_props system d fd = set_props_from system d fd (input_prop_max + 1) 0 (pos 0)

-- `return -errno;`
abbrev pub minus_errno : M ℤ
minus_errno = get_errno >>= λ e. give (neg e)

-- `strncpy` into an array that was cleared; UINPUT_MAX_NAME_SIZE is 80.
abbrev pub cut_name : Libevdev → Text
cut_name d = take 79 (dev_name d)

abbrev pub blank_user_dev : Libevdev → UinputUserDev
blank_user_dev d = record {
  name = cut_name d;
  id = d.ids;
  absmax = replicate abs_cnt (pos 0);
  absmin = replicate abs_cnt (pos 0);
  absfuzz = replicate abs_cnt (pos 0);
  absflat = replicate abs_cnt (pos 0);
}

unfoldable pub uinput_create_write : System → Libevdev → ℤ → M ℤ
uinput_create_write system d fd = set_evbits system d fd (some (blank_user_dev d)) >>= λ r.
    if not (eq_ℤ r.0 (pos 0))
    then minus_errno
    else (set_props system d fd >>= λ rc. if not (eq_ℤ rc (pos 0)) then minus_errno else elim r.1 [
      | none ↦ minus_errno
      | some uidev ↦ sys_rc system (write_user_dev fd uidev) >>= λ rc'.
          if is_neg rc'
          then minus_errno
          else if ltb (to_unsigned rc') user_dev_size
          then (set_errno einval >>= λ _. minus_errno)
          else (set_errno 0 >>= λ _. minus_errno)
    ])

unfoldable pub uinput_create_dev_setup : System → Libevdev → ℤ → M ℤ
uinput_create_dev_setup system d fd = set_evbits system d fd none >>= λ r.
    if not (eq_ℤ r.0 (pos 0))
    then minus_errno
    else (set_props system d fd >>= λ rc.
        if not (eq_ℤ rc (pos 0))
        then minus_errno
        else (let setup : UinputSetup = record {
          id = d.ids;
          name = cut_name d;
          ff_effects_max = if has_event_type d.masks ev_ff then 10 else 0;
        } in
            sys_rc system (ui_dev_setup fd setup) >>= λ rc'.
            if eq_ℤ rc' (pos 0) then (set_errno 0 >>= λ _. minus_errno) else minus_errno))
