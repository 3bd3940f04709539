-- ===== src/Uinput.antt =====
-- Virtual devices (libevdev/libevdev-uinput.c and libevdev-uinput-int.h): the system calls that the
-- library makes, in order. What the system answers is a parameter: a function of the calls so far.
pub mod Setup
pub mod Syspath
pub mod Create
pub mod Closing
pub mod Scanning
pub mod Release
pub mod Whole
pub mod Told
pub mod Sent
use android_external_libevde.Base.{
  ℕ, ◌+◌, Bool, true, false, if◌then◌else◌, ltb, ◌==◌, ◌||◌, ℤ, pos, minus_one, neg, eq_ℤ,
  to_unsigned, is_neg, Option, none, some, List, [], ◌∷◌,
}
use android_external_libevde.Codes.{ev_max_type, event_type_get_max}
use android_external_libevde.Event.{Event, AbsInfo, InputId, Text, u16, einval}

-- The ioctls that take one number, UI_SET_EVBIT to UI_SET_SWBIT and UI_SET_PROPBIT.
pub data UiBit : Type 0 where
  ev_bit key_bit rel_bit abs_bit msc_bit led_bit snd_bit ff_bit sw_bit prop_bit : UiBit

-- `struct uinput_setup`
pub record UinputSetup : Type 0 where
  pub id : InputId
  pub name : Text
  pub ff_effects_max : ℕ

-- `struct uinput_user_dev`; its `ff_effects_max` stays 0.
pub record UinputUserDev : Type 0 where
  pub name : Text
  pub id : InputId
  pub absmax : List ℤ
  pub absmin : List ℤ
  pub absfuzz : List ℤ
  pub absflat : List ℤ

-- `sizeof(struct uinput_user_dev)`
abbrev pub user_dev_size : ℕ
user_dev_size = 1116

pub data SysCall : Type 0 where
  open_uinput : SysCall
  ui_set : ℤ → UiBit → ℕ → SysCall
  ui_abs_setup : ℤ → ℕ → AbsInfo → SysCall
  ui_dev_setup : ℤ → UinputSetup → SysCall
  write_user_dev : ℤ → UinputUserDev → SysCall
  ui_get_version : ℤ → SysCall
  ui_dev_create : ℤ → SysCall
  ui_dev_destroy : ℤ → SysCall
  ui_get_sysname : ℤ → ℕ → SysCall
  write_event : ℤ → Event → SysCall
  open_name : Text → SysCall
  fstat : ℤ → SysCall
  read_name : ℤ → ℕ → SysCall
  close : ℤ → SysCall
  time : SysCall

-- -1 with `errno`, or the return value beside the number or the text that the call fills in: `fstat`
-- gives the time `st_ctime`, and `read` the bytes.
pub data Answer : Type 0 where
  refused : ℕ → Answer
  done : ℕ → ℕ → Text → Answer

abbrev pub rc_of : Answer → ℤ
rc_of (refused errno) = minus_one
rc_of (done rc n t) = pos rc

abbrev pub errno_after : ℕ → Answer → ℕ
errno_after old (refused errno) = errno
errno_after old (done rc n t) = old

-- The calls made, the last one first, and `errno`.
pub record Session : Type 0 where
  pub calls : List SysCall
  pub errno : ℕ

abbrev pub System : Type 0
System = List SysCall → SysCall → Answer

abbrev pub M : Type 0 → Type 0
M A = Session → A × Session

infixl 5 ◌>>=◌
abbrev pub ◌>>=◌ : {A B : Type 0} → M A → (A → M B) → M B
◌>>=◌ m f s = f (m s).0 (m s).1

abbrev pub give : {A : Type 0} → A → M A
give a s = (a, s)

abbrev pub get_errno : M ℕ
get_errno s = (s.errno, s)

abbrev pub set_errno : ℕ → M (Unit {0})
set_errno e s = (tt, record s { errno = e })

abbrev pub sys : System → SysCall → M Answer
sys system c s = (
  system s.calls c,
  record s { calls = c ∷ s.calls; errno = errno_after s.errno (system s.calls c) },
)

-- A call of which only the return value matters.
abbrev pub sys_rc : System → SysCall → M ℤ
sys_rc system c = sys system c >>= λ a. give (rc_of a)

-- `struct libevdev_uinput`; `ctime` are its two times.
pub record LibevdevUinput : Type 0 where
  pub fd : ℤ
  pub fd_is_managed : Bool
  pub name : Option Text
  pub syspath : Option Text
  pub devnode : Option Text
  pub ctime : ℕ × ℕ

-- libevdev_uinput_get_fd, _get_syspath and _get_devnode
unfoldable pub uinput_get_fd : LibevdevUinput → ℤ
uinput_get_fd u = u.fd

unfoldable pub uinput_get_syspath : LibevdevUinput → Option Text
uinput_get_syspath u = u.syspath

unfoldable pub uinput_get_devnode : LibevdevUinput → Option Text
uinput_get_devnode u = u.devnode

-- libevdev_uinput_write_event
unfoldable pub uinput_write_event : System → LibevdevUinput → ℕ → ℕ → ℤ → M ℤ
uinput_write_event system u type code value =
    let ev : Event = record {
      sec = pos 0;
      usec = pos 0;
      type = u16 type;
      code = u16 code;
      value = value;
    } in
    let max = event_type_get_max type in
    if ltb ev_max_type type
    then give (neg einval)
    else if eq_ℤ max minus_one || ltb (to_unsigned max) code
    then give (neg einval)
    else (sys_rc system (write_event (uinput_get_fd u) ev) >>= λ rc.
        get_errno >>= λ e. give (if is_neg rc then neg e else pos 0))
