-- ===== src/Device.antt =====
-- `struct libevdev` (libevdev/libevdev-int.h) and the questions that libevdev/libevdev.c answers of
-- it: which event types and codes it has.
pub mod Fields
use android_external_libevde.Base.{
  ℕ, Bool, true, false, not, ltb, ◌==◌, ◌&&◌, ◌||◌, if◌then◌else◌, ℤ, minus_one, eq_ℤ, is_neg,
  to_unsigned, Option, none, some, List, get_or, pos, ◌≡◌, arith,
}
use android_external_libevde.Codes.{
  ev_syn, ev_key, ev_rel, ev_abs, ev_msc, ev_sw, ev_led, ev_snd, ev_rep, ev_ff, ev_max_type, ev_cnt,
  input_prop_max, event_type_get_max,
}
use android_external_libevde.Event.{Event, AbsInfo, InputId, TimeVal, Text}
use android_external_libevde.Bitfield.{Words, bit_is_set}
use android_external_libevde.Queue.{Queue}

pub data SyncState : Type 0 where
  sync_none sync_needed sync_in_progress : SyncState

-- LIBEVDEV_GRAB and LIBEVDEV_UNGRAB.
pub data GrabMode : Type 0 where
  grab ungrab : GrabMode

-- `struct logdata`. A handler and the user data are pointers that are only passed on: numbers,
-- with `none` for NULL.
pub record LogData : Type 0 where
  pub priority : ℕ
  pub global_handler : Option ℕ
  pub device_handler : Option ℕ
  pub userdata : Option ℕ

-- The bit masks of what the device has.
pub record Masks : Type 0 where
  pub bits : Words
  pub props : Words
  pub key_bits : Words
  pub rel_bits : Words
  pub abs_bits : Words
  pub led_bits : Words
  pub msc_bits : Words
  pub sw_bits : Words
  pub rep_bits : Words
  pub ff_bits : Words
  pub snd_bits : Words

pub record Libevdev : Type 0 where
  pub fd : ℤ
  pub initialized : Bool
  pub name : Option Text
  pub phys : Option Text
  pub uniq : Option Text
  pub ids : InputId
  pub driver_version : ℤ
  pub masks : Masks
  pub open masks use *
  pub key_values : Words
  pub led_values : Words
  pub sw_values : Words
  pub abs_info : List AbsInfo
  pub mt_slot_vals : Option (List ℤ)
  pub num_slots : ℤ
  pub current_slot : ℤ
  pub rep_values : List ℤ
  pub sync_state : SyncState
  pub grabbed : GrabMode
  pub queue : Queue
  pub queue_nsync : ℕ
  pub last_event_time : TimeVal
  pub log : LogData

-- The arrays that `type_to_mask` points into.
pub data Mask : Type 0 where
  abs rel key led msc sw ff rep snd : Mask

unfoldable pub mask_of : ℕ → Option Mask
mask_of type =
    if type == ev_abs
    then some Mask.abs
    else if type == ev_rel
    then some Mask.rel
    else if type == ev_key
    then some Mask.key
    else if type == ev_led
    then some Mask.led
    else if type == ev_msc
    then some Mask.msc
    else if type == ev_sw
    then some Mask.sw
    else if type == ev_ff
    then some Mask.ff
    else if type == ev_rep
    then some Mask.rep
    else if type == ev_snd
    then some Mask.snd
    else none

-- `type_to_mask` and `type_to_mask_const`: the highest code, beside the array if there is one.
unfoldable pub type_to_mask : ℕ → ℤ × Option Mask
unfolding mask_of event_type_get_max
type_to_mask type = elim (mask_of type) [
  | none ↦ (minus_one, none)
  | some m ↦ (event_type_get_max type, some m)
]

-- Reading and writing through the pointer `mask`.
abbrev pub get_mask : Mask → Masks → Words
get_mask Mask.abs m = m.abs_bits
get_mask Mask.rel m = m.rel_bits
get_mask Mask.key m = m.key_bits
get_mask Mask.led m = m.led_bits
get_mask Mask.msc m = m.msc_bits
get_mask Mask.sw m = m.sw_bits
get_mask Mask.ff m = m.ff_bits
get_mask Mask.rep m = m.rep_bits
get_mask Mask.snd m = m.snd_bits

abbrev pub set_mask : Mask → Words → Masks → Masks
set_mask Mask.abs w m = record m { abs_bits = w }
set_mask Mask.rel w m = record m { rel_bits = w }
set_mask Mask.key w m = record m { key_bits = w }
set_mask Mask.led w m = record m { led_bits = w }
set_mask Mask.msc w m = record m { msc_bits = w }
set_mask Mask.sw w m = record m { sw_bits = w }
set_mask Mask.ff w m = record m { ff_bits = w }
set_mask Mask.rep w m = record m { rep_bits = w }
set_mask Mask.snd w m = record m { snd_bits = w }

-- libevdev_has_property
unfoldable pub has_property : Masks → ℕ → Bool
has_property m prop = if ltb input_prop_max prop then false else bit_is_set m.props prop

-- libevdev_has_event_type
unfoldable pub has_event_type : Masks → ℕ → Bool
has_event_type m type =
    if type == ev_syn then true else if ltb ev_max_type type then false else bit_is_set m.bits type

-- libevdev_has_event_code
unfoldable pub has_event_code : Masks → ℕ → ℕ → Bool
unfolding has_event_type type_to_mask
has_event_code m type code =
    if not (has_event_type m type)
    then false
    else if type == ev_syn
    then true
    else (let (max, mask) = type_to_mask type in
        if eq_ℤ max minus_one || ltb (to_unsigned max) code
        then false
        else elim mask [ none ↦ false | some k ↦ bit_is_set (get_mask k m) code ])

-- libevdev_event_is_type
unfoldable pub event_is_type : Event → ℕ → Bool
event_is_type ev type = ltb type ev_cnt && ev.type == type

-- libevdev_event_is_code
unfoldable pub event_is_code : Event → ℕ → ℕ → Bool
unfolding event_is_type event_type_get_max
event_is_code ev type code =
    if not (event_is_type ev type)
    then false
    else (let max = event_type_get_max type in
        not (is_neg max) && not (ltb (to_unsigned max) code) && ev.code == code)

abbrev pub blank_abs : AbsInfo
blank_abs = record {
  value = pos 0;
  minimum = pos 0;
  maximum = pos 0;
  fuzz = pos 0;
  flat = pos 0;
  resolution = pos 0;
}

-- `dev->abs_info[code]`, for a code that the callers have checked.
abbrev pub abs_at : Libevdev → ℕ → AbsInfo
abs_at d code = get_or d.abs_info code blank_abs

-- libevdev_get_abs_info: NULL, or what the pointer shows.
unfoldable pub get_abs_info : Libevdev → ℕ → Option AbsInfo
unfolding has_event_type has_event_code
get_abs_info d code =
    if not (has_event_type d.masks ev_abs) || not (has_event_code d.masks ev_abs code)
    then none
    else some (abs_at d code)

pub get_abs_info_lem :
    (d : Libevdev) (code : ℕ)
    → has_event_code d.masks ev_abs code ≡ true
    → get_abs_info d code ≡ some (abs_at d code)
unfolding get_abs_info has_event_code
get_abs_info_lem d code has = ground (arith, has)
