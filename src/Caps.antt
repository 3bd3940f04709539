-- ===== src/Caps.antt =====
-- Enabling and disabling event types and codes (libevdev/libevdev.c).
pub mod Masks
use android_external_libevde.Base.{
  ℕ, Bool, true, false, not, ltb, ◌==◌, ◌||◌, if◌then◌else◌, ℤ, pos, minus_one, eq_ℤ, to_unsigned,
  Option, none, some, ◌>>=◌, set,
}
use android_external_libevde.Codes.{
  ev_syn, ev_abs, ev_rep, ev_max_type, rep_delay, rep_period, abs_mt_slot, abs_mt_tracking_id,
  event_type_get_max,
}
use android_external_libevde.Event.{AbsInfo}
use android_external_libevde.Bitfield.{set_bit, clear_bit}
use android_external_libevde.Device.{
  Libevdev, Mask, get_mask, set_mask, type_to_mask, has_event_type,
}
use android_external_libevde.Slots.{init_slots, reset_tracking_ids}

-- The argument `const void *data`: NULL, an axis or a number. C reads the one that the type asks for;
-- another one there is a fault.
pub data EventData : Type 0 where
  no_data : EventData
  abs_data : AbsInfo → EventData
  int_data : ℤ → EventData

abbrev pub is_null : EventData → Bool
is_null no_data = true
is_null (abs_data a) = false
is_null (int_data v) = false

-- What libevdev_enable_event_code does once the bit is set.
unfoldable pub store_data : (ℕ → Bool) → Libevdev → ℕ → ℕ → EventData → Option (Libevdev × ℤ)
store_data can d type code data' =
    if type == ev_abs
    then elim data' [
      | abs_data a ↦
          let d1 = record d { abs_info = set d.abs_info code a } in
          if code == abs_mt_slot
          then (init_slots can d1 >>= λ r.
              some (r.0, if eq_ℤ r.1 (pos 0) then pos 0 else minus_one))
          else if code == abs_mt_tracking_id
          then (reset_tracking_ids d1 >>= λ d2. some (d2, pos 0))
          else some (d1, pos 0)
      | _ ↦ none
    ]
    else if type == ev_rep
    then elim data' [
      | int_data v ↦ some (record d { rep_values = set d.rep_values code v }, pos 0)
      | _ ↦ none
    ]
    else some (d, pos 0)

-- libevdev_enable_event_code after its call of libevdev_enable_event_type.
unfoldable pub enable_code : (ℕ → Bool) → Libevdev → ℕ → ℕ → EventData → Option (Libevdev × ℤ)
enable_code can d type code data' =
    if type == ev_syn
    then some (d, pos 0)
    else if (if type == ev_abs || type == ev_rep then is_null data' else not (is_null data'))
    then some (d, minus_one)
    else (let (max, mask) = type_to_mask type in
        if ltb (to_unsigned max) code || eq_ℤ max minus_one
        then some (d, minus_one)
        else elim mask [
          | none ↦ none
          | some k ↦
              store_data can
                (record d { masks = set_mask k (set_bit (get_mask k d.masks) code) d.masks }) type
                code data'
        ])

abbrev pub set_type_bit : Libevdev → ℕ → Libevdev
set_type_bit d type = record d { masks = record d.masks { bits = set_bit d.masks.bits type } }

-- libevdev_enable_event_type. Its two calls of libevdev_enable_event_code find EV_REP enabled, so
-- they go on at `enable_code`.
unfoldable pub enable_event_type : (ℕ → Bool) → Libevdev → ℕ → Option (Libevdev × ℤ)
enable_event_type can d type =
    if ltb ev_max_type type
    then some (d, minus_one)
    else if has_event_type d.masks type
    then some (d, pos 0)
    else if eq_ℤ (event_type_get_max type) minus_one
    then some (d, minus_one)
    else if type == ev_rep
    then (enable_code can (set_type_bit d type) ev_rep rep_delay (int_data (pos 0)) >>= λ r.
        enable_code can r.0 ev_rep rep_period (int_data (pos 0)) >>= λ r'. some (r'.0, pos 0))
    else some (set_type_bit d type, pos 0)

-- libevdev_enable_event_code
unfoldable pub enable_event_code : (ℕ → Bool) → Libevdev → ℕ → ℕ → EventData → Option (Libevdev × ℤ)
enable_event_code can d type code data' = enable_event_type can d type >>= λ r.
    if eq_ℤ r.1 (pos 0) then enable_code can r.0 type code data' else some (r.0, minus_one)

-- libevdev_disable_event_type
unfoldable pub disable_event_type : Libevdev → ℕ → Libevdev × ℤ
disable_event_type d type =
    if ltb ev_max_type type || type == ev_syn
    then (d, minus_one)
    else if eq_ℤ (event_type_get_max type) minus_one
    then (d, minus_one)
    else (record d { masks = record d.masks { bits = clear_bit d.masks.bits type } }, pos 0)

-- What libevdev_disable_event_code does once the bit is cleared.
unfoldable pub drop_data : (ℕ → Bool) → Libevdev → ℕ → ℕ → Option (Libevdev × ℤ)
drop_data can d type code =
    if type == ev_abs
    then (if code == abs_mt_slot
        then (init_slots can d >>= λ r. some (r.0, if eq_ℤ r.1 (pos 0) then pos 0 else minus_one))
        else if code == abs_mt_tracking_id
        then (reset_tracking_ids d >>= λ d2. some (d2, pos 0))
        else some (d, pos 0))
    else some (d, pos 0)

-- libevdev_disable_event_code
unfoldable pub disable_event_code : (ℕ → Bool) → Libevdev → ℕ → ℕ → Option (Libevdev × ℤ)
disable_event_code can d type code =
    if ltb ev_max_type type || type == ev_syn
    then some (d, minus_one)
    else (let (max, mask) = type_to_mask type in
        if ltb (to_unsigned max) code || eq_ℤ max minus_one
        then some (d, minus_one)
        else elim mask [
          | none ↦ none
          | some k ↦
              drop_data can
                (record d { masks = set_mask k (clear_bit (get_mask k d.masks) code) d.masks }) type
                code
        ])
