-- ===== src/State.antt =====
-- The device state of libevdev/libevdev.c under events: what an event changes (`update_state`), which
-- events are dropped or mended (`sanitize_event`), and the values a caller reads and writes.
pub mod Safe
pub mod Whole
pub mod Filter
pub mod Values
pub mod Taken
use android_external_libevde.Base.{
  ℕ, zero, suc, ◌+◌, Bool, true, false, not, ltb, leb, ◌==◌, ◌||◌, ◌&&◌, if◌then◌else◌, ℤ, pos,
  minus_one, eq_ℤ, lt_ℤ, is_neg, pred_ℤ, Option, none, some, ◌>>=◌, get_or, set,
}
use android_external_libevde.Codes.{
  ev_syn, ev_key, ev_rel, ev_abs, ev_sw, ev_led, ev_rep, key_max, abs_max, sw_max, led_max,
  rep_delay, rep_period, abs_mt_slot, abs_mt_tracking_id, abs_mt_min, abs_mt_max,
}
use android_external_libevde.Event.{Event, u16}
use android_external_libevde.Bitfield.{bit_is_set, set_bit_state}
use android_external_libevde.Device.{
  Libevdev, SyncState, sync_none, sync_needed, sync_in_progress, has_event_type, has_event_code,
  event_is_code, abs_at,
}
use android_external_libevde.Slots.{slot_value, set_slot_cell}

-- `dev->abs_info[code].value = v`
unfoldable pub set_abs_value : Libevdev → ℕ → ℤ → Libevdev
set_abs_value d code v = record d {
  abs_info = set d.abs_info code (record (abs_at d code) { value = v });
}

-- `e->value != 0`
abbrev pub is_on : Event → Bool
is_on e = not (eq_ℤ e.value (pos 0))

unfoldable pub update_key_state : Libevdev → Event → Libevdev × ℕ
update_key_state d e =
    if not (has_event_type d.masks ev_key)
    then (d, 1)
    else if ltb key_max e.code
    then (d, 1)
    else (record d { key_values = set_bit_state d.key_values e.code (is_on e) }, 0)

unfoldable pub update_led_state : Libevdev → Event → Libevdev × ℕ
update_led_state d e =
    if not (has_event_type d.masks ev_led)
    then (d, 1)
    else if ltb led_max e.code
    then (d, 1)
    else (record d { led_values = set_bit_state d.led_values e.code (is_on e) }, 0)

unfoldable pub update_sw_state : Libevdev → Event → Libevdev × ℕ
update_sw_state d e =
    if not (has_event_type d.masks ev_sw)
    then (d, 1)
    else if ltb sw_max e.code
    then (d, 1)
    else (record d { sw_values = set_bit_state d.sw_values e.code (is_on e) }, 0)

-- The loop of `update_mt_state` that loads the values of the current slot: the rounds left and the
-- axis that is next.
unfoldable pub load_slot : ℕ → ℕ → Libevdev → Option Libevdev
load_slot zero axis d = some d
load_slot (suc n) axis d =
    (if has_event_code d.masks ev_abs axis
      then (slot_value d d.current_slot axis >>= λ v. some (set_abs_value d axis v))
      else some d)
    >>= load_slot n (axis + 1)

unfoldable pub update_mt_state : Libevdev → Event → Option (Libevdev × ℕ)
update_mt_state d e =
    if e.code == abs_mt_slot && not (is_neg d.num_slots)
    then (load_slot 14 (abs_mt_slot + 1) (record d { current_slot = e.value }) >>= λ d'.
        some (d', 0))
    else if eq_ℤ d.current_slot minus_one
    then some (d, 1)
    else (set_slot_cell d d.current_slot e.code e.value >>= λ d'. some (d', 0))

unfoldable pub update_abs_state : Libevdev → Event → Option (Libevdev × ℕ)
update_abs_state d e =
    if not (has_event_type d.masks ev_abs)
    then some (d, 1)
    else if ltb abs_max e.code
    then some (d, 1)
    else ((if leb abs_mt_min e.code && leb e.code abs_mt_max
          then update_mt_state d e
          else some (d, 0))
        >>= λ r. some (set_abs_value r.0 e.code e.value, 0))

-- The switch of `update_state`.
unfoldable pub update_values : Libevdev → Event → Option (Libevdev × ℕ)
update_values d e =
    if e.type == ev_key
    then some (update_key_state d e)
    else if e.type == ev_abs
    then update_abs_state d e
    else if e.type == ev_led
    then some (update_led_state d e)
    else if e.type == ev_sw
    then some (update_sw_state d e)
    else some (d, 0)

unfoldable pub update_state : Libevdev → Event → Option (Libevdev × ℕ)
update_state d e = update_values d e >>= λ r.
    some (record r.0 { last_event_time = record { tv_sec = e.sec; tv_usec = e.usec } }, r.1)

-- enum event_filter_status
pub data FilterStatus : Type 0 where
  filter_none filter_modified filter_discard : FilterStatus

abbrev pub is_discard : FilterStatus → Bool
is_discard filter_none = false
is_discard filter_modified = false
is_discard filter_discard = true

abbrev pub is_sync_none : SyncState → Bool
is_sync_none sync_none = true
is_sync_none sync_needed = false
is_sync_none sync_in_progress = false

-- The last test of `sanitize_event`: a tracking ID that ends no touch, or starts a second one. C
-- reads the slot only where the tests before it hold.
unfoldable pub is_double_tracking_id : Libevdev → Event → SyncState → Option Bool
is_double_tracking_id d ev state =
    if is_sync_none state && not (is_neg d.num_slots) && event_is_code ev ev_abs abs_mt_tracking_id
    then (slot_value d d.current_slot abs_mt_tracking_id >>= λ old.
        some (if eq_ℤ ev.value minus_one then eq_ℤ old minus_one else not (eq_ℤ old minus_one)))
    else some false

-- The status and the event, which the filter may have changed.
unfoldable pub sanitize_event : Libevdev → Event → SyncState → Option (FilterStatus × Event)
sanitize_event d ev state =
    if not (has_event_code d.masks ev.type ev.code)
    then some (filter_discard, ev)
    else if not (is_neg d.num_slots)
        && event_is_code ev ev_abs abs_mt_slot
        && (is_neg ev.value || not (lt_ℤ ev.value d.num_slots))
    then some (filter_modified, record ev { value = pred_ℤ d.num_slots })
    else (is_double_tracking_id d ev state >>= λ double.
        some (if double then filter_discard else filter_none, ev))

-- libevdev_get_repeat: -1, or 0 with the delay and the period.
unfoldable pub get_repeat : Libevdev → ℤ × ℤ × ℤ
get_repeat d =
    if not (has_event_type d.masks ev_rep)
    then (minus_one, pos 0, pos 0)
    else (pos 0, get_or d.rep_values rep_delay (pos 0), get_or d.rep_values rep_period (pos 0))

abbrev pub bit_value : Bool → ℤ
bit_value b = if b then pos 1 else pos 0

-- libevdev_get_event_value
unfoldable pub get_event_value : Libevdev → ℕ → ℕ → ℤ
get_event_value d type code =
    if not (has_event_type d.masks type) || not (has_event_code d.masks type code)
    then pos 0
    else if type == ev_abs
    then (abs_at d code).value
    else if type == ev_key
    then bit_value (bit_is_set d.key_values code)
    else if type == ev_led
    then bit_value (bit_is_set d.led_values code)
    else if type == ev_sw
    then bit_value (bit_is_set d.sw_values code)
    else if type == ev_rep
    then (if code == rep_delay
        then (get_repeat d).1
        else if code == rep_period
        then (get_repeat d).2
        else pos 0)
    else pos 0

-- libevdev_fetch_event_value
unfoldable pub fetch_event_value : Libevdev → ℕ → ℕ → ℕ × Option ℤ
fetch_event_value d type code =
    if has_event_type d.masks type && has_event_code d.masks type code
    then (1, some (get_event_value d type code))
    else (0, none)

-- The switch of libevdev_set_event_value.
unfoldable pub set_value_by_type : Libevdev → ℕ → Event → Option (Libevdev × ℤ)
set_value_by_type d type e =
    if type == ev_abs
    then (update_abs_state d e >>= λ r. some (r.0, pos r.1))
    else if type == ev_key
    then (let (d', rc) = update_key_state d e in some (d', pos rc))
    else if type == ev_led
    then (let (d', rc) = update_led_state d e in some (d', pos rc))
    else if type == ev_sw
    then (let (d', rc) = update_sw_state d e in some (d', pos rc))
    else some (d, minus_one)

-- libevdev_set_event_value. The time of the local event is not set, nor read.
unfoldable pub set_event_value : Libevdev → ℕ → ℕ → ℤ → Option (Libevdev × ℤ)
set_event_value d type code value =
    if not (has_event_type d.masks type) || not (has_event_code d.masks type code)
    then some (d, minus_one)
    else (let e : Event = record {
      sec = pos 0;
      usec = pos 0;
      type = u16 type;
      code = u16 code;
      value = value;
    } in
        sanitize_event d e sync_none >>= λ r. elim r.0 [
          | filter_none ↦ set_value_by_type d type r.1
          | _ ↦ some (d, minus_one)
        ])
