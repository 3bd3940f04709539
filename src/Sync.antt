-- ===== src/Sync.antt =====
-- Synchronising the device after lost events (libevdev/libevdev.c): the keys,
-- switches, LEDs and axes.
-- Calls of the log handlers are left out.
pub mod Replay
pub mod Bits
pub mod Safe
pub mod Axes
use android_external_libevde.Base.{
  ℕ, zero, suc, ◌+◌, ◌-◌, ◌/◌, ◌%◌, Bool, true, false, not, ltb, leb, bool_eq, ◌==◌, ◌||◌, ◌&&◌,
  if◌then◌else◌, ℤ, pos, negsuc, minus_one, neg, eq_ℤ, is_neg, Option, none, some, ◌>>=◌, List, [],
  ◌∷◌, set, pos_part,
}
use android_external_libevde.Codes.{
  ev_syn, ev_key, ev_abs, ev_sw, ev_led, syn_report, key_cnt, led_cnt, sw_cnt, abs_x, abs_cnt,
  abs_mt_slot, abs_mt_min, abs_mt_max,
}
use android_external_libevde.Event.{
  Event, AbsInfo, Reply, done, failed, ReadReply, bytes, fault, u16, einval, eagain,
}
use android_external_libevde.Bitfield.{Words, bit_is_set, copy_bytes}
use android_external_libevde.Queue
use android_external_libevde.Queue.{Queue}
use android_external_libevde.Device.{Libevdev, has_event_type, has_event_code, abs_at}
use android_external_libevde.State.{set_abs_value, bit_value}

-- `queue_push_event`, with `init_event`: the time is that of the last event.
unfoldable pub queue_push_event : Libevdev → ℕ → ℕ → ℤ → Libevdev × Bool
queue_push_event d type code value =
    let ev : Event = record {
      sec = d.last_event_time.tv_sec;
      usec = d.last_event_time.tv_usec;
      type = u16 type;
      code = u16 code;
      value = value;
    } in
    let (q, pushed) = Queue.push d.queue ev in (record d { queue = q }, pushed)

-- The loop of `sync_key_state`, `sync_sw_state` and `sync_led_state`: an event for each bit in which
-- the two arrays differ, with the rounds left and the code that is next.
unfoldable pub push_changes : ℕ → Words → Words → ℕ → ℕ → Libevdev → Libevdev
push_changes type old new zero code d = d
push_changes type old new (suc n) code d = push_changes type old new n (code + 1) (
    if bool_eq (bit_is_set old code) (bit_is_set new code)
    then d
    else (queue_push_event d type code (bit_value (bit_is_set new code))).0)

unfoldable pub sync_key_state : Libevdev → Reply Words → Libevdev × ℤ
sync_key_state d (failed errno) = (d, neg errno)
sync_key_state d (done rc keystate) =
    let d1 = push_changes ev_key d.key_values keystate key_cnt 0 d in
    (record d1 { key_values = copy_bytes rc keystate d1.key_values }, pos 0)

unfoldable pub sync_sw_state : Libevdev → Reply Words → Libevdev × ℤ
sync_sw_state d (failed errno) = (d, neg errno)
sync_sw_state d (done rc swstate) =
    let d1 = push_changes ev_sw d.sw_values swstate sw_cnt 0 d in
    (record d1 { sw_values = copy_bytes rc swstate d1.sw_values }, pos 0)

unfoldable pub sync_led_state : Libevdev → Reply Words → Libevdev × ℤ
sync_led_state d (failed errno) = (d, neg errno)
sync_led_state d (done rc ledstate) =
    let d1 = push_changes ev_led d.led_values ledstate led_cnt 0 d in
    (record d1 { led_values = copy_bytes rc ledstate d1.led_values }, pos 0)

-- One round of the loop of `sync_abs_state`: the device, and `errno` if the ioctl failed.
unfoldable pub sync_axis : (ℕ → Reply AbsInfo) → ℕ → Libevdev → Libevdev × Option ℕ
sync_axis abs_state i d =
    if leb abs_mt_min i && leb i abs_mt_max || not (bit_is_set d.masks.abs_bits i)
    then (d, none)
    else elim (abs_state i) [
      | failed errno ↦ (d, some errno)
      | done rc info ↦
          if eq_ℤ (abs_at d i).value info.value
          then (d, none)
          else (set_abs_value (queue_push_event d ev_abs i info.value).0 i info.value, none)
    ]

unfoldable pub sync_axes : (ℕ → Reply AbsInfo) → ℕ → ℕ → Libevdev → Libevdev × ℤ
sync_axes abs_state zero i d = (d, pos 0)
sync_axes abs_state (suc n) i d =
    let (d1, error) = sync_axis abs_state i d in
    elim error [ some errno ↦ (d1, neg errno) | none ↦ sync_axes abs_state n (i + 1) d1 ]

unfoldable pub sync_abs_state : Libevdev → (ℕ → Reply AbsInfo) → Libevdev × ℤ
sync_abs_state d abs_state = sync_axes abs_state abs_cnt abs_x d
