-- ===== src/Requests.antt =====
-- The calls that change the kernel's side of a device (libevdev/libevdev.c): grabbing it, its axes,
-- its clock and its LEDs.
pub mod Leds
use android_external_libevde.Base.{
  ℕ, zero, suc, ◌+◌, Bool, true, false, not, ltb, ◌==◌, ◌||◌, ◌&&◌, if◌then◌else◌, ℤ, pos,
  minus_one, neg, eq_ℤ, lt_ℤ, is_neg, to_unsigned, Option, none, some, ◌>>=◌, List, [], ◌∷◌, ◌++◌,
  length,
}
use android_external_libevde.Codes.{ev_syn, ev_led, ev_abs, syn_report, led_max, abs_max}
use android_external_libevde.Event.{Event, AbsInfo, Reply, done, failed, u16, ebadf, einval}
use android_external_libevde.Device.{Libevdev, GrabMode, grab, ungrab, has_event_code}
use android_external_libevde.State.{update_led_state}
use android_external_libevde.Caps.{abs_data, enable_event_code}

abbrev pub grab_value : ℕ
grab_value = 3

abbrev pub ungrab_value : ℕ
ungrab_value = 4

abbrev pub grab_mode : GrabMode → ℕ
grab_mode grab = grab_value
grab_mode ungrab = ungrab_value

-- libevdev_grab: the argument is any value of the enum's type.
unfoldable pub grab_device : Libevdev → ℕ → Reply (Unit {0}) → Libevdev × ℤ
grab_device d mode reply =
    if not d.initialized
    then (d, neg ebadf)
    else if is_neg d.fd
    then (d, neg ebadf)
    else if not (mode == grab_value) && not (mode == ungrab_value)
    then (d, neg einval)
    else if mode == grab_mode d.grabbed
    then (d, pos 0)
    else elim reply [
      | failed errno ↦ (d, neg errno)
      | done rc u ↦ (
        if rc == 0 then record d { grabbed = if mode == grab_value then grab else ungrab } else d,
        pos 0,
      )
    ]

-- libevdev_set_clock_id
unfoldable pub set_clock_id : Libevdev → Reply (Unit {0}) → ℤ
set_clock_id d reply =
    if not d.initialized
    then neg ebadf
    else if is_neg d.fd
    then neg ebadf
    else elim reply [ failed errno ↦ neg errno | done rc u ↦ pos 0 ]

-- libevdev_kernel_set_abs_info
unfoldable pub kernel_set_abs_info :
    (ℕ → Bool) → Libevdev → ℕ → AbsInfo → Reply (Unit {0}) → Option (Libevdev × ℤ)
kernel_set_abs_info can d code info reply =
    if not d.initialized
    then some (d, neg ebadf)
    else if is_neg d.fd
    then some (d, neg ebadf)
    else if ltb abs_max code
    then some (d, neg einval)
    else elim reply [
      | failed errno ↦ some (d, neg errno)
      | done rc u ↦ enable_event_code can d ev_abs code (abs_data info)
    ]

abbrev pub led_on : ℕ
led_on = 3

abbrev pub led_off : ℕ
led_off = 4

-- The event of `code` gets the value, or a new one is added behind the others.
unfoldable pub put_led : List Event → ℕ → ℤ → List Event
put_led [] code value =
    record { sec = pos 0; usec = pos 0; type = ev_led; code = u16 code; value = value } ∷ []
put_led (e ∷ evs) code value =
    if e.code == code then record e { value = value } ∷ evs else e ∷ put_led evs code value

-- The loop over the arguments, up to the code -1: the events, and whether one was refused.
unfoldable pub collect_leds : Libevdev → List (ℤ × ℕ) → List Event → List Event × Bool
collect_leds d [] evs = (evs, true)
collect_leds d ((code, val) ∷ args) evs =
    let rest = collect_leds d args (
      if has_event_code d.masks ev_led (to_unsigned code)
      then put_led evs (to_unsigned code) (if val == led_on then pos 1 else pos 0)
      else evs) in
    if eq_ℤ code minus_one
    then (evs, true)
    else if lt_ℤ (pos led_max) code
    then (evs, false)
    else if not (val == led_on) && not (val == led_off)
    then (evs, false)
    else rest

-- The updates after a write, the last event first.
unfoldable pub update_leds : Libevdev → List Event → Libevdev
update_leds d [] = d
update_leds d (e ∷ evs) = (update_led_state (update_leds d evs) e).0

-- libevdev_kernel_set_led_values: the device, `rc` and the events that go to `write`. `none` is the
-- SYN_REPORT behind the end of the array `ev[LED_MAX + 1]`.
unfoldable pub kernel_set_led_values :
    Libevdev → List (ℤ × ℕ) → Reply (Unit {0}) → Option (Libevdev × ℤ × List Event)
kernel_set_led_values d args reply =
    if not d.initialized
    then some (d, neg ebadf, [])
    else if is_neg d.fd
    then some (d, neg ebadf, [])
    else (let (evs, accepted) = collect_leds d args [] in
        if not accepted
        then some (d, neg einval, [])
        else if length evs == 0
        then some (d, pos 0, [])
        else if ltb led_max (length evs)
        then none
        else (let report : Event = record {
          sec = pos 0;
          usec = pos 0;
          type = ev_syn;
          code = syn_report;
          value = pos 0;
        } in
            elim reply [
              | failed errno ↦ some (d, neg errno, evs ++ (report ∷ []))
              | done rc u ↦
                  some (if ltb 0 rc then update_leds d evs else d, pos 0, evs ++ (report ∷ []))
            ]))

-- libevdev_kernel_set_led_value
unfoldable pub kernel_set_led_value :
    Libevdev → ℤ → ℕ → Reply (Unit {0}) → Option (Libevdev × ℤ × List Event)
kernel_set_led_value d code val reply =
    kernel_set_led_values d ((code, val) ∷ (minus_one, 0) ∷ []) reply
