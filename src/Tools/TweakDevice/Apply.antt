-- ===== src/Tools/TweakDevice/Apply.antt =====
-- set_abs, set_led and set_resolution of tools/libevdev-tweak-device.c.
use android_external_libevde.Base.{
  ℕ, bit_and, Bool, not, ◌==◌, if◌then◌else◌, ℤ, pos, eq_ℤ, Option, none, some, ◌>>=◌, List, [],
  ◌∷◌, ◌++◌,
}
use android_external_libevde.Codes.{
  ev_abs, ev_led, abs_x, abs_y, abs_mt_position_x, abs_mt_position_y,
}
use android_external_libevde.Event.{AbsInfo, Text, Reply}
use android_external_libevde.Device.{Libevdev, has_event_code, get_abs_info}
use android_external_libevde.Device.Fields.{StringField, get_string}
use android_external_libevde.Names.{NameMaps, event_code_get_name}
use android_external_libevde.Requests.{kernel_set_abs_info, kernel_set_led_value, led_on, led_off}
use android_external_libevde.Tools.TweakDevice.{opt_min, opt_max, opt_fuzz, opt_flat, opt_res}

-- What the functions say on stderr: the device or the code has no name where it is NULL.
pub data Complaint : Type 0 where
  no_axis : Option Text → Option Text → Complaint
  abs_refused : Option Text → ℤ → Complaint
  no_led : Option Text → Option Text → Complaint
  led_refused : Option Text → ℤ → Complaint

-- What the system gives to them: the memory, and what the kernel answers to the request for an axis
-- and to `write`.
pub record Requested : Type 0 where
  pub can : ℕ → Bool
  pub set_axis : ℕ → Reply (Unit {0})
  pub write : Reply (Unit {0})

-- `if (changes & flag)`
abbrev pub asks : ℕ → ℕ → Bool
asks changes flag = not (bit_and changes flag == 0)

-- The axis with the changes that were asked for.
unfoldable pub changed_abs : ℕ → AbsInfo → AbsInfo → AbsInfo
changed_abs changes old new = record old {
  minimum = if asks changes opt_min then new.minimum else old.minimum;
  maximum = if asks changes opt_max then new.maximum else old.maximum;
  fuzz = if asks changes opt_fuzz then new.fuzz else old.fuzz;
  flat = if asks changes opt_flat then new.flat else old.flat;
  resolution = if asks changes opt_res then new.resolution else old.resolution;
}

-- `led_state ? LIBEVDEV_LED_ON : LIBEVDEV_LED_OFF`
abbrev pub led_value : ℤ → ℕ
led_value led_state = if eq_ℤ led_state (pos 0) then led_off else led_on

module _ (sys : Requested) (maps : NameMaps) where
  -- set_abs: the device and the complaints; `none` is a fault of the library.
  unfoldable pub set_abs : Libevdev → ℕ → ℕ → AbsInfo → Option (Libevdev × List Complaint)
  unfolding changed_abs
  set_abs d changes axis absinfo =
      let name = event_code_get_name maps ev_abs axis in
      elim (get_abs_info d axis) [
        | none ↦ some (d, no_axis (get_string StringField.name d) name ∷ [])
        | some a ↦
            kernel_set_abs_info sys.can d axis (changed_abs changes a absinfo) (sys.set_axis axis)
            >>= λ r. some (r.0, if not (eq_ℤ r.1 (pos 0)) then abs_refused name r.1 ∷ [] else [])
      ]

  -- set_led
  unfoldable pub set_led : Libevdev → ℕ → ℤ → Option (Libevdev × List Complaint)
  set_led d led led_state =
      let name = event_code_get_name maps ev_led led in
      let request = kernel_set_led_value d (pos led) (led_value led_state) sys.write in
      if not (has_event_code d.masks ev_led led)
      then some (d, no_led (get_string StringField.name d) name ∷ [])
      else (request >>= λ r.
          some (r.0, if not (eq_ℤ r.1 (pos 0)) then led_refused name r.1 ∷ [] else []))

  -- One of the four cases of set_resolution: the complaints come behind those that were said.
  unfoldable pub set_axis_resolution :
      ℕ → AbsInfo → Libevdev × List Complaint → Option (Libevdev × List Complaint)
  unfolding set_abs
  set_axis_resolution axis absinfo (d, said) =
      let request = set_abs d opt_res axis absinfo in
      if has_event_code d.masks ev_abs axis
      then (request >>= λ r. some (r.0, said ++ r.1))
      else some (d, said)

  -- set_resolution; `local` is the variable `abs`, of which only the resolution is set.
  unfoldable pub set_resolution : AbsInfo → Libevdev → ℤ → ℤ → Option (Libevdev × List Complaint)
  unfolding set_axis_resolution
  set_resolution local d xres yres =
      let x = record local { resolution = xres } in
      let y = record local { resolution = yres } in
      set_axis_resolution abs_x x (d, [])
      >>= set_axis_resolution abs_mt_position_x x
      >>= set_axis_resolution abs_y y
      >>= set_axis_resolution abs_mt_position_y y
