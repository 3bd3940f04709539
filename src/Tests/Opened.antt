-- ===== src/Tests/Opened.antt =====
-- Opening a touch screen at a concrete kernel.
use android_external_libevde.Base.{
  ◌≡◌, ◌⊎◌, false, ℤ, is_neg, ◌+◌, ◌^◌, refl, ◌==◌, if◌then◌else◌, pos, some, true, [], ◌∷◌,
  replicate, length-replicate, arith,
}
use android_external_libevde.Codes.{ev_abs}
use android_external_libevde.Event.{done, failed, einval, enoent}
use android_external_libevde.Bitfield.{zeros}
use android_external_libevde.Device.{Libevdev, LogData, blank_abs}
use android_external_libevde.Reader.Valid.{Valid}
use android_external_libevde.Names.{text}
use android_external_libevde.Open.{Opening, cleared, set_fd}
use android_external_libevde.Open.Ends.{set_fd_ends}
use android_external_libevde.Open.Valid.{Leaves, cleared-Valid, set_fd_total}
use android_external_libevde.Tests.Data.{quiet_log}

-- A touch screen with two slots, the first of which is current.
abbrev touch_screen : Opening
touch_screen = record {
  bits = done 8 (9 ∷ []);
  name = done 6 (text "touch");
  phys = failed enoent;
  uniq = failed enoent;
  id = done 0 (record { bustype = 3; vendor = 1; product = 2; version = 0 });
  version = done 0 (pos 65537);
  props = failed einval;
  code_bits = λ type. done 8 (if type == ev_abs then (2 ^ 47 + 2 ^ 57) ∷ [] else zeros 12);
  key_state = done 96 (zeros 12);
  led_state = done 8 (zeros 1);
  switch_state = done 8 (zeros 1);
  repeat = failed einval;
  abs_state = λ axis. done 0 (record blank_abs { maximum = pos 1 });
  mt_state = λ axis. done 0 (replicate 256 (pos 0));
  strdup = some;
  can = λ n. true;
}

set_fd_total_example : Leaves (set_fd touch_screen (cleared quiet_log) (pos 3))
set_fd_total_example =
    set_fd_total touch_screen (cleared quiet_log) (pos 3) (cleared-Valid quiet_log)
      (1, 0, refl, refl, omega arith, omega arith)
      (λ axis. omega (arith, length-replicate 256 (pos 0)))

-- The kernel does not answer for the axis ABS_MT_SLOT.
set_fd_ends_example :
    (r : Libevdev × ℤ) × (set_fd
        (record touch_screen { abs_state = λ axis. failed 5 })
        (cleared quiet_log)
        (pos 3)
      ≡ some r)
    × (((is_neg r.1 ≡ false) × Valid r.0)
        ⊎ ((is_neg r.1 ≡ true) × ((l : LogData) × (r.0 ≡ cleared l))))
unfolding cleared
set_fd_ends_example =
    set_fd_ends (record touch_screen { abs_state = λ axis. failed 5 }) (cleared quiet_log) (pos 3)
      (cleared-Valid quiet_log) refl refl tt (λ axis. omega (arith, length-replicate 256 (pos 0)))
