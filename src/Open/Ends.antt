-- ===== src/Open/Ends.antt =====
-- How the first call of libevdev_set_fd on a device ends (libevdev/libevdev.c).
use android_external_libevde.Base.{◌≡◌, ◌⊎◌, true, false, ℕ, ℤ, is_neg, some, Bool-cases, inl, inr}
use android_external_libevde.Codes.{abs_mt_slot}
use android_external_libevde.Device.{Libevdev, LogData}
use android_external_libevde.Reader.Valid.{Valid}
use android_external_libevde.Touch.Safe.{Covers}
use android_external_libevde.Open.{cleared, Opening, set_fd}
use android_external_libevde.Open.Failure.{set_fd_clears_on_error}
use android_external_libevde.Open.Loading.{Sensible}
use android_external_libevde.Open.Valid.{set_fd_total}

-- The first call of libevdev_set_fd on a device with a well-formed queue and slots, with a file
-- descriptor that is not negative, returns. If its result is negative, the device is cleared but
-- for the log settings; else the queue and slots are well formed. The answer about ABS_MT_SLOT, if
-- there is one, names a current slot from 0 up to the maximum, and the maximum is below 2^25; an
-- answer about the touches of an axis fills the buffer of 256 values.
pub set_fd_ends :
    (o : Opening) (d : Libevdev) (fd : ℤ)
    → Valid d
    → d.initialized ≡ false
    → is_neg fd ≡ false
    → Sensible abs_mt_slot (o.abs_state abs_mt_slot)
    → ((axis : ℕ) → Covers 256 (o.mt_state axis))
    → (r : Libevdev × ℤ) × (set_fd o d fd ≡ some r)
      × (((is_neg r.1 ≡ false) × Valid r.0)
          ⊎ ((is_neg r.1 ≡ true) × ((l : LogData) × (r.0 ≡ cleared l))))
set_fd_ends o d fd v fresh opened sensible covers =
    let (r, ends, well) = set_fd_total o d fd v sensible covers in
    (
      r,
      ends,
      elim (Bool-cases (is_neg r.1)) [
        | inl failed ↦ inr (failed, set_fd_clears_on_error o d fd r fresh opened ends failed)
        | inr fine ↦ inl (fine, well)
      ],
    )
