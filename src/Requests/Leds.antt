-- ===== src/Requests/Leds.antt =====
-- The LED events of libevdev_kernel_set_led_values and the room they have, and the grab.
use android_external_libevde.Base.{ℕ, ◌≡◌, pos, arith, ◌⊎◌}
use android_external_libevde.Event.{Reply, done, failed}
use android_external_libevde.Device.{Libevdev}
use android_external_libevde.Requests.{grab_device, grab_mode}

-- A grab changes nothing but the recorded mode, and that only if the kernel agreed; then the mode
-- is the one asked for and the result 0.
pub grab_device_lem :
    (d : Libevdev) (mode : ℕ) (reply : Reply (Unit {0}))
    → ((grab_device d mode reply).0 ≡ record d { grabbed = (grab_device d mode reply).0.grabbed })
      × (((grab_device d mode reply).0.grabbed ≡ d.grabbed)
          ⊎ ((grab_mode (grab_device d mode reply).0.grabbed ≡ mode)
              × (reply ≡ done 0 tt)
              × ((grab_device d mode reply).1 ≡ pos 0)))
unfolding grab_device
grab_device_lem d mode (failed errno) = ground arith
grab_device_lem d mode (done rc u) = ground arith
