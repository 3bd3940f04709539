-- ===== src/Log/Reached.antt =====
-- The log settings that a program can reach through the library (libevdev/libevdev.c).
use android_external_libevde.Base.{ℕ, Option, none, some}
use android_external_libevde.Device.{LogData, Libevdev}
use android_external_libevde.Open.{cleared}
use android_external_libevde.Open.Failure.{kept_log}
use android_external_libevde.Log.{
  log_info, set_log_function, set_log_priority, set_device_log_function,
}

-- The settings of the library and of a device, if there is one, after calls of the setters and of
-- libevdev_new and libevdev_set_fd, which end with a reset. The default handler has the number 0.
pub data Reached : LogData → Option Libevdev → Type 0 where
  start :
      Reached
        (record {
          priority = log_info;
          global_handler = some 0;
          device_handler = none;
          userdata = none;
        })
        none
  was_reset :
      (g : LogData) (d : Option Libevdev) (l : LogData)
      → Reached g d
      → Reached g (some (cleared (kept_log l)))
  function_set :
      (g : LogData) (d : Option Libevdev) (logfunc userdata : Option ℕ)
      → Reached g d
      → Reached (set_log_function g logfunc userdata) d
  priority_set :
      (g : LogData) (d : Option Libevdev) (priority : ℕ)
      → Reached g d
      → Reached (set_log_priority g priority) d
  device_function_set :
      (g : LogData) (d : Option Libevdev) (logfunc : Option ℕ) (priority : ℕ) (userdata : Option ℕ)
      → Reached g d
      → Reached g (set_device_log_function d logfunc priority userdata)
