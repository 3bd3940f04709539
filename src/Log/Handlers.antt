-- ===== src/Log/Handlers.antt =====
-- Log handlers set through the library are never mixed up.
use android_external_libevde.Base.{ℕ, ◌≡◌, ◌≢◌, leb, if◌then◌else◌, Option, none, some, arith}
use android_external_libevde.Device.{LogData, Libevdev}
use android_external_libevde.Log.{
  aborts, dropped, to_device, set_log_function, set_log_priority, set_device_log_function,
  log_msg_cond,
}

-- The global settings hold no device handler, and those of a device no global one.
abbrev pub DeviceApart : Option Libevdev → Type 0
DeviceApart none = Unit {0}
DeviceApart (some d) = d.log.global_handler ≡ none

pub record Apart (g : LogData) (d : Option Libevdev) : Type 0 where
  pub global_apart : g.device_handler ≡ none
  pub device_apart : DeviceApart d

-- The setters keep the global settings without a device handler and those of a device without a
-- global one.
pub setters-Apart :
    (g : LogData) (d : Option Libevdev) (logfunc userdata : Option ℕ) (priority : ℕ)
    → Apart g d
    → Apart (set_log_function g logfunc userdata) d
      × Apart (set_log_priority g priority) d
      × Apart g (set_device_log_function d logfunc priority userdata)
unfolding set_log_function set_log_priority set_device_log_function
setters-Apart g none logfunc userdata priority a = ground arith
setters-Apart g (some d) logfunc userdata priority a = ground arith

-- If the global settings hold no device handler and the device's no global one, a message never
-- aborts the program.
pub log_msg_cond-ne-aborts :
    (g : LogData) (d : Option Libevdev) (priority : ℕ)
    → Apart g d
    → log_msg_cond g d priority ≢ aborts
unfolding log_msg_cond
log_msg_cond-ne-aborts g none priority a = ground arith
log_msg_cond-ne-aborts g (some d) priority a = ground arith

-- A device with a handler of its own gets exactly the messages up to its priority, and the global
-- handler none of them.
pub log_msg_cond-device :
    (g : LogData) (d : Libevdev) (priority handler : ℕ)
    → Apart g (some d)
    → d.log.device_handler ≡ some handler
    → log_msg_cond g (some d) priority
      ≡ (if leb priority d.log.priority then to_device (some handler) d.log.userdata else dropped)
unfolding log_msg_cond
log_msg_cond-device g d priority handler a set' = ground arith
