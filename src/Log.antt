-- ===== src/Log.antt =====
-- Which handler gets a log message (libevdev/libevdev.c): the global settings and those of a device.
pub mod Handlers
pub mod Reached
use android_external_libevde.Base.{
  ℕ, Bool, true, false, ltb, leb, if◌then◌else◌, Option, none, some,
}
use android_external_libevde.Device.{LogData, Libevdev}

abbrev pub log_error : ℕ
log_error = 10

abbrev pub log_info : ℕ
log_info = 20

abbrev pub log_debug : ℕ
log_debug = 30

abbrev pub is_set : Option ℕ → Bool
is_set none = false
is_set (some h) = true

-- libevdev_set_log_function
unfoldable pub set_log_function : LogData → Option ℕ → Option ℕ → LogData
set_log_function g logfunc userdata = record g { global_handler = logfunc; userdata = userdata }

-- libevdev_set_log_priority
unfoldable pub set_log_priority : LogData → ℕ → LogData
set_log_priority g priority = record g {
  priority = if ltb log_debug priority then log_debug else priority;
}

-- libevdev_get_log_priority
unfoldable pub get_log_priority : LogData → ℕ
get_log_priority g = g.priority

-- libevdev_set_device_log_function; a NULL device is left alone.
unfoldable pub set_device_log_function : Option Libevdev → Option ℕ → ℕ → Option ℕ → Option Libevdev
set_device_log_function none logfunc priority userdata = none
set_device_log_function (some d) logfunc priority userdata = some (record d {
  log = record d.log { priority = priority; device_handler = logfunc; userdata = userdata };
})

-- `_libevdev_log_priority`
unfoldable pub effective_priority : LogData → Option Libevdev → ℕ
effective_priority g none = g.priority
effective_priority g (some d) = if is_set d.log.device_handler then d.log.priority else g.priority

-- What becomes of a message: the program aborts, it is dropped, or a handler gets it with its data.
pub data Delivery : Type 0 where
  aborts dropped : Delivery
  to_device to_global : Option ℕ → Option ℕ → Delivery

-- The choice for a message that no device handler takes.
unfoldable pub global_message : LogData → ℕ → Delivery
global_message g priority =
    if is_set g.global_handler
    then (if ltb g.priority priority
        then dropped
        else if is_set g.device_handler
        then aborts
        else to_global g.global_handler g.userdata)
    else dropped

-- `_libevdev_log_msg`
unfoldable pub log_msg : LogData → Option Libevdev → ℕ → Delivery
unfolding global_message
log_msg g none priority = global_message g priority
log_msg g (some d) priority =
    if is_set d.log.device_handler
    then (if is_set d.log.global_handler
        then aborts
        else if ltb d.log.priority priority
        then dropped
        else to_device d.log.device_handler d.log.userdata)
    else global_message g priority

-- `log_msg_cond`: the macro of libevdev/libevdev-int.h behind every message.
unfoldable pub log_msg_cond : LogData → Option Libevdev → ℕ → Delivery
unfolding effective_priority log_msg
log_msg_cond g d priority =
    if leb priority (effective_priority g d) then log_msg g d priority else dropped
