-- ===== src/Tests/Parts.antt =====
-- The queue, the bit arrays, the masks, opening, logging and requests at concrete inputs.
use android_external_libevde.Base.{
  ◌≡◌, refl, none, true, false, ltb, if◌then◌else◌, ◌==◌, pos, some, [], ◌∷◌, ◌++◌, take, drop,
  length, arith,
}
use android_external_libevde.Codes.{ev_key}
use android_external_libevde.Bitfield.{bit_is_set, set_bit_state}
use android_external_libevde.Bitfield.Laws.{bit_is_set-set_bit_state}
use android_external_libevde.Queue
use android_external_libevde.Queue.{Queue}
use android_external_libevde.Queue.Fifo
use android_external_libevde.Queue.Fifo.{contents}
use android_external_libevde.Device.{
  Libevdev, LogData, Mask, mask_of, has_event_type, has_event_code,
}
use android_external_libevde.Caps.{no_data, enable_event_code, disable_event_code}
use android_external_libevde.Caps.Masks.{enable_event_code_lem, disable_event_code_lem}
use android_external_libevde.Codes.{event_type_get_max}
use android_external_libevde.Log.Reached.{Reached}
use android_external_libevde.Reader.{drain_events}
use android_external_libevde.Reader.Drain.{drain_events_empties}
use android_external_libevde.State.{update_state}
use android_external_libevde.State.Safe.{Updates}
use android_external_libevde.State.Taken.{update_state_total}
use android_external_libevde.Tests.Data.{
  press, two_events, two_events-IsValid, screen, no_key, replay_read, move, screen-SlotsValid,
}

push_example :
    (contents (Queue.push two_events press).0 ≡ (
      if ltb (length (contents two_events)) 4
      then contents two_events ++ (press ∷ [])
      else contents two_events))
    × ((Queue.push two_events press).1 ≡ ltb (length (contents two_events)) 4)
push_example = Fifo.push_refines two_events press two_events-IsValid

shift_multiple_example :
    ((Queue.shift_multiple two_events 1).1 ≡ take 1 (contents two_events))
    × (contents (Queue.shift_multiple two_events 1).0 ≡ drop 1 (contents two_events))
shift_multiple_example = Fifo.shift_multiple_refines two_events 1 two_events-IsValid

set_bit_state_example :
    bit_is_set (set_bit_state no_key 70 true) 70 ≡ (if 70 == 70 then true else bit_is_set no_key 70)
set_bit_state_example = bit_is_set-set_bit_state no_key 70 70 true (omega arith)

key_mask : mask_of ev_key ≡ some Mask.key
unfolding mask_of
key_mask = refl

highest_key : event_type_get_max ev_key ≡ pos 767
unfolding event_type_get_max
highest_key = refl

has_keys : has_event_type screen.masks ev_key ≡ true
unfolding has_event_type bit_is_set
has_keys = refl

enable_event_code_example :
    (d : Libevdev) × (enable_event_code (λ n. true) screen ev_key 31 no_data ≡ some (d, pos 0))
    × (has_event_code d.masks ev_key 31
        ≡ (if 31 == 31 then true else has_event_code screen.masks ev_key 31))
enable_event_code_example =
    enable_event_code_lem ev_key 767 Mask.key key_mask highest_key refl (λ n. true) screen 31 31
      no_data has_keys (omega arith) (omega arith) refl refl

disable_event_code_example :
    (d : Libevdev) × (disable_event_code (λ n. true) screen ev_key 30 ≡ some (d, pos 0))
    × (has_event_code d.masks ev_key 30
        ≡ (if 30 == 30 then false else has_event_code screen.masks ev_key 30))
disable_event_code_example =
    disable_event_code_lem ev_key 767 Mask.key key_mask highest_key refl (λ n. true) screen 30 30
      has_keys (omega arith) (omega arith) refl

-- A device with the handler 7 for messages up to the priority 20.
abbrev logging : LogData
logging = record {
  priority = 20;
  global_handler = none;
  device_handler = some 7;
  userdata = some 1;
}

abbrev default_log : LogData
default_log = record {
  priority = 20;
  global_handler = some 0;
  device_handler = none;
  userdata = none;
}

drain_events_example : contents (drain_events replay_read screen (press ∷ [])).0.queue ≡ []
drain_events_example = drain_events_empties replay_read screen (press ∷ [])

update_state_example : Updates screen (update_state screen move)
update_state_example = update_state_total screen move screen-SlotsValid refl
