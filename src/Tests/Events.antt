-- ===== src/Tests/Events.antt =====
-- Events on their way through the library, at concrete inputs.
use android_external_libevde.Base.{
  ◌≡◌, refl, true, not, ◌||◌, if◌then◌else◌, ◌==◌, ◌&&◌, pos, eq_ℤ, some, [], ◌∷◌, ◌++◌, length,
  arith,
}
use android_external_libevde.Codes.{ev_key, ev_abs, key_cnt}
use android_external_libevde.Event.{Event, done}
use android_external_libevde.Bitfield.{bit_is_set}
use android_external_libevde.Queue.{Queue}
use android_external_libevde.Queue.Fifo
use android_external_libevde.Queue.Fifo.{contents}
use android_external_libevde.Device.{
  Libevdev, sync_none, sync_in_progress, has_event_type, has_event_code,
}
use android_external_libevde.Slots.{get_slot_value, set_slot_value}
use android_external_libevde.Slots.Values.{set_get_slot_value}
use android_external_libevde.State.{
  FilterStatus, is_discard, sanitize_event, get_event_value, set_event_value, bit_value,
}
use android_external_libevde.State.Taken.{names_slot, sanitize_event_total}
use android_external_libevde.State.Values.{set_get_key_value}
use android_external_libevde.Reader.{read_more_events}
use android_external_libevde.Reader.Valid.{Valid, Read, read_more_events-Read}
use android_external_libevde.Sync.{sync_key_state}
use android_external_libevde.Sync.Bits.{sync_key_state_lem}
use android_external_libevde.NextEvent.Status.{Tells, next_event-Tells}
use android_external_libevde.Sync.Replay.{changes}
use android_external_libevde.NextEvent.{next_event}
use android_external_libevde.Tests.Data.{
  press, far_slot, screen, screen-SlotsValid, screen-Valid, replay_read, replay_read-ReadsFrom,
  replay_kernel, no_key, key_30, screen_slots, roomy, roomy-IsValid,
}

has_abs : has_event_type screen.masks ev_abs ≡ true
unfolding has_event_type bit_is_set
has_abs = refl

has_keys : has_event_type screen.masks ev_key ≡ true
unfolding has_event_type bit_is_set
has_keys = refl

has_axis : has_event_code screen.masks ev_abs 53 ≡ true
unfolding has_event_code has_event_type bit_is_set
has_axis = refl

has_other : has_event_code screen.masks ev_abs 54 ≡ true
unfolding has_event_code has_event_type bit_is_set
has_other = refl

has_key : has_event_code screen.masks ev_key 30 ≡ true
unfolding has_event_code has_event_type bit_is_set
has_key = refl

sync_key_state_example :
    (q : Queue) × (sync_key_state roomy (done 96 key_30)
      ≡ (record roomy { queue = q; key_values = key_30 }, pos 0))
    × Fifo.IsValid q
    × (contents q
        ≡ contents roomy.queue ++ changes roomy.last_event_time ev_key no_key key_30 key_cnt 0)
sync_key_state_example =
    sync_key_state_lem roomy 96 key_30 roomy-IsValid (omega arith) refl refl (omega arith)

sanitize_event_example :
    (r : FilterStatus × Event) × (sanitize_event screen far_slot sync_none ≡ some r)
    × ((is_discard r.0 || names_slot screen r.1) ≡ true)
sanitize_event_example = sanitize_event_total screen far_slot sync_none screen-SlotsValid

-- A device with two pending events of a sync.
abbrev mid_sync : Libevdev
mid_sync = record screen { sync_state = sync_in_progress; queue_nsync = 2 }

read_more_events_example :
    Read length screen (press ∷ []) (read_more_events replay_read screen (press ∷ []))
read_more_events_example =
    read_more_events-Read replay_read length screen (press ∷ []) replay_read-ReadsFrom screen-Valid

set_get_slot_value_example :
    (d : Libevdev) × (set_slot_value screen 1 53 (pos 8) ≡ some (d, pos 0))
    × (get_slot_value d 0 54
        ≡ (if 1 == 0 && 53 == 54 then some (pos 8) else get_slot_value screen 0 54))
set_get_slot_value_example =
    set_get_slot_value screen 2 screen_slots refl refl refl has_abs 1 53 0 54 (pos 8) (omega arith)
      (omega arith) (omega arith) (has_axis) (omega arith) (omega arith) (omega arith) (has_other)

set_get_key_value_example :
    (d : Libevdev) × (set_event_value screen ev_key 30 (pos 1) ≡ some (d, pos 0))
    × (get_event_value d ev_key 30 ≡ (
        if 30 == 30
        then bit_value (not (eq_ℤ (pos 1) (pos 0)))
        else get_event_value screen ev_key 30))
set_get_key_value_example =
    set_get_key_value screen 30 (pos 1) has_keys has_key (omega arith) 30 has_key (omega arith)

next_event-Tells_example : Tells (next_event replay_kernel 4 screen 2 (press ∷ []))
next_event-Tells_example =
    next_event-Tells 2 refl replay_kernel length replay_read-ReadsFrom 4 screen (press ∷ [])
      screen-Valid refl refl refl (omega arith)
