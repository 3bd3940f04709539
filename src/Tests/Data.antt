-- ===== src/Tests/Data.antt =====
-- A queue with two events, a keyboard, a touch screen with two slots and a kernel that replays a list.
use android_external_libevde.Base.{
  ℕ, ◌+◌, ◌*◌, ◌^◌, refl, true, ℤ, pos, none, some, List, [], ◌∷◌, length, length-take,
  length-replicate, length-drop, take, drop, replicate, arith,
}
use android_external_libevde.Event.{Event, ReadReply, bytes, failed}
use android_external_libevde.Bitfield.{Words, zeros}
use android_external_libevde.Queue.{Queue, blank}
use android_external_libevde.Queue.Fifo
use android_external_libevde.Device.{Libevdev, Masks, LogData, sync_none, ungrab}
use android_external_libevde.Slots.Valid.{SlotsValid, slots}
use android_external_libevde.Kernel.{Kernel}
use android_external_libevde.Reader.Valid.{Valid, ReadsFrom}

-- The key 30 goes down.
abbrev pub press : Event
press = record { sec = pos 7; usec = pos 5; type = 1; code = 30; value = pos 1 }

-- A slot event past the last slot.
abbrev pub far_slot : Event
far_slot = record { sec = pos 7; usec = pos 6; type = 3; code = 47; value = pos 9 }

-- The touch in the current slot moves.
abbrev pub move : Event
move = record { sec = pos 7; usec = pos 6; type = 3; code = 53; value = pos 640 }

abbrev pub two_events : Queue
two_events = record {
  queue = some (press ∷ move ∷ blank ∷ blank ∷ []);
  queue_size = 4;
  queue_next = 2;
}

pub two_events-IsValid : Fifo.IsValid two_events
two_events-IsValid = record { allocated = refl; fits = omega arith }

abbrev pub quiet_log : LogData
quiet_log = record { priority = 20; global_handler = none; device_handler = none; userdata = none }

abbrev pub own_log : LogData
own_log = record {
  priority = 30;
  global_handler = none;
  device_handler = some 5;
  userdata = some 6;
}

-- The types EV_SYN, EV_KEY and EV_ABS, the key 30 and four multitouch axes.
abbrev pub sample_masks : Masks
sample_masks = record {
  bits = 11 ∷ [];
  props = zeros 1;
  key_bits = (2 ^ 30) ∷ replicate 11 0;
  rel_bits = zeros 1;
  abs_bits = (2 ^ 47 + 2 ^ 53 + 2 ^ 54 + 2 ^ 57) ∷ [];
  led_bits = zeros 1;
  msc_bits = zeros 1;
  sw_bits = zeros 1;
  rep_bits = zeros 1;
  ff_bits = zeros 2;
  snd_bits = zeros 1;
}

abbrev pub no_key : Words
no_key = replicate 12 0

abbrev pub key_30 : Words
key_30 = (2 ^ 30) ∷ replicate 11 0

abbrev pub screen_slots : List ℤ
screen_slots = replicate 30 (pos 4)

-- A device with two slots, two queued events and no sync.
abbrev pub screen : Libevdev
screen = record {
  fd = pos 3;
  initialized = true;
  name = none;
  phys = none;
  uniq = none;
  ids = record { bustype = 0; vendor = 0; product = 0; version = 0 };
  driver_version = pos 1;
  masks = sample_masks;
  key_values = no_key;
  led_values = 0 ∷ [];
  sw_values = 0 ∷ [];
  abs_info = replicate 64 (record {
    value = pos 0;
    minimum = pos 0;
    maximum = pos 0;
    fuzz = pos 0;
    flat = pos 0;
    resolution = pos 0;
  });
  mt_slot_vals = some screen_slots;
  num_slots = pos 2;
  current_slot = pos 1;
  rep_values = pos 0 ∷ pos 0 ∷ [];
  sync_state = sync_none;
  grabbed = ungrab;
  queue = two_events;
  queue_nsync = 0;
  last_event_time = record { tv_sec = pos 0; tv_usec = pos 0 };
  log = quiet_log;
}

pub screen-SlotsValid : SlotsValid screen
screen-SlotsValid = slots 2 1 screen_slots refl refl (omega arith) refl refl

pub screen-Valid : Valid screen
screen-Valid = record { queue_valid = two_events-IsValid; slots_valid = screen-SlotsValid }

-- A kernel that has a list of events to read.
abbrev pub replay_read : List Event → ℕ → ReadReply × List Event
replay_read events room =
    (bytes (length (take room events) * 24) (take room events), drop room events)

pub replay_read-ReadsFrom : ReadsFrom replay_read length
replay_read-ReadsFrom events room = (
  (omega (arith, length-take room events), omega arith),
  omega (arith, length-take room events, length-drop room events),
)

abbrev pub replay_kernel : Kernel (List Event)
replay_kernel = record {
  key_state = failed 5;
  led_state = failed 5;
  switch_state = failed 5;
  abs_state = λ axis. failed 5;
  mt_state = λ axis. failed 5;
  read = replay_read;
}

-- The device with an empty queue that holds an event of every key.
abbrev pub roomy : Libevdev
roomy = record screen {
  queue = record { queue = some (replicate 800 blank); queue_size = 800; queue_next = 0 };
}

pub roomy-IsValid : Fifo.IsValid roomy.queue
roomy-IsValid = record { allocated = length-replicate 800 blank; fits = omega arith }
