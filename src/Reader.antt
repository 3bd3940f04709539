-- ===== src/Reader.antt =====
-- Reading from the file descriptor (libevdev/libevdev.c): `read_more_events`, `drain_events`, and
-- `sync_state`, which starts by draining. Calls of the log handlers are left out.
pub mod Valid
pub mod Drain
pub mod Drained
pub mod Total
use android_external_libevde.Base.{
  ℕ, zero, suc, ◌+◌, ◌-◌, ◌/◌, ◌%◌, Bool, true, false, not, ltb, leb, ◌==◌, ◌||◌, ◌&&◌,
  if◌then◌else◌, ℤ, pos, negsuc, minus_one, neg, eq_ℤ, is_neg, Option, none, some, ◌>>=◌, List, [],
  ◌∷◌, set, pos_part,
}
use android_external_libevde.Codes.{ev_syn, ev_key, ev_abs, ev_sw, ev_led, syn_report, abs_mt_slot}
use android_external_libevde.Event.{Event, ReadReply, bytes, fault, einval, eagain}
use android_external_libevde.Queue
use android_external_libevde.Queue.{Queue}
use android_external_libevde.Device.{Libevdev, has_event_type, has_event_code}
use android_external_libevde.Kernel.{Kernel}
use android_external_libevde.Sync.{
  queue_push_event, sync_key_state, sync_sw_state, sync_led_state, sync_abs_state,
}
use android_external_libevde.Touch.{
  SlotChange, no_change, sync_mt_state, terminate_slots, push_mt_sync_events,
}

-- sizeof(struct input_event) where `long` has 64 bits.
abbrev pub event_size : ℕ
event_size = 24

-- The kernel's writes into the array, from an index on.
unfoldable pub write_events : List Event → ℕ → List Event → List Event
write_events a i [] = a
write_events a i (e ∷ evs) = write_events (set a i e) (i + 1) evs

unfoldable pub fill : Queue → List Event → Queue
fill q evs = record q {
  queue = elim q.queue [ none ↦ none | some a ↦ some (write_events a q.queue_next evs) ];
}

-- `read_more_events` once `read` has returned: the device and `rc`.
unfoldable pub take_reply : Libevdev → ReadReply → Libevdev × ℤ
take_reply d (fault errno) = (d, neg errno)
take_reply d (bytes len evs) =
    let q = fill d.queue evs in
    if ltb 0 len && not (len % event_size == 0)
    then (record d { queue = q }, neg einval)
    else if ltb 0 len
    then (
      record d { queue = (Queue.set_num_elements q (Queue.num_elements q + len / event_size)).0 },
      pos 0,
    )
    else (record d { queue = q }, pos 0)

-- The device, `rc`, and the kernel's new state.
unfoldable pub read_more_events :
    {W : Type 0} → (W → ℕ → ReadReply × W) → Libevdev → W → Libevdev × ℤ × W
read_more_events read d w =
    if Queue.num_free_elements d.queue == 0
    then (d, pos 0, w)
    else (let (reply, w') = read w (Queue.num_free_elements d.queue) in
        let (d1, rc) = take_reply d reply in (d1, rc, w'))

unfoldable pub empty_queue : Libevdev → Libevdev
empty_queue d = record d { queue = (Queue.shift_multiple d.queue (Queue.num_elements d.queue)).0 }

-- The loop of `drain_events`, with the rounds that it may still make.
unfoldable pub drain_from : {W : Type 0} → (W → ℕ → ReadReply × W) → ℕ → Libevdev → W → Libevdev × W
drain_from read zero d w = (d, w)
drain_from read (suc n) d w =
    let (d1, rc, w') = read_more_events read d w in
    let nelem = Queue.num_elements d1.queue in
    let again = drain_from read n (empty_queue d1) w' in
    if is_neg rc
    then (d1, w')
    else if leb (Queue.size d1.queue) nelem
    then again
    else (empty_queue d1, w')

-- `iterations++ < 8` is tested after each round, so there are nine at most.
unfoldable pub drain_events : {W : Type 0} → (W → ℕ → ReadReply × W) → Libevdev → W → Libevdev × W
drain_events read d w = drain_from read 9 (empty_queue d) w

-- The multitouch part of `sync_state` before the other state: the device, `rc`, the changes, the last
-- reported slot, and `want_mt_sync`.
pub record MtPart : Type 0 where
  pub device : Libevdev
  pub rc : ℤ
  pub changes : List SlotChange
  pub last_reported_slot : ℤ
  pub want_mt_sync : Bool

unfoldable pub start_mt_sync : {W : Type 0} → Kernel W → Libevdev → Option MtPart
start_mt_sync k d =
    if not (is_neg d.num_slots) && has_event_code d.masks ev_abs abs_mt_slot
    then (sync_mt_state d k.mt_state >>= λ r.
        if eq_ℤ r.1 (pos 0)
        then (let (d1, last) = terminate_slots r.0 r.2 (pos 0) in
            some (record {
              device = d1;
              rc = r.1;
              changes = r.2;
              last_reported_slot = last;
              want_mt_sync = true;
            }))
        else some (record {
          device = r.0;
          rc = r.1;
          changes = r.2;
          last_reported_slot = pos 0;
          want_mt_sync = false;
        }))
    else some (record {
      device = d;
      rc = pos 0;
      changes = [];
      last_reported_slot = pos 0;
      want_mt_sync = false;
    })

-- The keys, LEDs and switches of `sync_state`: each result replaces the one before it.
unfoldable pub sync_bits : {W : Type 0} → Kernel W → Libevdev × ℤ → Libevdev × ℤ
sync_bits k (d, rc) =
    let (d1, rc1) =
      if has_event_type d.masks ev_key then sync_key_state d k.key_state else (d, rc) in
    let (d2, rc2) =
      if has_event_type d1.masks ev_led then sync_led_state d1 k.led_state else (d1, rc1) in
    if has_event_type d2.masks ev_sw then sync_sw_state d2 k.switch_state else (d2, rc2)

-- The end of `sync_state`: the number of sync events and the SYN_REPORT that closes them.
unfoldable pub finish_sync : Libevdev → Libevdev
finish_sync d =
    let n = Queue.num_elements d.queue in
    if ltb 0 n
    then record (queue_push_event (record d { queue_nsync = n }) ev_syn syn_report (pos 0)).0 {
      queue_nsync = n + 1;
    }
    else record d { queue_nsync = n }

-- `sync_state`: the device, `rc`, and the kernel's new state.
unfoldable pub sync_state : {W : Type 0} → Kernel W → Libevdev → W → Option (Libevdev × ℤ × W)
sync_state k d w =
    let (d0, w') = drain_events k.read d w in
    start_mt_sync k d0 >>= λ m.
    (let (d2, rc2) = sync_bits k (m.device, m.rc) in
      let (d3, rc3) =
        if eq_ℤ rc2 (pos 0) && has_event_type d2.masks ev_abs
        then sync_abs_state d2 k.abs_state
        else (d2, rc2) in
      (if eq_ℤ rc3 (pos 0) && m.want_mt_sync
        then (push_mt_sync_events d3 m.changes m.last_reported_slot (k.abs_state abs_mt_slot)
            >>= λ r. some r.0)
        else some d3)
      >>= λ d4. some (finish_sync d4, rc3, w'))
