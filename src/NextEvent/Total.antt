-- ===== src/NextEvent/Total.antt =====
-- The loop of libevdev_next_event that leaves a sync, and how one event is taken in.
use android_external_libevde.Base.{
  ℕ, zero, suc, ◌≤◌, ◌≡◌, refl, true, none, some, length, arith, Bool-cases, inl, inr, ap, ◌⊎◌,
}
use android_external_libevde.Event.{Event}
use android_external_libevde.Queue
use android_external_libevde.Queue.Fifo
use android_external_libevde.Queue.Fifo.{contents}
use android_external_libevde.Queue.{Queue}
use android_external_libevde.Device.{Libevdev, SyncState, sync_none}
use android_external_libevde.Slots.Valid.{SlotsValid, no_slots, slots}
use android_external_libevde.State.{FilterStatus, is_sync_none, is_discard}
use android_external_libevde.State.Safe.{Keeps, Keeps-refl}
use android_external_libevde.State.Whole.{update_state-Updates}
use android_external_libevde.State.Filter.{sanitize_event-Filters}
use android_external_libevde.Reader.Valid.{Valid, with_queue-SlotsValid}
use android_external_libevde.NextEvent.{take_event, flush_from, leave_sync, dec_size}

-- The queue after one event has been taken from it.
pub shift_shrinks :
    (q : Queue)
    → Fifo.IsValid q
    → ((Queue.shift q).1 ≡ none) × ((Queue.shift q).0.queue_next ≡ 0) × (q.queue_next ≡ 0)
      ⊎ ((e : Event) × ((Queue.shift q).1 ≡ some e)
          × (q.queue_next ≡ suc (Queue.shift q).0.queue_next))
shift_shrinks q v = elim (Fifo.shift_refines q v) [
  | inl (before, out, after) ↦ inl (
    out,
    omega (arith, Fifo.length-contents (Queue.shift q).0 (Fifo.shift-IsValid q v), ap length after),
    omega (arith, Fifo.length-contents q v, ap length before),
  )
  | inr (e, out, split) ↦ inr (
    e,
    out,
    omega (
      arith,
      Fifo.length-contents (Queue.shift q).0 (Fifo.shift-IsValid q v),
      Fifo.length-contents q v,
      ap length split,
    ),
  )
]

-- If the slots are well formed, filter and update together take every event in without a fault,
-- and keep the slots well formed and what update_state keeps.
pub take_event_total :
    (d : Libevdev) (e : Event)
    → SlotsValid d
    → (r : Libevdev × FilterStatus × Event) × (take_event d e ≡ some r)
      × SlotsValid r.0
      × Keeps d r.0
unfolding take_event
take_event_total d e valid =
    let (r, filtered, fits) = sanitize_event-Filters d e d.sync_state valid in
    elim (Bool-cases (is_discard r.0)) [
      | inl dropped ↦ ((d, r.0, r.1), rw (filtered, dropped), valid, Keeps-refl d)
      | inr kept ↦
          let (u, updated, still, same) = update_state-Updates d r.1 valid (fits kept) in
          ((u.0, r.0, r.1), rw (filtered, kept, updated), still, same)
    ]

pub with_queue-Valid :
    (d : Libevdev) (q : Queue) → SlotsValid d → Fifo.IsValid q → Valid (record d { queue = q })
with_queue-Valid d q slots_ok queue_ok = record {
  queue_valid = queue_ok;
  slots_valid = with_queue-SlotsValid d q slots_ok;
}

-- With as many rounds as there are events, the loop empties the queue.
pub flush_from_total :
    (k : ℕ) (d : Libevdev)
    → Valid d
    → d.queue.queue_next ≤ k
    → (d' : Libevdev) × (flush_from k d ≡ some d') × Valid d' × (d'.queue.queue_next ≡ 0)
unfolding flush_from
flush_from_total zero d v enough = (d, refl, v, omega arith)
flush_from_total (suc k) d v enough = elim (shift_shrinks d.queue v.queue_valid) [
  | inl (out, empty, before) ↦ (
    record d { queue = (Queue.shift d.queue).0 },
    rw (out, flush_from),
    with_queue-Valid d (Queue.shift d.queue).0 v.slots_valid
        (Fifo.shift-IsValid d.queue v.queue_valid),
    empty,
  )
  | inr (e, out, less) ↦
      let q = (Queue.shift d.queue).0 in
      let d1 = record d { queue = q; queue_nsync = dec_size d.queue_nsync } in
      let (r, taken, still, same) = take_event_total d1 e (lowered d v.slots_valid) in
      let next_valid : Valid r.0 = record {
        queue_valid = rw same.same_queue (Fifo.shift-IsValid d.queue v.queue_valid);
        slots_valid = still;
      } in
      let smaller : r.0.queue.queue_next ≤ k = rw same.same_queue (omega arith) in
      let (d', done, valid', empty) = flush_from_total k r.0 next_valid smaller in
      (d', rw (out, flush_from, taken) done, valid', empty)
]
  where
    lowered :
        (d0 : Libevdev)
        → SlotsValid d0
        → SlotsValid
            (record d0 { queue = (Queue.shift d0.queue).0; queue_nsync = dec_size d0.queue_nsync })
    lowered d0 (no_slots en ec) = no_slots en ec
    lowered d0 (slots n c vals en ec lt ev len) = slots n c vals en ec lt ev len

pub with_sync-Valid :
    (d : Libevdev) (st : SyncState) (n : ℕ)
    → Valid d
    → Valid (record d { sync_state = st; queue_nsync = n })
with_sync-Valid d st n v = record { queue_valid = v.queue_valid; slots_valid = cases v.slots_valid }
  where
    cases : SlotsValid d → SlotsValid (record d { sync_state = st; queue_nsync = n })
    cases (no_slots en ec) = no_slots en ec
    cases (slots m c vals en ec lt ev len) = slots m c vals en ec lt ev len

pub is_sync_none→eq : (st : SyncState) → is_sync_none st ≡ true → st ≡ sync_none
is_sync_none→eq sync_none h = refl
is_sync_none→eq SyncState.sync_needed h = cc
is_sync_none→eq SyncState.sync_in_progress h = cc

-- Leaving the sync state ends in the default state, with no more events queued than before.
pub leave_sync_total :
    (d : Libevdev)
    → Valid d
    → (d' : Libevdev) × (leave_sync d ≡ some d')
      × Valid d'
      × (d'.sync_state ≡ sync_none)
      × (d'.queue.queue_next ≤ d.queue.queue_next)
unfolding leave_sync Queue.num_elements
leave_sync_total d v = elim (Bool-cases (is_sync_none d.sync_state)) [
  | inl calm ↦ (d, rw calm, v, is_sync_none→eq d.sync_state calm, omega arith)
  | inr syncing ↦
      let (d1, done, valid1, empty) = flush_from_total d.queue.queue_next d v (omega arith) in
      (
        record d1 { sync_state = sync_none },
        rw (syncing, done),
        with_sync-Valid d1 sync_none d1.queue_nsync valid1,
        refl,
        omega arith,
      )
]
