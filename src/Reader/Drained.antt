-- ===== src/Reader/Drained.antt =====
-- What `drain_events` of libevdev/libevdev.c does to the device and the kernel's supply.
use android_external_libevde.Base.{
  ℕ, zero, suc, ◌≤◌, ◌≡◌, refl, ap, leb, ◌==◌, is_neg, arith, Bool-cases, inl, inr,
}
use android_external_libevde.Event.{ReadReply, bytes, fault}
use android_external_libevde.Queue
use android_external_libevde.Queue.Fifo
use android_external_libevde.Device.{Libevdev}
use android_external_libevde.Sync.Safe.{Synced, Synced-refl, Synced-trans, Synced-queue}
use android_external_libevde.Reader.{
  read_more_events, take_reply, fill, empty_queue, drain_from, drain_events,
}
use android_external_libevde.Reader.Valid.{Valid, ReadsFrom, read_more_events-Read, take_reply-same}

shift_multiple-queue_size :
    (q : Queue.Queue) (n : ℕ) → (Queue.shift_multiple q n).0.queue_size ≡ q.queue_size
unfolding Queue.shift_multiple
shift_multiple-queue_size q n = ground arith

empty_queue-Synced : (d : Libevdev) → Valid d → Synced d (empty_queue d)
unfolding empty_queue
empty_queue-Synced d v =
    Synced-queue d _ v (Fifo.shift_multiple-IsValid d.queue _ v.queue_valid)
      (shift_multiple-queue_size d.queue (Queue.num_elements d.queue))

take_reply-queue_size :
    (d : Libevdev) (reply : ReadReply)
    → (take_reply d reply).0.queue.queue_size ≡ d.queue.queue_size
unfolding take_reply fill Queue.set_num_elements
take_reply-queue_size d (fault errno) = refl
take_reply-queue_size d (bytes len evs) = ground arith

module _ {W : Type 0} (read : W → ℕ → ReadReply × W) (supply : W → ℕ)
    (promise : ReadsFrom read supply) where
  -- A part that reads: the kernel has no more events to give than before.
  abbrev pub Reads : Libevdev → W → Libevdev × W → Type 0
  Reads d w r = Synced d r.0 × (supply r.1 ≤ supply w)

  read_more_events-Reads :
      (d : Libevdev) (w : W)
      → Valid d
      → Reads d w ((read_more_events read d w).0, (read_more_events read d w).2)
  unfolding read_more_events
  read_more_events-Reads d w v =
      let r = read_more_events-Read read supply d w promise v in
      let room = Queue.num_free_elements d.queue in
      (
        record {
          valid = r.valid;
          same_size = elim (Bool-cases (room == 0)) [
            | inl full ↦ rw (read_more_events, full) refl
            | inr space ↦ rw (read_more_events, space) (take_reply-queue_size d (read w room).0)
          ];
          same_masks = r.same_masks;
          same_count = elim (Bool-cases (room == 0)) [
            | inl full ↦ rw (read_more_events, full) refl
            | inr space ↦
                rw (read_more_events, space)
                  (ap (λ x. x.num_slots) (take_reply-same d (read w room).0).1)
          ];
          same_sync = r.same_sync;
        },
        omega (arith, r.spends, r.grows),
      )

  drain_from-Reads : (n : ℕ) (d : Libevdev) (w : W) → Valid d → Reads d w (drain_from read n d w)
  unfolding drain_from
  drain_from-Reads zero d w v = (Synced-refl d v, omega arith)
  drain_from-Reads (suc n) d w v =
      let d1 = (read_more_events read d w).0 in
      let w1 = (read_more_events read d w).2 in
      let (synced, less) = read_more_events-Reads d w v in
      let emptied = Synced-trans d d1 _ synced (empty_queue-Synced d1 synced.valid) in
      elim (Bool-cases (is_neg (read_more_events read d w).1)) [
        | inl failing ↦ rw failing (synced, less)
        | inr fine ↦ elim (Bool-cases (leb (Queue.size d1.queue) (Queue.num_elements d1.queue))) [
          | inr room ↦ rw (fine, room) (emptied, less)
          | inl full ↦
              let (again, less') = drain_from-Reads n (empty_queue d1) w1 emptied.valid in
              rw (fine, full) (Synced-trans d (empty_queue d1) _ emptied again, omega arith)
        ]
      ]

  pub drain_events-Reads : (d : Libevdev) (w : W) → Valid d → Reads d w (drain_events read d w)
  unfolding drain_events
  drain_events-Reads d w v =
      let emptied = empty_queue-Synced d v in
      let (again, less) = drain_from-Reads 9 (empty_queue d) w emptied.valid in
      (Synced-trans d (empty_queue d) _ emptied again, less)
