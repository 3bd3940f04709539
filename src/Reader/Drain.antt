-- ===== src/Reader/Drain.antt =====
-- `drain_events` of libevdev/libevdev.c: the queue that it leaves.
use android_external_libevde.Base.{
  ℕ, zero, suc, ◌≡◌, refl, true, leb, is_neg, [], take, arith, Bool-cases, inl, inr, ap, ◌∙◌,
}
use android_external_libevde.Event.{ReadReply, bytes, fault}
use android_external_libevde.Queue
use android_external_libevde.Queue.Fifo
use android_external_libevde.Device.{Libevdev}
use android_external_libevde.Reader.{
  read_more_events, take_reply, empty_queue, drain_from, drain_events, fill,
}

empty_queue-next : (d : Libevdev) → (empty_queue d).queue.queue_next ≡ 0
unfolding empty_queue Queue.shift_multiple Queue.num_elements
empty_queue-next d = ground arith

failed_reply :
    (d : Libevdev) (reply : ReadReply)
    → is_neg (take_reply d reply).1 ≡ true
    → (take_reply d reply).0.queue.queue_next ≡ d.queue.queue_next
unfolding take_reply fill
failed_reply d (fault errno) failing = refl
failed_reply d (bytes len evs) failing = ground arith

-- A failing read leaves the number of queued events as it was.
failed_read :
    {W : Type 0} (read : W → ℕ → ReadReply × W) (d : Libevdev) (w : W)
    → is_neg (read_more_events read d w).1 ≡ true
    → (read_more_events read d w).0.queue.queue_next ≡ d.queue.queue_next
unfolding read_more_events
failed_read read d w failing =
    ground (arith, failed_reply d (read w (Queue.num_free_elements d.queue)).0)

drain_from-next :
    {W : Type 0} (read : W → ℕ → ReadReply × W) (k : ℕ) (d : Libevdev) (w : W)
    → d.queue.queue_next ≡ 0
    → (drain_from read k d w).0.queue.queue_next ≡ 0
unfolding drain_from
drain_from-next read zero d w empty = empty
drain_from-next read (suc k) d w empty =
    let d1 = (read_more_events read d w).0 in
    let w1 = (read_more_events read d w).2 in
    elim (Bool-cases (is_neg (read_more_events read d w).1)) [
      | inl failing ↦ rw failing (failed_read read d w failing ∙ empty)
      | inr fine ↦ elim (Bool-cases (leb (Queue.size d1.queue) (Queue.num_elements d1.queue))) [
        | inl full ↦
            rw (fine, full) (drain_from-next read k (empty_queue d1) w1 (empty_queue-next d1))
        | inr room ↦ rw (fine, room) (empty_queue-next d1)
      ]
    ]

-- Whatever the kernel answers, drain_events ends with an empty queue.
pub drain_events_empties :
    {W : Type 0} (read : W → ℕ → ReadReply × W) (d : Libevdev) (w : W)
    → Fifo.contents (drain_events read d w).0.queue ≡ []
unfolding drain_events
drain_events_empties read d w =
    ap (λ n. take n (Queue.array (drain_events read d w).0.queue))
      (drain_from-next read 9 (empty_queue d) w (empty_queue-next d))
