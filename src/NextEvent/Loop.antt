-- ===== src/NextEvent/Loop.antt =====
-- The loop of libevdev_next_event, and when it ends.
use android_external_libevde.Base.{
  ℕ, zero, suc, ◌+◌, ◌<◌, ◌≡◌, refl, not, ltb, ◌==◌, ◌&&◌, ◌||◌, neg, none, arith, Bool-cases, inl,
  inr, is_neg, eq_ℤ,
}
use android_external_libevde.Event.{Event, ReadReply, eagain}
use android_external_libevde.Queue
use android_external_libevde.Queue.Fifo
use android_external_libevde.Queue.Fifo.{contents}
use android_external_libevde.Queue.{Queue}
use android_external_libevde.Codes.{ev_syn, syn_dropped}
use android_external_libevde.Device.{Libevdev, sync_needed, has_event_code}
use android_external_libevde.State.{is_discard}
use android_external_libevde.Reader.Valid.{
  Valid, ReadsFrom, Read, read_more_events-Read, with_queue-SlotsValid,
}
use android_external_libevde.NextEvent.{
  Outcome, returns, Next, deliver, refill, take_head, next_loop, status_sync, has_flag,
  flag_force_sync, flag_sync,
}
use android_external_libevde.NextEvent.Total.{
  shift_shrinks, take_event_total, with_queue-Valid, with_sync-Valid,
}

pub refill-Read :
    {W : Type 0} (read : W → ℕ → ReadReply × W) (supply : W → ℕ) (d : Libevdev) (w : W)
    → ReadsFrom read supply
    → Valid d
    → Read supply d w (refill read d w)
unfolding refill
refill-Read read supply d w promise v = elim (Bool-cases (Queue.num_elements d.queue == 0)) [
  | inl empty ↦ rw empty (read_more_events-Read read supply d w promise v)
  | inr queued ↦ rw queued (record {
    valid = v;
    spends = omega arith;
    grows = omega arith;
    same_masks = refl;
    same_sync = refl;
    same_nsync = refl;
  })
]

deliver-Valid :
    {W : Type 0} (flags : ℕ) (d : Libevdev) (e : Event) (w : W)
    → Valid d
    → Valid (deliver flags d e w).device
unfolding deliver
deliver-Valid flags d e w v = elim (Bool-cases (e.type == ev_syn && e.code == syn_dropped)) [
  | inl dropped ↦ elim (Bool-cases (has_flag flags flag_sync && ltb 0 d.queue_nsync)) [
    | inl syncing ↦ rw (dropped, syncing) (with_sync-Valid d _ _ v)
    | inr plain ↦ rw (dropped, plain) (with_sync-Valid d _ _ v)
  ]
  | inr other ↦ elim (Bool-cases (has_flag flags flag_sync && ltb 0 d.queue_nsync)) [
    | inl syncing ↦ rw (other, syncing) (with_sync-Valid d _ _ v)
    | inr plain ↦ rw (other, plain) v
  ]
]

abbrev pub Returns : {W : Type 0} → Outcome (Next W) → Type 0
Returns {W} o = (r : Next W) × (o ≡ returns r) × Valid r.device

take_head_total :
    {W : Type 0} (flags : ℕ) (w : W) (again : Libevdev → Outcome (Next W)) (d : Libevdev)
    → Valid d
    → ((d2 : Libevdev) → Valid d2 → d2.queue.queue_next < d.queue.queue_next → Returns (again d2))
    → Returns (take_head flags w again d)
unfolding take_head
take_head_total flags w again d v rest = elim (shift_shrinks d.queue v.queue_valid) [
  | inl (out, empty, before) ↦
      let d' = record d { queue = (Queue.shift d.queue).0 } in
      (
        record { device = d'; rc = neg eagain; event = none; world = w },
        rw (out, take_head),
        with_queue-Valid d (Queue.shift d.queue).0 v.slots_valid
            (Fifo.shift-IsValid d.queue v.queue_valid),
      )
  | inr (e, out, less) ↦
      let q = (Queue.shift d.queue).0 in
      let d1 = record d { queue = q } in
      let (r, taken, still, same) =
        take_event_total d1 e (with_queue-SlotsValid d q v.slots_valid) in
      let next_valid : Valid r.0 = record {
        queue_valid = rw same.same_queue (Fifo.shift-IsValid d.queue v.queue_valid);
        slots_valid = still;
      } in
      elim (Bool-cases (is_discard r.1 || not (has_event_code r.0.masks r.2.type r.2.code))) [
        | inl dropped ↦
            rw (out, take_head, taken, dropped)
              (rest r.0 next_valid (rw same.same_queue (omega arith)))
        | inr kept ↦ (
          deliver flags r.0 r.2 w,
          rw (out, take_head, taken, kept),
          deliver-Valid flags r.0 r.2 w next_valid,
        )
      ]
]

-- The loop returns once the events queued and those that the kernel still has are used up.
pub next_loop_total :
    {W : Type 0} (read : W → ℕ → ReadReply × W) (supply : W → ℕ)
    → ReadsFrom read supply
    → (fuel flags : ℕ) (d : Libevdev) (w : W) → Valid d
    → d.queue.queue_next + supply w < fuel
    → Returns (next_loop read fuel flags d w)
unfolding next_loop
next_loop_total read supply promise zero flags d w v enough = absurd (omega arith)
next_loop_total read supply promise (suc n) flags d w v enough =
    let got = refill-Read read supply d w promise v in
    let d1 = (refill read d w).0 in
    let rc = (refill read d w).1 in
    let w1 = (refill read d w).2 in
    elim (Bool-cases (is_neg rc && not (eq_ℤ rc (neg eagain)))) [
      | inl failing ↦
          (record { device = d1; rc = rc; event = none; world = w1 }, rw failing, got.valid)
      | inr fine ↦ elim (Bool-cases (has_flag flags flag_force_sync)) [
        | inl force ↦ (
          record {
            device = record d1 { sync_state = sync_needed };
            rc = status_sync;
            event = none;
            world = w1;
          },
          rw (fine, force),
          with_sync-Valid d1 sync_needed d1.queue_nsync got.valid,
        )
        | inr plain ↦
            rw (fine, plain)
              (take_head_total flags w1 (λ d2. next_loop read n flags d2 w1) d1 got.valid
                (λ d2 v2 less.
                  next_loop_total read supply promise n flags d2 w1 v2 (omega (arith, got.spends))))
      ]
    ]
