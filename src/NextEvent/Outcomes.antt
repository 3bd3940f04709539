-- ===== src/NextEvent/Outcomes.antt =====
-- How the loop of libevdev_next_event ends.
use android_external_libevde.Base.{
  ℕ, zero, suc, ◌+◌, ◌<◌, ◌≡◌, refl, true, not, ◌&&◌, ◌||◌, neg, none, arith, Bool-cases, inl, inr,
  is_neg, eq_ℤ, ◌∙◌,
}
use android_external_libevde.Event.{Event, ReadReply, eagain}
use android_external_libevde.Device.{Libevdev, SyncState, sync_needed, has_event_code}
use android_external_libevde.Queue
use android_external_libevde.Queue.Fifo
use android_external_libevde.State.{is_discard}
use android_external_libevde.Reader.Valid.{Valid, ReadsFrom, with_queue-SlotsValid}
use android_external_libevde.NextEvent.{
  Outcome, returns, Next, deliver, refill, take_head, next_loop, has_flag, flag_force_sync,
  status_sync,
}
use android_external_libevde.NextEvent.Total.{shift_shrinks, take_event_total}
use android_external_libevde.NextEvent.Loop.{refill-Read}

-- The three ends of the loop, on a device in state `s` with `n` sync events: no event, a forced sync,
-- or an event, which was taken in by a device still in that state.
pub data Left {W : Type 0} (flags : ℕ) (s : SyncState) (n : ℕ) (r : Next W) : Type 0 where
  waits : r.device.sync_state ≡ s → r.device.queue_nsync ≡ n → is_neg r.rc ≡ true → Left flags s n r
  forced :
      has_flag flags flag_force_sync ≡ true
      → r.device.sync_state ≡ sync_needed
      → r.rc ≡ status_sync
      → Left flags s n r
  delivers :
      (d : Libevdev) (e : Event) (w : W)
      → d.sync_state ≡ s
      → d.queue_nsync ≡ n
      → r ≡ deliver flags d e w
      → Left flags s n r

abbrev pub Leaves : {W : Type 0} → ℕ → SyncState → ℕ → Outcome (Next W) → Type 0
Leaves {W} flags s n o = (r : Next W) × (o ≡ returns r) × Left flags s n r

module _ {W : Type 0} (flags : ℕ) (s : SyncState) (n : ℕ) where
  take_head-Leaves :
      (w : W) (again : Libevdev → Outcome (Next W)) (d : Libevdev)
      → Valid d
      → d.sync_state ≡ s
      → d.queue_nsync ≡ n
      → ((d2 : Libevdev)
          → Valid d2
          → d2.sync_state ≡ s
          → d2.queue_nsync ≡ n
          → d2.queue.queue_next < d.queue.queue_next
          → Leaves flags s n (again d2))
      → Leaves flags s n (take_head flags w again d)
  unfolding take_head
  take_head-Leaves w again d v same count rest = elim (shift_shrinks d.queue v.queue_valid) [
    | inl (out, empty, before) ↦
        let d' = record d { queue = (Queue.shift d.queue).0 } in
        (
          record { device = d'; rc = neg eagain; event = none; world = w },
          rw (out, take_head) refl,
          waits same count refl,
        )
    | inr (e, out, less) ↦
        let q = (Queue.shift d.queue).0 in
        let (r, taken, still, kept) =
          take_event_total (record d { queue = q }) e (with_queue-SlotsValid d q v.slots_valid) in
        let next_valid : Valid r.0 = record {
          queue_valid = rw kept.same_queue (Fifo.shift-IsValid d.queue v.queue_valid);
          slots_valid = still;
        } in
        let same' : r.0.sync_state ≡ s = kept.same_sync ∙ same in
        let count' : r.0.queue_nsync ≡ n = kept.same_nsync ∙ count in
        elim (Bool-cases (is_discard r.1 || not (has_event_code r.0.masks r.2.type r.2.code))) [
          | inl dropped ↦
              rw (out, take_head, taken, dropped)
                (rest r.0 next_valid same' count' (rw kept.same_queue (omega arith)))
          | inr used ↦ (
            deliver flags r.0 r.2 w,
            rw (out, take_head, taken, used) refl,
            delivers r.0 r.2 w same' count' refl,
          )
        ]
  ]

  pub next_loop-Leaves :
      (read : W → ℕ → ReadReply × W) (supply : W → ℕ)
      → ReadsFrom read supply
      → (fuel : ℕ) (d : Libevdev) (w : W) → Valid d
      → d.sync_state ≡ s
      → d.queue_nsync ≡ n
      → d.queue.queue_next + supply w < fuel
      → Leaves flags s n (next_loop read fuel flags d w)
  unfolding next_loop
  next_loop-Leaves read supply promise zero d w v same count enough = absurd (omega arith)
  next_loop-Leaves read supply promise (suc k) d w v same count enough =
      let got = refill-Read read supply d w promise v in
      let d1 = (refill read d w).0 in
      let rc = (refill read d w).1 in
      let w1 = (refill read d w).2 in
      elim (Bool-cases (is_neg rc && not (eq_ℤ rc (neg eagain)))) [
        | inl failing ↦ (
          record { device = d1; rc = rc; event = none; world = w1 },
          rw failing refl,
          waits (got.same_sync ∙ same) (got.same_nsync ∙ count) (ground (arith, failing)),
        )
        | inr fine ↦ elim (Bool-cases (has_flag flags flag_force_sync)) [
          | inl force ↦ (
            record {
              device = record d1 { sync_state = sync_needed };
              rc = status_sync;
              event = none;
              world = w1;
            },
            rw (fine, force) refl,
            forced force refl refl,
          )
          | inr natural ↦
              rw (fine, natural)
                (take_head-Leaves w1 (λ d2. next_loop read k flags d2 w1) d1 got.valid
                  (got.same_sync ∙ same) (got.same_nsync ∙ count)
                  (λ d2 v2 same2 count2 less.
                    next_loop-Leaves read supply promise k d2 w1 v2 same2 count2
                      (omega (arith, got.spends))))
        ]
      ]
