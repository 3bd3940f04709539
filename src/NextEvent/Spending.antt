-- ===== src/NextEvent/Spending.antt =====
-- What a call of libevdev_next_event in normal mode takes from the events queued and still to be read.
use android_external_libevde.Base.{
  ℕ, zero, suc, ◌+◌, ◌≤◌, ◌<◌, ◌≡◌, refl, not, ◌==◌, ◌&&◌, ◌||◌, true, neg, ℤ, none, some, arith,
  Bool-cases, inl, inr, is_neg, eq_ℤ, ◌⊎◌,
}
use android_external_libevde.Codes.{ev_syn, syn_dropped}
use android_external_libevde.Event.{Event, ReadReply, ebadf, eagain}
use android_external_libevde.Device.{Libevdev, has_event_code}
use android_external_libevde.Kernel.{Kernel}
use android_external_libevde.Queue
use android_external_libevde.Queue.Fifo
use android_external_libevde.State.{is_discard}
use android_external_libevde.Reader.Valid.{Valid, ReadsFrom}
use android_external_libevde.NextEvent.{
  Outcome, returns, Next, quick, deliver, refill, take_head, next_loop, next_event, flag_normal,
  status_sync, status_success,
}
use android_external_libevde.NextEvent.Total.{
  shift_shrinks, take_event_total, leave_sync_total, with_queue-Valid, with_sync-Valid,
}
use android_external_libevde.NextEvent.Loop.{refill-Read}

-- The events queued and still to be read.
abbrev pub left_over : {W : Type 0} → (W → ℕ) → Libevdev → W → ℕ
left_over supply d w = d.queue.queue_next + supply w

-- A result that takes from `n` events: with an event at least one, without one it is an error number.
pub record Spends {W : Type 0} (supply : W → ℕ) (n : ℕ) (r : Next W) : Type 0 where
  pub valid : Valid r.device
  pub less : left_over supply r.device r.world ≤ n
  pub spent :
      (is_neg r.rc ≡ true)
      ⊎ ((e : Event) × (r.event ≡ some e)
          × (left_over supply r.device r.world < n)
          × ((r.rc ≡ status_success) ⊎ (r.rc ≡ status_sync)))

abbrev pub SpendsFrom : {W : Type 0} → (W → ℕ) → ℕ → Outcome (Next W) → Type 0
SpendsFrom {W} supply n o = (r : Next W) × (o ≡ returns r) × Spends supply n r

module _ {W : Type 0} (supply : W → ℕ) where
  Spends-weaken :
      (m n : ℕ) → m ≤ n → {o : Outcome (Next W)} → SpendsFrom supply m o → SpendsFrom supply n o
  Spends-weaken m n fewer (r, is_r, s) = (
    r,
    is_r,
    record {
      valid = s.valid;
      less = omega (arith, s.less);
      spent = elim s.spent [
        | inl failing ↦ inl failing
        | inr (e, given, less, rc) ↦ inr (e, given, omega arith, rc)
      ];
    },
  )

  quick-Spends :
      (d : Libevdev) (rc : ℤ) (w : W)
      → Valid d
      → is_neg rc ≡ true
      → SpendsFrom supply (left_over supply d w) (quick d rc w)
  quick-Spends d rc w v negative = (
    record { device = d; rc = rc; event = none; world = w },
    refl,
    record { valid = v; less = omega arith; spent = inl negative },
  )

  deliver-Spends :
      (d : Libevdev) (e : Event) (w : W) (n : ℕ)
      → Valid d
      → left_over supply d w < n
      → Spends supply n (deliver flag_normal d e w)
  unfolding deliver
  deliver-Spends d e w n v less = elim (Bool-cases (e.type == ev_syn && e.code == syn_dropped)) [
    | inl dropped ↦ rw dropped record {
      valid = with_sync-Valid d _ _ v;
      less = omega arith;
      spent = inr (e, refl, less, inr refl);
    }
    | inr other ↦
        rw other record { valid = v; less = omega arith; spent = inr (e, refl, less, inl refl) }
  ]

  take_head-Spends :
      (w : W) (again : Libevdev → Outcome (Next W)) (d : Libevdev)
      → Valid d
      → ((d2 : Libevdev)
          → Valid d2
          → d2.queue.queue_next < d.queue.queue_next
          → SpendsFrom supply (left_over supply d2 w) (again d2))
      → SpendsFrom supply (left_over supply d w) (take_head flag_normal w again d)
  unfolding take_head
  take_head-Spends w again d v rest = elim (shift_shrinks d.queue v.queue_valid) [
    | inl (out, empty, before) ↦
        let d' = record d { queue = (Queue.shift d.queue).0 } in
        (
          record { device = d'; rc = neg eagain; event = none; world = w },
          rw (out, take_head) refl,
          record {
            valid =
                with_queue-Valid d (Queue.shift d.queue).0 v.slots_valid
                  (Fifo.shift-IsValid d.queue v.queue_valid);
            less = omega arith;
            spent = inl refl;
          },
        )
    | inr (e, out, less) ↦
        let q = (Queue.shift d.queue).0 in
        let d1 = record d { queue = q } in
        let shorter =
          with_queue-Valid d q v.slots_valid (Fifo.shift-IsValid d.queue v.queue_valid) in
        let (r, taken, still, same) = take_event_total d1 e shorter.slots_valid in
        let next_valid : Valid r.0 = record {
          queue_valid = rw same.same_queue shorter.queue_valid;
          slots_valid = still;
        } in
        let fewer : r.0.queue.queue_next < d.queue.queue_next = rw same.same_queue (omega arith) in
        elim (Bool-cases (is_discard r.1 || not (has_event_code r.0.masks r.2.type r.2.code))) [
          | inl dropped ↦
              rw (out, take_head, taken, dropped)
                (Spends-weaken (left_over supply r.0 w) (left_over supply d w) (omega arith)
                  (rest r.0 next_valid fewer))
          | inr kept ↦ (
            deliver flag_normal r.0 r.2 w,
            rw (out, take_head, taken, kept) refl,
            deliver-Spends r.0 r.2 w (left_over supply d w) next_valid (omega arith),
          )
        ]
  ]

  module _ (read : W → ℕ → ReadReply × W) (promise : ReadsFrom read supply) where
    next_loop-Spends :
        (fuel : ℕ) (d : Libevdev) (w : W)
        → Valid d
        → left_over supply d w < fuel
        → SpendsFrom supply (left_over supply d w) (next_loop read fuel flag_normal d w)
    unfolding next_loop
    next_loop-Spends zero d w v enough = absurd (omega arith)
    next_loop-Spends (suc n) d w v enough =
        let got = refill-Read read supply d w promise v in
        let d1 = (refill read d w).0 in
        let rc = (refill read d w).1 in
        let w1 = (refill read d w).2 in
        elim (Bool-cases (is_neg rc && not (eq_ℤ rc (neg eagain)))) [
          | inl failing ↦ (
            record { device = d1; rc = rc; event = none; world = w1 },
            rw failing refl,
            record { valid = got.valid; less = got.spends; spent = inl (ground (arith, failing)) },
          )
          | inr fine ↦ rw fine (
              Spends-weaken (left_over supply d1 w1) (left_over supply d w) got.spends (
                take_head-Spends w1 (λ d2. next_loop read n flag_normal d2 w1) d1 got.valid
                  (λ d2 v2 less. next_loop-Spends n d2 w1 v2 (omega (arith, got.spends)))))
        ]

  -- A call of libevdev_next_event in normal mode on a device with a well-formed queue and slots
  -- returns, if `read` gives no more than asked for and the fuel exceeds the events queued and
  -- still to be read. It leaves no more of them than there were; and either its result is
  -- negative, or it gives an event, with the status success or sync, and leaves fewer.
  pub next_event-Spends :
      (k : Kernel W)
      → ReadsFrom k.read supply
      → (fuel : ℕ) (d : Libevdev) (w : W) → Valid d
      → left_over supply d w < fuel
      → SpendsFrom supply (left_over supply d w) (next_event k fuel d flag_normal w)
  unfolding next_event
  next_event-Spends k promise fuel d w v enough = elim (Bool-cases (not d.initialized)) [
    | inl raw ↦ rw raw (quick-Spends d (neg ebadf) w v refl)
    | inr ready ↦ elim (Bool-cases (is_neg d.fd)) [
      | inl closed ↦ rw (ready, closed) (quick-Spends d (neg ebadf) w v refl)
      | inr opened ↦
          let (d1, left, valid1, calm, fewer) = leave_sync_total d v in
          rw (ready, opened, left)
            (Spends-weaken (left_over supply d1 w) (left_over supply d w) (omega arith)
              (next_loop-Spends k.read promise fuel d1 w valid1 (omega arith)))
    ]
  ]
