-- ===== src/NextEvent/Complete.antt =====
-- libevdev_next_event as a whole, for a call that may start a sync.
use android_external_libevde.Base.{
  ℕ, ◌+◌, ◌≤◌, ◌<◌, ◌≡◌, refl, not, ◌==◌, ℤ, neg, Option, none, some, arith, Bool-cases, inl, inr,
  is_neg, eq_ℤ, pos,
}
use android_external_libevde.Event.{ebadf, einval, eagain}
use android_external_libevde.Device.{Libevdev, sync_none, sync_in_progress}
use android_external_libevde.Kernel.{Kernel}
use android_external_libevde.Reader.Valid.{Valid, ReadsFrom}
use android_external_libevde.Reader.Total.{AnswersFor, sync_state_total}
use android_external_libevde.NextEvent.{
  quick, next_loop, next_event, enter_sync, has_flag, valid_flags, flag_sync, is_sync_needed,
}
use android_external_libevde.NextEvent.Total.{leave_sync_total, with_sync-Valid}
use android_external_libevde.NextEvent.Loop.{Returns, next_loop_total}
use android_external_libevde.NextEvent.Call.{quick_total, sync_left}

module _ {W : Type 0} (k : Kernel W) (supply : W → ℕ) (promise : ReadsFrom k.read supply) where
  -- The part for the sync flag goes through, and leaves no more to take than the queue has room for
  -- and the kernel still has.
  Entered : Libevdev → W → Libevdev × W × Option ℤ → Type 0
  Entered d w s = Valid s.0 × (s.0.queue.queue_next + supply s.1 ≤ d.queue.queue_size + supply w)

  sync_left-Entered :
      (d0 d : Libevdev) (w0 w : W)
      → Valid d
      → d.queue.queue_size ≡ d0.queue.queue_size
      → supply w ≤ supply w0
      → (s : Libevdev × W × Option ℤ) × (sync_left d w ≡ some s) × Entered d0 w0 s
  unfolding Entered
  sync_left-Entered d0 d w0 w v size less =
      let fits = v.queue_valid.fits in
      elim (Bool-cases (d.queue_nsync == 0)) [
        | inl over ↦ (
          (record d { sync_state = sync_none }, w, some (neg eagain)),
          rw over refl,
          (with_sync-Valid d sync_none d.queue_nsync v, omega arith),
        )
        | inr more ↦ ((d, w, none), rw more refl, (v, omega arith))
      ]

  enter_sync-Goes :
      (d : Libevdev) (w : W)
      → Valid d
      → AnswersFor k d
      → (s : Libevdev × W × Option ℤ) × (enter_sync k d w ≡ some s) × Entered d w s
  unfolding enter_sync Entered
  enter_sync-Goes d w v answers = elim (Bool-cases (is_sync_needed d.sync_state)) [
    | inr started ↦
        let (s, left, ok) = sync_left-Entered d d w w v refl (omega arith) in
        (s, rw started left, ok)
    | inl needed ↦
        let (r, synced, kept, less) = sync_state_total k supply d w promise v answers in
        let fits = kept.valid.queue_valid.fits in
        elim (Bool-cases (eq_ℤ r.1 (pos 0))) [
          | inr failing ↦ (
            (r.0, r.2, some r.1),
            rw (needed, synced, failing) refl,
            (kept.valid, omega (arith, kept.same_size)),
          )
          | inl fine ↦
              let d1 = record r.0 { sync_state = sync_in_progress } in
              let (s, left, ok) =
                sync_left-Entered d d1 w r.2
                  (with_sync-Valid r.0 sync_in_progress r.0.queue_nsync kept.valid) kept.same_size
                  less in
              (s, rw (needed, synced, fine) left, ok)
        ]
  ]

  after_enter :
      (fuel flags : ℕ) (d : Libevdev) (w : W) (s : Libevdev × W × Option ℤ)
      → Entered d w s
      → d.queue.queue_size + supply w < fuel
      → Returns
          (elim s.2 [ some rc ↦ quick s.0 rc s.1 | none ↦ next_loop k.read fuel flags s.0 s.1 ])
  unfolding Entered
  after_enter fuel flags d w (d1, w1, some rc) (v, less) enough = quick_total d1 rc w1 v
  after_enter fuel flags d w (d1, w1, none) (v, less) enough =
      next_loop_total k.read supply promise fuel flags d1 w1 v (omega arith)

  -- On a device with a well-formed queue and slots, a call of libevdev_next_event returns, for
  -- every flags, also where it starts a sync: if `read` gives no more than asked for, the kernel
  -- answers a touch sync with a value for each of the first 256 slots and a current slot that
  -- exists, and the fuel exceeds the size of the queue and the events still to be read. The queue
  -- and the slots are well formed afterwards, and no access was outside them.
  pub next_event-Returns :
      (fuel flags : ℕ) (d : Libevdev) (w : W)
      → Valid d
      → AnswersFor k d
      → d.queue.queue_size + supply w < fuel
      → Returns (next_event k fuel d flags w)
  unfolding next_event
  next_event-Returns fuel flags d w v answers enough =
      let fits = v.queue_valid.fits in
      elim (Bool-cases (not d.initialized)) [
        | inl raw ↦ rw raw (quick_total d (neg ebadf) w v)
        | inr ready ↦ elim (Bool-cases (is_neg d.fd)) [
          | inl closed ↦ rw (ready, closed) (quick_total d (neg ebadf) w v)
          | inr open' ↦ elim (Bool-cases (not (has_flag flags valid_flags))) [
            | inl unknown ↦ rw (ready, open', unknown) (quick_total d (neg einval) w v)
            | inr known ↦ elim (Bool-cases (has_flag flags flag_sync)) [
              | inl sync ↦
                  let (s, entered, ok) = enter_sync-Goes d w v answers in
                  rw (ready, open', known, sync, entered) (after_enter fuel flags d w s ok enough)
              | inr plain ↦
                  let (d1, left, valid1, none_pending, fewer) = leave_sync_total d v in
                  rw (ready, open', known, plain, left)
                    (next_loop_total k.read supply promise fuel flags d1 w valid1 (omega arith))
            ]
          ]
        ]
      ]
