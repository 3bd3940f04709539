-- ===== src/NextEvent/Call.antt =====
-- libevdev_next_event as a whole, for a call that has no sync to start.
use android_external_libevde.Base.{
  ℕ, ap, ◌+◌, ◌<◌, ◌≡◌, refl, Bool, true, false, not, ◌==◌, ◌&&◌, if◌then◌else◌, ℤ, neg, Option,
  none, some, arith, Bool-cases, inl, inr, is_neg,
}
use android_external_libevde.Event.{ebadf, einval, eagain}
use android_external_libevde.Device.{Libevdev, sync_none}
use android_external_libevde.Kernel.{Kernel}
use android_external_libevde.Reader.Valid.{Valid, ReadsFrom}
use android_external_libevde.NextEvent.{
  Outcome, returns, quick, next_loop, next_event, enter_sync, has_flag, valid_flags, flag_sync,
  is_sync_needed,
}
use android_external_libevde.NextEvent.Total.{leave_sync_total, with_sync-Valid}
use android_external_libevde.NextEvent.Loop.{Returns, next_loop_total}

pub quick_total : {W : Type 0} (d : Libevdev) (rc : ℤ) (w : W) → Valid d → Returns (quick d rc w)
quick_total d rc w v = (record { device = d; rc = rc; event = none; world = w }, refl, v)

abbrev pub sync_left : {W : Type 0} → Libevdev → W → Option (Libevdev × W × Option ℤ)
sync_left d w =
    if d.queue_nsync == 0
    then some (record d { sync_state = sync_none }, w, some (neg eagain))
    else some (d, w, none)

-- Once a sync has been started, its part either ends it or goes on with the same device.
pub enter_sync-started :
    {W : Type 0} (k : Kernel W) (d : Libevdev) (w : W)
    → is_sync_needed d.sync_state ≡ false
    → enter_sync k d w ≡ sync_left d w
unfolding enter_sync
enter_sync-started k d w calm = rw calm refl

-- On a device with a well-formed queue and slots, a call of libevdev_next_event that has no sync
-- to start returns, for every flags and every event, if the fuel exceeds the events queued and
-- still to be read and `read` gives no more than asked for. The queue and the slots are well
-- formed afterwards, and no access was outside them.
pub next_event_total :
    {W : Type 0} (k : Kernel W) (supply : W → ℕ)
    → ReadsFrom k.read supply
    → (fuel flags : ℕ) (d : Libevdev) (w : W) → Valid d
    → (has_flag flags flag_sync && is_sync_needed d.sync_state) ≡ false
    → d.queue.queue_next + supply w < fuel
    → Returns (next_event k fuel d flags w)
unfolding next_event
next_event_total k supply promise fuel flags d w v calm enough =
    elim (Bool-cases (not d.initialized)) [
      | inl raw ↦ rw raw (quick_total d (neg ebadf) w v)
      | inr ready ↦ elim (Bool-cases (is_neg d.fd)) [
        | inl closed ↦ rw (ready, closed) (quick_total d (neg ebadf) w v)
        | inr open' ↦ elim (Bool-cases (not (has_flag flags valid_flags))) [
          | inl unknown ↦ rw (ready, open', unknown) (quick_total d (neg einval) w v)
          | inr known ↦ elim (Bool-cases (has_flag flags flag_sync)) [
            | inl sync ↦
                rw (ready, open', known, sync, enter_sync-started k d w (started calm sync))
                  (in_sync)
            | inr plain ↦
                let (d1, left, valid1, none_pending, fewer) = leave_sync_total d v in
                rw (ready, open', known, plain, left)
                  (next_loop_total k.read supply promise fuel flags d1 w valid1 (omega arith))
          ]
        ]
      ]
    ]
  where
    started : {a b : Bool} → (a && b) ≡ false → a ≡ true → b ≡ false
    started h t = ground arith

    in_sync : Returns (elim (sync_left d w) [
      | none ↦ Outcome.undefined
      | some (d1, w1, early) ↦ elim early [
        | some rc ↦ quick d1 rc w1
        | none ↦ next_loop k.read fuel flags d1 w1
      ]
    ])
    in_sync = elim (Bool-cases (d.queue_nsync == 0)) [
      | inl over ↦ rw over (
          quick_total (record d { sync_state = sync_none }) (neg eagain) w
            (with_sync-Valid d sync_none d.queue_nsync v))
      | inr more ↦ rw more (next_loop_total k.read supply promise fuel flags d w v enough)
    ]

-- In sync mode, once the sync was started and its events are used up, a call on an open device
-- gives -EAGAIN and the device is back in the default state; the rest of the device and the kernel
-- are as they were.
pub next_event-sync_over :
    {W : Type 0} (k : Kernel W) (fuel flags : ℕ) (d : Libevdev) (w : W)
    → d.initialized ≡ true
    → is_neg d.fd ≡ false
    → has_flag flags valid_flags ≡ true
    → has_flag flags flag_sync ≡ true
    → is_sync_needed d.sync_state ≡ false
    → d.queue_nsync ≡ 0
    → next_event k fuel d flags w
      ≡ returns (record {
        device = record d { sync_state = sync_none };
        rc = neg eagain;
        event = none;
        world = w;
      })
unfolding next_event
next_event-sync_over k fuel flags d w ready opened known sync started over =
    let none_left : (d.queue_nsync == 0) ≡ true = ap (λ n. n == 0) over in
    rw (ap not ready, opened, ap not known, sync, enter_sync-started k d w started, none_left) refl
