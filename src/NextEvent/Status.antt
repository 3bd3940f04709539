-- ===== src/NextEvent/Status.antt =====
-- What the result of libevdev_next_event says about the sync state.
use android_external_libevde.Base.{
  ℕ, ◌+◌, ◌<◌, ◌≡◌, refl, true, false, not, ◌==◌, ◌&&◌, ℤ, pos, negsuc, eq_ℤ, is_neg, arith,
  Bool-cases, inl, inr, ◌⊎◌, ap,
}
use android_external_libevde.Codes.{ev_syn, syn_dropped}
use android_external_libevde.Event.{Event}
use android_external_libevde.Kernel.{Kernel}
use android_external_libevde.Device.{Libevdev, sync_none, sync_needed}
use android_external_libevde.Reader.Valid.{Valid, ReadsFrom}
use android_external_libevde.NextEvent.{
  Outcome, returns, Next, deliver, next_event, has_flag, flag_sync, valid_flags, status_sync,
}
use android_external_libevde.NextEvent.Total.{leave_sync_total}
use android_external_libevde.NextEvent.Outcomes.{Left, next_loop-Leaves}

-- The caller is told that a sync is needed exactly when the device is in that state; else the device
-- is in the default state.
abbrev pub Told : {W : Type 0} → Next W → Type 0
Told r =
    ((r.device.sync_state ≡ sync_none) × (eq_ℤ r.rc status_sync ≡ false))
    ⊎ ((r.device.sync_state ≡ sync_needed) × (r.rc ≡ status_sync))

abbrev pub Tells : {W : Type 0} → Outcome (Next W) → Type 0
Tells {W} o = (r : Next W) × (o ≡ returns r) × Told r

deliver-Told :
    {W : Type 0} (flags : ℕ) (d : Libevdev) (e : Event) (w : W)
    → has_flag flags flag_sync ≡ false
    → d.sync_state ≡ sync_none
    → Told (deliver flags d e w)
unfolding deliver
deliver-Told flags d e w plain calm =
    elim (Bool-cases (e.type == ev_syn && e.code == syn_dropped)) [
      | inl dropped ↦ rw (plain, dropped) (inr (refl, refl))
      | inr other ↦ rw (plain, other) (inl (calm, refl))
    ]

failed-status : (rc : ℤ) → is_neg rc ≡ true → eq_ℤ rc status_sync ≡ false
failed-status (pos n) h = cc
failed-status (negsuc n) h = refl

Left-Told :
    {W : Type 0} (flags n : ℕ) (r : Next W)
    → has_flag flags flag_sync ≡ false
    → Left flags sync_none n r
    → Told r
Left-Told flags n r plain (Left.waits calm count failing) = inl (calm, failed-status r.rc failing)
Left-Told flags n r plain (Left.forced force needed rc) = inr (needed, rc)
Left-Told flags n r plain (Left.delivers d e w calm count told) =
    rw told (deliver-Told flags d e w plain calm)

module _ {W : Type 0} (flags : ℕ) (plain : has_flag flags flag_sync ≡ false) where
  -- A call of libevdev_next_event in normal mode on an open device whose queue and slots are well
  -- formed, with enough fuel and a `read` that gives no more than asked for, returns, and its
  -- result is LIBEVDEV_READ_STATUS_SYNC exactly if it leaves the device in need of a sync; else
  -- the device is in the default state, whatever sync was going on before.
  pub next_event-Tells :
      (k : Kernel W) (supply : W → ℕ)
      → ReadsFrom k.read supply
      → (fuel : ℕ) (d : Libevdev) (w : W) → Valid d
      → d.initialized ≡ true
      → is_neg d.fd ≡ false
      → has_flag flags valid_flags ≡ true
      → d.queue.queue_next + supply w < fuel
      → Tells (next_event k fuel d flags w)
  unfolding next_event
  next_event-Tells k supply promise fuel d w v ready opened known enough =
      let (d1, done, valid1, calm, fewer) = leave_sync_total d v in
      let (r, looped, left) =
        next_loop-Leaves flags sync_none d1.queue_nsync k.read supply promise fuel d1 w valid1 calm
          refl (omega arith) in
      (
        r,
        rw (ap not ready, opened, ap not known, plain, done) looped,
        Left-Told flags d1.queue_nsync r plain left,
      )
