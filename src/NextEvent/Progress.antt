-- ===== src/NextEvent/Progress.antt =====
-- Calls of libevdev_next_event while a sync is in progress.
use android_external_libevde.Base.{
  ℕ, suc, ◌+◌, ◌^◌, ◌<◌, ◌≡◌, refl, ap, ◌∙◌, true, false, not, ◌==◌, ◌&&◌, ltb, is_neg, arith,
  Bool-cases, inl, inr, ◌⊎◌, lt→ltb,
}
use android_external_libevde.Codes.{ev_syn, syn_dropped}
use android_external_libevde.Event.{Event}
use android_external_libevde.Device.{Libevdev, SyncState}
use android_external_libevde.Kernel.{Kernel}
use android_external_libevde.Reader.Valid.{Valid, ReadsFrom}
use android_external_libevde.NextEvent.{
  returns, Next, deliver, next_event, has_flag, valid_flags, flag_sync, flag_force_sync,
  is_sync_needed, status_sync, dec_size,
}
use android_external_libevde.NextEvent.Call.{enter_sync-started}
use android_external_libevde.NextEvent.Outcomes.{Left, next_loop-Leaves}

-- Nothing more to give, or the next event of the sync.
abbrev pub Advances : {W : Type 0} → ℕ → Next W → Type 0
Advances n r = (is_neg r.rc ≡ true) ⊎ ((r.rc ≡ status_sync) × (suc r.device.queue_nsync ≡ n))

dec_size-suc : (n : ℕ) → 0 < n → n < 2 ^ 64 → suc (dec_size n) ≡ n
dec_size-suc n some_left small = omega arith

deliver-Advances :
    {W : Type 0} (flags n : ℕ) (d : Libevdev) (e : Event) (w : W)
    → has_flag flags flag_sync ≡ true
    → d.queue_nsync ≡ n
    → 0 < n
    → n < 2 ^ 64
    → Advances n (deliver flags d e w)
unfolding deliver
deliver-Advances flags n d e w sync count some_left small =
    let more : ltb 0 d.queue_nsync ≡ true = ap (ltb 0) count ∙ lt→ltb 0 n some_left in
    let less : suc (dec_size d.queue_nsync) ≡ n =
      ap (λ m. suc (dec_size m)) count ∙ dec_size-suc n some_left small in
    elim (Bool-cases (e.type == ev_syn && e.code == syn_dropped)) [
      | inl dropped ↦ rw (dropped, sync, more) (inr (refl, less))
      | inr other ↦ rw (other, sync, more) (inr (refl, less))
    ]

Left-Advances :
    {W : Type 0} (flags n : ℕ) (s : SyncState) (r : Next W)
    → has_flag flags flag_sync ≡ true
    → has_flag flags flag_force_sync ≡ false
    → 0 < n
    → n < 2 ^ 64
    → Left flags s n r
    → Advances n r
Left-Advances flags n s r sync calm some_left small (Left.waits same count failing) = inl failing
Left-Advances flags n s r sync calm some_left small (Left.forced force needed rc) =
    absurd (ground (arith, force, calm))
Left-Advances flags n s r sync calm some_left small (Left.delivers d e w same count told) =
    rw told (deliver-Advances flags n d e w sync count some_left small)

-- While a sync is in progress and events of it are left, a call with the sync flag and no forced
-- sync on an open device whose queue and slots are well formed returns, with enough fuel and a
-- `read` that gives no more than asked for, and either it has nothing to give and says so with a
-- negative error number, or it gives LIBEVDEV_READ_STATUS_SYNC and the number of sync events left
-- is one less.
pub next_event-Advances :
    {W : Type 0} (k : Kernel W) (supply : W → ℕ)
    → ReadsFrom k.read supply
    → (fuel flags : ℕ) (d : Libevdev) (w : W) → Valid d
    → d.initialized ≡ true
    → is_neg d.fd ≡ false
    → has_flag flags valid_flags ≡ true
    → has_flag flags flag_sync ≡ true
    → has_flag flags flag_force_sync ≡ false
    → is_sync_needed d.sync_state ≡ false
    → 0 < d.queue_nsync
    → d.queue_nsync < 2 ^ 64
    → d.queue.queue_next + supply w < fuel
    → (r : Next W) × (next_event k fuel d flags w ≡ returns r) × Advances d.queue_nsync r
unfolding next_event
next_event-Advances k supply promise fuel flags d w v ready opened known sync calm started some_left
      small enough =
    let n = d.queue_nsync in
    let not_over : (n == 0) ≡ false = ground arith in
    let (r, looped, left) =
      next_loop-Leaves flags d.sync_state n k.read supply promise fuel d w v refl refl enough in
    (
      r,
      rw (ap not ready, opened, ap not known, sync, enter_sync-started k d w started, not_over)
          looped,
      Left-Advances flags n d.sync_state r sync calm some_left small left,
    )
