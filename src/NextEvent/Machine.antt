-- ===== src/NextEvent/Machine.antt =====
-- The sync state machine that libevdev/libevdev-int.h draws beside `enum SyncState`.
use android_external_libevde.Base.{
  ℕ, ◌+◌, ◌<◌, ◌≡◌, refl, sym, Bool, true, false, not, ◌==◌, ◌&&◌, ℤ, neg, none, some, arith,
  Bool-cases, inl, inr, is_neg, eq_ℤ, pos, ◌⊎◌, ap, ltb,
}
use mathlib.Core.Path.{subst}
use android_external_libevde.Codes.{ev_syn, syn_dropped}
use android_external_libevde.Event.{Event, eagain}
use android_external_libevde.Device.{Libevdev, SyncState, sync_none, sync_needed, sync_in_progress}
use android_external_libevde.Kernel.{Kernel}
use android_external_libevde.Reader.{sync_state}
use android_external_libevde.Reader.Valid.{Valid, ReadsFrom}
use android_external_libevde.Reader.Total.{AnswersFor, sync_state_total}
use android_external_libevde.NextEvent.{
  Outcome, returns, Next, quick, deliver, next_loop, next_event, enter_sync, has_flag, valid_flags,
  flag_sync, is_sync_needed, dec_size,
}
use android_external_libevde.NextEvent.Total.{leave_sync_total, with_sync-Valid}
use android_external_libevde.NextEvent.Call.{sync_left, enter_sync-started}
use android_external_libevde.NextEvent.Outcomes.{Left, next_loop-Leaves}

-- The arrows, for a call with the sync flag or without it; in each state a call may also end the
-- sync or find that a new one is needed.
pub data Arrow : Bool → SyncState → SyncState → Type 0 where
  needs_sync : {b : Bool} {s : SyncState} → Arrow b s sync_needed
  back_to_none : {b : Bool} {s : SyncState} → Arrow b s sync_none
  starts : Arrow true sync_needed sync_in_progress
  goes_on : Arrow true sync_in_progress sync_in_progress

deliver-state :
    {W : Type 0} (flags : ℕ) (d : Libevdev) (e : Event) (w : W) (s : SyncState)
    → d.sync_state ≡ s
    → (((deliver flags d e w).device.sync_state ≡ s)
        ⊎ (((deliver flags d e w).device.sync_state ≡ sync_needed)
            ⊎ ((deliver flags d e w).device.sync_state ≡ sync_none)))
unfolding deliver
deliver-state flags d e w s same = elim (Bool-cases (e.type == ev_syn && e.code == syn_dropped)) [
  | inl dropped ↦ elim (Bool-cases (has_flag flags flag_sync && ltb 0 d.queue_nsync)) [
    | inr over ↦ rw (dropped, over) (inr (inl refl))
    | inl counted ↦ elim (Bool-cases (dec_size d.queue_nsync == 0)) [
      | inl last ↦ rw (dropped, counted, last) (inr (inr refl))
      | inr more ↦ rw (dropped, counted, more) (inr (inl refl))
    ]
  ]
  | inr other ↦ elim (Bool-cases (has_flag flags flag_sync && ltb 0 d.queue_nsync)) [
    | inr over ↦ rw (other, over) (inl same)
    | inl counted ↦ elim (Bool-cases (dec_size d.queue_nsync == 0)) [
      | inl last ↦ rw (other, counted, last) (inr (inr refl))
      | inr more ↦ rw (other, counted, more) (inl same)
    ]
  ]
]

-- The loop ends in the state in which it began, or in one of those two.
Left-state :
    {W : Type 0} (flags : ℕ) (s : SyncState) (n : ℕ) (r : Next W)
    → Left flags s n r
    → (r.device.sync_state ≡ s)
      ⊎ ((r.device.sync_state ≡ sync_needed) ⊎ (r.device.sync_state ≡ sync_none))
Left-state flags s n r (Left.waits same count failing) = inl same
Left-state flags s n r (Left.forced force needed rc) = inr (inl needed)
Left-state flags s n r (Left.delivers d e w same count told) =
    rw told (deliver-state flags d e w s same)

stays : (s : SyncState) → is_sync_needed s ≡ false → Arrow true s s
stays sync_none h = back_to_none
stays sync_needed h = absurd cc
stays sync_in_progress h = goes_on

begins : (s : SyncState) → is_sync_needed s ≡ true → Arrow true s sync_in_progress
begins sync_none h = absurd cc
begins sync_needed h = starts
begins sync_in_progress h = goes_on

fails : (s s' : SyncState) → is_sync_needed s ≡ true → s' ≡ s → Arrow true s s'
fails sync_none s' h e = absurd cc
fails sync_needed s' h e = subst (λ x. Arrow true sync_needed x) (sym e) needs_sync
fails sync_in_progress s' h e = absurd cc

ends-Arrow :
    (b : Bool) (s0 s s' : SyncState)
    → Arrow b s0 s
    → ((s' ≡ s) ⊎ ((s' ≡ sync_needed) ⊎ (s' ≡ sync_none)))
    → Arrow b s0 s'
ends-Arrow b s0 s s' a (inl same) = subst (λ x. Arrow b s0 x) (sym same) a
ends-Arrow b s0 s s' a (inr (inl needed)) = subst (λ x. Arrow b s0 x) (sym needed) needs_sync
ends-Arrow b s0 s s' a (inr (inr calm)) = subst (λ x. Arrow b s0 x) (sym calm) back_to_none

abbrev pub Moves : {W : Type 0} → Bool → SyncState → Outcome (Next W) → Type 0
Moves {W} b s o = (r : Next W) × (o ≡ returns r) × Arrow b s r.device.sync_state

module _ {W : Type 0} (k : Kernel W) (supply : W → ℕ) (promise : ReadsFrom k.read supply) where
  -- What follows once the sync was entered with a device in state `s`.
  go_on-Moves :
      (fuel flags : ℕ) (s0 s : SyncState) (d : Libevdev) (w : W)
      → Valid d
      → d.sync_state ≡ s
      → Arrow true s0 s
      → d.queue.queue_next + supply w < fuel
      → Moves true s0 (elim (sync_left d w) [
        | none ↦ Outcome.undefined
        | some (d1, w1, early) ↦ elim early [
          | some rc ↦ quick d1 rc w1
          | none ↦ next_loop k.read fuel flags d1 w1
        ]
      ])
  go_on-Moves fuel flags s0 s d w v same a enough = elim (Bool-cases (d.queue_nsync == 0)) [
    | inl over ↦ (
      record {
        device = record d { sync_state = sync_none };
        rc = neg eagain;
        event = none;
        world = w;
      },
      rw over refl,
      back_to_none,
    )
    | inr more ↦
        let (r, looped, left) =
          next_loop-Leaves flags s d.queue_nsync k.read supply promise fuel d w v same refl
            enough in
        (
          r,
          rw more looped,
          ends-Arrow true s0 s r.device.sync_state a (Left-state flags s d.queue_nsync r left),
        )
  ]

  enter_sync-begun :
      (d d' : Libevdev) (rc : ℤ) (w w' : W)
      → is_sync_needed d.sync_state ≡ true
      → sync_state k d w ≡ some (d', rc, w')
      → eq_ℤ rc (pos 0) ≡ true
      → enter_sync k d w ≡ sync_left (record d' { sync_state = sync_in_progress }) w'
  unfolding enter_sync
  enter_sync-begun d d' rc w w' needed synced fine = rw (needed, synced, fine) refl

  enter_sync-failed :
      (d d' : Libevdev) (rc : ℤ) (w w' : W)
      → is_sync_needed d.sync_state ≡ true
      → sync_state k d w ≡ some (d', rc, w')
      → eq_ℤ rc (pos 0) ≡ false
      → enter_sync k d w ≡ some (d', w', some rc)
  unfolding enter_sync
  enter_sync-failed d d' rc w w' needed synced failing = rw (needed, synced, failing) refl

  -- On a device with a well-formed queue and slots that is open, a call of libevdev_next_event
  -- with known flags returns, if `read` gives no more than asked for, the kernel answers a touch
  -- sync with a value for each of the first 256 slots and a current slot that exists, and the fuel
  -- exceeds the size of the queue and the events still to be read. It leaves the sync state at
  -- SYNC_NONE, at SYNC_NEEDED, or at SYNC_IN_PROGRESS, and at the last only if the call had the
  -- sync flag and a sync was needed or in progress before it.
  pub next_event-Moves :
      (fuel flags : ℕ) (d : Libevdev) (w : W)
      → Valid d
      → AnswersFor k d
      → d.initialized ≡ true
      → is_neg d.fd ≡ false
      → has_flag flags valid_flags ≡ true
      → d.queue.queue_size + supply w < fuel
      → Moves (has_flag flags flag_sync) d.sync_state (next_event k fuel d flags w)
  unfolding next_event
  next_event-Moves fuel flags d w v answers ready opened known enough =
      let fits = v.queue_valid.fits in
      elim (Bool-cases (has_flag flags flag_sync)) [
        | inr plain ↦
            let (d1, done, valid1, calm, fewer) = leave_sync_total d v in
            let (r, looped, left) =
              next_loop-Leaves flags sync_none d1.queue_nsync k.read supply promise fuel d1 w valid1
                calm refl (omega arith) in
            (
              r,
              rw (ap not ready, opened, ap not known, plain, done) looped,
              ends-Arrow (has_flag flags flag_sync) d.sync_state sync_none r.device.sync_state
                  back_to_none (Left-state flags sync_none d1.queue_nsync r left),
            )
        | inl sync ↦ elim (Bool-cases (is_sync_needed d.sync_state)) [
          | inr started ↦
              rw (ap not ready, opened, ap not known, sync, enter_sync-started k d w started)
                (go_on-Moves fuel flags d.sync_state d.sync_state d w v refl
                  (stays d.sync_state started) (omega arith))
          | inl needed ↦
              let ((d', rc, w'), synced, kept, less) =
                sync_state_total k supply d w promise v answers in
              let still_fits = kept.valid.queue_valid.fits in
              elim (Bool-cases (eq_ℤ rc (pos 0))) [
                | inr failing ↦ (
                  record { device = d'; rc = rc; event = none; world = w' },
                  rw
                      (
                        ap not ready,
                        opened,
                        ap not known,
                        sync,
                        enter_sync-failed d d' rc w w' needed synced failing,
                      )
                      refl,
                  rw sync (fails d.sync_state d'.sync_state needed kept.same_sync),
                )
                | inl fine ↦
                    rw
                      (
                        ap not ready,
                        opened,
                        ap not known,
                        sync,
                        enter_sync-begun d d' rc w w' needed synced fine,
                      )
                      (go_on-Moves fuel flags d.sync_state sync_in_progress
                        (record d' { sync_state = sync_in_progress }) w'
                        (with_sync-Valid d' sync_in_progress d'.queue_nsync kept.valid) refl
                        (begins d.sync_state needed) (omega (arith, kept.same_size)))
              ]
        ]
      ]
