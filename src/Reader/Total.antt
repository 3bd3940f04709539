-- ===== src/Reader/Total.antt =====
-- `sync_state` of libevdev/libevdev.c as a whole.
use Prim.Native.Nat.{min}
use android_external_libevde.Base.{
  ℕ, ◌≤◌, ◌≡◌, refl, ap, sym, ◌∙◌, true, false, not, ltb, ◌&&◌, ℤ, eq_ℤ, is_neg, pos, [], Option,
  none, some, arith, Bool-cases, inl, inr, ◌⊎◌, length, if◌then◌else◌, ◌>>=◌,
}
use android_external_libevde.Codes.{abs_mt_slot, ev_abs, ev_key, ev_led, ev_sw, ev_syn, syn_report}
use android_external_libevde.Queue
use android_external_libevde.Device.{Libevdev, has_event_code, has_event_type}
use android_external_libevde.Kernel.{Kernel}
use android_external_libevde.Slots.Valid.{SlotsValid, no_slots, slots}
use android_external_libevde.Sync.{queue_push_event, sync_key_state, sync_led_state, sync_abs_state}
use android_external_libevde.Sync.Safe.{
  Synced, Synced-refl, Synced-trans, Synced-same, sync_key_state-Synced, sync_led_state-Synced,
  sync_sw_state-Synced, sync_abs_state-Synced, queue_push_event-Synced,
}
use android_external_libevde.Touch.{terminate_slots, push_mt_sync_events}
use android_external_libevde.Touch.Safe.{Covers, sync_mt_state-Goes}
use android_external_libevde.Touch.Pushes.{
  NamesSlot, terminate_slots-Synced, push_mt_sync_events-Goes,
}
use android_external_libevde.Reader.{
  drain_events, MtPart, start_mt_sync, sync_bits, finish_sync, sync_state,
}
use android_external_libevde.Reader.Valid.{Valid, ReadsFrom}
use android_external_libevde.Reader.Drained.{drain_events-Reads}

-- What the kernel answers to a device with slots: a value for each of the first 256 slots, and a
-- current slot that exists.
pub record Answers {W : Type 0} (k : Kernel W) (n : ℕ) : Type 0 where
  pub covers : (axis : ℕ) → Covers (min 256 n) (k.mt_state axis)
  pub names : NamesSlot n (k.abs_state abs_mt_slot)

abbrev pub AnswersFor : {W : Type 0} → Kernel W → Libevdev → Type 0
AnswersFor k d = (n : ℕ) → d.num_slots ≡ pos n → Answers k n

sync_bits-Synced :
    {W : Type 0} (k : Kernel W) (d : Libevdev) (rc : ℤ) → Valid d → Synced d (sync_bits k (d, rc)).0
unfolding sync_bits
sync_bits-Synced k d rc v =
    let r1 = if has_event_type d.masks ev_key then sync_key_state d k.key_state else (d, rc) in
    let r2 = if has_event_type r1.0.masks ev_led then sync_led_state r1.0 k.led_state else r1 in
    let s1 : Synced d r1.0 = elim (Bool-cases (has_event_type d.masks ev_key)) [
      | inl has ↦ rw has (sync_key_state-Synced d k.key_state v)
      | inr lacks ↦ rw lacks (Synced-refl d v)
    ] in
    let s2 : Synced r1.0 r2.0 = elim (Bool-cases (has_event_type r1.0.masks ev_led)) [
      | inl has ↦ rw has (sync_led_state-Synced r1.0 k.led_state s1.valid)
      | inr lacks ↦ rw lacks (Synced-refl r1.0 s1.valid)
    ] in
    let s12 = Synced-trans d r1.0 r2.0 s1 s2 in
    elim (Bool-cases (has_event_type r2.0.masks ev_sw)) [
      | inl has ↦
          rw has (Synced-trans d r2.0 _ s12 (sync_sw_state-Synced r2.0 k.switch_state s2.valid))
      | inr lacks ↦ rw lacks s12
    ]

finish_sync-Synced : (d : Libevdev) → Valid d → Synced d (finish_sync d)
unfolding finish_sync
finish_sync-Synced d v =
    let n = Queue.num_elements d.queue in
    let d1 = record d { queue_nsync = n } in
    let counted = Synced-same d d1 v refl refl refl refl refl refl in
    elim (Bool-cases (ltb 0 n)) [
      | inr none_queued ↦ rw none_queued counted
      | inl queued ↦
          let d2 = (queue_push_event d1 ev_syn syn_report (pos 0)).0 in
          let pushed = queue_push_event-Synced d1 ev_syn syn_report (pos 0) counted.valid in
          rw queued (
            Synced-trans d d1 _ counted (
              Synced-trans d1 d2 _ pushed
                (Synced-same d2 _ pushed.valid refl refl refl refl refl refl)))
    ]

-- The first part went through; if a touch sync is to follow, there is a record for each slot.
abbrev MtStarted : Libevdev → MtPart → Type 0
MtStarted d m =
    Synced d m.device
    × ((m.want_mt_sync ≡ false) ⊎ ((n : ℕ) × (d.num_slots ≡ pos n) × (length m.changes ≡ n)))

slot_count :
    (d : Libevdev) → SlotsValid d → is_neg d.num_slots ≡ false → (n : ℕ) × (d.num_slots ≡ pos n)
slot_count d (no_slots en ec) h = absurd (ground (arith, en))
slot_count d (slots n c vals en ec lt ev len) h = (n, en)

start_mt_sync-Goes :
    {W : Type 0} (k : Kernel W) (d : Libevdev)
    → Valid d
    → AnswersFor k d
    → (m : MtPart) × (start_mt_sync k d ≡ some m) × MtStarted d m
unfolding start_mt_sync
start_mt_sync-Goes k d v answers =
    elim (Bool-cases (not (is_neg d.num_slots) && has_event_code d.masks ev_abs abs_mt_slot)) [
      | inr without ↦ (
        (record {
          device = d;
          rc = pos 0;
          changes = [];
          last_reported_slot = pos 0;
          want_mt_sync = false;
        }),
        rw without refl,
        (Synced-refl d v, inl refl),
      )
      | inl with_slots ↦
          let (n, counted) = slot_count d v.slots_valid (ground arith) in
          let (r, gone, synced, long) =
            sync_mt_state-Goes d n k.mt_state v counted (answers n counted).covers in
          elim (Bool-cases (eq_ℤ r.1 (pos 0))) [
            | inr failing ↦ (
              (record {
                device = r.0;
                rc = r.1;
                changes = r.2;
                last_reported_slot = pos 0;
                want_mt_sync = false;
              }),
              rw (with_slots, gone, failing) refl,
              (synced, inl refl),
            )
            | inl fine ↦
                let ended = terminate_slots-Synced r.0 r.2 (pos 0) synced.valid in
                (
                  (record {
                    device = (terminate_slots r.0 r.2 (pos 0)).0;
                    rc = r.1;
                    changes = r.2;
                    last_reported_slot = (terminate_slots r.0 r.2 (pos 0)).1;
                    want_mt_sync = true;
                  }),
                  rw (with_slots, gone, fine) refl,
                  (Synced-trans d r.0 _ synced ended, inr (n, counted, long)),
                )
          ]
    ]

-- What comes behind the keys, LEDs and switches.
sync_axes_and_slots : {W : Type 0} → Kernel W → MtPart → Libevdev × ℤ → Option (Libevdev × ℤ)
sync_axes_and_slots k m r =
    let (d3, rc3) =
      if eq_ℤ r.1 (pos 0) && has_event_type r.0.masks ev_abs
      then sync_abs_state r.0 k.abs_state
      else r in
    (if eq_ℤ rc3 (pos 0) && m.want_mt_sync
      then (push_mt_sync_events d3 m.changes m.last_reported_slot (k.abs_state abs_mt_slot) >>= λ r.
          some r.0)
      else some d3)
    >>= λ d4. some (d4, rc3)

sync_axes_and_slots-Goes :
    {W : Type 0} (k : Kernel W) (d : Libevdev) (m : MtPart) (d2 : Libevdev) (rc : ℤ)
    → MtStarted d m
    → Synced m.device d2
    → AnswersFor k d
    → (r : Libevdev × ℤ) × (sync_axes_and_slots k m (d2, rc) ≡ some r) × Synced d r.0
unfolding sync_axes_and_slots
sync_axes_and_slots-Goes k d m d2 rc (started, wants) bits answers =
    let r3 =
      if eq_ℤ rc (pos 0) && has_event_type d2.masks ev_abs
      then sync_abs_state d2 k.abs_state
      else (d2, rc) in
    let s2 = Synced-trans d m.device d2 started bits in
    let s3 : Synced d r3.0 = elim (Bool-cases (eq_ℤ rc (pos 0) && has_event_type d2.masks ev_abs)) [
      | inl axes ↦ rw axes (Synced-trans d d2 _ s2 (sync_abs_state-Synced d2 k.abs_state s2.valid))
      | inr none_asked ↦ rw none_asked s2
    ] in
    elim (Bool-cases (eq_ℤ r3.1 (pos 0) && m.want_mt_sync)) [
      | inr without ↦ (r3, rw without refl, s3)
      | inl touches ↦ elim wants [
        | inl unwanted ↦ absurd (ground (arith, touches, unwanted))
        | inr (n, counted, long) ↦
            let (r4, pushed, s4) =
              push_mt_sync_events-Goes r3.0 n m.changes m.last_reported_slot
                (k.abs_state abs_mt_slot) s3.valid (s3.same_count ∙ counted) long
                (answers n counted).names in
            ((r4.0, r3.1), rw (touches, pushed) refl, Synced-trans d r3.0 r4.0 s3 s4)
      ]
    ]

finish_after :
    {W : Type 0} (o : Option Libevdev) (rc : ℤ) (w : W) {r : Libevdev × ℤ}
    → ◌>>=◌ {B = Libevdev × ℤ} o (λ d. some (d, rc)) ≡ some r
    → ◌>>=◌ {B = Libevdev × ℤ × W} o (λ d. some (finish_sync d, rc, w))
      ≡ some (finish_sync r.0, r.1, w)
finish_after none rc w h = ground arith
finish_after (some d) rc w {r} h =
    let same : (d, rc) ≡ r = ground arith in ap (λ p. some (finish_sync p.0, p.1, w)) same

-- Where the queue and slots are well formed, `read` gives no more than asked for and the kernel
-- answers a touch sync for the slots that the device has, sync_state goes through without an
-- access outside the slots. The queue and slots stay well formed, and the size of the queue, the
-- masks, the number of slots and the sync state do not change.
pub sync_state_total :
    {W : Type 0} (k : Kernel W) (supply : W → ℕ) (d : Libevdev) (w : W)
    → ReadsFrom k.read supply
    → Valid d
    → AnswersFor k d
    → (r : Libevdev × ℤ × W) × (sync_state k d w ≡ some r) × Synced d r.0 × (supply r.2 ≤ supply w)
unfolding sync_state sync_axes_and_slots
sync_state_total k supply d w promise v answers =
    let (drained, less) = drain_events-Reads k.read supply promise d w v in
    let d0 = (drain_events k.read d w).0 in
    let w' = (drain_events k.read d w).1 in
    let answers0 : AnswersFor k d0 = λ n c. answers n (sym drained.same_count ∙ c) in
    let (m, begun, started) = start_mt_sync-Goes k d0 drained.valid answers0 in
    let r2 = sync_bits k (m.device, m.rc) in
    let bits = sync_bits-Synced k m.device m.rc started.0.valid in
    let (r4, gone, s4) = sync_axes_and_slots-Goes k d0 m r2.0 r2.1 started bits answers0 in
    let ended = Synced-trans d0 r4.0 _ s4 (finish_sync-Synced r4.0 s4.valid) in
    (
      (finish_sync r4.0, r4.1, w'),
      rw begun (finish_after _ _ w' gone),
      Synced-trans d d0 _ drained ended,
      less,
    )
