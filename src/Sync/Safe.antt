-- ===== src/Sync/Safe.antt =====
-- What the syncs of keys, switches, LEDs and axes do to the queue and the slots.
use android_external_libevde.Base.{
  ap, ◌⊎◌, ℕ, zero, suc, ◌+◌, ◌≡◌, refl, ◌∙◌, not, leb, ◌||◌, ◌&&◌, bool_eq, ℤ, eq_ℤ, arith,
  Bool-cases, Option-cases, inl, inr,
}
use android_external_libevde.Codes.{
  ev_key, ev_sw, ev_led, ev_abs, key_cnt, sw_cnt, led_cnt, abs_mt_min, abs_mt_max, abs_cnt, abs_x,
}
use android_external_libevde.Event.{Event, AbsInfo, Reply, done, failed}
use android_external_libevde.Bitfield.{Words, bit_is_set}
use android_external_libevde.Queue
use android_external_libevde.Queue.{Queue}
use android_external_libevde.Queue.Fifo
use android_external_libevde.Device.{Libevdev, abs_at}
use android_external_libevde.Slots.Valid.{SlotsValid, no_slots, slots}
use android_external_libevde.State.{set_abs_value, bit_value}
use android_external_libevde.Reader.Valid.{Valid, with_queue-SlotsValid}
use android_external_libevde.Sync.{
  queue_push_event, push_changes, sync_key_state, sync_sw_state, sync_led_state, sync_axis,
  sync_axes, sync_abs_state,
}

pub Reply-cases :
    {A : Type 0} (r : Reply A)
    → ((errno : ℕ) × (r ≡ failed errno)) ⊎ ((rc : ℕ) × (a : A) × (r ≡ done rc a))
Reply-cases (failed errno) = inl (errno, refl)
Reply-cases (done rc a) = inr (rc, a, refl)

-- What a part of a sync leaves alone, and the device well formed.
pub record Synced (d d' : Libevdev) : Type 0 where
  pub valid : Valid d'
  pub same_size : d'.queue.queue_size ≡ d.queue.queue_size
  pub same_masks : d'.masks ≡ d.masks
  pub same_count : d'.num_slots ≡ d.num_slots
  pub same_sync : d'.sync_state ≡ d.sync_state

pub Synced-refl : (d : Libevdev) → Valid d → Synced d d
Synced-refl d v = record {
  valid = v;
  same_size = refl;
  same_masks = refl;
  same_count = refl;
  same_sync = refl;
}

pub Synced-trans : (a b c : Libevdev) → Synced a b → Synced b c → Synced a c
Synced-trans a b c h k = record {
  valid = k.valid;
  same_size = k.same_size ∙ h.same_size;
  same_masks = k.same_masks ∙ h.same_masks;
  same_count = k.same_count ∙ h.same_count;
  same_sync = k.same_sync ∙ h.same_sync;
}

SlotsValid-same :
    (d d' : Libevdev)
    → d'.num_slots ≡ d.num_slots
    → d'.current_slot ≡ d.current_slot
    → d'.mt_slot_vals ≡ d.mt_slot_vals
    → SlotsValid d
    → SlotsValid d'
SlotsValid-same d d' n c v (no_slots en ec) = no_slots (n ∙ en) (c ∙ ec)
SlotsValid-same d d' n c v (slots m k vals en ec lt ev len) =
    slots m k vals (n ∙ en) (c ∙ ec) lt (v ∙ ev) len

-- Where queue, slots, masks and sync state are the same.
pub Synced-same :
    (d d' : Libevdev)
    → Valid d
    → d'.queue ≡ d.queue
    → d'.num_slots ≡ d.num_slots
    → d'.current_slot ≡ d.current_slot
    → d'.mt_slot_vals ≡ d.mt_slot_vals
    → d'.masks ≡ d.masks
    → d'.sync_state ≡ d.sync_state
    → Synced d d'
Synced-same d d' v q n c s m st = record {
  valid = record {
    queue_valid = rw q v.queue_valid;
    slots_valid = SlotsValid-same d d' n c s v.slots_valid;
  };
  same_size = ap (λ x. x.queue_size) q;
  same_masks = m;
  same_count = n;
  same_sync = st;
}

push-queue_size : (q : Queue) (e : Event) → (Queue.push q e).0.queue_size ≡ q.queue_size
unfolding Queue.push
push-queue_size q e = ground arith

pub Synced-queue :
    (d : Libevdev) (q : Queue)
    → Valid d
    → Fifo.IsValid q
    → q.queue_size ≡ d.queue.queue_size
    → Synced d (record d { queue = q })
Synced-queue d q v ok size = record {
  valid = record { queue_valid = ok; slots_valid = with_queue-SlotsValid d q v.slots_valid };
  same_size = size;
  same_masks = refl;
  same_count = refl;
  same_sync = refl;
}

pub queue_push_event-Synced :
    (d : Libevdev) (type code : ℕ) (value : ℤ)
    → Valid d
    → Synced d (queue_push_event d type code value).0
unfolding queue_push_event
queue_push_event-Synced d type code value v =
    Synced-queue d _ v (Fifo.push-IsValid d.queue _ v.queue_valid) (push-queue_size d.queue _)

push_changes-Synced :
    (type : ℕ) (old new : Words) (n code : ℕ) (d : Libevdev)
    → Valid d
    → Synced d (push_changes type old new n code d)
unfolding push_changes
push_changes-Synced type old new zero code d v = Synced-refl d v
push_changes-Synced type old new (suc n) code d v =
    elim (Bool-cases (bool_eq (bit_is_set old code) (bit_is_set new code))) [
      | inl same ↦ rw same (push_changes-Synced type old new n (code + 1) d v)
      | inr changed ↦
          let d1 = (queue_push_event d type code (bit_value (bit_is_set new code))).0 in
          let first = queue_push_event-Synced d type code (bit_value (bit_is_set new code)) v in
          rw changed (
            Synced-trans d d1 _ first
              (push_changes-Synced type old new n (code + 1) d1 first.valid))
    ]

pub sync_key_state-Synced :
    (d : Libevdev) (reply : Reply Words) → Valid d → Synced d (sync_key_state d reply).0
unfolding sync_key_state
sync_key_state-Synced d (failed errno) v = Synced-refl d v
sync_key_state-Synced d (done rc bits) v =
    let d1 = push_changes ev_key d.key_values bits key_cnt 0 d in
    let pushed = push_changes-Synced ev_key d.key_values bits key_cnt 0 d v in
    Synced-trans d d1 _ pushed (Synced-same d1 _ pushed.valid refl refl refl refl refl refl)

pub sync_sw_state-Synced :
    (d : Libevdev) (reply : Reply Words) → Valid d → Synced d (sync_sw_state d reply).0
unfolding sync_sw_state
sync_sw_state-Synced d (failed errno) v = Synced-refl d v
sync_sw_state-Synced d (done rc bits) v =
    let d1 = push_changes ev_sw d.sw_values bits sw_cnt 0 d in
    let pushed = push_changes-Synced ev_sw d.sw_values bits sw_cnt 0 d v in
    Synced-trans d d1 _ pushed (Synced-same d1 _ pushed.valid refl refl refl refl refl refl)

pub sync_led_state-Synced :
    (d : Libevdev) (reply : Reply Words) → Valid d → Synced d (sync_led_state d reply).0
unfolding sync_led_state
sync_led_state-Synced d (failed errno) v = Synced-refl d v
sync_led_state-Synced d (done rc bits) v =
    let d1 = push_changes ev_led d.led_values bits led_cnt 0 d in
    let pushed = push_changes-Synced ev_led d.led_values bits led_cnt 0 d v in
    Synced-trans d d1 _ pushed (Synced-same d1 _ pushed.valid refl refl refl refl refl refl)

set_abs_value-Synced :
    (d : Libevdev) (code : ℕ) (value : ℤ) → Valid d → Synced d (set_abs_value d code value)
unfolding set_abs_value
set_abs_value-Synced d code value v = Synced-same d _ v refl refl refl refl refl refl

sync_axis-Synced :
    (abs_state : ℕ → Reply AbsInfo) (i : ℕ) (d : Libevdev)
    → Valid d
    → Synced d (sync_axis abs_state i d).0
unfolding sync_axis
sync_axis-Synced abs_state i d v =
    elim (Bool-cases
      (leb abs_mt_min i && leb i abs_mt_max || not (bit_is_set d.masks.abs_bits i))) [
        | inl left_out ↦ rw left_out (Synced-refl d v)
        | inr there ↦ elim (Reply-cases (abs_state i)) [
          | inl (errno, refused) ↦ rw (there, refused) (Synced-refl d v)
          | inr (rc, info, told) ↦ elim (Bool-cases (eq_ℤ (abs_at d i).value info.value)) [
            | inl same ↦ rw (there, told, same) (Synced-refl d v)
            | inr changed ↦
                let d1 = (queue_push_event d ev_abs i info.value).0 in
                let pushed = queue_push_event-Synced d ev_abs i info.value v in
                rw (there, told, changed)
                  (Synced-trans d d1 _ pushed (set_abs_value-Synced d1 i info.value pushed.valid))
          ]
        ]
      ]

sync_axes-Synced :
    (abs_state : ℕ → Reply AbsInfo) (n i : ℕ) (d : Libevdev)
    → Valid d
    → Synced d (sync_axes abs_state n i d).0
unfolding sync_axes
sync_axes-Synced abs_state zero i d v = Synced-refl d v
sync_axes-Synced abs_state (suc n) i d v =
    let d1 = (sync_axis abs_state i d).0 in
    let first = sync_axis-Synced abs_state i d v in
    elim (Option-cases (sync_axis abs_state i d).1) [
      | inl fine ↦
          rw (sync_axes, fine)
            (Synced-trans d d1 _ first (sync_axes-Synced abs_state n (i + 1) d1 first.valid))
      | inr (errno, error) ↦ rw (sync_axes, error) first
    ]

pub sync_abs_state-Synced :
    (d : Libevdev) (abs_state : ℕ → Reply AbsInfo)
    → Valid d
    → Synced d (sync_abs_state d abs_state).0
unfolding sync_abs_state
sync_abs_state-Synced d abs_state v = sync_axes-Synced abs_state abs_cnt abs_x d v
