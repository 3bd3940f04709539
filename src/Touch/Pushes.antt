-- ===== src/Touch/Pushes.antt =====
-- What the events of a touch sync do to the queue and the slots (libevdev/libevdev.c,
-- terminate_slots and push_mt_sync_events).
use android_external_libevde.Base.{
  ℕ, zero, suc, ◌+◌, ◌≤◌, ◌<◌, ◌≡◌, refl, sym, ◌∙◌, false, neg, not, ltb, leb, ◌||◌, ◌&&◌, ◌==◌, ℤ,
  eq_ℤ, pos, List, [], ◌∷◌, Option, some, arith, Bool-cases, inl, inr, ◌⊎◌, length, minus_one,
}
use android_external_libevde.Codes.{
  key_max, abs_mt_slot, abs_mt_min, abs_mt_cnt, abs_mt_tracking_id, ev_abs, ev_key, ev_syn,
  syn_report,
}
use android_external_libevde.Event.{Event, AbsInfo, Reply, done, failed}
use android_external_libevde.Bitfield.{bit_is_set}
use android_external_libevde.Device.{Libevdev, has_event_code, has_event_type}
use android_external_libevde.Slots.Valid.{SlotsValid, no_slots, slots}
use android_external_libevde.State.{update_key_state}
use android_external_libevde.Reader.Valid.{Valid}
use android_external_libevde.Sync.{queue_push_event}
use android_external_libevde.Sync.Safe.{
  Synced, Synced-refl, Synced-trans, Synced-same, queue_push_event-Synced,
}
use android_external_libevde.Touch.{
  SlotChange, TouchState, touch_off, touch_started, touch_stopped, touch_ongoing, touch_changed,
  Termination, terminate_slot, count_touches, push_tool, tool_button, terminate_slots,
  push_slot_axes, push_slots, is_stopped, push_mt_sync_events,
}
use android_external_libevde.Touch.Safe.{Goes, slot_value_there, absurd_count, pos_injective}

-- A second event behind a first.
push_again-Synced :
    (d0 d : Libevdev) (type code : ℕ) (value : ℤ)
    → Synced d0 d
    → Synced d0 (queue_push_event d type code value).0
push_again-Synced d0 d type code value before =
    Synced-trans d0 d _ before (queue_push_event-Synced d type code value before.valid)

update_key_state-Synced : (d : Libevdev) (e : Event) → Valid d → Synced d (update_key_state d e).0
unfolding update_key_state
update_key_state-Synced d e v = elim (Bool-cases (not (has_event_type d.masks ev_key))) [
  | inl absent ↦ rw absent (Synced-refl d v)
  | inr present ↦ elim (Bool-cases (ltb key_max e.code)) [
    | inl beyond ↦ rw (present, beyond) (Synced-refl d v)
    | inr within ↦ rw (present, within) (Synced-same d _ v refl refl refl refl refl refl)
  ]
]

-- A touch ends, stays, or is not there before the sync.
TouchState-cases :
    (s : TouchState)
    → ((s ≡ touch_off) ⊎ (s ≡ touch_started))
      ⊎ ((s ≡ touch_ongoing) ⊎ ((s ≡ touch_changed) ⊎ (s ≡ touch_stopped)))
TouchState-cases touch_off = inl (inl refl)
TouchState-cases touch_started = inl (inr refl)
TouchState-cases touch_ongoing = inr (inl refl)
TouchState-cases touch_changed = inr (inr (inl refl))
TouchState-cases touch_stopped = inr (inr (inr refl))

terminate_slot-Synced :
    (slot : ℕ) (d0 : Libevdev) (t : Termination)
    → Synced d0 t.device
    → Synced d0 (terminate_slot slot t).device
terminate_slot-Synced slot d0 t v =
    push_again-Synced d0 _ ev_abs abs_mt_tracking_id minus_one
      (push_again-Synced d0 t.device ev_abs abs_mt_slot (pos slot) v)

count_touches-Synced :
    (changes : List SlotChange) (slot : ℕ) (d0 : Libevdev) (t : Termination)
    → Synced d0 t.device
    → Synced d0 (count_touches changes slot t).device
unfolding count_touches
count_touches-Synced [] slot d0 t v = v
count_touches-Synced (c ∷ changes) slot d0 t v =
    let rest = count_touches-Synced changes (slot + 1) d0 in
    let ended = rest (terminate_slot slot t) (terminate_slot-Synced slot d0 t v) in
    elim (TouchState-cases c.state) [
      | inl (inl off) ↦ rw (count_touches, off) (rest t v)
      | inl (inr started) ↦ rw (count_touches, started) (rest t v)
      | inr (inl ongoing) ↦
          rw (count_touches, ongoing)
            (rest
              (record t {
                ntouches_before = t.ntouches_before + 1;
                ntouches_after = t.ntouches_after + 1;
              })
              v)
      | inr (inr (inl changed)) ↦ rw (count_touches, changed) ended
      | inr (inr (inr stopped)) ↦ rw (count_touches, stopped) ended
    ]

push_tool-Synced :
    (n : ℕ) (value : ℤ) (d0 d : Libevdev) → Synced d0 d → Synced d0 (push_tool n value d)
unfolding push_tool
push_tool-Synced n value d0 d v = elim (Bool-cases (ltb 0 n && leb n 5)) [
  | inr outside ↦ rw outside v
  | inl known ↦
      let pushed = push_again-Synced d0 d ev_key (tool_button n) value v in
      rw known (Synced-trans d0 _ _ pushed (update_key_state-Synced _ _ pushed.valid))
]

pub terminate_slots-Synced :
    (d : Libevdev) (changes : List SlotChange) (last : ℤ)
    → Valid d
    → Synced d (terminate_slots d changes last).0
unfolding terminate_slots
terminate_slots-Synced d changes last v =
    let t0 : Termination = record {
      device = d;
      last_reported_slot = last;
      touches_stopped = false;
      ntouches_before = 0;
      ntouches_after = 0;
    } in
    let t = count_touches changes 0 t0 in
    let counted = count_touches-Synced changes 0 d t0 (Synced-refl d v) in
    elim (Bool-cases t.touches_stopped) [
      | inr none_stopped ↦ rw none_stopped counted
      | inl stopped ↦ rw stopped (
          push_again-Synced d _ ev_syn syn_report (pos 0) (
            push_tool-Synced t.ntouches_after (pos 1) d _
              (push_tool-Synced t.ntouches_before (pos 0) d _ counted)))
    ]

module _ (n : ℕ) where
  push_slot_axes-Goes :
      (slot axis : ℕ) (c : SlotChange) (k : ℕ) (d0 d : Libevdev)
      → Synced d0 d
      → d0.num_slots ≡ pos n
      → slot < n
      → 47 ≤ axis
      → axis + k ≤ 62
      → Goes d0 (push_slot_axes slot axis c k d)
  unfolding push_slot_axes
  push_slot_axes-Goes slot axis c zero d0 d v counted inside lo hi = (d, refl, v)
  push_slot_axes-Goes slot axis c (suc k) d0 d v counted inside lo hi =
      let skipped =
        push_slot_axes-Goes slot (axis + 1) c k d0 d v counted inside (omega arith) (omega arith) in
      elim (Bool-cases (axis == abs_mt_slot || not (has_event_code d.masks ev_abs axis))) [
        | inl left_out ↦
            let (d', rest, synced) = skipped in (d', rw (push_slot_axes, left_out) rest, synced)
        | inr there ↦ elim (Bool-cases (bit_is_set c.axes axis)) [
          | inr same ↦
              let (d', rest, synced) = skipped in
              (d', rw (push_slot_axes, there, same) rest, synced)
          | inl changed ↦
              let (value, held) =
                slot_value_there d n slot axis (v.same_count ∙ counted) inside lo (omega arith)
                  v.valid.slots_valid in
              let d1 = (queue_push_event d ev_abs axis value).0 in
              let (d', rest, synced) =
                push_slot_axes-Goes slot (axis + 1) c k d0 d1
                  (push_again-Synced d0 d ev_abs axis value v) counted inside (omega arith)
                  (omega arith) in
              (d', rw (push_slot_axes, there, changed, held) rest, synced)
        ]
      ]

  abbrev SlotsGo : Libevdev → Option (Libevdev × ℤ) → Type 0
  SlotsGo d o = (r : Libevdev × ℤ) × (o ≡ some r) × Synced d r.0

  push_slots-Goes :
      (changes : List SlotChange) (slot : ℕ) (d0 d : Libevdev) (last : ℤ)
      → Synced d0 d
      → d0.num_slots ≡ pos n
      → slot + length changes ≤ n
      → SlotsGo d0 (push_slots changes slot d last)
  unfolding push_slots
  push_slots-Goes [] slot d0 d last v counted fits = ((d, last), refl, v)
  push_slots-Goes (c ∷ changes) slot d0 d last v counted fits =
      elim (Bool-cases (is_stopped c.state || not (bit_is_set c.axes abs_mt_slot))) [
        | inl skipped ↦
            let (r, rest, synced) =
              push_slots-Goes changes (slot + 1) d0 d last v counted (omega arith) in
            (r, rw (push_slots, skipped) rest, synced)
        | inr told ↦
            let (d1, axes, synced) =
              push_slot_axes-Goes slot abs_mt_min c abs_mt_cnt d0
                (queue_push_event d ev_abs abs_mt_slot (pos slot)).0
                (push_again-Synced d0 d ev_abs abs_mt_slot (pos slot) v) counted (omega arith)
                (omega arith) (omega arith) in
            let (r, rest, synced') =
              push_slots-Goes changes (slot + 1) d0 d1 (pos slot) synced counted (omega arith) in
            (r, rw (push_slots, told, axes) rest, synced')
      ]

-- The kernel's current slot is one of the device's.
abbrev pub NamesSlot : ℕ → Reply AbsInfo → Type 0
NamesSlot n (failed errno) = Unit {0}
NamesSlot n (done rc info) = (m : ℕ) × (info.value ≡ pos m) × (m < n)

current_slot-Synced :
    (d0 d : Libevdev) (n m : ℕ) (value : ℤ)
    → Synced d0 d
    → d.num_slots ≡ pos n
    → value ≡ pos m
    → m < n
    → Synced d0 (record d { current_slot = value })
current_slot-Synced d0 d n m value v counted named below = record {
  valid = record { queue_valid = v.valid.queue_valid; slots_valid = moved v.valid.slots_valid };
  same_size = v.same_size;
  same_masks = v.same_masks;
  same_count = v.same_count;
  same_sync = v.same_sync;
}
  where
    moved : SlotsValid d → SlotsValid (record d { current_slot = value })
    moved (no_slots en ec) = absurd (absurd_count n (sym en ∙ counted))
    moved (slots k c vals en ec lt ev len) =
        let same = pos_injective k n (sym en ∙ counted) in
        slots k m vals en named (omega arith) ev len

pub push_mt_sync_events-Goes :
    (d : Libevdev) (n : ℕ) (changes : List SlotChange) (last : ℤ) (slot_state : Reply AbsInfo)
    → Valid d
    → d.num_slots ≡ pos n
    → length changes ≡ n
    → NamesSlot n slot_state
    → SlotsGo n d (push_mt_sync_events d changes last slot_state)
unfolding push_mt_sync_events
push_mt_sync_events-Goes d n changes last (failed errno) v counted long named =
    let (r, pushed, synced) =
      push_slots-Goes n changes 0 d d last (Synced-refl d v) counted (omega arith) in
    ((r.0, neg errno), rw pushed refl, synced)
push_mt_sync_events-Goes d n changes last (done rc info) v counted long (m, is, below) =
    let (r, pushed, synced) =
      push_slots-Goes n changes 0 d d last (Synced-refl d v) counted (omega arith) in
    let d1 = record r.0 { current_slot = info.value } in
    let moved =
      current_slot-Synced d r.0 n m info.value synced (synced.same_count ∙ counted) is below in
    elim (Bool-cases (eq_ℤ info.value r.1)) [
      | inl same ↦ ((d1, pos 0), rw (pushed, same) refl, moved)
      | inr other ↦ (
        ((queue_push_event d1 ev_abs abs_mt_slot info.value).0, pos 0),
        rw (pushed, other) refl,
        push_again-Synced d d1 ev_abs abs_mt_slot info.value moved,
      )
    ]
