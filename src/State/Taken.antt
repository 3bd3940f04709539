-- ===== src/State/Taken.antt =====
-- The filter and the update of libevdev/libevdev.c together.
use android_external_libevde.Base.{
  ℕ, ◌<◌, ◌≡◌, refl, Bool, true, not, ◌==◌, ◌&&◌, ◌||◌, ℤ, pos, negsuc, is_neg, lt_ℤ, some, arith,
  Bool-cases, inl, inr, ap, ==→eq,
}
use android_external_libevde.Codes.{ev_abs, abs_mt_slot}
use android_external_libevde.Event.{Event}
use android_external_libevde.Device.{Libevdev, SyncState}
use android_external_libevde.Slots.Valid.{SlotsValid}
use android_external_libevde.State.{FilterStatus, is_discard, sanitize_event, update_state}
use android_external_libevde.State.Safe.{FitsSlots, Updates}
use android_external_libevde.State.Whole.{update_state-Updates}
use android_external_libevde.State.Filter.{sanitize_event-Filters, slot_in_range}

-- If the event is ABS_MT_SLOT and the device has slots, the value is one of them.
abbrev pub names_slot : Libevdev → Event → Bool
names_slot d e =
    not (e.type == ev_abs)
    || not (e.code == abs_mt_slot)
    || is_neg d.num_slots
    || not (is_neg e.value) && lt_ℤ e.value d.num_slots

in_slots :
    (m v : ℤ)
    → ((n : ℕ) → m ≡ pos n → (k : ℕ) × (v ≡ pos k) × (k < n))
    → (is_neg m || not (is_neg v) && lt_ℤ v m) ≡ true
in_slots (negsuc n) v f = refl
in_slots (pos n) v f = let (k, e, below) = f n refl in rw e (ground arith)

names_slot_from :
    (d : Libevdev) (e : Event) → (e.type ≡ ev_abs → FitsSlots d e) → names_slot d e ≡ true
names_slot_from d e fits = elim (Bool-cases (e.type == ev_abs)) [
  | inr other ↦ rw other
  | inl axis ↦ elim (Bool-cases (e.code == abs_mt_slot)) [
    | inr other ↦ rw (axis, other)
    | inl slot ↦
        rw (axis, slot)
          (in_slots d.num_slots e.value (λ n counted.
            fits (==→eq e.type ev_abs axis) n counted (==→eq e.code abs_mt_slot slot)))
  ]
]

slot_from :
    (m v : ℤ) (n : ℕ)
    → (is_neg m || not (is_neg v) && lt_ℤ v m) ≡ true
    → m ≡ pos n
    → (k : ℕ) × (v ≡ pos k) × (k < n)
slot_from (pos n') v n h e = slot_in_range n v (ground (arith, ap is_neg e, ap (lt_ℤ v) e))
slot_from (negsuc n') v n h e = absurd cc

FitsSlots-from :
    (d : Libevdev) (e : Event) → names_slot d e ≡ true → e.type ≡ ev_abs → FitsSlots d e
FitsSlots-from d e named axis n counted slot =
    slot_from d.num_slots e.value n (ground (arith, named, axis, slot)) counted

-- For every event the filter ends with a status and an event and reads only inside the slot array,
-- if the slots are well formed. Unless the event is to be dropped, an ABS_MT_SLOT event then names
-- a slot that exists, if the device has slots.
pub sanitize_event_total :
    (d : Libevdev) (e : Event) (st : SyncState)
    → SlotsValid d
    → (r : FilterStatus × Event) × (sanitize_event d e st ≡ some r)
      × ((is_discard r.0 || names_slot d r.1) ≡ true)
sanitize_event_total d e st valid =
    let (r, filtered, fits) = sanitize_event-Filters d e st valid in
    (
      r,
      filtered,
      elim (Bool-cases (is_discard r.0)) [
        | inl dropped ↦ rw dropped
        | inr kept ↦ rw kept (names_slot_from d r.1 (fits kept))
      ],
    )

-- If the slots are well formed, an event that names no missing slot is taken in without an access
-- outside the slot array. The slots stay well formed, and masks, queue, sync state, file
-- descriptor and number of slots do not change.
pub update_state_total :
    (d : Libevdev) (e : Event) → SlotsValid d → names_slot d e ≡ true → Updates d (update_state d e)
update_state_total d e valid named = update_state-Updates d e valid (FitsSlots-from d e named)
