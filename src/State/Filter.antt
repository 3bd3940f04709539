-- ===== src/State/Filter.antt =====
-- The filter of events: it reads only inside the slot array, and what it lets through names a slot
-- that exists.
use android_external_libevde.Base.{
  ℕ, zero, suc, ◌<◌, ◌≡◌, refl, Bool, true, false, not, ◌&&◌, ◌||◌, if◌then◌else◌, ℤ, pos, negsuc,
  minus_one, is_neg, lt_ℤ, eq_ℤ, pred_ℤ, Option, some, arith, Bool-cases, inl, inr, ap, ◌⊎◌, ◌∙◌,
  get_or,
}
use android_external_libevde.Event.{Event}
use android_external_libevde.Codes.{abs_mt_slot, ev_abs, abs_mt_tracking_id}
use android_external_libevde.Device.{Libevdev, SyncState, has_event_code, event_is_code}
use android_external_libevde.Slots.{slot_value}
use android_external_libevde.Slots.Valid.{SlotsValid, no_slots, slots, place, slot_value_lem}
use android_external_libevde.State.{
  FilterStatus, filter_none, filter_modified, filter_discard, is_sync_none, is_double_tracking_id,
  sanitize_event, is_discard,
}
use android_external_libevde.State.Safe.{FitsSlots}

is_slot_event :
    (e : Event) → e.type ≡ ev_abs → e.code ≡ abs_mt_slot → event_is_code e ev_abs abs_mt_slot ≡ true
unfolding event_is_code
is_slot_event e t c = ground arith

-- The test on tracking IDs reads the current slot, which exists.
is_double_tracking_id_total :
    (d : Libevdev) (e : Event) (st : SyncState)
    → SlotsValid d
    → (b : Bool) × (is_double_tracking_id d e st ≡ some b)
unfolding is_double_tracking_id
is_double_tracking_id_total d e st valid = cases valid (
    Bool-cases
      (is_sync_none st && not (is_neg d.num_slots) && event_is_code e ev_abs abs_mt_tracking_id))
  where
    tested : Bool
    tested =
        is_sync_none st && not (is_neg d.num_slots) && event_is_code e ev_abs abs_mt_tracking_id

    cases :
        SlotsValid d
        → ((tested ≡ true) ⊎ (tested ≡ false))
        → (b : Bool) × (is_double_tracking_id d e st ≡ some b)
    cases valid' (inr skipped) = (false, rw (is_double_tracking_id, skipped))
    cases (no_slots en ec) (inl read) = absurd (ground (arith, read, ap is_neg en))
    cases (slots n c vals en ec lt ev len) (inl read) =
        let value =
          ap (λ s. slot_value d s abs_mt_tracking_id) ec
          ∙ slot_value_lem d n c 57 vals en ev len lt (omega arith) (omega arith) in
        let old = get_or vals (place c 57) (pos 0) in
        (
          if eq_ℤ e.value minus_one then eq_ℤ old minus_one else not (eq_ℤ old minus_one),
          rw (is_double_tracking_id, read, value),
        )

-- What the filter gives for a device whose slot array fits: a result, and unless the event is
-- dropped one that names an existing slot.
abbrev pub Filters : Libevdev → Option (FilterStatus × Event) → Type 0
Filters d result =
    (r : FilterStatus × Event) × (result ≡ some r)
    × (is_discard r.0 ≡ false → r.1.type ≡ ev_abs → FitsSlots d r.1)

pub slot_in_range :
    (n : ℕ) (v : ℤ) → (is_neg v || not (lt_ℤ v (pos n))) ≡ false → (k : ℕ) × (v ≡ pos k) × (k < n)
slot_in_range n (pos k) h = (k, refl, ground arith)
slot_in_range n (negsuc k) h = cc

capped_slot : (n c : ℕ) → c < n → (k : ℕ) × (pred_ℤ (pos n) ≡ pos k) × (k < n)
capped_slot (suc n) c h = (n, refl, omega arith)
capped_slot zero c h = absurd (omega arith)

pub sanitize_event-Filters :
    (d : Libevdev) (e : Event) (st : SyncState) → SlotsValid d → Filters d (sanitize_event d e st)
unfolding sanitize_event
sanitize_event-Filters d e st valid = elim (Bool-cases (has_event_code d.masks e.type e.code)) [
  | inr absent ↦ ((filter_discard, e), rw absent, λ kept. absurd (cc kept))
  | inl present ↦
      elim (Bool-cases (
        not (is_neg d.num_slots)
        && event_is_code e ev_abs abs_mt_slot
        && (is_neg e.value || not (lt_ℤ e.value d.num_slots)))) [
          | inl out_of_range ↦ (
            (filter_modified, record e { value = pred_ℤ d.num_slots }),
            rw (present, out_of_range),
            λ kept is_abs n en is_slot. capped valid n en,
          )
          | inr in_range ↦
              let (double, tested) = is_double_tracking_id_total d e st valid in
              (
                (if double then filter_discard else filter_none, e),
                rw (present, in_range, tested),
                λ kept is_abs n en is_slot. slot_in_range n e.value (
                    ground (
                      arith,
                      in_range,
                      ap is_neg en,
                      ap (λ s. lt_ℤ e.value s) en,
                      is_slot_event e is_abs is_slot,
                    )),
              )
        ]
]
  where
    capped :
        SlotsValid d
        → (n : ℕ) → d.num_slots ≡ pos n
        → (k : ℕ) × (pred_ℤ d.num_slots ≡ pos k) × (k < n)
    capped (no_slots none_there ec) n en = absurd (cc)
    capped (slots n' c vals en' ec lt ev len) n en =
        let same : n ≡ n' = ground arith in
        let (k, e1, below) = capped_slot n c (omega arith) in (k, ap pred_ℤ en ∙ e1, below)
