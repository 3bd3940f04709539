-- ===== src/Touch/Safe.antt =====
-- Which slots the sync of the slots reads and writes (libevdev/libevdev.c, sync_mt_state).
use android_external_libevde.Base.{
  ℕ, zero, suc, ◌+◌, ◌≤◌, ◌<◌, ◌≡◌, refl, ap, sym, ◌∙◌, Bool, not, ◌||◌, ◌==◌, ℤ, eq_ℤ, pos,
  pos_part, minus_one, List, Option, some, arith, Bool-cases, inl, inr, length, length-set, get_or,
  set, get_elem?-eq-get_or, take, replicate, ◌++◌, length-append, length-take, length-replicate,
  ◌-◌, true, false,
}
use Prim.Native.Nat.{min}
use mathlib.Core.Path.{subst}
use android_external_libevde.Codes.{abs_mt_slot, abs_mt_min, abs_mt_cnt, ev_abs}
use android_external_libevde.Event.{Reply, done, failed}
use android_external_libevde.Device.{Libevdev, has_event_code}
use android_external_libevde.Slots.{slot_value, set_slot_cell}
use android_external_libevde.Slots.Valid.{
  SlotsValid, no_slots, slots, place, slot_value_lem, set_slot_cell_lem,
}
use android_external_libevde.Reader.Valid.{Valid}
use android_external_libevde.Sync.Safe.{Synced, Synced-refl, Synced-trans, Reply-cases}
use android_external_libevde.Touch.{
  SlotChange, no_change, max_slots, note_state, note_axis, sync_slot, sync_slots, sync_mt_axes,
  sync_mt_state,
}

-- A part of a sync that reads or writes slots: it goes through.
abbrev pub Goes : Libevdev → Option Libevdev → Type 0
Goes d o = (d' : Libevdev) × (o ≡ some d') × Synced d d'

-- The kernel gives a value for every slot that is asked for.
abbrev pub Covers : ℕ → Reply (List ℤ) → Type 0
Covers n (failed errno) = Unit {0}
Covers n (done rc vals) = n ≤ length vals

pub absurd_count : (n : ℕ) → minus_one ≡ pos n → ⊥
absurd_count n h = ground arith

pub pos_injective : (m n : ℕ) → pos m ≡ pos n → m ≡ n
pos_injective m n h = ap pos_part h

module _ (d : Libevdev) (n slot axis : ℕ) (counted : d.num_slots ≡ pos n) (inside : slot < n)
    (from : 47 ≤ axis) (upto : axis ≤ 61) where
  pub slot_value_there : SlotsValid d → (v : ℤ) × (slot_value d (pos slot) axis ≡ some v)
  slot_value_there (no_slots en ec) = absurd (absurd_count n (sym en ∙ counted))
  slot_value_there (slots m c vals en ec lt ev len) =
      let same = pos_injective m n (sym en ∙ counted) in
      (
        get_or vals (place slot axis) (pos 0),
        slot_value_lem d m slot axis vals en ev len (omega arith) from upto,
      )

  pub set_slot_cell-Goes : (v : ℤ) → Valid d → Goes d (set_slot_cell d (pos slot) axis v)
  set_slot_cell-Goes v valid = stored valid.slots_valid
    where
      stored : SlotsValid d → Goes d (set_slot_cell d (pos slot) axis v)
      stored (no_slots en ec) = absurd (absurd_count n (sym en ∙ counted))
      stored (slots m c vals en ec lt ev len) =
          let same = pos_injective m n (sym en ∙ counted) in
          let vals' = set vals (place slot axis) v in
          (
            record d { mt_slot_vals = some vals' },
            set_slot_cell_lem d m slot axis vals en ev len (omega arith) from upto v,
            record {
              valid = record {
                queue_valid = valid.queue_valid;
                slots_valid =
                    slots m c vals' en ec lt refl (length-set vals (place slot axis) v ∙ len);
              };
              same_size = refl;
              same_masks = refl;
              same_count = refl;
              same_sync = refl;
            },
          )

abbrev pub GoesWith : ℕ → Libevdev → Option (Libevdev × List SlotChange) → Type 0
GoesWith k d o = (r : Libevdev × List SlotChange) × (o ≡ some r) × Synced d r.0 × (length r.1 ≡ k)

module _ (n axis : ℕ) (vals : List ℤ) (from : 47 ≤ axis) (upto : axis ≤ 61) where
  sync_slot-Goes :
      (slot : ℕ) (d : Libevdev) (changes : List SlotChange)
      → Valid d
      → d.num_slots ≡ pos n
      → slot < n
      → slot < length vals
      → GoesWith (length changes) d (sync_slot axis vals slot (d, changes))
  unfolding sync_slot
  sync_slot-Goes slot d changes v counted inside listed =
      let (before, held) = slot_value_there d n slot axis counted inside from upto v.slots_valid in
      let after = get_or vals slot (pos 0) in
      let given = get_elem?-eq-get_or vals slot (pos 0) listed in
      let c = note_state axis before after (get_or changes slot no_change) in
      elim (Bool-cases (eq_ℤ before after)) [
        | inl same ↦ (
          (d, set changes slot c),
          rw (sync_slot, held, given, same) refl,
          Synced-refl d v,
          length-set changes slot c,
        )
        | inr changed ↦
            let (d', written, synced) =
              set_slot_cell-Goes d n slot axis counted inside from upto after v in
            (
              (d', set changes slot (note_axis axis c)),
              rw (sync_slot, held, given, changed, written) refl,
              synced,
              length-set changes slot (note_axis axis c),
            )
      ]

  sync_slots-Goes :
      (k slot : ℕ) (d : Libevdev) (changes : List SlotChange)
      → Valid d
      → d.num_slots ≡ pos n
      → slot + k ≤ n
      → slot + k ≤ length vals
      → GoesWith (length changes) d (sync_slots axis vals k slot (d, changes))
  unfolding sync_slots
  sync_slots-Goes zero slot d changes v counted inside listed =
      ((d, changes), refl, Synced-refl d v, refl)
  sync_slots-Goes (suc k) slot d changes v counted inside listed =
      let (r, first, synced, long) =
        sync_slot-Goes slot d changes v counted (omega arith) (omega arith) in
      let (r', rest, synced', long') =
        sync_slots-Goes k (slot + 1) r.0 r.1 synced.valid (synced.same_count ∙ counted)
          (omega arith) (omega arith) in
      (r', rw (sync_slots, first) rest, Synced-trans d r.0 r'.0 synced synced', long' ∙ long)

abbrev AxesGo : ℕ → Libevdev → Option (Bool × Libevdev × List SlotChange) → Type 0
AxesGo k d o =
    (r : Bool × Libevdev × List SlotChange) × (o ≡ some r) × Synced d r.1 × (length r.2 ≡ k)

module _ (n nslots : ℕ) (mt_state : ℕ → Reply (List ℤ)) (few : nslots ≤ n)
    (covers : (axis : ℕ) → Covers nslots (mt_state axis)) where
  sync_mt_axes-Goes :
      (k axis : ℕ) (d : Libevdev) (changes : List SlotChange)
      → Valid d
      → d.num_slots ≡ pos n
      → 47 ≤ axis
      → axis + k ≤ 62
      → AxesGo (length changes) d (sync_mt_axes mt_state nslots k axis (d, changes))
  unfolding sync_mt_axes
  sync_mt_axes-Goes zero axis d changes v counted lo hi =
      ((false, d, changes), refl, Synced-refl d v, refl)
  sync_mt_axes-Goes (suc k) axis d changes v counted lo hi =
      elim (Bool-cases (axis == abs_mt_slot || not (has_event_code d.masks ev_abs axis))) [
        | inl left_out ↦
            let (r, rest, synced, long) =
              sync_mt_axes-Goes k (axis + 1) d changes v counted (omega arith) (omega arith) in
            (r, rw (sync_mt_axes, left_out) rest, synced, long)
        | inr there ↦ elim (Reply-cases (mt_state axis)) [
          | inl (errno, refused) ↦
              ((true, d, changes), rw (sync_mt_axes, there, refused) refl, Synced-refl d v, refl)
          | inr (rc, vals, told) ↦
              let enough : nslots ≤ length vals = transport_covers told in
              let (r, slots_done, synced, long) =
                sync_slots-Goes n axis vals lo (omega arith) nslots 0 d changes v counted
                  (omega arith) (omega arith) in
              let (r', rest, synced', long') =
                sync_mt_axes-Goes k (axis + 1) r.0 r.1 synced.valid (synced.same_count ∙ counted)
                  (omega arith) (omega arith) in
              (
                r',
                rw (sync_mt_axes, there, told, slots_done) rest,
                Synced-trans d r.0 r'.1 synced synced',
                long' ∙ long,
              )
        ]
      ]
    where
      transport_covers :
          {rc : ℕ} {vals : List ℤ} → mt_state axis ≡ done rc vals → nslots ≤ length vals
      transport_covers told = subst (Covers nslots) told (covers axis)

-- On a device with `n` slots the sync of their values goes through, with a record for each slot.
abbrev pub MtGoes : ℕ → Libevdev → Option (Libevdev × ℤ × List SlotChange) → Type 0
MtGoes n d o = (r : Libevdev × ℤ × List SlotChange) × (o ≡ some r) × Synced d r.0 × (length r.2 ≡ n)

pub sync_mt_state-Goes :
    (d : Libevdev) (n : ℕ) (mt_state : ℕ → Reply (List ℤ))
    → Valid d
    → d.num_slots ≡ pos n
    → ((axis : ℕ) → Covers (min 256 n) (mt_state axis))
    → MtGoes n d (sync_mt_state d mt_state)
unfolding sync_mt_state
sync_mt_state-Goes d n mt_state v counted covers =
    let nslots = min 256 n in
    let blank = replicate max_slots no_change in
    let ((stopped, d1, changes), done_axes, synced, long) =
      sync_mt_axes-Goes n nslots mt_state (omega arith) covers abs_mt_cnt abs_mt_min d blank v
        counted (omega arith) (omega arith) in
    let many : length changes ≡ 256 = long ∙ length-replicate 256 no_change in
    elim (Bool-cases stopped) [
      | inl failing ↦ (
        (d1, minus_one, replicate n no_change),
        rw (ap pos_part counted, done_axes, failing) refl,
        synced,
        length-replicate n no_change,
      )
      | inr fine ↦ (
        (d1, pos 0, take nslots changes ++ replicate (n - nslots) no_change),
        rw (ap pos_part counted, done_axes, fine) refl,
        synced,
        omega (
          arith,
          length-append (take nslots changes) (replicate (n - nslots) no_change),
          length-take nslots changes,
          length-replicate (n - nslots) no_change,
          many,
        ),
      )
    ]
