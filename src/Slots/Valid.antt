-- ===== src/Slots/Valid.antt =====
-- When the slot array fits the number of slots, and what the accesses do then.
use android_external_libevde.Base.{
  ℕ, suc, ◌+◌, ◌-◌, ◌*◌, ◌≤◌, ◌<◌, ◌≡◌, ℤ, pos, minus_one, some, List, length, get_or, set,
  get_elem?-eq-get_or, arith,
}
use android_external_libevde.Device.{Libevdev}
use android_external_libevde.Slots.{slot_index, slot_value, set_slot_cell}

-- Either there are no slots and none is current, or each slot has its ABS_MT_CNT values and the
-- current slot is one of them.
pub data SlotsValid (d : Libevdev) : Type 0 where
  no_slots : d.num_slots ≡ minus_one → d.current_slot ≡ minus_one → SlotsValid d
  slots :
      (n c : ℕ) (vals : List ℤ)
      → d.num_slots ≡ pos n
      → d.current_slot ≡ pos c
      → c < n
      → d.mt_slot_vals ≡ some vals
      → length vals ≡ n * 15
      → SlotsValid d

-- The place of an axis of a slot.
abbrev pub place : ℕ → ℕ → ℕ
place slot axis = slot * 15 + axis - 47

pub place-lt : (n slot axis : ℕ) → slot < n → axis ≤ 61 → place slot axis < n * 15
place-lt n slot axis hs ha = omega (arith, below)
  where
    below : suc slot * 15 ≤ n * 15
    below = omega arith

module _ (d : Libevdev) (n slot axis : ℕ) (vals : List ℤ) (counted : d.num_slots ≡ pos n)
    (stored : d.mt_slot_vals ≡ some vals) (long : length vals ≡ n * 15) (in_slots : slot < n)
    (from : 47 ≤ axis) (upto : axis ≤ 61) where
  pub slot_index_lem : slot_index d.num_slots (pos slot) axis ≡ some (place slot axis)
  unfolding slot_index
  slot_index_lem = rw counted (ground arith)

  -- A read of a slot that exists, on a multitouch axis, is inside the array.
  pub slot_value_lem : slot_value d (pos slot) axis ≡ some (get_or vals (place slot axis) (pos 0))
  unfolding slot_value
  slot_value_lem =
      rw (stored, slot_index_lem)
        (get_elem?-eq-get_or vals (place slot axis) (pos 0)
          (rw long (place-lt n slot axis in_slots upto)))

  pub set_slot_cell_lem :
      (v : ℤ)
      → set_slot_cell d (pos slot) axis v
        ≡ some (record d { mt_slot_vals = some (set vals (place slot axis) v) })
  unfolding set_slot_cell
  set_slot_cell_lem v =
      rw (stored, slot_index_lem)
        (let inside : place slot axis < length vals =
            rw long (place-lt n slot axis in_slots upto) in
          ground arith)
