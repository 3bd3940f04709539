-- ===== src/Slots.antt =====
-- The multitouch slots of libevdev/libevdev.c: the array `mt_slot_vals` holds ABS_MT_CNT values for
-- each slot. `none` is an access outside the array, or through NULL, which C leaves undefined.
-- Calls of the log handlers are left out.
pub mod Valid
pub mod Values
use android_external_libevde.Base.{
  ℕ, zero, suc, ◌+◌, ◌-◌, ◌*◌, Bool, true, false, not, ltb, leb, ◌==◌, ◌||◌, ◌&&◌, if◌then◌else◌, ℤ,
  pos, negsuc, minus_one, neg, eq_ℤ, lt_ℤ, is_neg, suc_ℤ, as_int, scale, pos_part, to_unsigned,
  Option, none, some, ◌>>=◌, List, length, get_elem?, set, replicate,
}
use android_external_libevde.Codes.{
  ev_abs, abs_reserved, abs_mt_slot, abs_mt_tracking_id, abs_mt_min, abs_mt_max, abs_mt_cnt,
}
use android_external_libevde.Event.{AbsInfo, enomem}
use android_external_libevde.Device.{Libevdev, has_event_type, has_event_code, get_abs_info}

-- The index of `slot_value`: a slot above the count is taken for slot 0 and an axis out of range for
-- the first one. A negative slot gives a negative index.
unfoldable pub slot_index : ℤ → ℤ → ℕ → Option ℕ
slot_index num_slots slot axis =
    let slot' = if lt_ℤ num_slots slot then pos 0 else slot in
    let axis' = if ltb axis abs_mt_min || ltb abs_mt_max axis then abs_mt_min else axis in
    elim slot' [ pos s ↦ some (s * abs_mt_cnt + axis' - abs_mt_min) | negsuc s ↦ none ]

-- `*slot_value(dev, slot, axis)`
unfoldable pub slot_value : Libevdev → ℤ → ℕ → Option ℤ
slot_value d slot axis = do
  vals ← d.mt_slot_vals
  i ← slot_index d.num_slots slot axis
  get_elem? vals i

-- `*slot_value(dev, slot, axis) = v`
unfoldable pub set_slot_cell : Libevdev → ℤ → ℕ → ℤ → Option Libevdev
set_slot_cell d slot axis v = do
  vals ← d.mt_slot_vals
  i ← slot_index d.num_slots slot axis
  if ltb i (length vals) then some (record d { mt_slot_vals = some (set vals i v) }) else none

-- libevdev_get_slot_value
unfoldable pub get_slot_value : Libevdev → ℕ → ℕ → Option ℤ
get_slot_value d slot code =
    if not (has_event_type d.masks ev_abs) || not (has_event_code d.masks ev_abs code)
    then some (pos 0)
    else if is_neg d.num_slots || leb (to_unsigned d.num_slots) slot
    then some (pos 0)
    else if ltb abs_mt_max code || ltb code abs_mt_min
    then some (pos 0)
    else slot_value d (pos slot) code

-- libevdev_set_slot_value
unfoldable pub set_slot_value : Libevdev → ℕ → ℕ → ℤ → Option (Libevdev × ℤ)
set_slot_value d slot code value =
    if not (has_event_type d.masks ev_abs) || not (has_event_code d.masks ev_abs code)
    then some (d, minus_one)
    else if eq_ℤ d.num_slots minus_one || leb (to_unsigned d.num_slots) slot
    then some (d, minus_one)
    else if ltb abs_mt_max code || ltb code abs_mt_min
    then some (d, minus_one)
    else if code == abs_mt_slot && (is_neg value || not (lt_ℤ value d.num_slots))
    then some (d, minus_one)
    else (let d' = if code == abs_mt_slot then record d { current_slot = value } else d in
        set_slot_cell d' (pos slot) code value >>= λ d''. some (d'', pos 0))

-- libevdev_fetch_slot_value: the result 1 beside the value, or 0.
unfoldable pub fetch_slot_value : Libevdev → ℕ → ℕ → Option (ℕ × Option ℤ)
fetch_slot_value d slot code =
    if has_event_type d.masks ev_abs
      && has_event_code d.masks ev_abs code
      && not (is_neg d.num_slots)
      && ltb slot (to_unsigned d.num_slots)
    then (get_slot_value d slot code >>= λ v. some (1, some v))
    else some (0, none)

-- The loop of `reset_tracking_ids`, with the rounds left and the slot that is next.
unfoldable pub reset_from : ℕ → ℕ → Libevdev → Option Libevdev
reset_from zero slot d = some d
reset_from (suc n) slot d =
    set_slot_value d slot abs_mt_tracking_id minus_one >>= λ r. reset_from n (slot + 1) r.0

unfoldable pub reset_tracking_ids : Libevdev → Option Libevdev
reset_tracking_ids d =
    if eq_ℤ d.num_slots minus_one || not (has_event_code d.masks ev_abs abs_mt_tracking_id)
    then some d
    else reset_from (pos_part d.num_slots) 0 d

unfoldable pub free_slots : Libevdev → Libevdev
free_slots d = record d { num_slots = minus_one; mt_slot_vals = none }

-- `calloc(n, sizeof(int))`: a negative number is a size that no memory has.
unfoldable pub calloc_slots : (ℕ → Bool) → ℤ → Option (List ℤ)
calloc_slots can (pos n) = if can n then some (replicate n (pos 0)) else none
calloc_slots can (negsuc n) = none

-- `can` says whether `calloc` of that many elements succeeds. The results are the device and `rc`. The
-- number of slots and that of their values are `int`, so `none` stands for their overflow too.
unfoldable pub init_slots : (ℕ → Bool) → Libevdev → Option (Libevdev × ℤ)
init_slots can d0 =
    let d = record d0 { mt_slot_vals = none } in
    if has_event_code d.masks ev_abs abs_reserved || not (has_event_code d.masks ev_abs abs_mt_slot)
    then some (if eq_ℤ d.num_slots minus_one then d else free_slots d, pos 0)
    else do
      info ← get_abs_info d abs_mt_slot
      count ← as_int (suc_ℤ info.maximum)
      cells ← as_int (scale count abs_mt_cnt)
      let d1 = record (free_slots d) { num_slots = count; mt_slot_vals = calloc_slots can cells }
      elim (calloc_slots can cells) [
        | none ↦ some (d1, neg enomem)
        | some vals ↦ do
          d2 ← reset_tracking_ids (record d1 { current_slot = info.value })
          some (d2, pos 0)
      ]
