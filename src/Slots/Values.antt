-- ===== src/Slots/Values.antt =====
-- libevdev_set_slot_value, and what libevdev_get_slot_value gives after it.
use android_external_libevde.Base.{
  ℕ, ◌*◌, ◌≤◌, ◌<◌, ◌≡◌, ◌≢◌, ◌⊎◌, refl, true, false, ◌==◌, ◌&&◌, if◌then◌else◌, ℤ, pos, some, List,
  length, length-set, get_or, set, get_or-set_self, get_or-set_ne, arith, ◌∙◌, sym, ==→eq, inl, inr,
  Bool-cases, ap,
}
use android_external_libevde.Codes.{ev_abs}
use android_external_libevde.Device.{Libevdev, has_event_type, has_event_code}
use android_external_libevde.Slots.{get_slot_value, set_slot_value}
use android_external_libevde.Slots.Valid.{place, place-lt, slot_value_lem, set_slot_cell_lem}

ne_of : (a b : ℕ) → (a == b) ≡ false → a ≢ b
ne_of a b h e = absurd (ground arith)

place-ne :
    (slot axis slot' axis' : ℕ)
    → 47 ≤ axis
    → axis ≤ 61
    → 47 ≤ axis'
    → axis' ≤ 61
    → (slot ≢ slot') ⊎ (axis ≢ axis')
    → place slot axis ≢ place slot' axis'
place-ne slot axis slot' axis' a b a' b' (inl ne) e = ne (omega arith)
place-ne slot axis slot' axis' a b a' b' (inr ne) e = ne (omega arith)

-- The array after a store, at the place of a slot and axis.
stored_at :
    (vals : List ℤ) (slot axis slot' axis' : ℕ) (v : ℤ)
    → place slot axis < length vals
    → 47 ≤ axis
    → axis ≤ 61
    → 47 ≤ axis'
    → axis' ≤ 61
    → get_or (set vals (place slot axis) v) (place slot' axis') (pos 0)
      ≡ (if slot == slot' && axis == axis' then v else get_or vals (place slot' axis') (pos 0))
stored_at vals slot axis slot' axis' v inside a b a' b' = elim (Bool-cases (slot == slot')) [
  | inl same_slot ↦ elim (Bool-cases (axis == axis')) [
    | inl same_axis ↦
        rw
          (same_slot, same_axis, sym (==→eq slot slot' same_slot), sym (==→eq axis axis' same_axis))
          (get_or-set_self vals (place slot axis) v (pos 0) inside)
    | inr apart ↦
        rw (same_slot, apart)
          (get_or-set_ne vals _ _ v (pos 0)
            (place-ne slot axis slot' axis' a b a' b' (inr (ne_of axis axis' apart))))
  ]
  | inr apart ↦ rw apart (
      get_or-set_ne vals _ _ v (pos 0)
        (place-ne slot axis slot' axis' a b a' b' (inl (ne_of slot slot' apart))))
]

module _ (d : Libevdev) (n : ℕ) (vals : List ℤ) (counted : d.num_slots ≡ pos n)
    (stored : d.mt_slot_vals ≡ some vals) (long : length vals ≡ n * 15)
    (has_type : has_event_type d.masks ev_abs ≡ true) where
  get_slot_value_lem :
      (slot axis : ℕ)
      → slot < n
      → 47 ≤ axis
      → axis ≤ 61
      → has_event_code d.masks ev_abs axis ≡ true
      → get_slot_value d slot axis ≡ some (get_or vals (place slot axis) (pos 0))
  unfolding get_slot_value
  get_slot_value_lem slot axis inside from upto has_code =
      let at = slot_value_lem d n slot axis vals counted stored long inside from upto in
      rw (has_type, has_code, counted) (ground (arith, at))

module _ (d : Libevdev) (n : ℕ) (vals : List ℤ) (counted : d.num_slots ≡ pos n)
    (stored : d.mt_slot_vals ≡ some vals) (long : length vals ≡ n * 15)
    (has_type : has_event_type d.masks ev_abs ≡ true) where
  set_slot_value_lem :
      (slot axis : ℕ) (v : ℤ)
      → slot < n
      → 47 < axis
      → axis ≤ 61
      → has_event_code d.masks ev_abs axis ≡ true
      → set_slot_value d slot axis v
        ≡ some (record d { mt_slot_vals = some (set vals (place slot axis) v) }, pos 0)
  unfolding set_slot_value
  set_slot_value_lem slot axis v inside from upto has_code =
      let at =
        set_slot_cell_lem d n slot axis vals counted stored long inside (omega arith) upto v in
      rw (has_type, has_code, counted) (ground (arith, at))

  -- A multitouch value other than ABS_MT_SLOT that is set in a slot that exists is the one that is
  -- read there, and the values of every other slot or axis are the ones that were read before.
  pub set_get_slot_value :
      (slot axis slot' axis' : ℕ) (v : ℤ)
      → slot < n
      → 47 < axis
      → axis ≤ 61
      → has_event_code d.masks ev_abs axis ≡ true
      → slot' < n
      → 47 ≤ axis'
      → axis' ≤ 61
      → has_event_code d.masks ev_abs axis' ≡ true
      → (d' : Libevdev) × (set_slot_value d slot axis v ≡ some (d', pos 0))
        × (get_slot_value d' slot' axis'
            ≡ (if slot == slot' && axis == axis' then some v else get_slot_value d slot' axis'))
  set_get_slot_value slot axis slot' axis' v inside from upto has_code inside' from' upto'
        has_code' =
      let vals' = set vals (place slot axis) v in
      let d' : Libevdev = record d { mt_slot_vals = some vals' } in
      let long' : length vals' ≡ n * 15 = length-set vals (place slot axis) v ∙ long in
      (
        d',
        set_slot_value_lem slot axis v inside from upto has_code,
        get_slot_value_lem d' n vals' counted refl long' has_type slot' axis' inside' from' upto'
              has_code'
            ∙ ap some (
                stored_at vals slot axis slot' axis' v (rw long (place-lt n slot axis inside upto))
                  (omega arith) upto from' upto')
            ∙ ground (
              arith,
              get_slot_value_lem d n vals counted stored long has_type slot' axis' inside' from'
                  upto' has_code',
            ),
      )
