-- ===== src/Caps/Masks.antt =====
-- Which codes a device has once one has been enabled or disabled.
use android_external_libevde.Base.{
  ℕ, ◌*◌, ◌≤◌, ◌<◌, ◌≡◌, refl, Bool, true, false, not, ltb, ◌==◌, ◌||◌, ◌&&◌, if◌then◌else◌, pos,
  some, length, set, arith, ◌∙◌, ap,
}
use android_external_libevde.Codes.{
  ev_syn, ev_max_type, ev_abs, ev_rep, abs_mt_slot, abs_mt_tracking_id, event_type_get_max,
}
use android_external_libevde.Bitfield.{Words, bit_is_set, set_bit, clear_bit}
use android_external_libevde.Bitfield.Laws.{bit_is_set-set_bit, bit_is_set-clear_bit}
use android_external_libevde.Device.{
  Libevdev, Mask, Masks, get_mask, set_mask, mask_of, type_to_mask, has_event_type, has_event_code,
}
use android_external_libevde.Caps.{
  is_null, EventData, no_data, abs_data, int_data, store_data, enable_code, enable_event_type,
  enable_event_code, drop_data, disable_event_code,
}

get_mask-set_mask : (k : Mask) (w : Words) (m : Masks) → get_mask k (set_mask k w m) ≡ w
get_mask-set_mask Mask.abs w m = refl
get_mask-set_mask Mask.rel w m = refl
get_mask-set_mask Mask.key w m = refl
get_mask-set_mask Mask.led w m = refl
get_mask-set_mask Mask.msc w m = refl
get_mask-set_mask Mask.sw w m = refl
get_mask-set_mask Mask.ff w m = refl
get_mask-set_mask Mask.rep w m = refl
get_mask-set_mask Mask.snd w m = refl

bits-set_mask : (k : Mask) (w : Words) (m : Masks) → (set_mask k w m).bits ≡ m.bits
bits-set_mask Mask.abs w m = refl
bits-set_mask Mask.rel w m = refl
bits-set_mask Mask.key w m = refl
bits-set_mask Mask.led w m = refl
bits-set_mask Mask.msc w m = refl
bits-set_mask Mask.sw w m = refl
bits-set_mask Mask.ff w m = refl
bits-set_mask Mask.rep w m = refl
bits-set_mask Mask.snd w m = refl

-- The data go with the type: an axis for EV_ABS, a number for EV_REP and NULL for the others.
abbrev pub fits_data : ℕ → EventData → Bool
fits_data type no_data = not (type == ev_abs) && not (type == ev_rep)
fits_data type (abs_data a) = type == ev_abs
fits_data type (int_data v) = type == ev_rep

-- Whether the code is one of the two that set up or reset the slots.
abbrev pub is_slot_code : ℕ → ℕ → Bool
is_slot_code type code = type == ev_abs && (code == abs_mt_slot || code == abs_mt_tracking_id)

module _ (type max : ℕ) (k : Mask) (array : mask_of type ≡ some k)
    (highest : event_type_get_max type ≡ pos max) (not_syn : (type == ev_syn) ≡ false) where
  has_event_type-set_mask :
      (w : Words) (m : Masks) → has_event_type (set_mask k w m) type ≡ has_event_type m type
  unfolding has_event_type
  has_event_type-set_mask w m =
      ap (λ b. if type == ev_syn then true else if ltb 31 type then false else bit_is_set b type)
        (bits-set_mask k w m)

  type_to_mask_lem : type_to_mask type ≡ (pos max, some k)
  unfolding type_to_mask
  type_to_mask_lem = rw (type_to_mask, array, highest) refl

  has_event_code_lem :
      (m : Masks) (other : ℕ)
      → has_event_type m type ≡ true
      → has_event_code m type other
        ≡ (if ltb max other then false else bit_is_set (get_mask k m) other)
  unfolding has_event_code
  has_event_code_lem m other has_type = rw (has_type, not_syn, type_to_mask_lem) (ground arith)

  has_event_code-set_mask :
      (w : Words) (m : Masks) (other : ℕ)
      → has_event_type m type ≡ true
      → has_event_code (set_mask k w m) type other
        ≡ (if ltb max other then false else bit_is_set w other)
  has_event_code-set_mask w m other has_type =
      has_event_code_lem (set_mask k w m) other (has_event_type-set_mask w m ∙ has_type)
      ∙ ap (λ b. if ltb max other then false else bit_is_set b other) (get_mask-set_mask k w m)

  has_type-upto : (m : Masks) → has_event_type m type ≡ true → ltb ev_max_type type ≡ false
  unfolding has_event_type
  has_type-upto m has_type = ground arith

  store_data-masks :
      (can : ℕ → Bool) (d : Libevdev) (code : ℕ) (data' : EventData)
      → fits_data type data' ≡ true
      → is_slot_code type code ≡ false
      → (d' : Libevdev) × (store_data can d type code data' ≡ some (d', pos 0))
        × (d'.masks ≡ d.masks)
  unfolding store_data
  store_data-masks can d code no_data fits plain = (d, ground arith, refl)
  store_data-masks can d code (abs_data a) fits plain =
      (record d { abs_info = set d.abs_info code a }, ground arith, refl)
  store_data-masks can d code (int_data v) fits plain =
      (record d { rep_values = set d.rep_values code v }, ground arith, refl)

  data_guard :
      (data' : EventData)
      → fits_data type data' ≡ true
      → (if type == ev_abs || type == ev_rep then is_null data' else not (is_null data')) ≡ false
  data_guard no_data fits = ground arith
  data_guard (abs_data a) fits = ground arith
  data_guard (int_data v) fits = ground arith

  enable_code_lem :
      (can : ℕ → Bool) (d : Libevdev) (code : ℕ) (data' : EventData)
      → code ≤ max
      → fits_data type data' ≡ true
      → enable_code can d type code data'
        ≡ store_data can
            (record d { masks = set_mask k (set_bit (get_mask k d.masks) code) d.masks })
            type
            code
            data'
  unfolding enable_code
  enable_code_lem can d code data' below fits =
      rw (not_syn, data_guard data' fits, type_to_mask_lem) (ground arith)

  -- Enabling a code of a type that the device has, with the data that the type asks for, succeeds
  -- and gives the device that code, and no other code of the type is gained or lost. The two codes
  -- that set up the slots are left out.
  pub enable_event_code_lem :
      (can : ℕ → Bool) (d : Libevdev) (code other : ℕ) (data' : EventData)
      → has_event_type d.masks type ≡ true
      → code ≤ max
      → code < 64 * length (get_mask k d.masks)
      → fits_data type data' ≡ true
      → is_slot_code type code ≡ false
      → (d' : Libevdev) × (enable_event_code can d type code data' ≡ some (d', pos 0))
        × (has_event_code d'.masks type other
            ≡ (if code == other then true else has_event_code d.masks type other))
  unfolding enable_event_code enable_event_type
  enable_event_code_lem can d code other data' has_type below wide fits plain =
      let old = get_mask k d.masks in
      let m = set_mask k (set_bit old code) d.masks in
      let (d', stored, same) =
        store_data-masks can (record d { masks = m }) code data' fits plain in
      (
        d',
        rw (has_type-upto d.masks has_type, has_type)
            (enable_code_lem can d code data' below fits ∙ stored),
        ap (λ m. has_event_code m type other) same
            ∙ has_event_code-set_mask (set_bit old code) d.masks other has_type
            ∙ ground (
              arith,
              bit_is_set-set_bit old code other wide,
              has_event_code_lem d.masks other has_type,
            ),
      )

  -- Disabling a code of a type that the device has succeeds and takes that code away, and no other
  -- code of the type is gained or lost. The two codes that set up the slots are left out.
  pub disable_event_code_lem :
      (can : ℕ → Bool) (d : Libevdev) (code other : ℕ)
      → has_event_type d.masks type ≡ true
      → code ≤ max
      → code < 64 * length (get_mask k d.masks)
      → is_slot_code type code ≡ false
      → (d' : Libevdev) × (disable_event_code can d type code ≡ some (d', pos 0))
        × (has_event_code d'.masks type other
            ≡ (if code == other then false else has_event_code d.masks type other))
  unfolding disable_event_code drop_data
  disable_event_code_lem can d code other has_type below wide plain =
      let old = get_mask k d.masks in
      (
        record d { masks = set_mask k (clear_bit old code) d.masks },
        rw (has_type-upto d.masks has_type, not_syn, type_to_mask_lem) (ground arith),
        has_event_code-set_mask (clear_bit old code) d.masks other has_type
            ∙ ground (
              arith,
              bit_is_set-clear_bit old code other wide,
              has_event_code_lem d.masks other has_type,
            ),
      )
