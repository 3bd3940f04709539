-- ===== src/State/Values.antt =====
-- libevdev_set_event_value on a key, and what libevdev_get_event_value gives after it.
use android_external_libevde.Base.{
  ℕ, ◌*◌, ◌≤◌, ◌<◌, ◌≡◌, true, not, ◌==◌, if◌then◌else◌, ℤ, pos, eq_ℤ, some, length, arith, ◌∙◌, ap,
}
use native.Mathlib.Nat.{mod-eq_of_lt}
use android_external_libevde.Codes.{ev_key}
use android_external_libevde.Event.{Event, u16}
use android_external_libevde.Bitfield.{bit_is_set, set_bit_state}
use android_external_libevde.Bitfield.Laws.{bit_is_set-set_bit_state}
use android_external_libevde.Device.{
  Libevdev, has_event_type, has_event_code, event_is_code, sync_none,
}
use android_external_libevde.State.{
  update_key_state, sanitize_event, is_double_tracking_id, bit_value, get_event_value,
  set_event_value, set_value_by_type, filter_none,
}

module _ (d : Libevdev) (code : ℕ) (v : ℤ) (has_type : has_event_type d.masks ev_key ≡ true)
    (has_code : has_event_code d.masks ev_key code ≡ true) (small : code ≤ 767) where
  abbrev key_event : Event
  key_event = record { sec = pos 0; usec = pos 0; type = u16 ev_key; code = u16 code; value = v }

  u16_code : u16 code ≡ code
  u16_code = mod-eq_of_lt (omega arith)

  sanitized : sanitize_event d key_event sync_none ≡ some (filter_none, key_event)
  unfolding sanitize_event is_double_tracking_id event_is_code
  sanitized = rw (u16_code, has_code) (ground arith)

  set_key_lem :
      set_event_value d ev_key code v
      ≡ some
          (record d { key_values = set_bit_state d.key_values code (not (eq_ℤ v (pos 0))) }, pos 0)
  unfolding set_event_value set_value_by_type update_key_state
  set_key_lem = rw (has_type, has_code, sanitized, u16_code) (ground arith)

  get_key_lem :
      (d1 : Libevdev) (other : ℕ)
      → has_event_type d1.masks ev_key ≡ true
      → has_event_code d1.masks ev_key other ≡ true
      → get_event_value d1 ev_key other ≡ bit_value (bit_is_set d1.key_values other)
  unfolding get_event_value
  get_key_lem d1 other type_ok code_ok = rw (type_ok, code_ok) (ground arith)

  -- A key that the device has is set to whether the value is not 0, and every other key that the
  -- device has keeps its value.
  pub set_get_key_value :
      (other : ℕ)
      → has_event_code d.masks ev_key other ≡ true
      → code < 64 * length d.key_values
      → (d' : Libevdev) × (set_event_value d ev_key code v ≡ some (d', pos 0))
        × (get_event_value d' ev_key other ≡ (
            if code == other
            then bit_value (not (eq_ℤ v (pos 0)))
            else get_event_value d ev_key other))
  set_get_key_value other has_other wide =
      let on = not (eq_ℤ v (pos 0)) in
      let d' : Libevdev = record d { key_values = set_bit_state d.key_values code on } in
      let after =
        get_key_lem d' other has_type has_other
        ∙ ap bit_value (bit_is_set-set_bit_state d.key_values code other on wide) in
      (d', set_key_lem, after ∙ ground (arith, get_key_lem d other has_type has_other))
