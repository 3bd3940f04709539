-- ===== src/State/Whole.antt =====
-- An event of any type is taken in without a fault.
use android_external_libevde.Base.{
  ℕ, ◌≡◌, refl, ltb, ◌==◌, some, arith, Bool-cases, inl, inr, ==→eq,
}
use android_external_libevde.Event.{Event, TimeVal}
use android_external_libevde.Bitfield.{Words, set_bit_state}
use android_external_libevde.Codes.{ev_key, ev_abs, ev_led, ev_sw, key_max, led_max, sw_max}
use android_external_libevde.Device.{Libevdev, has_event_type}
use android_external_libevde.Slots.Valid.{SlotsValid, no_slots, slots}
use android_external_libevde.State.{
  update_values, update_state, update_key_state, update_led_state, update_sw_state, is_on,
}
use android_external_libevde.State.Safe.{
  Keeps, Keeps-refl, FitsSlots, Updates, update_abs_state-Updates,
}

-- An update of the key, LED or switch bits.
abbrev with_bits : Libevdev → Words → Words → Words → Libevdev
with_bits d keys leds sws = record d { key_values = keys; led_values = leds; sw_values = sws }

with_bits-SlotsValid :
    (d : Libevdev) (k l s : Words) → SlotsValid d → SlotsValid (with_bits d k l s)
with_bits-SlotsValid d k l s (no_slots en ec) = no_slots en ec
with_bits-SlotsValid d k l s (slots n c vals en ec lt ev len) = slots n c vals en ec lt ev len

with_bits-Keeps : (d : Libevdev) (k l s : Words) → Keeps d (with_bits d k l s)
with_bits-Keeps d k l s = record {
  same_masks = refl;
  same_queue = refl;
  same_nsync = refl;
  same_sync = refl;
  same_fd = refl;
  same_initialized = refl;
  same_count = refl;
}

-- The bits that an update of the keys, LEDs or switches leaves.
abbrev OnlyBits : Libevdev → Libevdev × ℕ → Type 0
OnlyBits d r = (k : Words) × (l : Words) × (s : Words) × (r.0 ≡ with_bits d k l s)

update_key_state-OnlyBits : (d : Libevdev) (e : Event) → OnlyBits d (update_key_state d e)
unfolding update_key_state
update_key_state-OnlyBits d e = elim (Bool-cases (has_event_type d.masks ev_key)) [
  | inr absent ↦ (d.key_values, d.led_values, d.sw_values, rw absent)
  | inl present ↦ elim (Bool-cases (ltb key_max e.code)) [
    | inl beyond ↦ (d.key_values, d.led_values, d.sw_values, rw (present, beyond))
    | inr within ↦ (
      set_bit_state d.key_values e.code (is_on e),
      d.led_values,
      d.sw_values,
      rw (present, within),
    )
  ]
]

update_led_state-OnlyBits : (d : Libevdev) (e : Event) → OnlyBits d (update_led_state d e)
unfolding update_led_state
update_led_state-OnlyBits d e = elim (Bool-cases (has_event_type d.masks ev_led)) [
  | inr absent ↦ (d.key_values, d.led_values, d.sw_values, rw absent)
  | inl present ↦ elim (Bool-cases (ltb led_max e.code)) [
    | inl beyond ↦ (d.key_values, d.led_values, d.sw_values, rw (present, beyond))
    | inr within ↦ (
      d.key_values,
      set_bit_state d.led_values e.code (is_on e),
      d.sw_values,
      rw (present, within),
    )
  ]
]

update_sw_state-OnlyBits : (d : Libevdev) (e : Event) → OnlyBits d (update_sw_state d e)
unfolding update_sw_state
update_sw_state-OnlyBits d e = elim (Bool-cases (has_event_type d.masks ev_sw)) [
  | inr absent ↦ (d.key_values, d.led_values, d.sw_values, rw absent)
  | inl present ↦ elim (Bool-cases (ltb sw_max e.code)) [
    | inl beyond ↦ (d.key_values, d.led_values, d.sw_values, rw (present, beyond))
    | inr within ↦ (
      d.key_values,
      d.led_values,
      set_bit_state d.sw_values e.code (is_on e),
      rw (present, within),
    )
  ]
]

OnlyBits-Updates :
    (d : Libevdev) (r : Libevdev × ℕ) → SlotsValid d → OnlyBits d r → Updates d (some r)
OnlyBits-Updates d r valid (k, l, s, e) =
    (r, refl, rw e (with_bits-SlotsValid d k l s valid), rw e (with_bits-Keeps d k l s))

update_values-Updates :
    (d : Libevdev) (e : Event)
    → SlotsValid d
    → (e.type ≡ ev_abs → FitsSlots d e)
    → Updates d (update_values d e)
unfolding update_values
update_values-Updates d e valid fits = elim (Bool-cases (e.type == ev_key)) [
  | inl key ↦
      rw key (OnlyBits-Updates d (update_key_state d e) valid (update_key_state-OnlyBits d e))
  | inr not_key ↦ elim (Bool-cases (e.type == ev_abs)) [
    | inl axis ↦
        rw (not_key, axis) (update_abs_state-Updates d e valid (fits (==→eq e.type ev_abs axis)))
    | inr not_abs ↦ elim (Bool-cases (e.type == ev_led)) [
      | inl led ↦
          rw (not_key, not_abs, led)
            (OnlyBits-Updates d (update_led_state d e) valid (update_led_state-OnlyBits d e))
      | inr not_led ↦ elim (Bool-cases (e.type == ev_sw)) [
        | inl sw ↦
            rw (not_key, not_abs, not_led, sw)
              (OnlyBits-Updates d (update_sw_state d e) valid (update_sw_state-OnlyBits d e))
        | inr other ↦ ((d, 0), rw (not_key, not_abs, not_led, other), valid, Keeps-refl d)
      ]
    ]
  ]
]

with_time-SlotsValid :
    (d : Libevdev) (t : TimeVal) → SlotsValid d → SlotsValid (record d { last_event_time = t })
with_time-SlotsValid d t (no_slots en ec) = no_slots en ec
with_time-SlotsValid d t (slots n c vals en ec lt ev len) = slots n c vals en ec lt ev len

with_time-Keeps :
    (d d' : Libevdev) (t : TimeVal) → Keeps d d' → Keeps d (record d' { last_event_time = t })
with_time-Keeps d d' t k = ground arith

-- An event that fits the slots is taken in without a fault.
pub update_state-Updates :
    (d : Libevdev) (e : Event)
    → SlotsValid d
    → (e.type ≡ ev_abs → FitsSlots d e)
    → Updates d (update_state d e)
unfolding update_state
update_state-Updates d e valid fits =
    let (r, taken, kept, same) = update_values-Updates d e valid fits in
    let t : TimeVal = record { tv_sec = e.sec; tv_usec = e.usec } in
    (
      (record r.0 { last_event_time = t }, r.1),
      rw taken,
      with_time-SlotsValid r.0 t kept,
      with_time-Keeps d r.0 t same,
    )
