-- ===== src/State/Safe.antt =====
-- Which memory an event touches: update_abs_state and update_mt_state of libevdev/libevdev.c.
use android_external_libevde.Base.{
  ℕ, zero, suc, ◌+◌, ◌*◌, ◌≤◌, ◌<◌, ◌≡◌, refl, ltb, leb, ◌==◌, ◌&&◌, ℤ, pos, minus_one, is_neg,
  eq_ℤ, Option, some, List, length, length-set, get_or, set, arith, Bool-cases, inl, inr, ==→eq, ap,
  ◌∙◌,
}
use android_external_libevde.Event.{Event, AbsInfo}
use android_external_libevde.Codes.{abs_mt_slot, ev_abs}
use android_external_libevde.Device.{Libevdev, has_event_code, has_event_type}
use android_external_libevde.Slots.{slot_value, set_slot_cell}
use android_external_libevde.Slots.Valid.{
  SlotsValid, no_slots, slots, place, slot_value_lem, set_slot_cell_lem,
}
use android_external_libevde.State.{set_abs_value, load_slot, update_mt_state, update_abs_state}

-- The loop over the axes of the current slot reads inside the array and changes only `abs_info`.
load_slot_lem :
    (k axis : ℕ) (d : Libevdev) (n c : ℕ) (vals : List ℤ)
    → d.num_slots ≡ pos n
    → d.current_slot ≡ pos c
    → c < n
    → d.mt_slot_vals ≡ some vals
    → length vals ≡ n * 15
    → 47 ≤ axis
    → axis + k ≤ 62
    → (infos : List AbsInfo) × (load_slot k axis d ≡ some (record d { abs_info = infos }))
unfolding load_slot set_abs_value
load_slot_lem zero axis d n c vals en ec lt ev len lo hi = (d.abs_info, refl)
load_slot_lem (suc k) axis d n c vals en ec lt ev len lo hi =
    elim (Bool-cases (has_event_code d.masks ev_abs axis)) [
      | inr absent ↦
          rw absent
            (load_slot_lem k (axis + 1) d n c vals en ec lt ev len (omega arith) (omega arith))
      | inl present ↦
          let read =
            ap (λ s. slot_value d s axis) ec
            ∙ slot_value_lem d n c axis vals en ev len lt lo (omega arith) in
          rw (present, read)
            (load_slot_lem k (axis + 1) (set_abs_value d axis (get_or vals (place c axis) (pos 0)))
              n c vals en ec lt ev len (omega arith) (omega arith))
    ]

-- What an event leaves alone.
pub record Keeps (d d' : Libevdev) : Type 0 where
  pub same_masks : d'.masks ≡ d.masks
  pub same_queue : d'.queue ≡ d.queue
  pub same_nsync : d'.queue_nsync ≡ d.queue_nsync
  pub same_sync : d'.sync_state ≡ d.sync_state
  pub same_fd : d'.fd ≡ d.fd
  pub same_initialized : d'.initialized ≡ d.initialized
  pub same_count : d'.num_slots ≡ d.num_slots

-- A new current slot is one of the slots.
abbrev pub FitsSlots : Libevdev → Event → Type 0
FitsSlots d e = (n : ℕ) → d.num_slots ≡ pos n → e.code ≡ 47 → (v : ℕ) × (e.value ≡ pos v) × (v < n)

-- The update went through and gave a device with a fitting slot array.
abbrev pub Updates : Libevdev → Option (Libevdev × ℕ) → Type 0
Updates d result = (r : Libevdev × ℕ) × (result ≡ some r) × SlotsValid r.0 × Keeps d r.0

pub Keeps-refl : (d : Libevdev) → Keeps d d
Keeps-refl d = record {
  same_masks = refl;
  same_queue = refl;
  same_nsync = refl;
  same_sync = refl;
  same_fd = refl;
  same_initialized = refl;
  same_count = refl;
}

Keeps-cells : (d : Libevdev) (vals : List ℤ) → Keeps d (record d { mt_slot_vals = some vals })
Keeps-cells d vals = record {
  same_masks = refl;
  same_queue = refl;
  same_nsync = refl;
  same_sync = refl;
  same_fd = refl;
  same_initialized = refl;
  same_count = refl;
}

update_mt_state-Updates :
    (d : Libevdev) (e : Event)
    → SlotsValid d
    → FitsSlots d e
    → 47 ≤ e.code
    → e.code ≤ 61
    → Updates d (update_mt_state d e)
unfolding update_mt_state
update_mt_state-Updates d e (no_slots en ec) fits lo hi = (
  (d, 1),
  rw (ap is_neg en, ap (λ s. eq_ℤ s minus_one) ec) (ground arith),
  no_slots en ec,
  Keeps-refl d,
)
update_mt_state-Updates d e (slots n c vals en ec lt ev len) fits lo hi =
    elim (Bool-cases (e.code == abs_mt_slot)) [
      | inl is_slot ↦
          let (v, new, below) = fits n en (==→eq e.code 47 is_slot) in
          let (infos, loaded) =
            load_slot_lem 14 48 (record d { current_slot = e.value }) n v vals en new below ev len
              (omega arith) (omega arith) in
          (
            (record d { current_slot = e.value; abs_info = infos }, 0),
            rw (is_slot, ap is_neg en, loaded),
            slots n v vals en new below ev len,
            record {
              same_masks = refl;
              same_queue = refl;
              same_nsync = refl;
              same_sync = refl;
              same_fd = refl;
              same_initialized = refl;
              same_count = refl;
            },
          )
      | inr other ↦ (
        (record d { mt_slot_vals = some (set vals (place c e.code) e.value) }, 0),
        rw (
          other,
          ap (λ s. eq_ℤ s minus_one) ec,
          ap (λ s. set_slot_cell d s e.code e.value) ec,
          set_slot_cell_lem d n c e.code vals en ev len lt lo hi e.value,
        ),
        slots n c (set vals (place c e.code) e.value) en ec lt refl
            (omega (arith, length-set {0} vals (place c e.code) e.value)),
        Keeps-cells d (set vals (place c e.code) e.value),
      )
    ]

-- The device with another `abs_info` keeps its slots.
set_abs_value-SlotsValid :
    (d : Libevdev) (code : ℕ) (v : ℤ) → SlotsValid d → SlotsValid (set_abs_value d code v)
unfolding set_abs_value
set_abs_value-SlotsValid d code v (no_slots en ec) = no_slots en ec
set_abs_value-SlotsValid d code v (slots n c vals en ec lt ev len) = slots n c vals en ec lt ev len

set_abs_value-Keeps :
    (d d' : Libevdev) (code : ℕ) (v : ℤ) → Keeps d d' → Keeps d (set_abs_value d' code v)
unfolding set_abs_value
set_abs_value-Keeps d d' code v k = ground arith

pub update_abs_state-Updates :
    (d : Libevdev) (e : Event) → SlotsValid d → FitsSlots d e → Updates d (update_abs_state d e)
unfolding update_abs_state
update_abs_state-Updates d e valid fits = elim (Bool-cases (has_event_type d.masks ev_abs)) [
  | inr absent ↦ ((d, 1), rw absent, valid, Keeps-refl d)
  | inl present ↦ elim (Bool-cases (ltb 63 e.code)) [
    | inl beyond ↦ ((d, 1), rw (present, beyond), valid, Keeps-refl d)
    | inr within ↦ elim (Bool-cases (leb 47 e.code && leb e.code 61)) [
      | inr single ↦ (
        (set_abs_value d e.code e.value, 0),
        rw (present, within, single),
        set_abs_value-SlotsValid d e.code e.value valid,
        set_abs_value-Keeps d d e.code e.value (Keeps-refl d),
      )
      | inl multi ↦
          let (r, done, kept, same) =
            update_mt_state-Updates d e valid fits (ground arith) (ground arith) in
          (
            (set_abs_value r.0 e.code e.value, 0),
            rw (present, within, multi, done),
            set_abs_value-SlotsValid r.0 e.code e.value kept,
            set_abs_value-Keeps d r.0 e.code e.value same,
          )
    ]
  ]
]
