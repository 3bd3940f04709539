-- ===== src/Touch.antt =====
-- Synchronising the touches of a multitouch device (libevdev/libevdev.c): `sync_mt_state`,
-- `terminate_slots` and `push_mt_sync_events`. `none` is an access that C leaves undefined.
pub mod Safe
pub mod Pushes
use android_external_libevde.Base.{
  ℕ, zero, suc, ◌+◌, ◌-◌, Bool, true, false, not, ltb, leb, ◌==◌, ◌||◌, ◌&&◌, if◌then◌else◌, ℤ, pos,
  minus_one, neg, eq_ℤ, Option, some, ◌>>=◌, List, [], ◌∷◌, ◌++◌, get_elem?, get_or, set, take,
  replicate, pos_part,
}
use Prim.Native.Nat.{min}
use android_external_libevde.Codes.{
  ev_syn, ev_key, ev_abs, syn_report, abs_mt_slot, abs_mt_tracking_id, abs_mt_min, abs_mt_cnt,
  btn_tool_finger, btn_tool_doubletap, btn_tool_tripletap, btn_tool_quadtap, btn_tool_quinttap,
}
use android_external_libevde.Event.{Event, AbsInfo, Reply, done, failed}
use android_external_libevde.Bitfield.{Words, zeros, bit_is_set, set_bit}
use android_external_libevde.Device.{Libevdev, has_event_code}
use android_external_libevde.Slots.{slot_value, set_slot_cell}
use android_external_libevde.State.{update_key_state}
use android_external_libevde.Sync.{queue_push_event}

pub data TouchState : Type 0 where
  touch_off touch_started touch_stopped touch_ongoing touch_changed : TouchState

-- `struct slot_change_state`
pub record SlotChange : Type 0 where
  pub state : TouchState
  pub axes : Words

abbrev pub no_change : SlotChange
no_change = record { state = touch_off; axes = zeros 1 }

abbrev pub max_slots : ℕ
max_slots = 256

-- The state of a touch by its tracking ID before and after.
unfoldable pub touch_state : ℤ → ℤ → TouchState
touch_state before after =
    if eq_ℤ before minus_one && not (eq_ℤ after minus_one)
    then touch_started
    else if not (eq_ℤ before minus_one) && eq_ℤ after minus_one
    then touch_stopped
    else if not (eq_ℤ before minus_one) && not (eq_ℤ after minus_one) && eq_ℤ before after
    then touch_ongoing
    else if not (eq_ℤ before minus_one) && not (eq_ℤ after minus_one) && not (eq_ℤ before after)
    then touch_changed
    else touch_off

-- What the loop over the slots records for a slot.
abbrev pub note_state : ℕ → ℤ → ℤ → SlotChange → SlotChange
note_state axis before after c =
    if axis == abs_mt_tracking_id then record c { state = touch_state before after } else c

abbrev pub note_axis : ℕ → SlotChange → SlotChange
note_axis axis c = record c { axes = set_bit (set_bit c.axes axis) abs_mt_slot }

-- One round of the loop over the slots for an axis whose kernel values are `vals`.
unfoldable pub sync_slot :
    ℕ → List ℤ → ℕ → Libevdev × List SlotChange → Option (Libevdev × List SlotChange)
sync_slot axis vals slot (d, changes) = do
  before ← slot_value d (pos slot) axis
  after ← get_elem? vals slot
  let c = note_state axis before after (get_or changes slot no_change)
  if eq_ℤ before after
      then some (d, set changes slot c)
      else (set_slot_cell d (pos slot) axis after >>= λ d1.
          some (d1, set changes slot (note_axis axis c)))

unfoldable pub sync_slots :
    ℕ → List ℤ → ℕ → ℕ → Libevdev × List SlotChange → Option (Libevdev × List SlotChange)
sync_slots axis vals zero slot s = some s
sync_slots axis vals (suc n) slot s =
    sync_slot axis vals slot s >>= sync_slots axis vals n (slot + 1)

-- The loop over the axes. The flag says that the ioctl failed, which ends it.
unfoldable pub sync_mt_axes :
    (ℕ → Reply (List ℤ))
    → ℕ
    → ℕ
    → ℕ
    → Libevdev × List SlotChange
    → Option (Bool × Libevdev × List SlotChange)
sync_mt_axes mt_state nslots zero axis s = some (false, s.0, s.1)
sync_mt_axes mt_state nslots (suc n) axis s =
    if axis == abs_mt_slot || not (has_event_code s.0.masks ev_abs axis)
    then sync_mt_axes mt_state nslots n (axis + 1) s
    else elim (mt_state axis) [
      | failed errno ↦ some (true, s.0, s.1)
      | done rc vals ↦
          sync_slots axis vals nslots 0 s >>= λ s'. sync_mt_axes mt_state nslots n (axis + 1) s'
    ]

-- `rc` is -1 on failure. The last part is what is left in `changes_out`, which the caller had cleared.
unfoldable pub sync_mt_state :
    Libevdev → (ℕ → Reply (List ℤ)) → Option (Libevdev × ℤ × List SlotChange)
sync_mt_state d mt_state =
    let count = pos_part d.num_slots in
    let nslots = min max_slots count in
    sync_mt_axes mt_state nslots abs_mt_cnt abs_mt_min (d, replicate max_slots no_change) >>= λ r.
    if r.0
    then some (r.1, minus_one, replicate count no_change)
    else some (r.1, pos 0, take nslots r.2 ++ replicate (count - nslots) no_change)

-- The variables of `terminate_slots`.
pub record Termination : Type 0 where
  pub device : Libevdev
  pub last_reported_slot : ℤ
  pub touches_stopped : Bool
  pub ntouches_before : ℕ
  pub ntouches_after : ℕ

abbrev pub terminate_slot : ℕ → Termination → Termination
terminate_slot slot t =
    let d1 = (queue_push_event t.device ev_abs abs_mt_slot (pos slot)).0 in
    record t {
      device = (queue_push_event d1 ev_abs abs_mt_tracking_id minus_one).0;
      last_reported_slot = pos slot;
      touches_stopped = true;
      ntouches_before = t.ntouches_before + 1;
    }

-- The first loop, over `changes[slot]` for the slots from `slot` on.
unfoldable pub count_touches : List SlotChange → ℕ → Termination → Termination
count_touches [] slot t = t
count_touches (c ∷ changes) slot t = count_touches changes (slot + 1) (elim c.state [
  | touch_off ↦ t
  | touch_changed ↦ terminate_slot slot t
  | touch_stopped ↦ terminate_slot slot t
  | touch_ongoing ↦ record t {
    ntouches_before = t.ntouches_before + 1;
    ntouches_after = t.ntouches_after + 1;
  }
  | touch_started ↦ t
])

-- `map[n - 1]`
abbrev pub tool_button : ℕ → ℕ
tool_button n =
    if n == 1
    then btn_tool_finger
    else if n == 2
    then btn_tool_doubletap
    else if n == 3
    then btn_tool_tripletap
    else if n == 4
    then btn_tool_quadtap
    else btn_tool_quinttap

-- The BTN_TOOL_ event for a number of touches, with our own key state.
unfoldable pub push_tool : ℕ → ℤ → Libevdev → Libevdev
push_tool ntouches value d =
    if ltb 0 ntouches && leb ntouches 5
    then (let ev : Event = record {
      sec = pos 0;
      usec = pos 0;
      type = ev_key;
      code = tool_button ntouches;
      value = value;
    } in
        (update_key_state (queue_push_event d ev.type ev.code ev.value).0 ev).0)
    else d

-- The device and the last reported slot.
unfoldable pub terminate_slots : Libevdev → List SlotChange → ℤ → Libevdev × ℤ
terminate_slots d changes last_reported_slot =
    let t = count_touches changes 0 (record {
      device = d;
      last_reported_slot = last_reported_slot;
      touches_stopped = false;
      ntouches_before = 0;
      ntouches_after = 0;
    }) in
    if t.touches_stopped
    then (let d1 = push_tool t.ntouches_before (pos 0) t.device in
        let d2 = push_tool t.ntouches_after (pos 1) d1 in
        ((queue_push_event d2 ev_syn syn_report (pos 0)).0, t.last_reported_slot))
    else (t.device, t.last_reported_slot)

-- The events of one slot: the rounds left and the axis that is next.
unfoldable pub push_slot_axes : ℕ → ℕ → SlotChange → ℕ → Libevdev → Option Libevdev
push_slot_axes slot axis c zero d = some d
push_slot_axes slot axis c (suc n) d =
    (if axis == abs_mt_slot || not (has_event_code d.masks ev_abs axis)
      then some d
      else if bit_is_set c.axes axis
      then (slot_value d (pos slot) axis >>= λ v. some (queue_push_event d ev_abs axis v).0)
      else some d)
    >>= push_slot_axes slot (axis + 1) c n

abbrev pub is_stopped : TouchState → Bool
is_stopped touch_stopped = true
is_stopped touch_off = false
is_stopped touch_started = false
is_stopped touch_ongoing = false
is_stopped touch_changed = false

-- The loop over the slots: the device and the last reported slot.
unfoldable pub push_slots : List SlotChange → ℕ → Libevdev → ℤ → Option (Libevdev × ℤ)
push_slots [] slot d last = some (d, last)
push_slots (c ∷ changes) slot d last =
    if is_stopped c.state || not (bit_is_set c.axes abs_mt_slot)
    then push_slots changes (slot + 1) d last
    else (push_slot_axes slot abs_mt_min c abs_mt_cnt
          (queue_push_event d ev_abs abs_mt_slot (pos slot)).0
        >>= λ d1. push_slots changes (slot + 1) d1 (pos slot))

-- `slot_state` answers EVIOCGABS(ABS_MT_SLOT).
unfoldable pub push_mt_sync_events :
    Libevdev → List SlotChange → ℤ → Reply AbsInfo → Option (Libevdev × ℤ)
push_mt_sync_events d changes last slot_state = push_slots changes 0 d last >>= λ r.
    elim slot_state [
      | failed errno ↦ some (r.0, neg errno)
      | done rc info ↦
          let d1 = record r.0 { current_slot = info.value } in
          some (
            if eq_ℤ d1.current_slot r.1
                then d1
                else (queue_push_event d1 ev_abs abs_mt_slot d1.current_slot).0,
            pos 0,
          )
    ]
