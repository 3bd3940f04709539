-- ===== src/Open.antt =====
-- Creating a device and attaching it to a file descriptor (libevdev/libevdev.c): libevdev_new,
-- libevdev_set_fd with all its requests, `init_event_queue` and `libevdev_reset`.
pub mod Failure
pub mod Slots
pub mod Counting
pub mod Loading
pub mod Valid
pub mod Ends
use android_external_libevde.Base.{
  ℕ, zero, suc, ◌+◌, ◌-◌, ◌*◌, Bool, true, false, not, ltb, ◌==◌, ◌||◌, ◌&&◌, if◌then◌else◌, ℤ, pos,
  negsuc, minus_one, neg, eq_ℤ, is_neg, pos_part, as_int, Option, none, some, ◌>>=◌, List, set,
  replicate,
}
use Prim.Native.Nat.{max}
use android_external_libevde.Codes.{
  ev_syn, ev_key, ev_rel, ev_abs, ev_led, ev_sw, ev_msc, ev_ff, ev_snd, ev_rep, abs_mt_slot,
  abs_mt_tracking_id, abs_cnt, abs_x, rep_cnt, ev_max_type, event_type_get_max,
}
use android_external_libevde.Event.{
  AbsInfo, InputId, Text, Reply, done, failed, ebadf, enomem, enoent, einval,
}
use android_external_libevde.Bitfield.{Words, zeros, bit_is_set, set_bit}
use android_external_libevde.Queue
use android_external_libevde.Device.{
  Libevdev, LogData, Masks, sync_none, ungrab, has_event_code, blank_abs,
}
use android_external_libevde.Slots.{init_slots}
use android_external_libevde.Caps.{enable_event_type}
use android_external_libevde.Touch.{sync_mt_state}

-- The device that `memset` clears, but for what `libevdev_reset` sets after it.
unfoldable pub cleared : LogData → Libevdev
cleared log = record {
  fd = minus_one;
  initialized = false;
  name = none;
  phys = none;
  uniq = none;
  ids = record { bustype = 0; vendor = 0; product = 0; version = 0 };
  driver_version = pos 0;
  masks = record {
    bits = zeros 1;
    props = zeros 1;
    key_bits = zeros 12;
    rel_bits = zeros 1;
    abs_bits = zeros 1;
    led_bits = zeros 1;
    msc_bits = zeros 1;
    sw_bits = zeros 1;
    rep_bits = zeros 1;
    ff_bits = zeros 2;
    snd_bits = zeros 1;
  };
  key_values = zeros 12;
  led_values = zeros 1;
  sw_values = zeros 1;
  abs_info = replicate abs_cnt blank_abs;
  mt_slot_vals = none;
  num_slots = minus_one;
  current_slot = minus_one;
  rep_values = replicate rep_cnt (pos 0);
  sync_state = sync_none;
  grabbed = ungrab;
  queue = record { queue = none; queue_size = 0; queue_next = 0 };
  queue_nsync = 0;
  last_event_time = record { tv_sec = pos 0; tv_usec = pos 0 };
  log = log;
}

-- libevdev_reset: of the log settings the priority and the handler stay.
unfoldable pub reset : (ℕ → Bool) → Libevdev → Option Libevdev
reset can d =
    enable_event_type can
      (cleared (record {
        priority = d.log.priority;
        global_handler = none;
        device_handler = d.log.device_handler;
        userdata = none;
      }))
      ev_syn
    >>= λ r. some r.0

-- libevdev_new, once `calloc` has given the memory: all members are 0.
unfoldable pub new : (ℕ → Bool) → Option Libevdev
new can = reset can (
    cleared
      (record { priority = 0; global_handler = none; device_handler = none; userdata = none }))

-- What the kernel answers to the requests of libevdev_set_fd, each of which is made once, and what
-- the C library's `strdup` and `calloc` give.
pub record Opening : Type 0 where
  pub bits : Reply Words
  pub name : Reply Text
  pub phys : Reply Text
  pub uniq : Reply Text
  pub id : Reply InputId
  pub version : Reply ℤ
  pub props : Reply Words
  pub code_bits : ℕ → Reply Words
  pub key_state : Reply Words
  pub led_state : Reply Words
  pub switch_state : Reply Words
  pub repeat : Reply (List ℤ)
  pub abs_state : ℕ → Reply AbsInfo
  pub mt_state : ℕ → Reply (List ℤ)
  pub strdup : Text → Option Text
  pub can : ℕ → Bool

-- A step goes on, or jumps to the label `out` with `rc` and `errno`.
pub data Setup : Type 0 where
  next : Libevdev → Setup
  out : ℤ → ℕ → Libevdev → Setup

infixl 5 ◌then_do◌
abbrev pub ◌then_do◌ : Setup → (Libevdev → Setup) → Setup
next d then_do f = f d
out rc errno d then_do f = out rc errno d

-- `rc = ioctl(...); if (rc < 0) goto out;`
abbrev pub load {ℓ} : {A : Type ℓ} → Reply A → (A → Libevdev → Libevdev) → Libevdev → Setup
load (done rc a) put d = next (put a d)
load (failed errno) put d = out minus_one errno d

-- A string that the device must have, and one that it may lack (ENOENT).
abbrev pub load_string :
    (Text → Option Text) → Reply Text → (Option Text → Libevdev → Libevdev) → Libevdev → Setup
load_string strdup (done rc s) put d = elim (strdup s) [
  | none ↦ out (pos rc) enomem (put none d)
  | some s' ↦ next (put (some s') d)
]
load_string strdup (failed errno) put d = out minus_one errno d

abbrev pub load_optional :
    (Text → Option Text) → Reply Text → (Option Text → Libevdev → Libevdev) → Libevdev → Setup
load_optional strdup (done rc s) put d = load_string strdup (done rc s) put (put none d)
load_optional strdup (failed errno) put d =
    if errno == enoent then next (put none d) else out minus_one errno (put none d)

-- A kernel without properties answers EINVAL, which is no error.
abbrev pub load_props : Reply Words → Libevdev → Setup
load_props (done rc w) d = next (record d { masks = record d.masks { props = w } })
load_props (failed errno) d = if errno == einval then next d else out minus_one errno d

-- fix_invalid_absinfo
unfoldable pub fix_invalid_absinfo : ℕ → AbsInfo → AbsInfo
fix_invalid_absinfo axis a =
    if axis == abs_mt_tracking_id && eq_ℤ a.maximum a.minimum
    then record a { minimum = minus_one; maximum = pos 0xffff }
    else a

-- The loop over the axes: the rounds left and the axis that is next.
unfoldable pub load_axes : (ℕ → Reply AbsInfo) → ℕ → ℕ → Libevdev → Setup
load_axes abs_state zero i d = next d
load_axes abs_state (suc n) i d =
    (if bit_is_set d.masks.abs_bits i
      then load (abs_state i)
          (λ a d'. record d' { abs_info = set d'.abs_info i (fix_invalid_absinfo i a) }) d
      else next d)
    then_do load_axes abs_state n (i + 1)

abbrev pub load_repeat : Reply (List ℤ) → Libevdev → Setup
load_repeat reply d =
    if bit_is_set d.masks.bits ev_rep
    then load reply (λ v d'. record d' { rep_values = v })
        (record d { masks = record d.masks { rep_bits = set_bit (set_bit d.masks.rep_bits 0) 1 } })
    else next d

-- The requests, in the order of the code.
unfoldable pub load_identity : Opening → Libevdev → Setup
load_identity o d =
    load o.bits (λ w d. record d { masks = record d.masks { bits = w } }) d
    then_do load_string o.strdup o.name (λ s d. record d { name = s })
    then_do load_optional o.strdup o.phys (λ s d. record d { phys = s })
    then_do load_optional o.strdup o.uniq (λ s d. record d { uniq = s })
    then_do load o.id (λ i d. record d { ids = i })
    then_do load o.version (λ v d. record d { driver_version = v })

unfoldable pub load_masks : Opening → Libevdev → Setup
load_masks o d =
    load_props o.props d
    then_do load (o.code_bits ev_rel) (λ w d. record d { masks = record d.masks { rel_bits = w } })
    then_do load (o.code_bits ev_abs) (λ w d. record d { masks = record d.masks { abs_bits = w } })
    then_do load (o.code_bits ev_led) (λ w d. record d { masks = record d.masks { led_bits = w } })
    then_do load (o.code_bits ev_key) (λ w d. record d { masks = record d.masks { key_bits = w } })
    then_do load (o.code_bits ev_sw) (λ w d. record d { masks = record d.masks { sw_bits = w } })
    then_do load (o.code_bits ev_msc) (λ w d. record d { masks = record d.masks { msc_bits = w } })
    then_do load (o.code_bits ev_ff) (λ w d. record d { masks = record d.masks { ff_bits = w } })
    then_do load (o.code_bits ev_snd) (λ w d. record d { masks = record d.masks { snd_bits = w } })

unfoldable pub load_values : Opening → Libevdev → Setup
load_values o d =
    load o.key_state (λ w d. record d { key_values = w }) d
    then_do load o.led_state (λ w d. record d { led_values = w })
    then_do load o.switch_state (λ w d. record d { sw_values = w })
    then_do load_repeat o.repeat
    then_do load_axes o.abs_state abs_cnt abs_x

-- The loops of `init_event_queue`: the codes of a type below its highest one, and the types.
unfoldable pub count_codes : Masks → ℕ → ℕ → ℕ → ℕ
count_codes m type zero code = 0
count_codes m type (suc n) code =
    (if has_event_code m type code then 1 else 0) + count_codes m type n (code + 1)

unfoldable pub count_types : Masks → ℕ → ℕ → ℕ
count_types m zero type = 0
count_types m (suc n) type =
    count_codes m type (pos_part (event_type_get_max type)) 0 + count_types m n (type + 1)

-- The number of events that a frame may have, and the size of the queue for it. They are `int`, and
-- `none` is an overflow.
unfoldable pub count_events : Masks → ℤ → Option ℕ
count_events m num_slots =
    let nslots = pos_part num_slots in
    let first = 1 + count_types m 30 ev_key in
    let others = if ltb 1 nslots then count_codes m ev_abs 17 abs_mt_slot * (nslots - 1) else 0 in
    as_int (pos others) >>= λ _. as_int (pos (first + others)) >>= λ _. some (first + others)

unfoldable pub init_event_queue : (ℕ → Bool) → Libevdev → Option (Libevdev × ℤ)
init_event_queue can d = count_events d.masks d.num_slots >>= λ nevents.
    as_int (pos (nevents * 2)) >>= λ _.
    let (q, rc) = Queue.alloc can d.queue (max 256 (nevents * 2)) in
    some (record d { queue = q }, rc)

-- The code at `out`.
unfoldable pub exit_setup : (ℕ → Bool) → ℤ → ℕ → Libevdev → Option (Libevdev × ℤ)
exit_setup can rc errno d =
    if eq_ℤ rc (pos 0) then some (d, pos 0) else (reset can d >>= λ d'. some (d', neg errno))

-- libevdev_set_fd from the call of `init_event_queue` on.
unfoldable pub finish_queue : (ℕ → Bool) → Libevdev → Option (Libevdev × ℤ)
finish_queue can d = init_event_queue can d >>= λ r. some (
    if is_neg r.1
    then (record r.0 { fd = minus_one }, pos enomem)
    else (record r.0 { initialized = true }, pos 0))

-- The state of the touches is read, but the changes are not used.
unfoldable pub load_touches : Opening → Libevdev → Option Libevdev
load_touches o d =
    if eq_ℤ d.num_slots minus_one then some d else (sync_mt_state d o.mt_state >>= λ s. some s.0)

-- libevdev_set_fd from `dev->fd = fd` on.
unfoldable pub finish_setup : Opening → ℤ → Libevdev → Option (Libevdev × ℤ)
finish_setup o fd d = init_slots o.can (record d { fd = fd }) >>= λ r.
    if not (eq_ℤ r.1 (pos 0))
    then exit_setup o.can r.1 enomem r.0
    else (load_touches o r.0 >>= λ d1. finish_queue o.can d1)

-- libevdev_set_fd after its reset.
unfoldable pub attach : Opening → ℤ → Libevdev → Option (Libevdev × ℤ)
attach o fd d = elim (load_identity o d then_do load_masks o then_do load_values o) [
  | next d1 ↦ finish_setup o fd d1
  | out rc errno d1 ↦ exit_setup o.can rc errno d1
]

-- libevdev_set_fd
unfoldable pub set_fd : Opening → Libevdev → ℤ → Option (Libevdev × ℤ)
set_fd o d fd =
    if d.initialized
    then some (d, neg ebadf)
    else if is_neg fd
    then some (d, neg ebadf)
    else (reset o.can d >>= attach o fd)

-- libevdev_new_from_fd: `rc`, and the device if `*dev` is set.
unfoldable pub new_from_fd : Opening → ℤ → Option (ℤ × Option Libevdev)
new_from_fd o fd =
    new o.can >>= λ d. set_fd o d fd >>= λ r. some (r.1, if is_neg r.1 then none else some r.0)

-- libevdev_change_fd
unfoldable pub change_fd : Libevdev → ℤ → Libevdev × ℤ
change_fd d fd =
    if not d.initialized then (d, minus_one) else (record d { fd = fd; grabbed = ungrab }, pos 0)
