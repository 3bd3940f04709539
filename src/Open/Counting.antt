-- ===== src/Open/Counting.antt =====
-- The size of the event queue (`init_event_queue` of libevdev/libevdev.c) stays within an `int`.
use Prim.Native.Nat.{max}
use native.Mathlib.Nat.{mul-le-mul}
use android_external_libevde.Base.{
  ℕ, zero, suc, ◌+◌, ◌-◌, ◌*◌, ◌≤◌, ◌≡◌, refl, Bool, Bool-cases, inl, inr, ltb, if◌then◌else◌, ℤ,
  pos_part, some, as_int_small, arith,
}
use android_external_libevde.Codes.{ev_abs, ev_key, abs_mt_slot, event_type_get_max}
use android_external_libevde.Queue
use android_external_libevde.Device.{Libevdev, Masks}
use android_external_libevde.Open.{count_codes, count_types, count_events, init_event_queue}

count_codes-le : (m : Masks) (type n code : ℕ) → count_codes m type n code ≤ n
unfolding count_codes
count_codes-le m type zero code = omega arith
count_codes-le m type (suc n) code = ground (arith, count_codes-le m type n (code + 1))

event_type_get_max-le : (type : ℕ) → pos_part (event_type_get_max type) ≤ 767
unfolding event_type_get_max
event_type_get_max-le type = ground arith

count_types-le : (m : Masks) (n type : ℕ) → count_types m n type ≤ n * 767
unfolding count_types
count_types-le m zero type = omega arith
count_types-le m (suc n) type = omega (
  arith,
  count_codes-le m type (pos_part (event_type_get_max type)) 0,
  event_type_get_max-le type,
  count_types-le m n (type + 1),
)

-- What the slots after the first one add.
others-le :
    (m : Masks) (n : ℕ)
    → n ≤ 33554432
    → (if ltb 1 n then count_codes m ev_abs 17 abs_mt_slot * (n - 1) else 0) ≤ 570425344
others-le m n bounded = elim (Bool-cases (ltb 1 n)) [
  | inl many ↦
      let below : n - 1 ≤ 33554432 = omega arith in
      rw many (mul-le-mul (count_codes-le m ev_abs 17 abs_mt_slot) below)
  | inr few ↦ rw few (omega arith)
]

count_events_total :
    (m : Masks) (num_slots : ℤ)
    → pos_part num_slots ≤ 33554432
    → (n : ℕ) × (count_events m num_slots ≡ some n) × (n ≤ 600000000)
unfolding count_events
count_events_total m num_slots bounded =
    let n = pos_part num_slots in
    let first = 1 + count_types m 30 ev_key in
    let others = if ltb 1 n then count_codes m ev_abs 17 abs_mt_slot * (n - 1) else 0 in
    let low = count_types-le m 30 ev_key in
    let high : others ≤ 570425344 = others-le m n bounded in
    (
      first + others,
      rw (as_int_small others (omega arith), as_int_small (first + others) (omega arith)) refl,
      omega arith,
    )

-- With up to 2^25 slots the queue is asked for without an overflow.
pub init_event_queue_total :
    (can : ℕ → Bool) (d : Libevdev)
    → pos_part d.num_slots ≤ 33554432
    → (n : ℕ) × (init_event_queue can d
        ≡ some (record d { queue = (Queue.alloc can d.queue n).0 }, (Queue.alloc can d.queue n).1))
unfolding init_event_queue
init_event_queue_total can d bounded =
    let (n, counted, few) = count_events_total d.masks d.num_slots bounded in
    (max 256 (n * 2), rw (counted, as_int_small (n * 2) (omega arith)) refl)
