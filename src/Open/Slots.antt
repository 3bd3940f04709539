-- ===== src/Open/Slots.antt =====
-- The allocation of the slots in libevdev_set_fd (libevdev/libevdev.c).
use android_external_libevde.Base.{
  ℕ, zero, suc, ◌⊎◌, ◌+◌, ◌*◌, ◌≤◌, ◌<◌, ◌≡◌, refl, sym, ap, ◌∙◌, Bool, true, false, not, ◌||◌, leb,
  if◌then◌else◌, ℤ, pos, minus_one, neg, eq_ℤ, suc_ℤ, as_int, as_int_small, pos_part, to_unsigned,
  Option, none, some, ◌>>=◌, List, length, length-set, length-replicate, set, replicate, Bool-cases,
  inl, inr, arith,
}
use android_external_libevde.Codes.{ev_abs, abs_reserved, abs_mt_slot, abs_mt_tracking_id}
use android_external_libevde.Event.{AbsInfo, enomem}
use android_external_libevde.Device.{
  Libevdev, has_event_type, has_event_code, abs_at, get_abs_info_lem,
}
use android_external_libevde.Slots.{
  set_slot_value, reset_from, reset_tracking_ids, free_slots, calloc_slots, init_slots,
}
use android_external_libevde.Slots.Valid.{SlotsValid, no_slots, slots, place, set_slot_cell_lem}

-- What the setting of tracking IDs keeps.
pub record Resets (d d' : Libevdev) : Type 0 where
  pub slots_valid : SlotsValid d'
  pub same_count : d'.num_slots ≡ d.num_slots
  pub same_queue : d'.queue ≡ d.queue

abbrev ResetsTo : Libevdev → Option Libevdev → Type 0
ResetsTo d o = (d' : Libevdev) × (o ≡ some d') × Resets d d'

set_tracking_id :
    (d : Libevdev) (n slot : ℕ)
    → SlotsValid d
    → d.num_slots ≡ pos n
    → slot < n
    → (r : Libevdev × ℤ) × (set_slot_value d slot abs_mt_tracking_id minus_one ≡ some r)
      × Resets d r.0
unfolding set_slot_value
set_tracking_id d n slot (no_slots en ec) counted less = absurd (ground (arith, en, counted))
set_tracking_id d n slot (slots m c vals en ec lt ev len) counted less =
    let same : n ≡ m = ap pos_part (sym counted ∙ en) in
    let inside : slot < m = omega arith in
    let stays : Resets d d = record {
      slots_valid = slots m c vals en ec lt ev len;
      same_count = refl;
      same_queue = refl;
    } in
    elim (Bool-cases (
      not (has_event_type d.masks ev_abs)
      || not (has_event_code d.masks ev_abs abs_mt_tracking_id))) [
        | inl lacks ↦ ((d, minus_one), rw lacks refl, stays)
        | inr has ↦
            elim (Bool-cases (eq_ℤ d.num_slots minus_one || leb (to_unsigned d.num_slots) slot)) [
              | inl out ↦ ((d, minus_one), rw (has, out) refl, stays)
              | inr fits ↦
                  let stored =
                    set_slot_cell_lem d m slot abs_mt_tracking_id vals en ev len inside
                      (omega arith) (omega arith) minus_one in
                  let new = set vals (place slot abs_mt_tracking_id) minus_one in
                  (
                    (record d { mt_slot_vals = some new }, pos 0),
                    rw (has, fits, stored) refl,
                    record {
                      slots_valid =
                          slots m c new en ec lt refl
                            (length-set vals (place slot abs_mt_tracking_id) minus_one ∙ len);
                      same_count = refl;
                      same_queue = refl;
                    },
                  )
            ]
      ]

reset_from-Resets :
    (n k slot : ℕ) (d : Libevdev)
    → SlotsValid d
    → d.num_slots ≡ pos n
    → slot + k ≤ n
    → ResetsTo d (reset_from k slot d)
unfolding reset_from
reset_from-Resets n zero slot d v counted within =
    (d, refl, record { slots_valid = v; same_count = refl; same_queue = refl })
reset_from-Resets n (suc k) slot d v counted within =
    let (r, was_set, one) = set_tracking_id d n slot v counted (omega arith) in
    let (d', rest, more) =
      reset_from-Resets n k (slot + 1) r.0 one.slots_valid (one.same_count ∙ counted)
        (omega arith) in
    (
      d',
      rw (reset_from, was_set) rest,
      record {
        slots_valid = more.slots_valid;
        same_count = more.same_count ∙ one.same_count;
        same_queue = more.same_queue ∙ one.same_queue;
      },
    )

reset_tracking_ids-Resets :
    (d : Libevdev) (n : ℕ) → SlotsValid d → d.num_slots ≡ pos n → ResetsTo d (reset_tracking_ids d)
unfolding reset_tracking_ids
reset_tracking_ids-Resets d n v counted =
    elim (Bool-cases
      (eq_ℤ d.num_slots minus_one || not (has_event_code d.masks ev_abs abs_mt_tracking_id))) [
        | inl none_there ↦ (
          d,
          rw none_there refl,
          record { slots_valid = v; same_count = refl; same_queue = refl },
        )
        | inr there ↦
            let (d', done, resets) = reset_from-Resets n n 0 d v counted (omega arith) in
            (d', rw (there, ap pos_part counted) done, resets)
      ]

-- What the kernel tells of ABS_MT_SLOT: the current slot is one of those up to the maximum, which is
-- far below INT_MAX.
abbrev pub InRange : AbsInfo → Type 0
InRange a = (m : ℕ) × (c : ℕ) × (a.maximum ≡ pos m) × (a.value ≡ pos c) × (c ≤ m) × (m < 33554432)

-- A device without slots, as init_slots finds it.
pub record Slotless (d : Libevdev) : Type 0 where
  pub none_counted : d.num_slots ≡ minus_one
  pub none_current : d.current_slot ≡ minus_one
  pub in_range : InRange (abs_at d abs_mt_slot)

-- The slots are well formed, or there was no memory for them; the queue stays.
abbrev pub Inits : Libevdev → Option (Libevdev × ℤ) → Type 0
Inits d o =
    (r : Libevdev × ℤ) × (o ≡ some r)
    × (r.0.queue ≡ d.queue)
    × ((eq_ℤ r.1 (pos 0) ≡ false) ⊎ SlotsValid r.0)
    × (pos_part r.0.num_slots ≤ 33554432)

abbrev LongEnough : ℕ → Option (List ℤ) → Type 0
LongEnough n none = Unit
LongEnough n (some vals) = length vals ≡ n * 15

calloc_slots-LongEnough : (can : ℕ → Bool) (n : ℕ) → LongEnough n (calloc_slots can (pos (n * 15)))
unfolding calloc_slots
calloc_slots-LongEnough can n = cases (can (n * 15))
  where
    cases : (b : Bool) → LongEnough n (if b then some (replicate (n * 15) (pos 0)) else none)
    cases true = length-replicate (n * 15) (pos 0)
    cases false = tt

-- The part of init_slots behind the call of `calloc`, which gave `got`.
abbrev after_calloc : Libevdev → ℤ → ℤ → Option (List ℤ) → Option (List ℤ) → Option (Libevdev × ℤ)
after_calloc d count value stored got = elim got [
  | none ↦ some (record d { num_slots = count; mt_slot_vals = stored }, neg enomem)
  | some vals ↦
      reset_tracking_ids
        (record d { num_slots = count; mt_slot_vals = stored; current_slot = value })
      >>= λ d2. some (d2, pos 0)
]

after_calloc-Inits :
    (d : Libevdev) (n c : ℕ) (count value : ℤ) (stored got : Option (List ℤ))
    → count ≡ pos n
    → value ≡ pos c
    → c < n
    → n ≤ 33554432
    → stored ≡ got
    → LongEnough n got
    → Inits d (after_calloc d count value stored got)
after_calloc-Inits d n c count value stored none counted current within bounded same long = (
  (record d { num_slots = count; mt_slot_vals = stored }, neg enomem),
  refl,
  refl,
  inl refl,
  omega (arith, ap pos_part counted),
)
after_calloc-Inits d n c count value stored (some vals) counted current within bounded same long =
    let d1 = record d { num_slots = count; mt_slot_vals = stored; current_slot = value } in
    let (d2, done, resets) =
      reset_tracking_ids-Resets d1 n (slots n c vals counted current within same long) counted in
    (
      (d2, pos 0),
      rw done refl,
      resets.same_queue,
      inr resets.slots_valid,
      omega (arith, ap pos_part (resets.same_count ∙ counted)),
    )

pub init_slots-Inits : (can : ℕ → Bool) (d : Libevdev) → Slotless d → Inits d (init_slots can d)
unfolding init_slots free_slots
init_slots-Inits can d s =
    let d0 = record d { mt_slot_vals = none } in
    elim (Bool-cases (
      has_event_code d.masks ev_abs abs_reserved
      || not (has_event_code d.masks ev_abs abs_mt_slot))) [
        | inl without ↦
            let uncounted : eq_ℤ d.num_slots minus_one ≡ true =
              ap (λ z. eq_ℤ z minus_one) s.none_counted in
            (
              (d0, pos 0),
              rw (without, uncounted) refl,
              refl,
              inr (no_slots s.none_counted s.none_current),
              omega (arith, ap pos_part s.none_counted),
            )
        | inr with_them ↦
            let has : has_event_code d.masks ev_abs abs_mt_slot ≡ true =
              ground (arith, with_them) in
            let (m, c, top, current, within, bounded) = s.in_range in
            let info = abs_at d abs_mt_slot in
            let counted : as_int (suc_ℤ info.maximum) ≡ some (pos (suc m)) =
              ap (λ z. as_int (suc_ℤ z)) top ∙ as_int_small (suc m) (omega arith) in
            let cells : as_int (pos (suc m * 15)) ≡ some (pos (suc m * 15)) =
              as_int_small (suc m * 15) (omega arith) in
            let got = calloc_slots can (pos (suc m * 15)) in
            let (r, done, same_queue, valid, few) =
              after_calloc-Inits d (suc m) c (pos (suc m)) info.value got got refl current
                (omega arith) (omega arith) refl (calloc_slots-LongEnough can (suc m)) in
            (
              r,
              rw (with_them, get_abs_info_lem d0 abs_mt_slot has, counted, cells) done,
              same_queue,
              valid,
              few,
            )
      ]
