-- ===== src/Open/Valid.antt =====
-- What libevdev_set_fd leaves behind, whatever the kernel answers (libevdev/libevdev.c).
use mathlib.Core.Path.{subst}
use Prim.Native.Nat.{min}
use android_external_libevde.Base.{
  ℕ, pos_part, ◌≤◌, ◌≡◌, refl, sym, ap, ◌∙◌, Bool, true, false, ℤ, pos, minus_one, neg, eq_ℤ,
  is_neg, Option, some, ◌>>=◌, List, length-replicate, Bool-cases, inl, inr, arith,
}
use android_external_libevde.Codes.{abs_mt_slot}
use android_external_libevde.Event.{Reply, enomem, ebadf, done, failed}
use android_external_libevde.Queue
use android_external_libevde.Queue.{Queue, blank}
use android_external_libevde.Queue.Fifo
use android_external_libevde.Device.{Libevdev, LogData, blank_abs}
use android_external_libevde.Slots.Valid.{SlotsValid, no_slots, slots}
use android_external_libevde.Reader.Valid.{Valid}
use android_external_libevde.Touch.Safe.{Covers, sync_mt_state-Goes}
use android_external_libevde.Open.{
  cleared, reset, Opening, Setup, next, out, ◌then_do◌, load_identity, load_masks, load_values,
  exit_setup, finish_queue, load_touches, finish_setup, attach, set_fd,
}
use android_external_libevde.Open.Counting.{init_event_queue_total}
use android_external_libevde.Open.Failure.{reset_lem, exit_setup_lem, kept_log}
use android_external_libevde.Open.Slots.{init_slots-Inits}
use android_external_libevde.Open.Loading.{
  no_queue, Loading, Loads, Sensible, then_do-Loads, load_identity-Loads, load_masks-Loads,
  load_values-Loads,
}

-- The operation returns, with a well-formed device.
abbrev pub Leaves : Option (Libevdev × ℤ) → Type 0
Leaves o = (r : Libevdev × ℤ) × (o ≡ some r) × Valid r.0

no_queue-IsValid : Fifo.IsValid no_queue
no_queue-IsValid = record { allocated = refl; fits = omega arith }

Loading-Valid : (d : Libevdev) → Loading d → Valid d
Loading-Valid d (count, current, empty, long, range) = record {
  queue_valid = subst Fifo.IsValid (sym empty) no_queue-IsValid;
  slots_valid = no_slots count current;
}

cleared-Loading : (l : LogData) → Loading (cleared l)
unfolding cleared
cleared-Loading l =
    (refl, refl, refl, length-replicate 64 blank_abs, (0, 0, refl, refl, omega arith, omega arith))

pub cleared-Valid : (l : LogData) → Valid (cleared l)
cleared-Valid l = Loading-Valid (cleared l) (cleared-Loading l)

exit_setup-Leaves :
    (can : ℕ → Bool) (rc : ℤ) (errno : ℕ) (d : Libevdev)
    → ((eq_ℤ rc (pos 0) ≡ true) → Valid d)
    → Leaves (exit_setup can rc errno d)
exit_setup-Leaves can rc errno d v = elim (Bool-cases (eq_ℤ rc (pos 0))) [
  | inl fine ↦ let ends = exit_setup_lem can rc errno d in ((d, pos 0), rw fine at ends, v fine)
  | inr failing ↦
      let ends = exit_setup_lem can rc errno d in
      ((cleared (kept_log d.log), neg errno), rw failing at ends, cleared-Valid (kept_log d.log))
]

alloc-IsValid :
    (can : ℕ → Bool) (q : Queue) (n : ℕ)
    → Fifo.IsValid q
    → q.queue_size ≡ 0
    → Fifo.IsValid (Queue.alloc can q n).0
unfolding Queue.alloc
alloc-IsValid can q n v empty = ground (arith, length-replicate n blank)

same_slots-SlotsValid :
    (d d' : Libevdev)
    → SlotsValid d
    → d'.num_slots ≡ d.num_slots
    → d'.current_slot ≡ d.current_slot
    → d'.mt_slot_vals ≡ d.mt_slot_vals
    → SlotsValid d'
same_slots-SlotsValid d d' (no_slots en ec) n c v = no_slots (n ∙ en) (c ∙ ec)
same_slots-SlotsValid d d' (slots m k vals en ec lt ev len) n c v =
    slots m k vals (n ∙ en) (c ∙ ec) lt (v ∙ ev) len

finish_queue-Leaves :
    (can : ℕ → Bool) (d : Libevdev)
    → Valid d
    → d.queue.queue_size ≡ 0
    → pos_part d.num_slots ≤ 33554432
    → Leaves (finish_queue can d)
unfolding finish_queue
finish_queue-Leaves can d v empty few =
    let (n, queued) = init_event_queue_total can d few in
    let well = alloc-IsValid can d.queue n v.queue_valid empty in
    let d1 = record d { queue = (Queue.alloc can d.queue n).0 } in
    let kept = λ (d' : Libevdev). same_slots-SlotsValid d d' v.slots_valid in
    elim (Bool-cases (is_neg (Queue.alloc can d.queue n).1)) [
      | inl failing ↦ (
        (record d1 { fd = minus_one }, pos enomem),
        rw (queued, failing) refl,
        record { queue_valid = well; slots_valid = kept _ refl refl refl },
      )
      | inr fine ↦ (
        (record d1 { initialized = true }, pos 0),
        rw (queued, fine) refl,
        record { queue_valid = well; slots_valid = kept _ refl refl refl },
      )
    ]

-- The buffer for the answer about the touches of an axis has room for 256 slots.
module _ (o : Opening) (covers : (axis : ℕ) → Covers 256 (o.mt_state axis)) where
  Covers-min : (n axis : ℕ) → Covers (min 256 n) (o.mt_state axis)
  Covers-min n axis = cases (o.mt_state axis) (covers axis)
    where
      cases : (reply : Reply (List ℤ)) → Covers 256 reply → Covers (min 256 n) reply
      cases (failed errno) c = tt
      cases (done rc vals) c = omega arith

  load_touches-Valid :
      (d : Libevdev)
      → Valid d
      → (d' : Libevdev) × (load_touches o d ≡ some d')
        × Valid d'
        × (d'.queue.queue_size ≡ d.queue.queue_size)
        × (d'.num_slots ≡ d.num_slots)
  unfolding load_touches
  load_touches-Valid d v = cases v.slots_valid
    where
      cases :
          SlotsValid d
          → (d' : Libevdev) × (load_touches o d ≡ some d')
            × Valid d'
            × (d'.queue.queue_size ≡ d.queue.queue_size)
            × (d'.num_slots ≡ d.num_slots)
      cases (no_slots en ec) = (d, rw en refl, v, refl, refl)
      cases (slots n c vals en ec lt ev len) =
          let (r, synced, s, long) = sync_mt_state-Goes d n o.mt_state v en (Covers-min n) in
          let counted : eq_ℤ d.num_slots minus_one ≡ false = ap (λ z. eq_ℤ z minus_one) en in
          (r.0, rw (counted, synced) refl, s.valid, s.same_size, s.same_count)

  finish_setup-Leaves : (fd : ℤ) (d : Libevdev) → Loading d → Leaves (finish_setup o fd d)
  unfolding finish_setup
  finish_setup-Leaves fd d (count, current, empty, long, range) =
      let (r, begun, same_queue, ready, few) =
        init_slots-Inits o.can (record d { fd = fd })
          (record { none_counted = count; none_current = current; in_range = range }) in
      elim (Bool-cases (eq_ℤ r.1 (pos 0))) [
        | inl fine ↦
            let start : Valid r.0 = record {
              queue_valid = subst Fifo.IsValid (sym (same_queue ∙ empty)) no_queue-IsValid;
              slots_valid = elim ready [
                | inl failing ↦ absurd (ground (arith, fine, failing))
                | inr well ↦ well
              ];
            } in
            let (d1, loaded, v, same_size, same_count) = load_touches-Valid r.0 start in
            let none_yet : d1.queue.queue_size ≡ 0 =
              same_size ∙ ap (λ q. q.queue_size) (same_queue ∙ empty) in
            let (s, finished, well) =
              finish_queue-Leaves o.can d1 v none_yet
                (omega (arith, few, ap pos_part same_count)) in
            (s, rw (begun, fine, loaded) finished, well)
        | inr failing ↦
            let (s, done_with, v) =
              exit_setup-Leaves o.can r.1 enomem r.0
                (λ fine. absurd (ground (arith, fine, failing))) in
            (s, rw (begun, failing) done_with, v)
      ]

  attach-Leaves :
      (fd : ℤ) (d : Libevdev)
      → Sensible abs_mt_slot (o.abs_state abs_mt_slot)
      → Loading d
      → Leaves (attach o fd d)
  unfolding attach
  attach-Leaves fd d sensible b =
      cases (load_identity o d then_do load_masks o then_do load_values o) (
        then_do-Loads _ _ (then_do-Loads _ _ (load_identity-Loads o d b) (load_masks-Loads o))
          (λ d1. load_values-Loads o d1 sensible))
    where
      cases :
          (s : Setup)
          → Loads s
          → Leaves (elim s [
            | next d1 ↦ finish_setup o fd d1
            | out rc errno d1 ↦ exit_setup o.can rc errno d1
          ])
      cases (next d1) loads = finish_setup-Leaves fd d1 loads
      cases (out rc errno d1) loads =
          exit_setup-Leaves o.can rc errno d1 (λ fine. Loading-Valid d1 loads)

-- On a device with a well-formed queue and slots, libevdev_set_fd returns, and leaves the queue
-- and slots well formed, whichever requests fail and whichever allocations fail. The answer about
-- ABS_MT_SLOT, if there is one, names a current slot from 0 up to the maximum, and the maximum is
-- below 2^25; an answer about the touches of an axis fills the buffer of 256 values.
pub set_fd_total :
    (o : Opening) (d : Libevdev) (fd : ℤ)
    → Valid d
    → Sensible abs_mt_slot (o.abs_state abs_mt_slot)
    → ((axis : ℕ) → Covers 256 (o.mt_state axis))
    → Leaves (set_fd o d fd)
unfolding set_fd
set_fd_total o d fd v sensible covers = elim (Bool-cases d.initialized) [
  | inl twice ↦ ((d, neg ebadf), rw twice refl, v)
  | inr first ↦ elim (Bool-cases (is_neg fd)) [
    | inl no_file ↦ ((d, neg ebadf), rw (first, no_file) refl, v)
    | inr file ↦
        let l = kept_log d.log in
        let (r, attached, well) =
          attach-Leaves o covers fd (cleared l) sensible (cleared-Loading l) in
        let opened : set_fd o d fd ≡ (reset o.can d >>= attach o fd) = ground arith in
        (r, opened ∙ ap (λ z. z >>= attach o fd) (reset_lem o.can d) ∙ attached, well)
  ]
]
