-- ===== src/Open/Failure.antt =====
-- How libevdev_set_fd ends: what a failure leaves behind.
use android_external_libevde.Base.{
  ℕ, ◌≡◌, refl, Bool, true, false, not, if◌then◌else◌, ℤ, pos, neg, is_neg, eq_ℤ, Option, none,
  some, ◌>>=◌, arith, Bool-cases, inl, inr, >>=-eq-some, ◌∙◌, sym,
}
use android_external_libevde.Event.{enomem}
use android_external_libevde.Device.{Libevdev, LogData, has_event_type}
use android_external_libevde.Caps.{enable_event_type}
use android_external_libevde.Open.{
  cleared, reset, Opening, Setup, next, out, ◌then_do◌, load_identity, load_masks, load_values,
  init_event_queue, finish_queue, load_touches, attach, finish_setup, exit_setup, set_fd,
}
use android_external_libevde.Slots.{init_slots}

-- The log settings that a reset keeps: the priority and the handler.
abbrev pub kept_log : LogData → LogData
kept_log l = record {
  priority = l.priority;
  global_handler = none;
  device_handler = l.device_handler;
  userdata = none;
}

-- A reset always succeeds, with a cleared device. In the log settings the user data is lost.
pub reset_lem : (can : ℕ → Bool) (d : Libevdev) → reset can d ≡ some (cleared (kept_log d.log))
unfolding reset enable_event_type has_event_type
reset_lem can d = refl

-- libevdev_set_fd ends at its label with the device as it is if there was no error, and else with
-- a cleared device that keeps the log priority and handler, and the negative error number.
pub exit_setup_lem :
    (can : ℕ → Bool) (rc : ℤ) (errno : ℕ) (d : Libevdev)
    → exit_setup can rc errno d
      ≡ some (if eq_ℤ rc (pos 0) then (d, pos 0) else (cleared (kept_log d.log), neg errno))
unfolding exit_setup
exit_setup_lem can rc errno d = elim (Bool-cases (eq_ℤ rc (pos 0))) [
  | inl fine ↦ rw fine
  | inr failing ↦ rw (failing, reset_lem can d)
]

-- A negative result comes with a cleared device.
abbrev ClearsOnError : Option (Libevdev × ℤ) → Type 0
ClearsOnError result =
    (r : Libevdev × ℤ) → result ≡ some r → is_neg r.1 ≡ true → (l : LogData) × (r.0 ≡ cleared l)

exit_setup-ClearsOnError :
    (can : ℕ → Bool) (rc : ℤ) (errno : ℕ) (d : Libevdev) → ClearsOnError (exit_setup can rc errno d)
exit_setup-ClearsOnError can rc errno d r e negative = elim (Bool-cases (eq_ℤ rc (pos 0))) [
  | inl fine ↦ absurd (ground (arith, exit_setup_lem can rc errno d))
  | inr failing ↦ (kept_log d.log, ground (arith, exit_setup_lem can rc errno d))
]

finish_queue-nonneg :
    (can : ℕ → Bool) (d : Libevdev) (r : Libevdev × ℤ)
    → finish_queue can d ≡ some r
    → is_neg r.1 ≡ false
unfolding finish_queue
finish_queue-nonneg can d r e =
    let (q, queued, rest) = >>=-eq-some (init_event_queue can d) _ e in ground (arith, rest)

finish_setup-ClearsOnError :
    (o : Opening) (fd : ℤ) (d : Libevdev) → ClearsOnError (finish_setup o fd d)
unfolding finish_setup
finish_setup-ClearsOnError o fd d r e negative =
    let (s, begun, rest) = >>=-eq-some (init_slots o.can (record d { fd = fd })) _ e in
    elim (Bool-cases (not (eq_ℤ s.1 (pos 0)))) [
      | inl failing ↦ exit_setup-ClearsOnError o.can s.1 enomem s.0 r (rw failing at rest) negative
      | inr fine ↦
          let (d1, loaded, done) =
            >>=-eq-some (load_touches o s.0) (λ d1. finish_queue o.can d1) {b = r}
              (rw fine at rest) in
          absurd (ground (arith, finish_queue-nonneg o.can d1 r done))
    ]

attach-ClearsOnError : (o : Opening) (fd : ℤ) (d : Libevdev) → ClearsOnError (attach o fd d)
unfolding attach
attach-ClearsOnError o fd d = cases (load_identity o d then_do load_masks o then_do load_values o)
  where
    cases :
        (s : Setup)
        → ClearsOnError (elim s [
          | next d1 ↦ finish_setup o fd d1
          | out rc errno d1 ↦ exit_setup o.can rc errno d1
        ])
    cases (next d1) = finish_setup-ClearsOnError o fd d1
    cases (out rc errno d1) = exit_setup-ClearsOnError o.can rc errno d1

-- Opening a device that is not attached: a negative result leaves it cleared.
pub set_fd_clears_on_error :
    (o : Opening) (d : Libevdev) (fd : ℤ) (r : Libevdev × ℤ)
    → d.initialized ≡ false
    → is_neg fd ≡ false
    → set_fd o d fd ≡ some r
    → is_neg r.1 ≡ true
    → (l : LogData) × (r.0 ≡ cleared l)
unfolding set_fd
set_fd_clears_on_error o d fd r fresh valid_fd e negative =
    let opened : set_fd o d fd ≡ (reset o.can d >>= attach o fd) = ground arith in
    let (d0, begun, rest) = >>=-eq-some (reset o.can d) (attach o fd) (sym opened ∙ e) in
    attach-ClearsOnError o fd d0 r rest negative
