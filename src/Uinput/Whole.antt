-- ===== src/Uinput/Whole.antt =====
-- libevdev_uinput_create_from_device as a whole: which file descriptors it leaves open.
use android_external_libevde.Base.{
  ℕ, ◌+◌, ◌≡◌, ◌≢◌, inl, inr, refl, true, false, not, if◌then◌else◌, ℤ, pos, eq_ℤ, is_neg, none,
  some, arith, Bool-cases, Option-cases,
}
use android_external_libevde.Event.{Text, ebadf}
use android_external_libevde.Device.{Libevdev}
use android_external_libevde.Uinput.{
  LibevdevUinput, open_uinput, ui_get_version, Answer, rc_of, Session, System, M,
}
use android_external_libevde.Uinput.Setup.{uinput_create_write, uinput_create_dev_setup, dev_name}
use android_external_libevde.Uinput.Syspath.{Host}
use android_external_libevde.Uinput.Create.{
  Created, alloc_uinput_device, create_device, setup_device, create_from_device, open_managed,
  is_new_version,
}
use android_external_libevde.Uinput.Closing.{
  closes, opens, Spends, called, Quiet, Quiet-uinput_create_write, Quiet-uinput_create_dev_setup,
}
use android_external_libevde.Uinput.Release.{
  Releases, create_error-Spends, create_error-result, create_device-foreign, create_device-Releases,
}

Releases-shift :
    (system : System) (x : ℕ) (s s' : Session) (n : ℕ) (r : Created × Session)
    → Spends system x 0 0 s s'
    → Releases system x s' n r
    → Releases system x s n r
Releases-shift system x s s' n r e (inl undefined) = inl undefined
Releases-shift system x s s' n r e (inr (inl (u, result, same_fd, managed, kept))) =
    inr (inl (u, result, same_fd, managed, omega (arith, e, kept)))
Releases-shift system x s s' n r e (inr (inr (errno, result, inl once))) =
    inr (inr (errno, result, inl (omega (arith, e, once))))
Releases-shift system x s s' n r e (inr (inr (errno, result, inr twice))) =
    inr (inr (errno, result, inr (omega (arith, e, twice))))

alloc_fresh :
    (host : Host) (name : Text) (u : LibevdevUinput)
    → alloc_uinput_device host name ≡ some u
    → (is_neg u.fd ≡ true) × (u.fd_is_managed ≡ false)
unfolding alloc_uinput_device
alloc_fresh host name u h = ground arith

alloc_works :
    (host : Host) (name : Text) → host.calloc_works ≡ true → alloc_uinput_device host name ≢ none
unfolding alloc_uinput_device
alloc_works host name memory h = ground arith

module _ (system : System) (x : ℕ) (host : Host) (d : Libevdev) where
  -- The set-up, by the version of the kernel's interface.
  abbrev set_up : ℤ → Answer → M ℤ
  set_up fd version =
      if is_new_version version
      then uinput_create_dev_setup system d fd
      else uinput_create_write system d fd

  Quiet-set_up : (fd : ℤ) (version : Answer) → Quiet system x (set_up fd version)
  Quiet-set_up fd version s = elim (Bool-cases (is_new_version version)) [
    | inl new ↦ rw new (Quiet-uinput_create_dev_setup system x d fd s)
    | inr old ↦ rw old (Quiet-uinput_create_write system x d fd s)
  ]

  setup_device-foreign :
      (fd : ℤ) (u : LibevdevUinput) (s : Session)
      → u.fd_is_managed ≡ false
      → is_neg u.fd ≡ true
      → Spends system x 0 0 s (setup_device system host d false fd u s).1
  unfolding setup_device
  setup_device-foreign fd u s foreign unset =
      let s1 = called system (ui_get_version fd) s in
      let version = system s.calls (ui_get_version fd) in
      let s2 = (set_up fd version s1).1 in
      let quiet : Spends system x 0 0 s s2 = omega (arith, Quiet-set_up fd version s1) in
      elim (Bool-cases (not (eq_ℤ (set_up fd version s1).0 (pos 0)))) [
        | inl failed ↦
            rw failed (ground (arith, quiet, create_error-Spends system x false fd u s2, foreign))
        | inr ready ↦
            rw ready (omega (arith, quiet, create_device-foreign system x host fd u s2 foreign))
      ]

  setup_device-Releases :
      (n : ℕ) (u : LibevdevUinput) (s : Session)
      → u.fd_is_managed ≡ true
      → is_neg u.fd ≡ true
      → Releases system x s n (setup_device system host d true (pos n) u s)
  unfolding setup_device
  setup_device-Releases n u s managed unset =
      let fd = pos n in
      let s1 = called system (ui_get_version fd) s in
      let version = system s.calls (ui_get_version fd) in
      let s2 = (set_up fd version s1).1 in
      let quiet : Spends system x 0 0 s s2 = omega (arith, Quiet-set_up fd version s1) in
      elim (Bool-cases (not (eq_ℤ (set_up fd version s1).0 (pos 0)))) [
        | inl failed ↦ rw failed (
            inr (
              inr (
                s2.errno,
                create_error-result system true fd u s2,
                inl (ground (arith, create_error-Spends system x true fd u s2, quiet, unset)),
              )))
        | inr ready ↦ rw ready (
            Releases-shift system x s s2 n (create_device system host true fd u s2) quiet
              (create_device-Releases system x host n u s2 managed unset))
      ]

  -- Where libevdev_uinput_create_from_device was given a file descriptor, it closes every file
  -- descriptor as often as it opened it, whatever the system answers: the files that the search in
  -- /sys opens are closed, and the given one is not.
  pub create_from_device_foreign :
      (fd : ℤ) (s : Session)
      → eq_ℤ fd open_managed ≡ false
      → closes x (create_from_device system host d fd s).1.calls + opens system x s.calls
        ≡ closes x s.calls + opens system x (create_from_device system host d fd s).1.calls
  unfolding create_from_device
  create_from_device_foreign fd s given =
      elim (Option-cases (alloc_uinput_device host (dev_name d))) [
        | inl no_memory ↦ rw (no_memory, closes, opens) refl
        | inr (u, fresh) ↦
            let (unset, foreign) = alloc_fresh host (dev_name d) u fresh in
            elim (Bool-cases (is_neg fd)) [
              | inl invalid ↦
                  rw (fresh, given, invalid, closes, opens)
                    (ground (
                      arith,
                      create_error-Spends system x false fd u (record s { errno = ebadf }),
                      unset,
                      foreign,
                    ))
              | inr valid ↦
                  rw (fresh, given, valid, closes, opens)
                    (omega (arith, setup_device-foreign fd u s foreign unset))
            ]
      ]

  opened_lem :
      (n : ℕ) (s : Session) (u : LibevdevUinput)
      → alloc_uinput_device host (dev_name d) ≡ some u
      → rc_of (system s.calls open_uinput) ≡ pos n
      → create_from_device system host d open_managed s
        ≡ setup_device system host d true
            (pos n)
            (record u { fd_is_managed = true })
            (called system open_uinput s)
  unfolding create_from_device
  opened_lem n s u fresh opened = rw (create_from_device, fresh, opened) refl

  -- Where libevdev_uinput_create_from_device opens /dev/uinput itself and `calloc` works, then for
  -- every file descriptor `x`, and counted from that open on: either it gives a new device that
  -- holds that file descriptor and manages it, and `x` was closed as often as opened; or it gives
  -- no device, and `x` was closed as often as opened, but the file descriptor of /dev/uinput once
  -- or twice more; or it compares a name that is NULL.
  pub create_from_device_managed :
      (n : ℕ) (s : Session)
      → host.calloc_works ≡ true
      → rc_of (system s.calls open_uinput) ≡ pos n
      → Releases system x
          (called system open_uinput s)
          n
          (create_from_device system host d open_managed s)
  create_from_device_managed n s memory opened =
      elim (Option-cases (alloc_uinput_device host (dev_name d))) [
        | inl no_memory ↦ absurd (alloc_works host (dev_name d) memory no_memory)
        | inr (u, fresh) ↦
            let (unset, foreign) = alloc_fresh host (dev_name d) u fresh in
            rw (opened_lem n s u fresh opened) (
              setup_device-Releases n (record u { fd_is_managed = true })
                (called system open_uinput s) refl unset)
      ]
