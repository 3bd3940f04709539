-- ===== src/Uinput/Release.antt =====
-- What libevdev_uinput_create_from_device has closed when it returns.
use android_external_libevde.Base.{
  ℕ, ◌+◌, ◌*◌, ◌==◌, ◌≡◌, ◌⊎◌, inl, inr, refl, ap, ◌∙◌, Bool, true, false, not, ◌&&◌, if◌then◌else◌,
  ℤ, pos, negsuc, minus_one, neg, eq_ℤ, is_neg, none, some, arith, Bool-cases, Option-cases,
}
use android_external_libevde.Uinput.{LibevdevUinput, ui_dev_create, time, rc_of, Session, System}
use android_external_libevde.Uinput.Syspath.{Host, fetch_syspath_and_devnode}
use android_external_libevde.Uinput.Create.{
  Created, uinput_destroy, create_error, create_device, number_of, enodev,
}
use android_external_libevde.Uinput.Closing.{Spends, called}
use android_external_libevde.Uinput.Scanning.{KeepsFd, fetch-Finds}

pub not_minus_one : (fd : ℤ) → is_neg fd ≡ false → eq_ℤ fd minus_one ≡ false
not_minus_one (pos n) h = refl
not_minus_one (negsuc n) h = cc

-- How often the destruction of a device closes the file descriptor `x`.
abbrev pub destroy_closes : ℕ → LibevdevUinput → ℕ
destroy_closes x u =
    if not (is_neg u.fd) && u.fd_is_managed then (if eq_ℤ u.fd (pos x) then 1 else 0) else 0

-- How often the code at the label closes it.
abbrev pub label_closes : ℕ → Bool → ℤ → ℕ
label_closes x on_error fd =
    if not (eq_ℤ fd minus_one) && on_error then (if eq_ℤ fd (pos x) then 1 else 0) else 0

pub create_error-Spends :
    (system : System) (x : ℕ) (on_error : Bool) (fd : ℤ) (u : LibevdevUinput) (s : Session)
    → Spends system x
        (destroy_closes x u + label_closes x on_error fd)
        0
        s
        (create_error system on_error fd u s).1
unfolding create_error uinput_destroy
create_error-Spends system x on_error fd u s = ground arith

pub create_error-result :
    (system : System) (on_error : Bool) (fd : ℤ) (u : LibevdevUinput) (s : Session)
    → (create_error system on_error fd u s).0 ≡ some (neg s.errno, none)
unfolding create_error uinput_destroy
create_error-result system on_error fd u s = ground arith

-- 1 for the file descriptor `n` itself.
abbrev pub held : ℕ → ℕ → ℕ
held x n = if n == x then 1 else 0

-- The file descriptor `n` that the library opened before: kept in the new device, or closed once or
-- twice on failure; all others are closed as often as they are opened. The first part is the case
-- that C leaves undefined.
abbrev pub Releases : System → ℕ → Session → ℕ → Created × Session → Type 0
Releases system x s n r =
    (r.0 ≡ none)
    ⊎ (((u : LibevdevUinput) × (r.0 ≡ some (pos 0, some u))
          × (u.fd ≡ pos n)
          × (u.fd_is_managed ≡ true)
          × Spends system x 0 0 s r.1)
        ⊎ ((errno : ℕ) × (r.0 ≡ some (neg errno, none))
            × (Spends system x (held x n) 0 s r.1 ⊎ Spends system x (2 * held x n) 0 s r.1)))

module _ (system : System) (x : ℕ) (host : Host) where
  pub create_device-foreign :
      (fd : ℤ) (u : LibevdevUinput) (s : Session)
      → u.fd_is_managed ≡ false
      → Spends system x 0 0 s (create_device system host false fd u s).1
  unfolding create_device fetch_syspath_and_devnode
  create_device-foreign fd u s foreign =
      let s1 = called system time s in
      let s2 = called system (ui_dev_create fd) s1 in
      let s3 = called system time s2 in
      let u1 = record u {
        ctime = (number_of (system s.calls time), number_of (system s2.calls time));
        fd = fd;
      } in
      let got = fetch_syspath_and_devnode system host u1 s3 in
      let (balanced, kept) = fetch-Finds system x host u1 s3 in
      elim (Bool-cases (eq_ℤ (rc_of (system s1.calls (ui_dev_create fd))) minus_one)) [
        | inl refused' ↦ rw refused' (ground (arith, create_error-Spends system x false fd u s2))
        | inr accepted ↦ rw accepted (elim (Option-cases got.0) [
          | inl undefined ↦ rw undefined (ground (arith, balanced))
          | inr ((u2, found), fetched) ↦
              let (same_fd, same_managed) : KeepsFd u1 (some u2) = rw fetched at kept in
              rw fetched (
                ground (
                  arith,
                  balanced,
                  create_error-Spends system x false fd u2 (record got.1 { errno = enodev }),
                  same_managed,
                  foreign,
                ))
        ])
      ]

  label_closes-held : (n : ℕ) → label_closes x true (pos n) ≡ held x n
  label_closes-held n = ground arith

  pub create_device-Releases :
      (n : ℕ) (u : LibevdevUinput) (s : Session)
      → u.fd_is_managed ≡ true
      → is_neg u.fd ≡ true
      → Releases system x s n (create_device system host true (pos n) u s)
  unfolding create_device fetch_syspath_and_devnode
  create_device-Releases n u s managed unset =
      let fd = pos n in
      let s1 = called system time s in
      let s2 = called system (ui_dev_create fd) s1 in
      let s3 = called system time s2 in
      let u1 = record u {
        ctime = (number_of (system s.calls time), number_of (system s2.calls time));
        fd = fd;
      } in
      let got = fetch_syspath_and_devnode system host u1 s3 in
      let (balanced, kept) = fetch-Finds system x host u1 s3 in
      let so_far : Spends system x 0 0 s got.1 = omega (arith, balanced) in
      elim (Bool-cases (eq_ℤ (rc_of (system s1.calls (ui_dev_create fd))) minus_one)) [
        | inl refused' ↦ rw refused' (
            inr (
              inr (
                s2.errno,
                create_error-result system true fd u s2,
                inl (ground (arith, create_error-Spends system x true fd u s2, unset)),
              )))
        | inr accepted ↦ rw accepted (elim (Option-cases got.0) [
          | inl undefined ↦ rw undefined (inl refl)
          | inr ((u2, found), fetched) ↦
              let (same_fd, same_managed) : KeepsFd u1 (some u2) = rw fetched at kept in
              let s4 = record got.1 { errno = enodev } in
              rw fetched (elim (Bool-cases (eq_ℤ found minus_one)) [
                | inl missing ↦ rw missing (
                    inr (
                      inr (
                        enodev,
                        create_error-result system true fd u2 s4,
                        inr (
                            twice u2 got.1 s4 (create_error system true fd u2 s4).1 so_far same_fd
                              (same_managed ∙ managed)
                              (create_error-Spends system x true fd u2 s4)),
                      )))
                | inr there ↦
                    rw there (inr (inl (u2, refl, same_fd, same_managed ∙ managed, so_far)))
              ])
        ])
      ]
    where
      twice :
          (u2 : LibevdevUinput) (s0 s4 s5 : Session)
          → Spends system x 0 0 s s0
          → u2.fd ≡ pos n
          → u2.fd_is_managed ≡ true
          → Spends system x (destroy_closes x u2 + label_closes x true (pos n)) 0 s0 s5
          → Spends system x (2 * held x n) 0 s s5
      twice u2 s0 s4 s5 balanced same_fd same_managed spent =
          let once : destroy_closes x u2 ≡ held x n =
            ap
              (λ z.
                if not (is_neg z) && u2.fd_is_managed then (if eq_ℤ z (pos x) then 1 else 0) else 0)
              same_fd
            ∙ ap (λ b. if b then (if n == x then 1 else 0) else 0) same_managed in
          omega (arith, balanced, spent, once, label_closes-held n)
