-- ===== src/Uinput/Closing.antt =====
-- Which file descriptors a call closes: libevdev_uinput_create_from_device and its helpers.
use android_external_libevde.Base.{
  ℕ, zero, suc, ◌+◌, ◌≡◌, inl, inr, refl, Bool, false, not, if◌then◌else◌, ℤ, pos, eq_ℤ, Option,
  none, some, List, [], ◌∷◌, arith, Bool-cases, Option-cases, pos_part,
}
use android_external_libevde.Codes.{ev_cnt, input_prop_max}
use android_external_libevde.Device.{Libevdev, has_event_type, has_event_code, type_to_mask, abs_at}
use android_external_libevde.Uinput.{
  SysCall, open_uinput, ui_set, ui_abs_setup, ui_dev_setup, write_user_dev, ui_get_version,
  ui_dev_create, ui_dev_destroy, ui_get_sysname, write_event, open_name, fstat, read_name, close,
  time, UiBit, UinputUserDev, rc_of, Session, System, M, sys, ev_bit, prop_bit,
}
use android_external_libevde.Uinput.Setup.{
  Round, set_abs, set_code, set_codes, uinput_bit, set_type, set_types, set_evbits, set_props_from,
  set_props, fill_abs, uinput_create_write, uinput_create_dev_setup, blank_user_dev,
}

-- A call of `close` for the file descriptor `x`.
abbrev pub closes_one : ℕ → SysCall → Bool
closes_one x (close fd) = eq_ℤ fd (pos x)
closes_one x open_uinput = false
closes_one x (ui_set fd bit n) = false
closes_one x (ui_abs_setup fd code a) = false
closes_one x (ui_dev_setup fd u) = false
closes_one x (write_user_dev fd u) = false
closes_one x (ui_get_version fd) = false
closes_one x (ui_dev_create fd) = false
closes_one x (ui_dev_destroy fd) = false
closes_one x (ui_get_sysname fd n) = false
closes_one x (write_event fd e) = false
closes_one x (open_name path) = false
closes_one x (fstat fd) = false
closes_one x (read_name fd size) = false
closes_one x time = false

-- A call of `open` that gave the file descriptor `x`, from its result.
abbrev pub opens_one : ℕ → SysCall → ℤ → Bool
opens_one x open_uinput rc = eq_ℤ rc (pos x)
opens_one x (open_name path) rc = eq_ℤ rc (pos x)
opens_one x (close fd) rc = false
opens_one x (ui_set fd bit n) rc = false
opens_one x (ui_abs_setup fd code a) rc = false
opens_one x (ui_dev_setup fd u) rc = false
opens_one x (write_user_dev fd u) rc = false
opens_one x (ui_get_version fd) rc = false
opens_one x (ui_dev_create fd) rc = false
opens_one x (ui_dev_destroy fd) rc = false
opens_one x (ui_get_sysname fd n) rc = false
opens_one x (write_event fd e) rc = false
opens_one x (fstat fd) rc = false
opens_one x (read_name fd size) rc = false
opens_one x time rc = false

-- How often `x` was closed by the calls, and how often it was opened.
abbrev pub closes : ℕ → List SysCall → ℕ
closes x [] = 0
closes x (c ∷ calls) = (if closes_one x c then 1 else 0) + closes x calls

abbrev pub opens : System → ℕ → List SysCall → ℕ
opens system x [] = 0
opens system x (c ∷ calls) =
    (if opens_one x c (rc_of (system calls c)) then 1 else 0) + opens system x calls

-- Between the two sessions `x` was closed `k` times more than it was opened, or `n` times less.
abbrev pub Spends : System → ℕ → ℕ → ℕ → Session → Session → Type 0
Spends system x k n s s' =
    closes x s'.calls + opens system x s.calls + n ≡ closes x s.calls + opens system x s'.calls + k

-- The code closes `x` as often as it opens it.
abbrev pub Quiet : System → ℕ → {A : Type 0} → M A → Type 0
Quiet system x m = (s : Session) → Spends system x 0 0 s (m s).1

-- The session after a call.
abbrev pub called : System → SysCall → Session → Session
called system c s = (sys system c s).1

module _ (system : System) (x : ℕ) (d : Libevdev) (fd : ℤ) where
  Quiet-set_code :
      (type : ℕ) (bit : UiBit) (code : ℕ) (uidev : Option UinputUserDev)
      (next : ℤ → Option UinputUserDev → M Round)
      → ((rc : ℤ) (u : Option UinputUserDev) → Quiet system x (next rc u))
      → Quiet system x (set_code system d fd type bit code uidev next)
  unfolding set_code set_abs
  Quiet-set_code type bit code none next q s =
      let s1 = called system (ui_set fd bit code) s in
      let s2 = called system (ui_abs_setup fd code (abs_at d code)) s1 in
      ground (
        arith,
        q (rc_of (system s.calls (ui_set fd bit code))) none s1,
        q (rc_of (system s1.calls (ui_abs_setup fd code (abs_at d code)))) none s2,
      )
  Quiet-set_code type bit code (some u) next q s =
      let s1 = called system (ui_set fd bit code) s in
      let rc = rc_of (system s.calls (ui_set fd bit code)) in
      ground (arith, q rc (some u) s1, q rc (some (fill_abs d code u)) s1)

  Quiet-set_codes :
      (type : ℕ) (bit : UiBit) (n code : ℕ) (rc : ℤ) (u : Option UinputUserDev)
      → Quiet system x (set_codes system d fd type bit n code rc u)
  unfolding set_codes
  Quiet-set_codes type bit zero code rc u s = refl
  Quiet-set_codes type bit (suc n) code rc u s =
      elim (Bool-cases (not (has_event_code d.masks type code))) [
        | inl absent ↦ rw absent (Quiet-set_codes type bit n (code + 1) rc u s)
        | inr present ↦ rw present (
            Quiet-set_code type bit code u (set_codes system d fd type bit n (code + 1))
              (Quiet-set_codes type bit n (code + 1)) s)
      ]

  Quiet-set_type :
      (type : ℕ) (uidev : Option UinputUserDev) (next : ℤ → Option UinputUserDev → M Round)
      → ((rc : ℤ) (u : Option UinputUserDev) → Quiet system x (next rc u))
      → Quiet system x (set_type system d fd type uidev next)
  unfolding set_type
  Quiet-set_type type uidev next q s =
      let s1 = called system (ui_set fd ev_bit type) s in
      let rc = rc_of (system s.calls (ui_set fd ev_bit type)) in
      elim (Option-cases (uinput_bit type)) [
        | inl default ↦ rw (default) (ground (arith, q rc uidev s1))
        | inr (bit, known) ↦
            let m =
              set_codes system d fd type bit (pos_part (type_to_mask type).0 + 1) 0 rc uidev in
            rw (known) (
              ground (
                arith,
                q rc uidev s1,
                q (m s1).0.1 (m s1).0.2 (m s1).1,
                Quiet-set_codes type bit (pos_part (type_to_mask type).0 + 1) 0 rc uidev s1,
              ))
      ]

  Quiet-set_types :
      (n type : ℕ) (rc : ℤ) (u : Option UinputUserDev)
      → Quiet system x (set_types system d fd n type rc u)
  unfolding set_types
  Quiet-set_types zero type rc u s = refl
  Quiet-set_types (suc n) type rc u s = elim (Bool-cases (not (has_event_type d.masks type))) [
    | inl absent ↦ rw absent (Quiet-set_types n (type + 1) rc u s)
    | inr present ↦ rw present (
        Quiet-set_type type u (set_types system d fd n (type + 1)) (Quiet-set_types n (type + 1)) s)
  ]

  Quiet-set_evbits : (u : Option UinputUserDev) → Quiet system x (set_evbits system d fd u)
  unfolding set_evbits
  Quiet-set_evbits u s = Quiet-set_types ev_cnt 0 (pos 0) u s

  Quiet-set_props_from :
      (n prop : ℕ) (rc : ℤ) → Quiet system x (set_props_from system d fd n prop rc)
  unfolding set_props_from
  Quiet-set_props_from zero prop rc s = refl
  Quiet-set_props_from (suc n) prop rc s =
      let s1 = called system (ui_set fd prop_bit prop) s in
      let rc' = rc_of (system s.calls (ui_set fd prop_bit prop)) in
      ground
        (arith, Quiet-set_props_from n (prop + 1) rc s, Quiet-set_props_from n (prop + 1) rc' s1)

  Quiet-set_props : Quiet system x (set_props system d fd)
  unfolding set_props
  Quiet-set_props s = Quiet-set_props_from (input_prop_max + 1) 0 (pos 0) s

  pub Quiet-uinput_create_write : Quiet system x (uinput_create_write system d fd)
  unfolding uinput_create_write
  Quiet-uinput_create_write s =
      let evbits = set_evbits system d fd (some (blank_user_dev d)) s in
      let props = set_props system d fd evbits.1 in
      elim (Option-cases evbits.0.1) [
        | inl null ↦
            rw null (
              ground
                (arith, Quiet-set_evbits (some (blank_user_dev d)) s, Quiet-set_props evbits.1))
        | inr (u, filled) ↦
            rw filled (
              ground
                (arith, Quiet-set_evbits (some (blank_user_dev d)) s, Quiet-set_props evbits.1))
      ]

  pub Quiet-uinput_create_dev_setup : Quiet system x (uinput_create_dev_setup system d fd)
  unfolding uinput_create_dev_setup
  Quiet-uinput_create_dev_setup s =
      ground (arith, Quiet-set_evbits none s, Quiet-set_props (set_evbits system d fd none s).1)
