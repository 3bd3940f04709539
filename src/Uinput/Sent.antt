-- ===== src/Uinput/Sent.antt =====
-- What `set_evbits` tells a kernel that agrees to everything.
use android_external_libevde.Base.{
  ℕ, zero, suc, ◌+◌, ◌≡◌, inl, inr, refl, ap, ◌∙◌, Bool, false, not, ◌&&◌, ◌||◌, ◌==◌, ℤ, pos,
  Option, none, some, List, arith, ==→eq, Bool-cases, Option-cases, leb, ltb, pos_part,
}
use android_external_libevde.Codes.{ev_syn, ev_cnt}
use android_external_libevde.Device.{Libevdev, has_event_type, has_event_code, type_to_mask, abs_at}
use android_external_libevde.Uinput.{
  SysCall, ui_set, ui_abs_setup, UiBit, ev_bit, UinputUserDev, rc_of, Session, System, M,
}
use android_external_libevde.Uinput.Setup.{
  Round, set_abs, set_code, set_codes, uinput_bit, set_type, set_types, set_evbits, fill_abs,
}
use android_external_libevde.Uinput.Closing.{called}
use android_external_libevde.Uinput.Told.{
  same_bit, was_set, known_max, uinput_bit_injective, not_ev_bit, known_small, has_type_of_code,
  unknown_type, has_code-le, in_range, range_absent, range_present, range_any, whole_range,
}

module _ (system : System) (d : Libevdev) (fd : ℤ)
    (agrees : (h : List SysCall) (c : SysCall) → rc_of (system h c) ≡ pos 0) (b : UiBit)
    (m : ℕ) where
  -- The code goes on with 0, and has told the kernel of the number if it is extra.
  abbrev Sends : Bool → Session → Round × Session → Type 0
  Sends extra s r =
      (r.0.0 ≡ false) × (r.0.1 ≡ pos 0) × (was_set b m r.1.calls ≡ (was_set b m s.calls || extra))

  set_code-Sends :
      (type : ℕ) (bit : UiBit) (code : ℕ) (u : Option UinputUserDev)
      (next : ℤ → Option UinputUserDev → M Round) (extra : Bool) (s : Session)
      → ((u' : Option UinputUserDev) (s' : Session) → Sends extra s' (next (pos 0) u' s'))
      → Sends (same_bit b bit && code == m || extra) s (set_code system d fd type bit code u next s)
  unfolding set_code set_abs
  set_code-Sends type bit code none next extra s go =
      let s1 = called system (ui_set fd bit code) s in
      let s2 = called system (ui_abs_setup fd code (abs_at d code)) s1 in
      ground (
        arith,
        agrees s.calls (ui_set fd bit code),
        agrees s1.calls (ui_abs_setup fd code (abs_at d code)),
        go none s1,
        go none s2,
      )
  set_code-Sends type bit code (some u) next extra s go =
      let s1 = called system (ui_set fd bit code) s in
      ground (
        arith,
        agrees s.calls (ui_set fd bit code),
        go (some u) s1,
        go (some (fill_abs d code u)) s1,
      )

  set_codes-Sends :
      (type : ℕ) (bit : UiBit) (n code : ℕ) (u : Option UinputUserDev) (s : Session)
      → Sends
          (same_bit b bit && in_range (has_event_code d.masks type) code n m)
          s
          (set_codes system d fd type bit n code (pos 0) u s)
  unfolding set_codes
  set_codes-Sends type bit zero code u s = (refl, refl, ground arith)
  set_codes-Sends type bit (suc n) code u s =
      elim (Bool-cases (not (has_event_code d.masks type code))) [
        | inl absent ↦
            let (a, b', c) = set_codes-Sends type bit n (code + 1) u s in
            rw absent (
              a,
              b',
              c
                  ∙ range_absent (has_event_code d.masks type) (was_set b m s.calls)
                      (same_bit b bit) code m n (ground (arith, absent)),
            )
        | inr present ↦
            let (a, b', c) =
              set_code-Sends type bit code u (set_codes system d fd type bit n (code + 1)) _ s
                (set_codes-Sends type bit n (code + 1)) in
            rw present (
              a,
              b',
              c
                  ∙ range_present (has_event_code d.masks type) (was_set b m s.calls)
                      (same_bit b bit) code m n (ground (arith, present)),
            )
      ]

  -- What a type of the device adds.
  abbrev adds : ℕ → Bool
  adds type =
      same_bit b ev_bit && type == m
      || elim (uinput_bit type) [ none ↦ false | some bit ↦ same_bit b bit ]
        && has_event_code d.masks type m

  full_range :
      (type n : ℕ)
      → (type == ev_syn) ≡ false
      → (type_to_mask type).0 ≡ pos n
      → in_range (has_event_code d.masks type) 0 (n + 1) m ≡ has_event_code d.masks type m
  full_range type n not_syn highest = elim (Bool-cases (has_event_code d.masks type m)) [
    | inr absent ↦ rw absent (ground arith)
    | inl present ↦
        let below = has_code-le d.masks type m n not_syn highest present in
        rw present (ground arith)
  ]

  set_type-Sends :
      (type : ℕ) (u : Option UinputUserDev) (next : ℤ → Option UinputUserDev → M Round)
      (extra : Bool) (s : Session)
      → ((u' : Option UinputUserDev) (s' : Session) → Sends extra s' (next (pos 0) u' s'))
      → Sends (adds type || extra) s (set_type system d fd type u next s)
  unfolding set_type
  set_type-Sends type u next extra s go =
      let s1 = called system (ui_set fd ev_bit type) s in
      elim (Option-cases (uinput_bit type)) [
        | inl unknown ↦ ground (
          arith,
          unknown,
          unknown_type type unknown,
          agrees s.calls (ui_set fd ev_bit type),
          go u s1,
        )
        | inr (bit, known) ↦
            let (not_rep, not_syn, highest) = known_max type bit known in
            let n = pos_part (type_to_mask type).0 in
            let r = set_codes system d fd type bit (n + 1) 0 (pos 0) u s1 in
            ground (
              arith,
              known,
              not_rep,
              highest,
              agrees s.calls (ui_set fd ev_bit type),
              set_codes-Sends type bit (n + 1) 0 u s1,
              go r.0.2 r.1,
              full_range type n not_syn highest,
            )
      ]

  -- What the types from `t` on add.
  abbrev all_add : ℕ → ℕ → Bool
  all_add zero t = false
  all_add (suc n) t = has_event_type d.masks t && adds t || all_add n (t + 1)

  set_types-Sends :
      (n t : ℕ) (u : Option UinputUserDev) (s : Session)
      → Sends (all_add n t) s (set_types system d fd n t (pos 0) u s)
  unfolding set_types
  set_types-Sends zero t u s = (refl, refl, ground arith)
  set_types-Sends (suc n) t u s = elim (Bool-cases (not (has_event_type d.masks t))) [
    | inl absent ↦ rw absent (ground (arith, absent, set_types-Sends n (t + 1) u s))
    | inr present ↦ rw present (
        ground (
          arith,
          present,
          set_type-Sends t u (set_types system d fd n (t + 1)) (all_add n (t + 1)) s
              (set_types-Sends n (t + 1)),
        ))
  ]

  module _ (type : ℕ) (known : uinput_bit type ≡ some b) where
    adds_lem :
        (t : ℕ)
        → (has_event_type d.masks t && adds t) ≡ (t == type && has_event_code d.masks type m)
    adds_lem t = elim (Bool-cases (t == type)) [
      | inl here ↦
          rw (==→eq t type here)
            (ground (arith, known, not_ev_bit type b known, has_type_of_code d.masks type m))
      | inr other ↦
          ground (arith, other, not_ev_bit type b known, uinput_bit_injective t type b known)
    ]

    all_add_lem :
        (n t : ℕ) → all_add n t ≡ (leb t type && ltb type (t + n) && has_event_code d.masks type m)
    all_add_lem zero t = ground arith
    all_add_lem (suc n) t =
        ap (λ first. first || all_add n (t + 1)) (adds_lem t)
        ∙ ap (λ rest. t == type && has_event_code d.masks type m || rest) (all_add_lem n (t + 1))
        ∙ range_any (has_event_code d.masks type m) t type n

    -- With a kernel that agrees to every call, set_evbits gives 0 and tells the kernel of a code
    -- of a type that has an ioctl for its codes exactly if the device has that code, whatever was
    -- told before.
    pub set_evbits_sent :
        (u : Option UinputUserDev) (s : Session)
        → ((set_evbits system d fd u s).0.0 ≡ pos 0)
          × (was_set b m (set_evbits system d fd u s).1.calls
              ≡ (was_set b m s.calls || has_event_code d.masks type m))
    unfolding set_evbits
    set_evbits_sent u s =
        let (a, rc, sent) = set_types-Sends ev_cnt 0 u s in
        (
          rc,
          sent
              ∙ ap (λ extra. was_set b m s.calls || extra)
                  (all_add_lem ev_cnt 0
                    ∙ whole_range (has_event_code d.masks type m) type (known_small type b known)),
        )
