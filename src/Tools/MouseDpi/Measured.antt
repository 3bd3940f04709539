-- ===== src/Tools/MouseDpi/Measured.antt =====
-- The array of the frequencies, and the distance against the events.
use android_external_libevde.Base.{
  ℕ, zero, suc, ◌+◌, ◌<◌, ◌≤◌, ◌≡◌, refl, sym, ap, ◌∙◌, Bool, ◌==◌, ◌&&◌, if◌then◌else◌, Bool-cases,
  inl, inr, pos, Option, none, some, some_injective, >>=-eq-some, List, [], ◌∷◌, ◌++◌, length, set,
  replicate, get_elem?, length-set, length-append, ◌+ℤ◌, as_int, abs_ℤ, arith,
}
use android_external_libevde.Codes.{ev_syn, ev_rel, rel_x}
use android_external_libevde.Event.{Event}
use android_external_libevde.Tools.Polling.Delivered.{handle_all}
use android_external_libevde.Tools.MouseDpi.{
  Doubles, Measurements, Meter, is_pause, time_us, push_frequency, print_current_values, handle_syn,
  handle_event, get_frequency,
}

-- The elements up to `n` that were written.
unfoldable pub written : {F : Type 0} → ℕ → List (Option F) → ℕ
written zero xs = 0
written (suc n) [] = 0
written (suc n) (none ∷ xs) = 0
written (suc n) (some x ∷ xs) = suc (written n xs)

-- The array has the size that is noted, and its first elements are the frequencies.
pub record IsValid {F : Type 0} (m : Measurements F) : Type 0 where
  pub allocated : length m.frequencies ≡ m.frequencies_sz
  pub fits : m.nfrequencies ≤ m.frequencies_sz
  pub filled : written m.nfrequencies m.frequencies ≡ m.nfrequencies

written-append :
    {F : Type 0} (n : ℕ) (xs ys : List (Option F)) → written n xs ≡ n → written n (xs ++ ys) ≡ n
unfolding written
written-append zero xs ys h = refl
written-append (suc n) [] ys h = ground arith
written-append (suc n) (none ∷ xs) ys h = ground arith
written-append (suc n) (some x ∷ xs) ys h = ap suc (written-append n xs ys (ground arith))

written-set :
    {F : Type 0} (n : ℕ) (xs : List (Option F)) (x : F)
    → written n xs ≡ n
    → n < length xs
    → written (suc n) (set xs n (some x)) ≡ suc n
unfolding written
written-set zero [] x h less = absurd (ground arith)
written-set zero (y ∷ xs) x h less = refl
written-set (suc n) [] x h less = absurd (ground arith)
written-set (suc n) (none ∷ xs) x h less = absurd (ground arith)
written-set (suc n) (some y ∷ xs) x h less =
    ap suc (written-set n xs x (ground arith) (omega arith))

pub get_elem?-written :
    {F : Type 0} (n : ℕ) (xs : List (Option F)) (i : ℕ)
    → written n xs ≡ n
    → i < n
    → (x : F) × (get_elem? xs i ≡ some (some x))
unfolding written
get_elem?-written zero xs i h less = absurd (ground arith)
get_elem?-written (suc n) [] i h less = absurd (ground arith)
get_elem?-written (suc n) (none ∷ xs) i h less = absurd (ground arith)
get_elem?-written (suc n) (some x ∷ xs) zero h less = (x, refl)
get_elem?-written (suc n) (some x ∷ xs) (suc i) h less =
    get_elem?-written n xs i (ground arith) (omega arith)

abbrev extended : {F : Type 0} → Measurements F → F → Measurements F
extended g freq = record g {
  frequencies = set g.frequencies g.nfrequencies (some freq);
  nfrequencies = g.nfrequencies + 1;
}

extended-IsValid :
    {F : Type 0} (g : Measurements F) (freq : F)
    → IsValid g
    → g.nfrequencies < g.frequencies_sz
    → IsValid (extended g freq)
extended-IsValid g freq v less =
    let next : g.nfrequencies + 1 ≡ suc g.nfrequencies = omega arith in
    record {
      allocated = length-set g.frequencies g.nfrequencies (some freq) ∙ v.allocated;
      fits = omega arith;
      filled =
          rw next
            (written-set g.nfrequencies g.frequencies freq v.filled (omega (arith, v.allocated)));
    }

grown-IsValid :
    {F : Type 0} (m : Measurements F)
    → IsValid m
    → IsValid (record m {
      frequencies_sz = m.frequencies_sz + 100;
      frequencies = m.frequencies ++ replicate 100 none;
    })
grown-IsValid {F} m v = record {
  allocated = length-append m.frequencies (replicate 100 none) ∙ ap (λ n. n + 100) v.allocated;
  fits = omega (arith, v.fits);
  filled = written-append m.nfrequencies m.frequencies (replicate 100 none) v.filled;
}

module _ {F : Type 0} (f : Doubles F) (can : ℕ → Bool) where
  -- The array grows before it would be full, and the rest of the measurements stays.
  push_frequency-IsValid :
      (m m' : Measurements F) (freq : F)
      → IsValid m
      → push_frequency f can m freq ≡ some m'
      → IsValid m' × (m'.distance ≡ m.distance) × (m'.us ≡ m.us)
  unfolding push_frequency
  push_frequency-IsValid m m' freq v e = elim (Bool-cases (m.nfrequencies == m.frequencies_sz)) [
    | inr room ↦
        let pushed : some (extended m freq) ≡ some m' = rw room at e in
        let valid = extended-IsValid m freq v (ground (arith, v.fits)) in
        rw (sym (some_injective pushed)) (valid, refl, refl)
    | inl full ↦ elim (Bool-cases (can (m.frequencies_sz + 100))) [
      | inr aborts ↦ absurd (ground (arith, e))
      | inl memory ↦
          let g = record m {
            frequencies_sz = m.frequencies_sz + 100;
            frequencies = m.frequencies ++ replicate 100 none;
          } in
          let pushed : some (extended g freq) ≡ some m' = rw (full, memory) at e in
          let valid = extended-IsValid g freq (grown-IsValid m v) (ground (arith, v.fits)) in
          rw (sym (some_injective pushed)) (valid, refl, refl)
    ]
  ]

  print_current_values-measured :
      (s s' : Meter F) → print_current_values f s ≡ some s' → s'.measured ≡ s.measured
  unfolding print_current_values
  print_current_values-measured s s' e =
      let (covered, in_range, rest) = >>=-eq-some (as_int (abs_ℤ s.measured.distance)) _ e in
      ap (λ x. x.measured) (sym (some_injective rest))

  -- What handle_syn does to the measurements.
  pub handle_syn-IsValid :
      (s s' : Meter F) (now : ℕ)
      → IsValid s.measured
      → handle_syn f can s now ≡ some s'
      → IsValid s'.measured
        × (s'.measured.us ≡ now)
        × (s'.measured.distance
            ≡ (if is_pause s.measured.us now then pos 0 else s.measured.distance))
  unfolding handle_syn
  handle_syn-IsValid s s' now v e = elim (Bool-cases (is_pause s.measured.us now)) [
    | inl pause ↦
        let same = some_injective (rw pause at e) in
        rw (pause, sym same)
          (record { allocated = v.allocated; fits = v.fits; filled = v.filled }, refl, refl)
    | inr going ↦
        let m = record s.measured { us = now } in
        let (m1, pushed, rest) =
          >>=-eq-some (push_frequency f can m (get_frequency f s.measured.us now)) _
            (rw going at e) in
        let (valid, same_distance, same_us) =
          push_frequency-IsValid m m1 (get_frequency f s.measured.us now)
            (record { allocated = v.allocated; fits = v.fits; filled = v.filled }) pushed in
        let same = print_current_values-measured _ s' rest in
        rw (going, same)
          (
            record { allocated = valid.allocated; fits = valid.fits; filled = valid.filled },
            same_us,
            same_distance,
          )
  ]

  -- An event keeps the array valid.
  pub handle_event-IsValid :
      (s s' : Meter F) (ev : Event)
      → IsValid s.measured
      → handle_event f can s ev ≡ some s'
      → IsValid s'.measured
  unfolding handle_event
  handle_event-IsValid s s' ev v e = elim (Bool-cases (ev.type == ev_syn)) [
    | inl syn ↦
        let (now, timed, rest) = >>=-eq-some (time_us ev) _ (rw syn at e) in
        (handle_syn-IsValid s s' now v rest).0
    | inr other ↦ elim (Bool-cases (ev.type == ev_rel && ev.code == rel_x)) [
      | inl moved ↦
          let (distance, summed, rest) =
            >>=-eq-some (as_int (s.measured.distance +ℤ ev.value)) _ (rw (other, moved) at e) in
          rw (sym (some_injective rest))
            record { allocated = v.allocated; fits = v.fits; filled = v.filled }
      | inr still ↦ let same = some_injective (rw (other, still) at e) in rw (sym same) v
    ]
  ]

  -- handle_all
  pub handle_all-IsValid :
      (es : List Event) (s s' : Meter F)
      → IsValid s.measured
      → handle_all (handle_event f can) s es ≡ some s'
      → IsValid s'.measured
  unfolding handle_all
  handle_all-IsValid [] s s' v e = rw (sym (some_injective e)) v
  handle_all-IsValid (ev ∷ es) s s' v e =
      let (s1, handled, rest) = >>=-eq-some (handle_event f can s ev) _ e in
      handle_all-IsValid es s1 s' (handle_event-IsValid s s1 ev v handled) rest
