-- ===== src/Tools/Polling/Delivered.antt =====
-- The loops over the events, against the sequence of the events that the calls of
-- libevdev_next_event give.
use android_external_libevde.Base.{
  ℕ, zero, suc, ◌<◌, ◌≤◌, ◌≡◌, refl, ap, ◌∙◌, true, false, ◌++◌, neg, eq_ℤ, is_neg, Option, none,
  some, ◌>>=◌, >>=-eq-some, Option-cases, pos, List, [], ◌∷◌, arith, Bool-cases, inl, inr,
}
use android_external_libevde.Event.{Event, eagain}
use android_external_libevde.Device.{Libevdev}
use android_external_libevde.Kernel.{Kernel}
use android_external_libevde.Reader.Valid.{Valid, ReadsFrom}
use android_external_libevde.NextEvent.{
  Outcome, returns, undefined, out_of_fuel, Next, next_event, flag_normal, status_success,
  status_sync,
}
use android_external_libevde.NextEvent.Spending.{left_over, Spends, next_event-Spends}
use android_external_libevde.Tools.Polling.{
  Run, Poll, handle_success, handle_result, handle_pending, mainloop,
}

-- Calls of libevdev_next_event in normal mode, one after the other: the events of those that succeed.
pub data Delivers {W : Type 0} (k : Kernel W) (fuel : ℕ)
    : Libevdev → W → List Event → Libevdev → W → Type 0 where
  stays : {d : Libevdev} {w : W} → Delivers k fuel d w [] d w
  delivers :
      {d d2 : Libevdev} {w w2 : W} (r : Next W) (e : Event) {es : List Event}
      → next_event k fuel d flag_normal w ≡ returns r
      → r.rc ≡ status_success
      → r.event ≡ some e
      → Delivers k fuel r.device r.world es d2 w2
      → Delivers k fuel d w (e ∷ es) d2 w2
  passes :
      {d d2 : Libevdev} {w w2 : W} (r : Next W) {es : List Event}
      → next_event k fuel d flag_normal w ≡ returns r
      → eq_ℤ r.rc status_success ≡ false
      → Delivers k fuel r.device r.world es d2 w2
      → Delivers k fuel d w es d2 w2

-- The handler on one event after the other.
unfoldable pub handle_all : {S : Type 0} → (S → Event → Option S) → S → List Event → Option S
handle_all handle s [] = some s
handle_all handle s (e ∷ es) = handle s e >>= λ s1. handle_all handle s1 es

module _ {W : Type 0} (k : Kernel W) (fuel : ℕ) where
  Delivers-append :
      {d d1 d2 : Libevdev} {w w1 w2 : W} {es fs : List Event}
      → Delivers k fuel d w es d1 w1
      → Delivers k fuel d1 w1 fs d2 w2
      → Delivers k fuel d w (es ++ fs) d2 w2
  Delivers-append Delivers.stays g = g
  Delivers-append (Delivers.delivers r e called fine given rest) g =
      Delivers.delivers r e called fine given (Delivers-append rest g)
  Delivers-append (Delivers.passes r called other rest) g =
      Delivers.passes r called other (Delivers-append rest g)

handle_all-append :
    {S : Type 0} (handle : S → Event → Option S) (s s1 : S) (es fs : List Event)
    → handle_all handle s es ≡ some s1
    → handle_all handle s (es ++ fs) ≡ handle_all handle s1 fs
unfolding handle_all
handle_all-append handle s s1 [] fs h = ap (λ o. o >>= λ s2. handle_all handle s2 fs) h
handle_all-append handle s s1 (e ∷ es) fs h =
    let (s2, first, rest) = >>=-eq-some (handle s e) _ h in
    rw first (handle_all-append handle s2 s1 es fs rest)

-- How a loop from `d`, `s` and `w` ends: the handler has taken the events that were given, one after the
-- other, or has a fault at the last of them.
pub data Ends {W S : Type 0} (k : Kernel W) (fuel : ℕ) (handle : S → Event → Option S)
    (supply : W → ℕ) (d : Libevdev) (s : S) (w : W) : Outcome (Run W S) → Type 0 where
  ended :
      (es : List Event) (r : Run W S)
      → Delivers k fuel d w es r.device r.world
      → handle_all handle s es ≡ some r.state
      → Valid r.device
      → left_over supply r.device r.world ≤ left_over supply d w
      → Ends k fuel handle supply d s w (returns r)
  faulted :
      (es : List Event) (d2 : Libevdev) (w2 : W)
      → Delivers k fuel d w es d2 w2
      → handle_all handle s es ≡ none
      → Ends k fuel handle supply d s w undefined

module _ {W S : Type 0} (k : Kernel W) (fuel : ℕ) (handle : S → Event → Option S)
    (supply : W → ℕ) where
  -- A part of the loop before the rest of it.
  Ends-after :
      (d d1 : Libevdev) (s s1 : S) (w w1 : W) (es : List Event) {o : Outcome (Run W S)}
      → Delivers k fuel d w es d1 w1
      → handle_all handle s es ≡ some s1
      → left_over supply d1 w1 ≤ left_over supply d w
      → Ends k fuel handle supply d1 s1 w1 o
      → Ends k fuel handle supply d s w o
  Ends-after d d1 s s1 w w1 es before done less (Ends.ended fs r after rest valid fewer) =
      Ends.ended (es ++ fs) r (Delivers-append k fuel before after)
        (handle_all-append handle s s1 es fs done ∙ rest) valid (omega arith)
  Ends-after d d1 s s1 w w1 es before done less (Ends.faulted fs d2 w2 after rest) =
      Ends.faulted (es ++ fs) d2 w2 (Delivers-append k fuel before after)
        (handle_all-append handle s s1 es fs done ∙ rest)

  go_on-Ends :
      (d : Libevdev) (s : S) (w : W) (o : Outcome (Run W S))
      (rest : Libevdev → S → W → Outcome (Run W S))
      → Ends k fuel handle supply d s w o
      → ((r : Run W S)
          → Valid r.device
          → left_over supply r.device r.world ≤ left_over supply d w
          → Ends k fuel handle supply r.device r.state r.world (rest r.device r.state r.world))
      → Ends k fuel handle supply d s w (elim o [
        | undefined ↦ undefined
        | out_of_fuel ↦ out_of_fuel
        | returns r ↦ elim r.exit [ some rc ↦ returns r | none ↦ rest r.device r.state r.world ]
      ])
  go_on-Ends d s w o rest (Ends.ended es r before done valid less) later =
      elim (Option-cases r.exit) [
        | inl goes_on ↦
            rw goes_on
              (Ends-after d r.device s r.state w r.world es before done less (later r valid less))
        | inr (rc, left) ↦ rw left (Ends.ended es r before done valid less)
      ]
  go_on-Ends d s w o rest (Ends.faulted es d2 w2 before fault) later =
      Ends.faulted es d2 w2 before fault

  handle_result-Ends :
      (d : Libevdev) (s : S) (w : W) (r : Next W) (again : S → Outcome (Run W S))
      → next_event k fuel d flag_normal w ≡ returns r
      → Spends supply (left_over supply d w) r
      → ((s1 : S)
          → left_over supply r.device r.world < left_over supply d w
          → Ends k fuel handle supply r.device s1 r.world (again s1))
      → Ends k fuel handle supply d s w (handle_result k fuel handle s r again)
  unfolding handle_result handle_success handle_all
  handle_result-Ends d s w r again called spends rest = elim spends.spent [
    | inl failing ↦
        let calm : eq_ℤ r.rc status_sync ≡ false = ground (arith, failing) in
        let failed : eq_ℤ r.rc status_success ≡ false = ground (arith, failing) in
        let passed : Delivers k fuel d w [] r.device r.world =
          Delivers.passes r called failed Delivers.stays in
        elim (Bool-cases (eq_ℤ r.rc (neg eagain))) [
          | inl empty ↦
              rw (calm, empty, failed, empty) (Ends.ended [] _ passed refl spends.valid spends.less)
          | inr error ↦
              rw (calm, error, failing) (Ends.ended [] _ passed refl spends.valid spends.less)
        ]
    | inr (e, given, less, inr rc) ↦
        let sync : eq_ℤ r.rc status_sync ≡ true = ap (λ z. eq_ℤ z status_sync) rc in
        let other : eq_ℤ r.rc status_success ≡ false = ap (λ z. eq_ℤ z status_success) rc in
        rw sync (
          Ends.ended [] _ (Delivers.passes r called other Delivers.stays) refl spends.valid
            spends.less)
    | inr (e, given, less, inl rc) ↦
        let calm : eq_ℤ r.rc status_sync ≡ false = ap (λ z. eq_ℤ z status_sync) rc in
        let fine : eq_ℤ r.rc status_success ≡ true = ap (λ z. eq_ℤ z status_success) rc in
        let busy : eq_ℤ r.rc (neg eagain) ≡ false = ap (λ z. eq_ℤ z (neg eagain)) rc in
        let positive : is_neg r.rc ≡ false = ap is_neg rc in
        let given_one : Delivers k fuel d w (e ∷ []) r.device r.world =
          Delivers.delivers r e called rc given Delivers.stays in
        elim (Option-cases (handle s e)) [
          | inl fault ↦
              rw (calm, busy, positive, fine, given, fault)
                (Ends.faulted (e ∷ []) r.device r.world given_one (rw fault refl))
          | inr (s1, taken) ↦
              rw (calm, busy, positive, fine, given, taken, busy)
                (Ends-after d r.device s s1 w r.world (e ∷ []) given_one (rw taken refl) spends.less
                  (rest s1 less))
        ]
  ]

  module _ (promise : ReadsFrom k.read supply) where
    -- The loop over the events that are there ends, with enough fuel for its rounds and its calls.
    handle_pending-Ends :
        (n : ℕ) (d : Libevdev) (s : S) (w : W)
        → Valid d
        → left_over supply d w < n
        → left_over supply d w < fuel
        → Ends k fuel handle supply d s w (handle_pending k fuel handle n d s w)
    unfolding handle_pending
    handle_pending-Ends zero d s w v enough fuels = absurd (omega arith)
    handle_pending-Ends (suc n) d s w v enough fuels =
        let (r, called, spends) = next_event-Spends supply k promise fuel d w v fuels in
        rw (called, handle_pending)
          (handle_result-Ends d s w r (λ s1. handle_pending k fuel handle n r.device s1 r.world)
            called spends
            (λ s1 less.
              handle_pending-Ends n r.device s1 r.world spends.valid (omega arith) (omega arith)))

    -- mainloop
    pub mainloop-Ends :
        (ps : List Poll) (d : Libevdev) (s : S) (w : W)
        → Valid d
        → left_over supply d w < fuel
        → Ends k fuel handle supply d s w (mainloop k fuel handle ps d s w)
    unfolding mainloop handle_all
    mainloop-Ends [] d s w v enough = Ends.ended [] _ Delivers.stays refl v (omega arith)
    mainloop-Ends (p ∷ ps) d s w v enough = elim (Bool-cases (eq_ℤ p.rc (pos 0))) [
      | inl none_ready ↦
          rw (none_ready, mainloop) (Ends.ended [] _ Delivers.stays refl v (omega arith))
      | inr ready ↦ elim (Bool-cases p.signalled) [
        | inl stop ↦
            rw (ready, mainloop, stop) (Ends.ended [] _ Delivers.stays refl v (omega arith))
        | inr go_on ↦
            rw (ready, mainloop, go_on)
              (go_on-Ends d s w (handle_pending k fuel handle fuel d s w)
                (mainloop k fuel handle ps) (handle_pending-Ends fuel d s w v enough enough)
                (λ r valid less. mainloop-Ends ps r.device r.state r.world valid (omega arith)))
      ]
    ]
