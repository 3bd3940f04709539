-- ===== src/Tools/MouseDpi/Distance.antt =====
-- The distance of the program against the events behind the last pause.
use android_external_libevde.Base.{
  ℕ, ◌<◌, ◌⊎◌, ◌≡◌, refl, sym, ap, ◌∙◌, Bool, true, false, ◌==◌, ◌&&◌, ◌||◌, if◌then◌else◌,
  Bool-cases, inl, inr, ℤ, pos, none, some, some_injective, >>=-eq-some, List, [], ◌∷◌, ◌+ℤ◌,
  +ℤ_assoc, +ℤ_zero, as_int, arith,
}
use android_external_libevde.Codes.{ev_syn, ev_rel, rel_x}
use android_external_libevde.Event.{Event}
use android_external_libevde.Device.{Libevdev}
use android_external_libevde.Kernel.{Kernel}
use android_external_libevde.Reader.Valid.{Valid, ReadsFrom}
use android_external_libevde.NextEvent.{Outcome, returns, undefined}
use android_external_libevde.NextEvent.Spending.{left_over}
use android_external_libevde.Tools.Polling.{Run, Poll}
use android_external_libevde.Tools.Polling.Delivered.{Delivers, Ends, handle_all, mainloop-Ends}
use android_external_libevde.Tools.MouseDpi.{
  Doubles, Meter, is_pause, time_us, handle_event, fresh, mainloop,
}
use android_external_libevde.Tools.MouseDpi.Measured.{
  IsValid, handle_syn-IsValid, handle_event-IsValid, handle_all-IsValid, written,
}

-- The time of an event, or 0 where its arithmetic overflows.
abbrev timed : Event → ℕ
timed ev = elim (time_us ev) [ none ↦ 0 | some now ↦ now ]

-- The way along the x axis.
unfoldable pub total : List Event → ℤ
total [] = pos 0
total (ev ∷ es) =
    let rest = total es in if ev.type == ev_rel && ev.code == rel_x then ev.value +ℤ rest else rest

-- Whether one of the EV_SYN events comes after a pause, and the events behind the last that does.
unfoldable pub has_pause : ℕ → List Event → Bool
has_pause last [] = false
has_pause last (ev ∷ es) =
    let syn = has_pause (timed ev) es in
    let other = has_pause last es in
    if ev.type == ev_syn then is_pause last (timed ev) || syn else other

unfoldable pub since_pause : ℕ → List Event → List Event
since_pause last [] = []
since_pause last (ev ∷ es) =
    let syn = since_pause (timed ev) es in
    let other = since_pause last es in
    if ev.type == ev_syn
    then (if has_pause (timed ev) es then syn else if is_pause last (timed ev) then es else ev ∷ es)
    else if has_pause last es
    then other
    else ev ∷ es

-- The distance before the events counts if no pause comes.
abbrev expected : ℤ → ℕ → List Event → ℤ
expected distance last es =
    (if has_pause last es then pos 0 else distance) +ℤ total (since_pause last es)

since_pause-all :
    (last : ℕ) (es : List Event) → has_pause last es ≡ false → since_pause last es ≡ es
unfolding since_pause has_pause
since_pause-all last [] h = refl
since_pause-all last (ev ∷ es) h = elim (Bool-cases (ev.type == ev_syn)) [
  | inl syn ↦ ground (arith, h, syn)
  | inr other ↦ ground (arith, h, other)
]

expected-syn :
    (distance : ℤ) (last : ℕ) (ev : Event) (es : List Event)
    → (ev.type == ev_syn) ≡ true
    → expected (if is_pause last (timed ev) then pos 0 else distance) (timed ev) es
      ≡ expected distance last (ev ∷ es)
unfolding since_pause has_pause total
expected-syn distance last ev es syn =
    let quiet : (ev.type == ev_rel && ev.code == rel_x) ≡ false = ground (arith, syn) in
    elim (Bool-cases (has_pause (timed ev) es)) [
      | inl later ↦ elim (Bool-cases (is_pause last (timed ev))) [
        | inl pause ↦ rw (syn, later, pause) refl
        | inr going ↦ rw (syn, later, going) refl
      ]
      | inr never ↦
          let whole = since_pause-all (timed ev) es never in
          elim (Bool-cases (is_pause last (timed ev))) [
            | inl pause ↦ rw (syn, never, pause, whole) refl
            | inr going ↦ rw (syn, never, going, whole, total, quiet) refl
          ]
    ]

expected-move :
    (distance : ℤ) (last : ℕ) (ev : Event) (es : List Event)
    → (ev.type == ev_syn) ≡ false
    → (ev.type == ev_rel && ev.code == rel_x) ≡ true
    → expected (distance +ℤ ev.value) last es ≡ expected distance last (ev ∷ es)
unfolding since_pause has_pause total
expected-move distance last ev es other move = elim (Bool-cases (has_pause last es)) [
  | inl later ↦ rw (other, later) refl
  | inr never ↦
      rw (other, never, since_pause-all last es never, total, move)
        (+ℤ_assoc distance ev.value (total es))
]

expected-other :
    (distance : ℤ) (last : ℕ) (ev : Event) (es : List Event)
    → (ev.type == ev_syn) ≡ false
    → (ev.type == ev_rel && ev.code == rel_x) ≡ false
    → expected distance last es ≡ expected distance last (ev ∷ es)
unfolding since_pause has_pause total
expected-other distance last ev es other still = elim (Bool-cases (has_pause last es)) [
  | inl later ↦ rw (other, later) refl
  | inr never ↦ rw (other, never, since_pause-all last es never, total, still) refl
]

as_int-some : (a b : ℤ) → as_int a ≡ some b → b ≡ a
as_int-some a b h = ground (arith, h)

module _ {F : Type 0} (f : Doubles F) (can : ℕ → Bool) where
  -- One event moves the distance as the events behind it expect.
  handle_event-expected :
      (s s1 : Meter F) (ev : Event) (es : List Event)
      → IsValid s.measured
      → handle_event f can s ev ≡ some s1
      → expected s1.measured.distance s1.measured.us es
        ≡ expected s.measured.distance s.measured.us (ev ∷ es)
  unfolding handle_event
  handle_event-expected s s1 ev es v handled =
      let d = s.measured.distance in
      let last = s.measured.us in
      elim (Bool-cases (ev.type == ev_syn)) [
        | inl syn ↦
            let (now, is_now, done) = >>=-eq-some (time_us ev) _ (rw syn at handled) in
            let (valid, same_us, same_distance) = handle_syn-IsValid f can s s1 now v done in
            let at_now : timed ev ≡ now = ap (λ o. elim o [ none ↦ 0 | some t ↦ t ]) is_now in
            ap (λ x. expected x s1.measured.us es) same_distance
            ∙ ap (λ t. expected (if is_pause last now then pos 0 else d) t es) same_us
            ∙ ap (λ t. expected (if is_pause last t then pos 0 else d) t es) (sym at_now)
            ∙ expected-syn d last ev es syn
        | inr other ↦ elim (Bool-cases (ev.type == ev_rel && ev.code == rel_x)) [
          | inl move ↦
              let (moved, summed, done) =
                >>=-eq-some (as_int (d +ℤ ev.value)) _ (rw (other, move) at handled) in
              ap (λ x. expected x.measured.distance x.measured.us es) (sym (some_injective done))
              ∙ ap (λ x. expected x last es) (as_int-some (d +ℤ ev.value) moved summed)
              ∙ expected-move d last ev es other move
          | inr still ↦
              let same = some_injective (rw (other, still) at handled) in
              ap (λ x. expected x.measured.distance x.measured.us es) (sym same)
              ∙ expected-other d last ev es other still
        ]
      ]

  -- distance
  pub handle_all-distance :
      (es : List Event) (s s' : Meter F)
      → IsValid s.measured
      → handle_all (handle_event f can) s es ≡ some s'
      → s'.measured.distance ≡ expected s.measured.distance s.measured.us es
  unfolding handle_all has_pause since_pause total
  handle_all-distance [] s s' v e =
      ap (λ x. x.measured.distance) (sym (some_injective e)) ∙ sym (+ℤ_zero s.measured.distance)
  handle_all-distance (ev ∷ es) s s' v e =
      let (s1, handled, rest) = >>=-eq-some (handle_event f can s ev) _ e in
      handle_all-distance es s1 s' (handle_event-IsValid f can s s1 ev v handled) rest
      ∙ handle_event-expected s s1 ev es v handled

fresh-IsValid : {F : Type 0} (f : Doubles F) → IsValid (fresh f).measured
unfolding written
fresh-IsValid f = record { allocated = refl; fits = omega arith; filled = refl }

-- The loop stopped at a fault of the handler, or returned where the events end, and the distance is
-- that of the events.
abbrev pub Measures :
    {W F : Type 0}
    → Doubles F
    → (ℕ → Bool)
    → Kernel W
    → ℕ
    → Libevdev
    → W
    → List Event
    → Outcome (Run W (Meter F))
    → Type 0
Measures {W} {F} f can k fuel d w es o =
    ((o ≡ undefined)
      × (handle_all (handle_event f can) (fresh f) es ≡ none)
      × ((d2 : Libevdev) × (w2 : W) × Delivers k fuel d w es d2 w2))
    ⊎ ((r : Run W (Meter F)) × (o ≡ returns r)
        × Delivers k fuel d w es r.device r.world
        × (r.state.measured.distance ≡ expected (pos 0) 0 es)
        × IsValid r.state.measured)

-- On a device with a well-formed queue and slots, and if `read` gives no more than asked for and
-- the fuel exceeds the events queued and still to be read, the main loop of mouse-dpi-tool ends
-- for every sequence of results of `poll`. Either it returns, the distance is the sum of the REL_X
-- values behind the last pause of more than three seconds among the events that its calls of
-- libevdev_next_event gave until then, and the array of the frequencies is well formed; or its
-- handler ended the program, by `abort` or an overflow, on the events that the calls gave.
pub mainloop-distance :
    {W F : Type 0} (f : Doubles F) (can : ℕ → Bool) (k : Kernel W) (fuel : ℕ) (supply : W → ℕ)
    → ReadsFrom k.read supply
    → (polls : List Poll) (d : Libevdev) (w : W) → Valid d
    → left_over supply d w < fuel
    → (es : List Event) × Measures f can k fuel d w es (mainloop f can k fuel polls d (fresh f) w)
unfolding mainloop
mainloop-distance {W} {F} f can k fuel supply promise polls d w v enough =
    cases (mainloop f can k fuel polls d (fresh f) w)
      (mainloop-Ends k fuel (handle_event f can) supply promise polls d (fresh f) w v enough)
  where
    cases :
        (o : Outcome (Run W (Meter F)))
        → Ends k fuel (handle_event f can) supply d (fresh f) w o
        → (es : List Event) × Measures f can k fuel d w es o
    cases o (Ends.ended es r given done valid less) = (
      es,
      inr (
        r,
        refl,
        given,
        handle_all-distance f can es (fresh f) r.state (fresh-IsValid f) done,
        handle_all-IsValid f can es (fresh f) r.state (fresh-IsValid f) done,
      ),
    )
    cases o (Ends.faulted es d2 w2 given fault) = (es, inl (refl, fault, (d2, w2, given)))
