-- ===== src/Tools/EdgeDetector/Edges.antt =====
-- The ranges against the values that were sent.
use mathlib.Core.List.{Memᴰ}
use android_external_libevde.Base.{
  ℕ, Option, ◌<◌, ◌≡◌, refl, sym, ap, ◌∙◌, ◌⊎◌, inl, inr, Bool, false, ◌==◌, ◌&&◌, if◌then◌else◌,
  Bool-cases, ℤ, some, none, List, [], ◌∷◌, arith, lt_ℤ, min_ℤ, max_ℤ, int_max, int_min, le_ℤ_trans,
  min_ℤ_left, min_ℤ_right, max_ℤ_left, max_ℤ_right,
}
use android_external_libevde.Codes.{ev_abs}
use android_external_libevde.Event.{Event}
use android_external_libevde.Device.{Libevdev}
use android_external_libevde.Kernel.{Kernel}
use android_external_libevde.Reader.Valid.{Valid, ReadsFrom}
use android_external_libevde.NextEvent.{Outcome, returns}
use android_external_libevde.NextEvent.Spending.{left_over}
use android_external_libevde.Tools.Polling.{Run, Poll}
use android_external_libevde.Tools.Polling.Delivered.{Delivers, Ends, handle_all, mainloop-Ends}
use android_external_libevde.Tools.EdgeDetector.{
  Dimensions, Detector, handle_event, is_x, is_y, fresh, mainloop,
}

-- The values of the events of the axes that `is_axis` names.
unfoldable pub values_of : (ℕ → Bool) → List Event → List ℤ
values_of is_axis [] = []
values_of is_axis (e ∷ es) =
    let rest = values_of is_axis es in
    if (e.type == ev_abs && is_axis e.code) then e.value ∷ rest else rest

-- The least of the values and `m`, and the greatest.
unfoldable pub least : ℤ → List ℤ → ℤ
least m [] = m
least m (v ∷ vs) = least (min_ℤ m v) vs

unfoldable pub greatest : ℤ → List ℤ → ℤ
greatest m [] = m
greatest m (v ∷ vs) = greatest (max_ℤ m v) vs

-- The ranges of the values that the events have.
abbrev pub extent : Dimensions → List Event → Dimensions
extent d es = record {
  top = least d.top (values_of is_y es);
  bottom = greatest d.bottom (values_of is_y es);
  left = least d.left (values_of is_x es);
  right = greatest d.right (values_of is_x es);
}

least-le : (m : ℤ) (vs : List ℤ) → lt_ℤ m (least m vs) ≡ false
unfolding least
least-le m [] = ground arith
least-le m (v ∷ vs) =
    le_ℤ_trans (least (min_ℤ m v) vs) (min_ℤ m v) m (least-le (min_ℤ m v) vs) (min_ℤ_left m v)

least_below : (m : ℤ) (vs : List ℤ) (v : ℤ) → Memᴰ v vs → lt_ℤ v (least m vs) ≡ false
unfolding least
least_below m [] v h = elim h [ ]
least_below m (u ∷ vs) v (Memᴰ.head q) =
    le_ℤ_trans (least (min_ℤ m u) vs) (min_ℤ m u) v (least-le (min_ℤ m u) vs)
      (rw q (min_ℤ_right m u))
least_below m (u ∷ vs) v (Memᴰ.tail h) = least_below (min_ℤ m u) vs v h

least-Mem : (m : ℤ) (vs : List ℤ) → (least m vs ≡ m) ⊎ Memᴰ (least m vs) vs
unfolding least
least-Mem m [] = inl refl
least-Mem m (v ∷ vs) = elim (least-Mem (min_ℤ m v) vs) [
  | inr later ↦ inr (Memᴰ.tail later)
  | inl now ↦ elim (Bool-cases (lt_ℤ v m)) [
    | inl smaller ↦ inr (Memᴰ.head (now ∙ ap (λ b. if b then v else m) smaller))
    | inr larger ↦ inl (now ∙ ap (λ b. if b then v else m) larger)
  ]
]

le-greatest : (m : ℤ) (vs : List ℤ) → lt_ℤ (greatest m vs) m ≡ false
unfolding greatest
le-greatest m [] = ground arith
le-greatest m (v ∷ vs) =
    le_ℤ_trans m (max_ℤ m v) (greatest (max_ℤ m v) vs) (max_ℤ_left m v) (le-greatest (max_ℤ m v) vs)

greatest_above : (m : ℤ) (vs : List ℤ) (v : ℤ) → Memᴰ v vs → lt_ℤ (greatest m vs) v ≡ false
unfolding greatest
greatest_above m [] v h = elim h [ ]
greatest_above m (u ∷ vs) v (Memᴰ.head q) =
    le_ℤ_trans v (max_ℤ m u) (greatest (max_ℤ m u) vs) (rw q (max_ℤ_right m u))
      (le-greatest (max_ℤ m u) vs)
greatest_above m (u ∷ vs) v (Memᴰ.tail h) = greatest_above (max_ℤ m u) vs v h

greatest-Mem : (m : ℤ) (vs : List ℤ) → (greatest m vs ≡ m) ⊎ Memᴰ (greatest m vs) vs
unfolding greatest
greatest-Mem m [] = inl refl
greatest-Mem m (v ∷ vs) = elim (greatest-Mem (max_ℤ m v) vs) [
  | inr later ↦ inr (Memᴰ.tail later)
  | inl now ↦ elim (Bool-cases (lt_ℤ v m)) [
    | inl smaller ↦ inl (now ∙ ap (λ b. if b then m else v) smaller)
    | inr larger ↦ inr (Memᴰ.head (now ∙ ap (λ b. if b then m else v) larger))
  ]
]

-- One event widens the ranges as its value says.
handle_event-extent :
    (d : Detector) (e : Event) → (handle_event d e).dimensions ≡ extent d.dimensions (e ∷ [])
unfolding handle_event values_of least greatest
handle_event-extent d e = ground arith

extent-cons :
    (d : Dimensions) (e : Event) (es : List Event)
    → extent (extent d (e ∷ [])) es ≡ extent d (e ∷ es)
unfolding values_of least greatest
extent-cons d e es = ground arith

-- The handler as the loop takes it: it has no faults.
abbrev pub handles : Detector → Event → Option Detector
handles = λ s ev. some (handle_event s ev)

pub handle_all-extent :
    (es : List Event) (d s : Detector)
    → handle_all handles d es ≡ some s
    → s.dimensions ≡ extent d.dimensions es
unfolding handle_all values_of least greatest
handle_all-extent [] d s h =
    ap (λ o. elim o [ none ↦ d.dimensions | some x ↦ x.dimensions ]) (sym h)
handle_all-extent (e ∷ es) d s h =
    handle_all-extent es (handle_event d e) s h
    ∙ ap (λ x. extent x es) (handle_event-extent d e)
    ∙ extent-cons d.dimensions e es

handle_all-total :
    (es : List Event) (d : Detector) → (s : Detector) × (handle_all handles d es ≡ some s)
unfolding handle_all
handle_all-total [] d = (d, refl)
handle_all-total (e ∷ es) d = handle_all-total es (handle_event d e)

-- After any events that hold a value of an x and one of a y axis, every such value lies within the
-- ranges of touchpad-edge-detector, and each end of a range is one of the values, or the INT_MAX
-- or INT_MIN that it started from.
pub extent_bounds :
    (es : List Event) (s : Detector) (u v : ℤ)
    → handle_all handles fresh es ≡ some s
    → Memᴰ u (values_of is_x es)
    → Memᴰ v (values_of is_y es)
    → let d = s.dimensions in
      ((lt_ℤ u d.left ≡ false) × (lt_ℤ d.right u ≡ false))
      × ((lt_ℤ v d.top ≡ false) × (lt_ℤ d.bottom v ≡ false))
      × ((d.left ≡ int_max) ⊎ Memᴰ d.left (values_of is_x es))
      × ((d.right ≡ int_min) ⊎ Memᴰ d.right (values_of is_x es))
      × ((d.top ≡ int_max) ⊎ Memᴰ d.top (values_of is_y es))
      × ((d.bottom ≡ int_min) ⊎ Memᴰ d.bottom (values_of is_y es))
extent_bounds es s u v h sent_x sent_y =
    let xs = values_of is_x es in
    let ys = values_of is_y es in
    rw (handle_all-extent es fresh s h) (
      (least_below int_max xs u sent_x, greatest_above int_min xs u sent_x),
      (least_below int_max ys v sent_y, greatest_above int_min ys v sent_y),
      least-Mem int_max xs,
      greatest-Mem int_min xs,
      least-Mem int_max ys,
      greatest-Mem int_min ys,
    )

-- On a device with a well-formed queue and slots, the main loop of touchpad-edge-detector ends for
-- every sequence of results of `poll`, if `read` gives no more than asked for and the fuel exceeds
-- the events queued and still to be read. The ranges that it ends with are the least and the
-- greatest of the values of the x and of the y axes among the events that its calls of
-- libevdev_next_event gave, starting from INT_MAX and INT_MIN.
pub mainloop-extent :
    {W : Type 0} (k : Kernel W) (fuel : ℕ) (supply : W → ℕ)
    → ReadsFrom k.read supply
    → (polls : List Poll) (d : Libevdev) (w : W) → Valid d
    → left_over supply d w < fuel
    → (es : List Event) × (r : Run W Detector) × (mainloop k fuel polls d fresh w ≡ returns r)
      × Delivers k fuel d w es r.device r.world
      × (r.state.dimensions ≡ extent fresh.dimensions es)
unfolding mainloop
mainloop-extent {W} k fuel supply promise polls d w v enough =
    cases (mainloop k fuel polls d fresh w)
      (mainloop-Ends k fuel handles supply promise polls d fresh w v enough)
  where
    cases :
        (o : Outcome (Run W Detector))
        → Ends k fuel handles supply d fresh w o
        → (es : List Event) × (r : Run W Detector) × (o ≡ returns r)
          × Delivers k fuel d w es r.device r.world
          × (r.state.dimensions ≡ extent fresh.dimensions es)
    cases o (Ends.ended es r given done valid less) =
        (es, r, refl, given, handle_all-extent es fresh r.state done)
    cases o (Ends.faulted es d2 w2 given fault) =
        absurd (ground (arith, fault, handle_all-total es fresh))
