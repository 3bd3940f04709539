-- ===== src/Tests/Programs.antt =====
-- The theorems on the programs of tools/ at concrete devices, events and arguments.
use mathlib.Core.List.{Memᴰ}
use android_external_libevde.Base.{
  ℕ, ◌≡◌, ◌⊎◌, refl, true, false, ℤ, pos, negsuc, minus_one, lt_ℤ, int_max, int_min, none, some,
  List, [], ◌∷◌, length, arith,
}
use android_external_libevde.Event.{Event}
use android_external_libevde.NextEvent.{Outcome, returns}
use android_external_libevde.NextEvent.Spending.{SpendsFrom, next_event-Spends}
use android_external_libevde.NextEvent
use android_external_libevde.Tools.Polling.{Run, Poll}
use android_external_libevde.Tools.Polling.Delivered.{Delivers, handle_all}
use android_external_libevde.Tools.EdgeDetector
use android_external_libevde.Tools.EdgeDetector.{Detector, Size, is_x, is_y}
use android_external_libevde.Tools.EdgeDetector.Edges.{
  values_of, extent, extent_bounds, mainloop-extent,
}
use android_external_libevde.Tools.EdgeDetector.Rule.{override_rule, override_rule-unmoved}
use android_external_libevde.Tools.MouseDpi
use android_external_libevde.Tools.MouseDpi.{Doubles, Measurements, Meter}
use android_external_libevde.Tools.MouseDpi.Measured.{written}
use android_external_libevde.Tools.MouseDpi.Distance.{Measures, mainloop-distance}
use android_external_libevde.Tools.MouseDpi.Summary.{mean_frequency, mean_frequency_total}
use android_external_libevde.Tests.Data.{
  press, screen, screen-Valid, replay_kernel, replay_read-ReadsFrom,
}

-- The left and the right edge of a touchpad, and two heights.
abbrev axis_event : ℕ → ℤ → Event
axis_event code value = record { sec = pos 9; usec = pos 0; type = 3; code = code; value = value }

abbrev swipe : List Event
swipe =
    axis_event 0 (pos 120)
    ∷ axis_event 53 (pos 900)
    ∷ axis_event 54 (negsuc 3)
    ∷ axis_event 1 (pos 70)
    ∷ []

abbrev two_polls : List Poll
two_polls =
    record { rc = pos 1; signalled = false } ∷ record { rc = minus_one; signalled = true } ∷ []

next_event-Spends_example :
    SpendsFrom length 6 (NextEvent.next_event replay_kernel 9 screen 2 swipe)
next_event-Spends_example =
    next_event-Spends length replay_kernel replay_read-ReadsFrom 9 screen swipe screen-Valid
      (omega arith)

mainloop-extent_example :
    (es : List Event) × (r : Run (List Event) Detector) × (EdgeDetector.mainloop replay_kernel 9
        two_polls screen EdgeDetector.fresh swipe
      ≡ returns r)
    × Delivers replay_kernel 9 screen swipe es r.device r.world
    × (r.state.dimensions ≡ extent EdgeDetector.fresh.dimensions es)
mainloop-extent_example =
    mainloop-extent replay_kernel 9 length replay_read-ReadsFrom two_polls screen swipe screen-Valid
      (omega arith)

-- The ranges after the four events.
abbrev swiped : Detector
swiped = record EdgeDetector.fresh {
  dimensions = record { top = negsuc 3; bottom = pos 70; left = pos 120; right = pos 900 };
}

extent_bounds_example :
    ((lt_ℤ (pos 900) (pos 120) ≡ false) × (lt_ℤ (pos 900) (pos 900) ≡ false))
    × ((lt_ℤ (pos 70) (negsuc 3) ≡ false) × (lt_ℤ (pos 70) (pos 70) ≡ false))
    × ((pos 120 ≡ int_max) ⊎ Memᴰ (pos 120) (values_of is_x swipe))
    × ((pos 900 ≡ int_min) ⊎ Memᴰ (pos 900) (values_of is_x swipe))
    × ((negsuc 3 ≡ int_max) ⊎ Memᴰ (negsuc 3) (values_of is_y swipe))
    × ((pos 70 ≡ int_min) ⊎ Memᴰ (pos 70) (values_of is_y swipe))
unfolding handle_all EdgeDetector.handle_event values_of
extent_bounds_example =
    extent_bounds swipe swiped (pos 900) (pos 70) refl (Memᴰ.tail (Memᴰ.head refl))
      (Memᴰ.tail (Memᴰ.head refl))

abbrev small_size : Size
small_size = record { w = pos 100; h = pos 50 }

-- Two positions on the y axis and a key.
abbrev upright : List Event
upright = axis_event 1 (pos 40) ∷ press ∷ axis_event 1 (pos 900) ∷ []

abbrev after_upright : Detector
after_upright =
    EdgeDetector.handle_event
      (EdgeDetector.handle_event
        (EdgeDetector.handle_event EdgeDetector.fresh (axis_event 1 (pos 40))) press)
      (axis_event 1 (pos 900))

override_rule-unmoved_example : override_rule screen none after_upright.dimensions small_size ≡ none
unfolding values_of handle_all
override_rule-unmoved_example =
    override_rule-unmoved screen none small_size upright after_upright refl refl

-- Whole numbers in place of `double`.
abbrev whole : Doubles ℤ
whole = record {
  decimal = λ digits point. pos digits;
  of_size = pos;
  of_int = λ n. n;
  divide = λ a b. a;
  times = λ a b. a;
  above = λ a b. lt_ℤ b a;
  to_int = some;
}

mainloop-distance_example :
    (es : List Event) × Measures whole
      (λ n. true)
      replay_kernel
      9
      screen
      swipe
      es
      (MouseDpi.mainloop whole
        (λ n. true)
        replay_kernel
        9
        two_polls
        screen
        (MouseDpi.fresh whole)
        swipe)
mainloop-distance_example =
    mainloop-distance whole (λ n. true) replay_kernel 9 length replay_read-ReadsFrom two_polls
      screen swipe screen-Valid (omega arith)

-- Three frequencies in an array of four.
abbrev three_frequencies : Measurements ℤ
three_frequencies = record {
  distance = pos 0;
  max_frequency = pos 125;
  frequencies = some (pos 125) ∷ some (pos 120) ∷ some (pos 90) ∷ none ∷ [];
  frequencies_sz = 4;
  nfrequencies = 3;
  us = 0;
}

mean_frequency_example : (x : ℤ) × (mean_frequency whole three_frequencies ≡ some x)
unfolding written
mean_frequency_example =
    mean_frequency_total whole three_frequencies
      (record { allocated = refl; fits = omega arith; filled = refl }) (omega arith) (omega arith)
