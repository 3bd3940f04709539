-- ===== src/Tools/EdgeDetector.antt =====
-- tools/touchpad-edge-detector.c: the ranges that a touchpad sends, up to the main loop.
pub mod Edges
pub mod Rule
pub mod Main
use android_external_libevde.Base.{
  ℕ, Bool, ◌+◌, ◌%◌, not, ◌==◌, ◌||◌, if◌then◌else◌, ℤ, Option, some, List, [], ◌∷◌, min_ℤ, max_ℤ,
  int_max, int_min,
}
use android_external_libevde.Codes.{
  ev_syn, ev_abs, abs_x, abs_y, abs_mt_position_x, abs_mt_position_y,
}
use android_external_libevde.Event.{Event}
use android_external_libevde.Device.{Libevdev}
use android_external_libevde.Kernel.{Kernel}
use android_external_libevde.NextEvent.{Outcome}
use android_external_libevde.Tools.Polling
use android_external_libevde.Tools.Polling.{Run, Poll}

-- `struct dimensions` and `struct size`
pub record Dimensions : Type 0 where
  pub top : ℤ
  pub bottom : ℤ
  pub left : ℤ
  pub right : ℤ

pub record Size : Type 0 where
  pub w : ℤ
  pub h : ℤ

-- The values in a line of print_current_values, with the character of the progress.
pub record Shown : Type 0 where
  pub dimensions : Dimensions
  pub status : ℕ

-- The state of the program: the ranges, the static variable of print_current_values, and the lines
-- that were printed, the last one first.
pub record Detector : Type 0 where
  pub dimensions : Dimensions
  pub progress : ℕ
  pub lines : List Shown

-- The switch over the progress: the characters `|`, `/`, `-` and the backslash.
abbrev pub spinner : ℕ → ℕ
spinner n =
    if n == 0 then 124 else if n == 1 then 47 else if n == 2 then 45 else if n == 3 then 92 else 0

unfoldable pub print_current_values : Detector → Detector
print_current_values d = record d {
  progress = (d.progress + 1) % 4;
  lines = record { dimensions = d.dimensions; status = spinner d.progress } ∷ d.lines;
}

-- The two cases of the switch over the code of an axis.
abbrev pub is_x : ℕ → Bool
is_x code = code == abs_x || code == abs_mt_position_x

abbrev pub is_y : ℕ → Bool
is_y code = code == abs_y || code == abs_mt_position_y

-- handle_event
unfoldable pub handle_event : Detector → Event → Detector
unfolding print_current_values
handle_event d ev =
    if ev.type == ev_syn
    then print_current_values d
    else if not (ev.type == ev_abs)
    then d
    else if is_x ev.code
    then record d {
      dimensions = record d.dimensions {
        left = min_ℤ d.dimensions.left ev.value;
        right = max_ℤ d.dimensions.right ev.value;
      };
    }
    else if is_y ev.code
    then record d {
      dimensions = record d.dimensions {
        top = min_ℤ d.dimensions.top ev.value;
        bottom = max_ℤ d.dimensions.bottom ev.value;
      };
    }
    else d

-- What `main` sets before the loop.
abbrev pub fresh : Detector
fresh = record {
  dimensions = record { top = int_max; bottom = int_min; left = int_max; right = int_min };
  progress = 0;
  lines = [];
}

-- mainloop
unfoldable pub mainloop :
    {W : Type 0} → Kernel W → ℕ → List Poll → Libevdev → Detector → W → Outcome (Run W Detector)
unfolding handle_event
mainloop k fuel polls d s w = Polling.mainloop k fuel (λ s ev. some (handle_event s ev)) polls d s w
