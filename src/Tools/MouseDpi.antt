-- ===== src/Tools/MouseDpi.antt =====
-- tools/mouse-dpi-tool.c up to the main loop: the distance and the frequency of a mouse's events.
pub mod Measured
pub mod Distance
pub mod Summary
pub mod Main
use android_external_libevde.Base.{
  ℕ, suc, ◌+◌, ◌-◌, ◌*◌, ◌%◌, ◌^◌, ◌/◌, Bool, not, ltb, ◌==◌, ◌&&◌, if◌then◌else◌, ℤ, pos, negsuc,
  neg, lt_ℤ, Option, none, some, ◌>>=◌, List, [], ◌∷◌, ◌++◌, set, replicate, get_elem?, ◌+ℤ◌,
  as_int, abs_ℤ,
}
use android_external_libevde.Codes.{ev_syn, ev_rel, rel_x}
use android_external_libevde.Event.{Event}
use android_external_libevde.Device.{Libevdev}
use android_external_libevde.Kernel.{Kernel}
use android_external_libevde.NextEvent.{Outcome}
use android_external_libevde.Tools.Polling
use android_external_libevde.Tools.Polling.{Run, Poll}
use android_external_libevde.Tools.EdgeDetector.{spinner}

-- The arithmetic of `double` as far as the program uses it.
pub record Doubles (F : Type 0) : Type 0 where
  -- A decimal number, by its digits and how many of them stand behind the point.
  pub decimal : ℕ → ℕ → F
  pub of_size : ℕ → F
  pub of_int : ℤ → F
  pub divide : F → F → F
  pub times : F → F → F
  -- The operator `>`.
  pub above : F → F → Bool
  -- The conversion to `int`, which is undefined out of range.
  pub to_int : F → Option ℤ

-- `struct measurements`. The array is a list, with `none` for an element that was not written.
pub record Measurements (F : Type 0) : Type 0 where
  pub distance : ℤ
  pub max_frequency : F
  pub frequencies : List (Option F)
  pub frequencies_sz : ℕ
  pub nfrequencies : ℕ
  pub us : ℕ

-- The values in a line of print_current_values, with the character of the progress.
pub record Line (F : Type 0) : Type 0 where
  pub covered : ℤ
  pub frequency : F
  pub status : ℕ

-- The state of the program, with the static variable of print_current_values and the lines that
-- were printed, the last one first.
pub record Meter (F : Type 0) : Type 0 where
  pub measured : Measurements F
  pub progress : ℕ
  pub lines : List (Line F)

abbrev pub idle_reset : ℕ
idle_reset = 3000000

-- `ev->input_event_sec * 1000000 + ev->input_event_usec`, of type `long`, as a `uint64_t`.
abbrev million_times : ℤ → ℤ
million_times (pos n) = pos (n * 1000000)
million_times (negsuc n) = neg (suc n * 1000000)

abbrev as_u64 : ℤ → Option ℕ
as_u64 (pos n) = if ltb n (2 ^ 63) then some n else none
as_u64 (negsuc n) = if ltb n (2 ^ 63) then some (2 ^ 64 - 1 - n) else none

unfoldable pub time_us : Event → Option ℕ
time_us ev = as_u64 (million_times ev.sec +ℤ ev.usec)

-- `last_us + idle_reset < m->us`
abbrev pub is_pause : ℕ → ℕ → Bool
is_pause last now = ltb ((last + idle_reset) % 2 ^ 64) now

-- The switch over the progress: `?` is its default.
abbrev pub mouse_spinner : ℕ → ℕ
mouse_spinner n = if ltb n 4 then spinner n else 63

module _ {F : Type 0} (f : Doubles F) where
  unfoldable pub get_frequency : ℕ → ℕ → F
  get_frequency last current =
      f.divide (f.decimal 1000000 0) (f.of_size ((current + 2 ^ 64 - last) % 2 ^ 64))

  -- push_frequency, with what `realloc` can give; `none` is the call of `abort`.
  unfoldable pub push_frequency : (ℕ → Bool) → Measurements F → F → Option (Measurements F)
  push_frequency can m freq =
      let grown =
        if m.nfrequencies == m.frequencies_sz
        then (if can (m.frequencies_sz + 100)
            then some (record m {
              frequencies_sz = m.frequencies_sz + 100;
              frequencies = m.frequencies ++ replicate 100 none;
            })
            else none)
        else some m in
      grown >>= λ g. some (record g {
        frequencies = set g.frequencies g.nfrequencies (some freq);
        nfrequencies = g.nfrequencies + 1;
      })

  -- print_current_values; `abs` overflows for INT_MIN.
  unfoldable pub print_current_values : Meter F → Option (Meter F)
  print_current_values s = as_int (abs_ℤ s.measured.distance) >>= λ covered. some (record s {
    progress = (s.progress + 1) % 4;
    lines =
        record {
          covered = covered;
          frequency = s.measured.max_frequency;
          status = mouse_spinner s.progress;
        }
        ∷ s.lines;
  })

  -- The part of handle_event for EV_SYN, at the time `now`.
  unfoldable pub handle_syn : (ℕ → Bool) → Meter F → ℕ → Option (Meter F)
  unfolding print_current_values push_frequency get_frequency
  handle_syn can s now =
      let m = record s.measured { us = now } in
      let freq = get_frequency s.measured.us now in
      let go_on = push_frequency can m freq >>= λ m1. print_current_values (record s {
        measured = record m1 {
          max_frequency = if f.above freq m1.max_frequency then freq else m1.max_frequency;
        };
      }) in
      if is_pause s.measured.us now
      then some
          (record s { measured = record m { max_frequency = f.decimal 0 0; distance = pos 0 } })
      else go_on

  -- handle_event; `none` is the end by `abort`, or an overflow of the distance or of the time.
  unfoldable pub handle_event : (ℕ → Bool) → Meter F → Event → Option (Meter F)
  unfolding handle_syn time_us
  handle_event can s ev =
      if ev.type == ev_syn
      then (time_us ev >>= λ now. handle_syn can s now)
      else if ev.type == ev_rel && ev.code == rel_x
      then (as_int (s.measured.distance +ℤ ev.value) >>= λ distance.
          some (record s { measured = record s.measured { distance = distance } }))
      else some s

  -- What `main` sets before the loop.
  abbrev pub fresh : Meter F
  fresh = record {
    measured = record {
      distance = pos 0;
      max_frequency = f.decimal 0 0;
      frequencies = [];
      frequencies_sz = 0;
      nfrequencies = 0;
      us = 0;
    };
    progress = 0;
    lines = [];
  }

  -- mainloop
  unfoldable pub mainloop :
      {W : Type 0}
      → (ℕ → Bool)
      → Kernel W
      → ℕ
      → List Poll
      → Libevdev
      → Meter F
      → W
      → Outcome (Run W (Meter F))
  unfolding handle_event
  mainloop can k fuel polls d s w = Polling.mainloop k fuel (handle_event can) polls d s w
