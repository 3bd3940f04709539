-- ===== src/Tools/MouseDpi/Main.antt =====
-- `main` of tools/mouse-dpi-tool.c.
use android_external_libevde.Base.{
  ℕ, Bool, false, true, not, if◌then◌else◌, ℤ, pos, eq_ℤ, Option, none, some, List, [], ◌∷◌, ◌++◌,
}
use android_external_libevde.Event.{Text, Reply, done, failed}
use android_external_libevde.Device.{Libevdev}
use android_external_libevde.Device.Fields.{StringField, get_string}
use android_external_libevde.Kernel.{Kernel}
use android_external_libevde.NextEvent.{Outcome, returns, undefined, out_of_fuel}
use android_external_libevde.Open.{Opening, new_from_fd}
use android_external_libevde.Requests.{grab_device, grab_value, ungrab_value}
use android_external_libevde.Tools.Polling.{Poll}
use android_external_libevde.Tools.EdgeDetector.Main.{is_option}
use android_external_libevde.Tools.MouseDpi.{Doubles, fresh, mainloop}
use android_external_libevde.Tools.MouseDpi.Summary.{Summary, print_summary}

-- What the system answers to the program: `open`, the requests of libevdev_new_from_fd and
-- libevdev_grab, `realloc` and `read`.
pub record System (W : Type 0) : Type 0 where
  pub open' : Text → Reply (Unit {0})
  pub opening : Opening
  pub grab : Reply (Unit {0})
  pub ungrab : Reply (Unit {0})
  pub realloc : ℕ → Bool
  pub kernel : Kernel W

-- What the program says, in place of the texts.
pub data Message (F : Type 0) : Type 0 where
  usage : Message F
  cannot_open : ℕ → Message F
  cannot_fetch : ℤ → Message F
  cannot_grab : Text → Message F
  mouse : Option Text → Text → Message F
  summary : Summary F → Message F

-- The exit code, which is `none` while the program waits for events, and the messages in their order.
pub record Exit (F : Type 0) : Type 0 where
  pub code : Option ℤ
  pub messages : List (Message F)
  -- Whether the device was freed and the file descriptor closed.
  pub released : Bool

abbrev leave : {F : Type 0} → ℤ → List (Message F) → Outcome (Exit F)
leave code messages = returns (record { code = some code; messages = messages; released = false })

module _ {W F : Type 0} (f : Doubles F) (sys : System W) (fuel : ℕ) (polls : List Poll)
    (w : W) where
  -- From the loop on.
  unfoldable pub measure : Libevdev → Text → Outcome (Exit F)
  measure d path = elim (mainloop f sys.realloc sys.kernel fuel polls d (fresh f) w) [
    | undefined ↦ undefined
    | out_of_fuel ↦ out_of_fuel
    | returns r ↦
        let greeting = mouse (get_string StringField.name d) path ∷ [] in
        elim r.exit [
          | none ↦ returns (record { code = none; messages = greeting; released = false })
          | some rc ↦ elim (print_summary f r.device r.state.measured) [
            | none ↦ undefined
            | some printed ↦ returns (record {
              code = some rc;
              messages = greeting ++ (summary printed ∷ []);
              released = true;
            })
          ]
        ]
  ]

  -- From the test for an exclusive grab on.
  unfoldable pub use_mouse : Libevdev → Text → Outcome (Exit F)
  unfolding measure
  use_mouse d path =
      let (d1, grabbed) = grab_device d grab_value sys.grab in
      let measured = measure (grab_device d1 ungrab_value sys.ungrab).0 path in
      if not (eq_ℤ grabbed (pos 0)) then leave (pos 1) (cannot_grab path ∷ []) else measured

  -- From the opening of the device on.
  unfoldable pub open_mouse : Text → Outcome (Exit F)
  unfolding use_mouse
  open_mouse path = elim (sys.open' path) [
    | failed errno ↦ leave (pos 1) (cannot_open errno ∷ [])
    | done fd u ↦ elim (new_from_fd sys.opening (pos fd)) [
      | none ↦ undefined
      | some (rc, device) ↦
          if not (eq_ℤ rc (pos 0))
          then leave (pos 1) (cannot_fetch rc ∷ [])
          else elim device [ none ↦ undefined | some d ↦ use_mouse d path ]
    ]
  ]

  -- `main` with the arguments behind the program's name.
  unfoldable pub main : List Text → Outcome (Exit F)
  unfolding open_mouse
  main [] = leave (pos 1) (usage ∷ [])
  main (path ∷ more) =
      let opened = open_mouse path in if is_option path then leave (pos 1) (usage ∷ []) else opened
