-- ===== src/Tools/EdgeDetector/Main.antt =====
-- `main` of tools/touchpad-edge-detector.c.
use android_external_libevde.Base.{
  ℕ, Bool, true, false, not, ◌==◌, ◌||◌, if◌then◌else◌, ℤ, pos, eq_ℤ, lt_ℤ, Option, none, some,
  List, [], ◌∷◌, ◌++◌,
}
use android_external_libevde.Codes.{ev_abs, abs_x, abs_y}
use android_external_libevde.Event.{Text, Reply, done, failed}
use android_external_libevde.Device.{Libevdev, has_event_code}
use android_external_libevde.Device.Fields.{AbsField, get_abs, StringField, get_string}
use android_external_libevde.Kernel.{Kernel}
use android_external_libevde.NextEvent.{Outcome, returns, undefined, out_of_fuel}
use android_external_libevde.Open.{Opening, new_from_fd}
use android_external_libevde.Requests.{grab_device, grab_value, ungrab_value}
use android_external_libevde.Tools.Polling.{Poll}
use android_external_libevde.Tools.EdgeDetector.{Dimensions, Size, fresh, mainloop}
use android_external_libevde.Tools.EdgeDetector.Rule.{Rule, override_rule}

-- What the system and the C library answer to the program: `sscanf` with the two numbers if it matched
-- both, `open`, the requests of libevdev_new_from_fd and libevdev_grab, and the line of the DMI file.
pub record System (W : Type 0) : Type 0 where
  pub sscanf : Text → Option (ℤ × ℤ)
  pub open' : Text → Reply (Unit {0})
  pub opening : Opening
  pub grab : Reply (Unit {0})
  pub ungrab : Reply (Unit {0})
  pub modalias : Option Text
  pub kernel : Kernel W

-- What the program says, in place of the texts.
pub data Message : Type 0 where
  usage : Message
  too_small : Size → Message
  cannot_open : ℕ → Message
  cannot_fetch : ℤ → Message
  cannot_grab : Text → Message
  no_axes : Message
  touchpad : Option Text → Text → Message
  kernel_says : Dimensions → Message
  rule : Rule → Message

-- The exit code, which is `none` while the program waits for events, and the messages in their order.
pub record Exit : Type 0 where
  pub code : Option ℤ
  pub messages : List Message
  -- Whether the device was freed and the file descriptor closed.
  pub released : Bool

abbrev leave : ℤ → List Message → Outcome Exit
leave code messages = returns (record { code = some code; messages = messages; released = false })

-- `path[0] == '-'`
abbrev pub is_option : Text → Bool
is_option [] = false
is_option (c ∷ cs) = c == 45

-- The lines before the loop.
abbrev greeting : Libevdev → Text → List Message
greeting d path =
    touchpad (get_string StringField.name d) path
    ∷ kernel_says (record {
      top = get_abs AbsField.minimum d abs_y;
      bottom = get_abs AbsField.maximum d abs_y;
      left = get_abs AbsField.minimum d abs_x;
      right = get_abs AbsField.maximum d abs_x;
    })
    ∷ []

module _ {W : Type 0} (sys : System W) (fuel : ℕ) (polls : List Poll) (w : W) where
  -- From the loop on.
  unfoldable pub detect : Libevdev → Size → Text → Outcome Exit
  detect d size path = elim (mainloop sys.kernel fuel polls d fresh w) [
    | undefined ↦ undefined
    | out_of_fuel ↦ out_of_fuel
    | returns r ↦ elim r.exit [
      | none ↦ returns (record { code = none; messages = greeting d path; released = false })
      | some rc ↦ elim (override_rule r.device sys.modalias r.state.dimensions size) [
        | none ↦ undefined
        | some printed ↦ returns (record {
          code = some rc;
          messages = greeting d path ++ (rule printed ∷ []);
          released = true;
        })
      ]
    ]
  ]

  -- From the test for an exclusive grab on.
  unfoldable pub use_device : Libevdev → Size → Text → Outcome Exit
  unfolding detect
  use_device d size path =
      let (d1, grabbed) = grab_device d grab_value sys.grab in
      let d2 = (grab_device d1 ungrab_value sys.ungrab).0 in
      let detected = detect d2 size path in
      if not (eq_ℤ grabbed (pos 0))
      then leave (pos 1) (cannot_grab path ∷ [])
      else if not (has_event_code d2.masks ev_abs abs_x)
          || not (has_event_code d2.masks ev_abs abs_y)
      then returns (record { code = some (pos 1); messages = no_axes ∷ []; released = true })
      else detected

  -- From the opening of the device on.
  unfoldable pub open_device : Size → Text → Outcome Exit
  unfolding use_device
  open_device size path = elim (sys.open' path) [
    | failed errno ↦ leave (pos 1) (cannot_open errno ∷ [])
    | done fd u ↦ elim (new_from_fd sys.opening (pos fd)) [
      | none ↦ undefined
      | some (rc, device) ↦
          if not (eq_ℤ rc (pos 0))
          then leave (pos 1) (cannot_fetch rc ∷ [])
          else elim device [ none ↦ undefined | some d ↦ use_device d size path ]
    ]
  ]

  -- `main` with the arguments behind the program's name.
  unfoldable pub main : List Text → Outcome Exit
  unfolding open_device
  main [] = leave (pos 1) (usage ∷ [])
  main (arg ∷ []) = leave (pos 1) (usage ∷ [])
  main (arg ∷ path ∷ more) = elim (sys.sscanf arg) [
    | none ↦ leave (pos 1) (usage ∷ [])
    | some (width, height) ↦
        let opened = open_device (record { w = width; h = height }) path in
        if lt_ℤ width (pos 1) || lt_ℤ height (pos 1)
        then leave (pos 1) (usage ∷ [])
        else if lt_ℤ width (pos 30) || lt_ℤ height (pos 30)
        then leave (pos 1) (too_small (record { w = width; h = height }) ∷ [])
        else if is_option path
        then leave (pos 1) (usage ∷ [])
        else opened
  ]
