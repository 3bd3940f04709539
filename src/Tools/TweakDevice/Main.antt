-- ===== src/Tools/TweakDevice/Main.antt =====
-- `main` of tools/libevdev-tweak-device.c.
use android_external_libevde.Base.{
  ℕ, ℤ, pos, minus_one, to_unsigned, Option, none, some, List, [], ◌∷◌, length, get_elem?,
}
use android_external_libevde.Event.{AbsInfo, Text, Reply, done, failed}
use android_external_libevde.Device.{Libevdev}
use android_external_libevde.Names.{NameMaps, Tables}
use android_external_libevde.Open.{Opening, new_from_fd}
use android_external_libevde.Tools.TweakDevice.{
  Mode, mode_none, mode_abs, mode_led, mode_resolution, mode_help, Library, Options, AbsOptions,
  LedOptions, parse_options_mode, parse_options_abs, parse_options_led, parse_options_resolution,
}
use android_external_libevde.Tools.TweakDevice.Apply.{
  Requested, Complaint, set_abs, set_led, set_resolution,
}

-- What the options ask for, once they are parsed.
pub data Task : Type 0 where
  change_axis : AbsOptions → Task
  change_led : LedOptions → Task
  change_resolution : ℤ × ℤ → Task

-- The answers to the program: the C library, the results of getopt_long for the first and for the
-- second parse, `open` and the requests of the library. The locals `absinfo` of main and `abs` of
-- set_resolution are not initialised: they hold any values.
pub record System : Type 0 where
  pub library : Library
  pub first : Options
  pub second : Options
  pub open' : Text → Reply (Unit {0})
  pub opening : Opening
  pub requested : Requested
  pub absinfo : AbsInfo
  pub local : AbsInfo

pub data Message : Type 0 where
  usage : Message
  cannot_open : ℕ → Message
  cannot_init : ℤ → Message
  complaints : List Complaint → Message

-- The end of the program: the device that libevdev_free is given, the exit code and what was said.
-- `stopped` is a fault inside the library.
pub data Exit : Type 0 where
  exits : Option Libevdev → ℤ → List Message → Exit
  stopped : Exit

module _ (sys : System) (tables : Tables) (maps : NameMaps) where
  -- The second parse, by the mode that the first one found.
  unfoldable pub parse_task : Mode → ℕ → Option Task
  parse_task mode_abs argc =
      elim (parse_options_abs sys.library tables argc sys.second
        (record { changes = 0; axis = minus_one; absinfo = sys.absinfo })) [
          | none ↦ none
          | some o ↦ some (change_axis o)
        ]
  parse_task mode_led argc =
      elim (parse_options_led sys.library tables argc sys.second
        (record { led = minus_one; led_state = minus_one })) [
          | none ↦ none
          | some o ↦ some (change_led o)
        ]
  parse_task mode_resolution argc =
      elim (parse_options_resolution sys.library argc sys.second (pos 0, pos 0)) [
        | none ↦ none
        | some o ↦ some (change_resolution o)
      ]
  parse_task mode_none argc = none
  parse_task mode_help argc = none

  -- The second switch over the mode.
  unfoldable pub do_task : Task → Libevdev → Option (Libevdev × List Complaint)
  do_task (change_axis o) d = set_abs sys.requested maps d o.changes (to_unsigned o.axis) o.absinfo
  do_task (change_led o) d = set_led sys.requested maps d (to_unsigned o.led) o.led_state
  do_task (change_resolution (xres, yres)) d =
      set_resolution sys.requested maps sys.local d xres yres

  -- From `open` on, with what is done to the device.
  unfoldable pub open_then : (Libevdev → Option (Libevdev × List Complaint)) → Text → Exit
  open_then act path = elim (sys.open' path) [
    | failed errno ↦ exits none (pos 1) (cannot_open errno ∷ [])
    | done fd u ↦ elim (new_from_fd sys.opening (pos fd)) [
      | none ↦ stopped
      | some (rc, none) ↦ exits none rc (cannot_init rc ∷ [])
      | some (rc, some d) ↦ elim (act d) [
        | none ↦ stopped
        | some (d1, said) ↦ exits (some d1) rc (complaints said ∷ [])
      ]
    ]
  ]

  unfoldable pub do_parsed : Option Task → List Text → Exit
  unfolding open_then do_task
  do_parsed none argv = exits none (pos 1) []
  do_parsed (some task) argv = elim (get_elem? argv sys.second.last) [
    | none ↦ exits none (pos 1) (usage ∷ [])
    | some path ↦ open_then (do_task task) path
  ]

  -- The part of main behind the first switch. `argv` is as getopt_long left it.
  unfoldable pub parse_and_do : Mode → List Text → Exit
  unfolding parse_task do_parsed
  parse_and_do mode argv = do_parsed (parse_task mode (length argv)) argv

  -- main
  unfoldable pub main : List Text → Exit
  unfolding parse_and_do
  main argv = elim (parse_options_mode (length argv) sys.first) [
    | mode_help ↦ exits none (pos 0) (usage ∷ [])
    | mode_none ↦ exits none (pos 1) (usage ∷ [])
    | mode_abs ↦ parse_and_do mode_abs argv
    | mode_led ↦ parse_and_do mode_led argv
    | mode_resolution ↦ parse_and_do mode_resolution argv
  ]
