-- ===== src/Tools/Events/Watch.antt =====
-- The loop and `main` of tools/libevdev-events.c.
use android_external_libevde.Base.{
  ℕ, zero, suc, ◌+◌, Bool, true, false, not, ◌||◌, if◌then◌else◌, ℤ, pos, neg, eq_ℤ, Option, none,
  some, List, [], ◌∷◌, ◌++◌,
}
use android_external_libevde.Event.{Event, Text, Reply, done, failed, eagain}
use android_external_libevde.Device.{Libevdev}
use android_external_libevde.Device.Fields.{
  StringField, ProductField, get_string, get_id, get_driver_version,
}
use android_external_libevde.Kernel.{Kernel}
use android_external_libevde.Names.{NameMaps}
use android_external_libevde.NextEvent.{
  Outcome, Next, returns, undefined, out_of_fuel, next_event, flag_normal, flag_blocking, flag_sync,
  status_success, status_sync,
}
use android_external_libevde.Open.{Opening, new_from_fd}
use android_external_libevde.Tools.Events.{TypeLine, PropLine, print_bits, print_props}

-- A printed line: of print_event, of print_sync_event, or around the lines of a sync.
pub data Line : Type 0 where
  event : Event → Line
  sync_event : Event → Line
  dropped : Line
  resynced : Line

-- Where the loop has got to: the last `rc`, and what was printed.
pub record Watched (W : Type 0) : Type 0 where
  pub rc : ℤ
  pub device : Libevdev
  pub world : W
  pub lines : List Line

-- Lines that were printed before.
abbrev before : {W : Type 0} → List Line → Outcome (Watched W) → Outcome (Watched W)
before printed (returns r) =
    returns (record { rc = r.rc; device = r.device; world = r.world; lines = printed ++ r.lines })
before printed undefined = undefined
before printed out_of_fuel = out_of_fuel

module _ {W : Type 0} (k : Kernel W) (fuel : ℕ) where
  -- `while (rc == LIBEVDEV_READ_STATUS_SYNC)`, with fuel for its rounds, after the call with result `r`.
  unfoldable pub print_sync : ℕ → Next W → Outcome (Watched W)
  print_sync zero r = out_of_fuel
  print_sync (suc n) r =
      let rest : Event → Outcome (Watched W) = λ e.
        elim (next_event k fuel r.device flag_sync r.world) [
          | undefined ↦ undefined
          | out_of_fuel ↦ out_of_fuel
          | returns r1 ↦ before (sync_event e ∷ []) (print_sync n r1)
        ] in
      if not (eq_ℤ r.rc status_sync)
      then returns (record { rc = r.rc; device = r.device; world = r.world; lines = [] })
      else elim r.event [ none ↦ undefined | some e ↦ rest e ]

  -- What a call of the loop in main prints, and the calls for a sync.
  unfoldable pub print_result : Next W → Outcome (Watched W)
  unfolding print_sync
  print_result r =
      let synced = print_sync fuel r in
      if eq_ℤ r.rc status_sync
      then elim synced [
        | undefined ↦ undefined
        | out_of_fuel ↦ out_of_fuel
        | returns s ↦ returns (record {
          rc = s.rc;
          device = s.device;
          world = s.world;
          lines = (dropped ∷ s.lines) ++ (resynced ∷ []);
        })
      ]
      else if eq_ℤ r.rc status_success
      then elim r.event [
        | none ↦ undefined
        | some e ↦
            returns (record { rc = r.rc; device = r.device; world = r.world; lines = event e ∷ [] })
      ]
      else returns (record { rc = r.rc; device = r.device; world = r.world; lines = [] })

  -- The condition of the loop.
  abbrev pub goes_on : ℤ → Bool
  goes_on rc = eq_ℤ rc status_sync || eq_ℤ rc status_success || eq_ℤ rc (neg eagain)

  -- The loop of main, for a number of rounds: `none` for `rc` if it goes on after them.
  unfoldable pub watch : ℕ → Libevdev → W → List Line → Outcome (Option ℤ × List Line)
  watch zero d w printed = returns (none, printed)
  watch (suc n) d w printed = elim (next_event k fuel d (flag_normal + flag_blocking) w) [
    | undefined ↦ undefined
    | out_of_fuel ↦ out_of_fuel
    | returns r ↦ elim (print_result r) [
      | undefined ↦ undefined
      | out_of_fuel ↦ out_of_fuel
      | returns s ↦ elim (goes_on s.rc) [
        | true ↦ watch n s.device s.world (printed ++ s.lines)
        | false ↦ returns (some s.rc, printed ++ s.lines)
      ]
    ]
  ]

-- What the program prints of the device before the loop.
pub record Description : Type 0 where
  pub bustype : ℕ
  pub vendor : ℕ
  pub product : ℕ
  pub driver_version : ℤ
  pub name : Option Text
  pub phys : Option Text
  pub uniq : Option Text
  pub bits : List TypeLine
  pub props : List PropLine

unfoldable pub describe : NameMaps → Libevdev → Description
describe maps d = record {
  bustype = get_id ProductField.bustype d;
  vendor = get_id ProductField.vendor d;
  product = get_id ProductField.product d;
  driver_version = get_driver_version d;
  name = get_string StringField.name d;
  phys = get_string StringField.phys d;
  uniq = get_string StringField.uniq d;
  bits = print_bits maps d;
  props = print_props maps d;
}

-- The end of the program, or that it still watches: the description, the lines and the last `rc`.
pub data Exit : Type 0 where
  -- The program has no argument.
  no_file : Exit
  cannot_open : ℕ → Exit
  cannot_init : ℤ → Exit
  -- The exit code is 0, and the error was printed.
  watched : Description → List Line → ℤ → Exit
  watching : Description → List Line → Exit

-- main, with what `open` and the requests of libevdev_new_from_fd give.
unfoldable pub main :
    {W : Type 0}
    → Kernel W
    → NameMaps
    → Opening
    → (Text → Reply (Unit {0}))
    → (fuel rounds : ℕ) → W
    → List Text
    → Outcome Exit
unfolding watch describe
main k maps o open' fuel rounds w [] = returns no_file
main k maps o open' fuel rounds w (file ∷ more) = elim (open' file) [
  | failed errno ↦ returns (cannot_open errno)
  | done fd u ↦ elim (new_from_fd o (pos fd)) [
    | none ↦ undefined
    | some (rc, none) ↦ returns (cannot_init rc)
    | some (rc, some d) ↦ elim (watch k fuel rounds d w []) [
      | undefined ↦ undefined
      | out_of_fuel ↦ out_of_fuel
      | returns (none, lines) ↦ returns (watching (describe maps d) lines)
      | returns (some error, lines) ↦ returns (watched (describe maps d) lines error)
    ]
  ]
]
