-- ===== src/Tools/Polling.antt =====
-- `mainloop` of tools/touchpad-edge-detector.c and of tools/mouse-dpi-tool.c, which differ in what
-- they do with an event: `handle` is `handle_event` on the state of the program.
pub mod Delivered
use android_external_libevde.Base.{
  ℕ, zero, suc, Bool, true, false, not, ◌&&◌, if◌then◌else◌, ℤ, pos, neg, eq_ℤ, is_neg, Option,
  none, some, List, [], ◌∷◌,
}
use android_external_libevde.Event.{Event, eagain}
use android_external_libevde.Device.{Libevdev}
use android_external_libevde.Kernel.{Kernel}
use android_external_libevde.NextEvent.{
  Outcome, Next, returns, undefined, out_of_fuel, next_event, flag_normal, status_success,
  status_sync,
}

-- A loop that has come to an end: with the exit code of `return`, or without.
pub record Run (W : Type 0) (S : Type 0) : Type 0 where
  pub exit : Option ℤ
  pub device : Libevdev
  pub state : S
  pub world : W

abbrev pub stopped : {W : Type 0} {S : Type 0} → Option ℤ → Libevdev → S → W → Outcome (Run W S)
stopped exit d s w = returns (record { exit = exit; device = d; state = s; world = w })

-- What one call of `poll` gives: its result, and whether SIGINT had come by then.
pub record Poll : Type 0 where
  pub rc : ℤ
  pub signalled : Bool

module _ {W : Type 0} {S : Type 0} (k : Kernel W) (fuel : ℕ) (handle : S → Event → Option S) where
  -- An event is handled on LIBEVDEV_READ_STATUS_SUCCESS only. `none` is a fault of the handler, or the use
  -- of an event that was not set.
  unfoldable pub handle_success : S → ℤ → Option Event → Option S
  handle_success s rc event =
      if eq_ℤ rc status_success then elim event [ none ↦ none | some e ↦ handle s e ] else some s

  -- The part of a round behind the call; `again` is the next round.
  unfoldable pub handle_result : S → Next W → (S → Outcome (Run W S)) → Outcome (Run W S)
  handle_result s r again =
      if eq_ℤ r.rc status_sync
      then stopped (some (pos 1)) r.device s r.world
      else if not (eq_ℤ r.rc (neg eagain)) && is_neg r.rc
      then stopped (some (pos 1)) r.device s r.world
      else elim (handle_success s r.rc r.event) [
        | none ↦ undefined
        | some s1 ↦ elim (eq_ℤ r.rc (neg eagain)) [
          | true ↦ stopped none r.device s1 r.world
          | false ↦ again s1
        ]
      ]

  -- `do { ... } while (rc != -EAGAIN)`, with fuel for its rounds.
  unfoldable pub handle_pending : ℕ → Libevdev → S → W → Outcome (Run W S)
  handle_pending zero d s w = out_of_fuel
  handle_pending (suc n) d s w = elim (next_event k fuel d flag_normal w) [
    | undefined ↦ undefined
    | out_of_fuel ↦ out_of_fuel
    | returns r ↦ handle_result s r (λ s1. handle_pending n r.device s1 r.world)
  ]

  -- `while (poll(&fds, 1, -1))`, over the results of `poll`: the loop still waits after the last one.
  unfoldable pub mainloop : List Poll → Libevdev → S → W → Outcome (Run W S)
  mainloop [] d s w = stopped none d s w
  mainloop (p ∷ ps) d s w = elim (eq_ℤ p.rc (pos 0)) [
    | true ↦ stopped (some (pos 0)) d s w
    | false ↦ elim p.signalled [
      | true ↦ stopped (some (pos 0)) d s w
      | false ↦ elim (handle_pending fuel d s w) [
        | undefined ↦ undefined
        | out_of_fuel ↦ out_of_fuel
        | returns r ↦ elim r.exit [
          | some rc ↦ returns r
          | none ↦ mainloop ps r.device r.state r.world
        ]
      ]
    ]
  ]
