-- ===== src/Tools/MouseDpi/Summary.antt =====
-- print_summary of tools/mouse-dpi-tool.c: the values that it prints.
use android_external_libevde.Base.{
  ℕ, zero, suc, ◌+◌, ◌/◌, ◌%◌, ◌^◌, ◌<◌, ◌≡◌, refl, Bool, true, ltb, leb, ◌==◌, if◌then◌else◌, ℤ,
  pos, Option, none, some, ◌>>=◌, List, [], ◌∷◌, get_elem?, as_int, abs_ℤ, arith,
}
use android_external_libevde.Event.{Text}
use android_external_libevde.Names.{text}
use android_external_libevde.Device.{Libevdev}
use android_external_libevde.Device.Fields.{StringField, ProductField, get_string, get_id}
use android_external_libevde.Tools.MouseDpi.{Doubles, Measurements}
use android_external_libevde.Tools.MouseDpi.Measured.{IsValid, get_elem?-written}

-- bustype
unfoldable pub bus_name : ℕ → Text
bus_name bus =
    if bus == 0x01
    then text "pci"
    else if bus == 0x02
    then text "isapnp"
    else if bus == 0x03
    then text "usb"
    else if bus == 0x04
    then text "hil"
    else if bus == 0x05
    then text "bluetooth"
    else if bus == 0x06
    then text "virtual"
    else text "unknown bus type"

-- A line of the table: millimetres, inches and the resolution.
pub record Row (F : Type 0) : Type 0 where
  pub mm : ℤ
  pub inch : F
  pub dpi : ℕ

-- What print_summary prints: that there were no events, or the summary.
pub data Summary (F : Type 0) : Type 0 where
  no_events : Summary F
  summary :
      (max_freq mean_freq : ℤ) (warning : Bool) (table : List (Row F)) (distance : ℤ) (bus : Text)
      (vendor product : ℕ) (name : Option Text) (hz : ℤ)
      → Summary F

-- `idx = m->nfrequencies/2` as an `int`; a negative index is out of the array.
abbrev middle : ℕ → Option ℕ
middle n = let idx = (n / 2) % 2 ^ 32 in if ltb idx (2 ^ 31) then some idx else none

module _ {F : Type 0} (f : Doubles F) where
  -- mean_frequency; `none` is a read outside the array or of an element that was not written.
  unfoldable pub mean_frequency : Measurements F → Option F
  mean_frequency m =
      middle m.nfrequencies >>= λ idx. get_elem? m.frequencies idx >>= λ element. element

  -- `for (res = 400; res <= 2500; res += 200)`, over the number of rounds, with the distance.
  unfoldable pub rows : ℕ → ℕ → ℤ → Option (List (Row F))
  rows zero res distance = some []
  rows (suc n) res distance =
      let rest = rows n (res + 200) distance in
      let inch = f.divide (f.of_int distance) (f.of_int (pos res)) in
      if leb res 2500
      then (f.to_int (f.times inch (f.decimal 254 1)) >>= λ mm.
          rest >>= λ more. some (record { mm = mm; inch = inch; dpi = res } ∷ more))
      else some []

  -- print_summary. The last of the twelve rounds is the one that leaves the loop.
  unfoldable pub print_summary : Libevdev → Measurements F → Option (Summary F)
  unfolding mean_frequency rows
  print_summary d m =
      if m.nfrequencies == 0
      then some no_events
      else (f.to_int m.max_frequency >>= λ max_freq. mean_frequency m >>= λ mean.
          f.to_int mean >>= λ mean_freq. as_int (abs_ℤ m.distance) >>= λ distance.
          rows 12 400 distance >>= λ table. some (
            summary max_freq mean_freq
              (f.above (f.of_int max_freq) (f.times (f.of_int mean_freq) (f.decimal 13 1))) table
              distance (bus_name (get_id ProductField.bustype d)) (get_id ProductField.vendor d)
              (get_id ProductField.product d) (get_string StringField.name d) max_freq))

  -- The element that mean_frequency reads lies within the array and was written, if the array is
  -- well formed and holds at least one and fewer than 2^32 frequencies.
  pub mean_frequency_total :
      (m : Measurements F)
      → IsValid m
      → 0 < m.nfrequencies
      → m.nfrequencies < 2 ^ 32
      → (x : F) × (mean_frequency m ≡ some x)
  unfolding mean_frequency
  mean_frequency_total m v some_there small =
      let n = m.nfrequencies in
      let (x, there) = get_elem?-written n m.frequencies (n / 2) v.filled (omega arith) in
      let same : (n / 2) % 2 ^ 32 ≡ n / 2 = omega arith in
      let low : ltb ((n / 2) % 2 ^ 32) (2 ^ 31) ≡ true = ground (arith, same) in
      (x, rw (low, same) (rw there refl))
