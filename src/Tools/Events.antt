-- ===== src/Tools/Events.antt =====
-- tools/libevdev-events.c: what it prints of a device.
pub mod Watch
use mathlib.Core.List.{Memᴰ}
use android_external_libevde.Base.{
  ℕ, ◌+◌, ◌≤◌, ◌<◌, ◌≡◌, ◌↔◌, refl, sym, ap, ◌∙◌, Bool, true, false, not, ◌==◌, ==→eq, ◌⊎◌,
  if◌then◌else◌, Bool-cases, inl, inr, ℤ, pos, eq_ℤ, Option, none, some, some_injective, List, [],
  ◌∷◌, ◌++◌, arith,
}
use android_external_libevde.Codes.{
  ev_key, ev_rel, ev_abs, ev_led, key_max, rel_max, abs_max, led_max, ev_max_type, input_prop_max,
}
use android_external_libevde.Event.{AbsInfo, Text}
use android_external_libevde.Device.{
  Libevdev, has_event_type, has_event_code, has_property, get_abs_info, get_abs_info_lem, abs_at,
}
use android_external_libevde.Names.{
  NameMaps, event_type_get_name, event_code_get_name, property_get_name,
}
use android_external_libevde.Tools.Listing.{collect, collect_sound, collect_complete}

-- The values of print_abs_bits: the last three lines are left out for 0.
pub record AbsLines : Type 0 where
  pub value : ℤ
  pub minimum : ℤ
  pub maximum : ℤ
  pub fuzz : Option ℤ
  pub flat : Option ℤ
  pub resolution : Option ℤ

-- A code, with the values of an axis that are printed behind it.
pub record CodeLine : Type 0 where
  pub code : ℕ
  pub name : Option Text
  pub axis : Option AbsLines

-- A round of print_bits: the line of a type that the device has, and the codes.
pub record TypeLine : Type 0 where
  pub type : ℕ
  pub has_line : Bool
  pub name : Option Text
  pub codes : List CodeLine

pub record PropLine : Type 0 where
  pub prop : ℕ
  pub name : Option Text

abbrev unless_zero : ℤ → Option ℤ
unless_zero v = if eq_ℤ v (pos 0) then none else some v

-- print_abs_bits: nothing for an axis that the device does not have. With the axis,
-- libevdev_get_abs_info does not give NULL.
unfoldable pub print_abs_bits : Libevdev → ℕ → Option AbsLines
print_abs_bits d axis =
    let lines : Option AbsLines = elim (get_abs_info d axis) [
      | none ↦ none
      | some a ↦ some (record {
        value = a.value;
        minimum = a.minimum;
        maximum = a.maximum;
        fuzz = unless_zero a.fuzz;
        flat = unless_zero a.flat;
        resolution = unless_zero a.resolution;
      })
    ] in
    if not (has_event_code d.masks ev_abs axis) then none else lines

-- A value that is printed unless it is 0.
abbrev UnlessZero : Option ℤ → ℤ → Type 0
UnlessZero o v = ((v ≡ pos 0) × (o ≡ none)) ⊎ ((eq_ℤ v (pos 0) ≡ false) × (o ≡ some v))

abbrev ShowsValues : AbsLines → AbsInfo → Type 0
ShowsValues l a =
    (l.value ≡ a.value)
    × (l.minimum ≡ a.minimum)
    × (l.maximum ≡ a.maximum)
    × UnlessZero l.fuzz a.fuzz
    × UnlessZero l.flat a.flat
    × UnlessZero l.resolution a.resolution

-- The values of an axis are printed behind its code, and nothing behind another code.
abbrev ShowsAxis : Libevdev → ℕ → ℕ → Option AbsLines → Type 0
ShowsAxis d type code o =
    ((type ≡ ev_abs) × ((l : AbsLines) × (o ≡ some l) × ShowsValues l (abs_at d code)))
    ⊎ (((type == ev_abs) ≡ false) × (o ≡ none))

-- Among the lines there is one for the code, with its name.
abbrev pub Listed : NameMaps → Libevdev → ℕ → ℕ → List CodeLine → Type 0
Listed maps d type code lines =
    (line : CodeLine) × Memᴰ line lines
    × (line.code ≡ code)
    × (line.name ≡ event_code_get_name maps type code)
    × ShowsAxis d type code line.axis

unless_zero-UnlessZero : (v : ℤ) → UnlessZero (unless_zero v) v
unless_zero-UnlessZero v = elim (Bool-cases (eq_ℤ v (pos 0))) [
  | inl zero' ↦ inl (ground (arith, zero'), rw zero' refl)
  | inr other ↦ inr (other, rw other refl)
]

print_abs_bits-ShowsValues :
    (d : Libevdev) (code : ℕ)
    → has_event_code d.masks ev_abs code ≡ true
    → (l : AbsLines) × (print_abs_bits d code ≡ some l) × ShowsValues l (abs_at d code)
unfolding print_abs_bits
print_abs_bits-ShowsValues d code has =
    let a = abs_at d code in
    (
      record {
        value = a.value;
        minimum = a.minimum;
        maximum = a.maximum;
        fuzz = unless_zero a.fuzz;
        flat = unless_zero a.flat;
        resolution = unless_zero a.resolution;
      },
      rw (ap not has, get_abs_info_lem d code has) refl,
      (
        refl,
        refl,
        refl,
        unless_zero-UnlessZero a.fuzz,
        unless_zero-UnlessZero a.flat,
        unless_zero-UnlessZero a.resolution,
      ),
    )

module _ (maps : NameMaps) (d : Libevdev) where
  abbrev pub line_of : ℕ → ℕ → CodeLine
  line_of type code = record {
    code = code;
    name = event_code_get_name maps type code;
    axis = if type == ev_abs then print_abs_bits d code else none;
  }

  -- One round of the loop of print_code_bits.
  unfoldable pub code_line : ℕ → ℕ → Option CodeLine
  unfolding print_abs_bits
  code_line type code =
      if not (has_event_code d.masks type code) then none else some (line_of type code)

  -- print_code_bits
  unfoldable pub print_code_bits : ℕ → ℕ → List CodeLine
  unfolding code_line
  print_code_bits type max = collect (code_line type) (max + 1) 0

  -- The switch of print_bits.
  unfoldable pub codes_of : ℕ → List CodeLine
  unfolding print_code_bits
  codes_of type =
      if type == ev_key
      then print_code_bits ev_key key_max
      else if type == ev_rel
      then print_code_bits ev_rel rel_max
      else if type == ev_abs
      then print_code_bits ev_abs abs_max
      else if type == ev_led
      then print_code_bits ev_led led_max
      else []

  unfoldable pub type_line : ℕ → Option TypeLine
  unfolding codes_of
  type_line type = some (record {
    type = type;
    has_line = has_event_type d.masks type;
    name = event_type_get_name maps type;
    codes = codes_of type;
  })

  -- print_bits
  unfoldable pub print_bits : List TypeLine
  unfolding type_line
  print_bits = collect type_line (ev_max_type + 1) 0

  unfoldable pub prop_line : ℕ → Option PropLine
  prop_line prop =
      if has_property d.masks prop
      then some (record { prop = prop; name = property_get_name maps prop })
      else none

  -- print_props
  unfoldable pub print_props : List PropLine
  unfolding prop_line
  print_props = collect prop_line (input_prop_max + 1) 0

  line_of-ShowsAxis :
      (type code : ℕ)
      → has_event_code d.masks type code ≡ true
      → ShowsAxis d type code (line_of type code).axis
  line_of-ShowsAxis type code has = elim (Bool-cases (type == ev_abs)) [
    | inl axis ↦
        let is_abs : type ≡ ev_abs = ==→eq type ev_abs axis in
        let (l, printed, shows) =
          print_abs_bits-ShowsValues d code
            (ap (λ t. has_event_code d.masks t code) (sym is_abs) ∙ has) in
        inl (is_abs, (l, rw axis printed, shows))
    | inr other ↦ inr (other, rw other refl)
  ]

  -- The device has a code of a type exactly if libevdev-events, asked to list the codes up to a
  -- highest one that is not below it, lists it with its name and, for an axis, its value, minimum
  -- and maximum, and its fuzz, flat and resolution unless they are 0.
  pub print_code_bits_lem :
      (type max code : ℕ)
      → code ≤ max
      → Listed maps d type code (print_code_bits type max)
        ↔ (has_event_code d.masks type code ≡ true)
  unfolding print_code_bits code_line
  print_code_bits_lem type max code within = (
    (λ m.
        let (line, there, same_code, same_name, shows) = m in
        let (j, low, high, listed) = collect_sound (code_line type) (max + 1) 0 line there in
        elim (Bool-cases (has_event_code d.masks type j)) [
          | inl has ↦
              let same = some_injective (rw (ap not has, code_line) at listed) in
              let here : j ≡ code = ap (λ x. x.code) same ∙ same_code in rw (sym here) has
          | inr lacks ↦ absurd (ground (arith, listed, lacks))
        ]),
    (λ has. (
      line_of type code,
      collect_complete (code_line type) (max + 1) 0 code (line_of type code) (omega arith)
          (omega arith) (rw (ap not has, code_line) refl),
      refl,
      refl,
      line_of-ShowsAxis type code has,
    )),
  )
