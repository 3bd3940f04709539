-- ===== src/Names.antt =====
-- Looking names up (libevdev/libevdev-names.c) and the names of values (libevdev/libevdev.c), over
-- the tables of include/event-names.h. `bsearch` is the C library's.
pub mod EventNames
pub mod Order
pub mod Lookup
pub mod Found
pub mod RoundTrip
use Prim.Native.Char.{code}
use Prim.Native.String.{String}
use android_external_libevde.Base.{
  ℕ, zero, suc, Bool, not, ltb, leb, ◌==◌, ◌||◌, ◌&&◌, if◌then◌else◌, ℤ, pos, minus_one, eq_ℤ, lt_ℤ,
  is_neg, to_unsigned, Option, none, some, List, [], ◌∷◌, get_or, drop, length,
}
use android_external_libevde.Codes.{
  ev_key, ev_abs, ev_ff_status, ev_max_type, input_prop_max, abs_mt_tool_type, event_type_get_max,
}
use android_external_libevde.Event.{Text}

-- The bytes of a literal.
abbrev pub text : String → Text
text String.[] = []
text (String.◌∷◌ c s) = code c ∷ text s

-- `struct name_entry`
pub record NameEntry : Type 0 where
  pub name : Text
  pub value : ℕ

-- A row of a table.
abbrev pub named : String → ℕ → NameEntry
named n v = record { name = text n; value = v }

-- `struct name_lookup`: `len` bytes from `name` on, which may go on behind them.
pub record NameLookup : Type 0 where
  pub name : Text
  pub len : ℕ

-- `strncmp`: the sign of its result. A text ends where C has the byte 0.
unfoldable pub strncmp : Text → Text → ℕ → ℤ
strncmp a b zero = pos 0
strncmp [] [] (suc n) = pos 0
strncmp [] (y ∷ b) (suc n) = minus_one
strncmp (x ∷ a) [] (suc n) = pos 1
strncmp (x ∷ a) (y ∷ b) (suc n) =
    let rest = strncmp a b n in if x == y then rest else if ltb x y then minus_one else pos 1

-- `startswith` of libevdev/libevdev-util.h.
unfoldable pub starts_with : Text → ℕ → Text → ℕ → Bool
unfolding strncmp
starts_with str len prefix plen = leb plen len && eq_ℤ (strncmp str prefix plen) (pos 0)

unfoldable pub cmp_entry : NameLookup → NameEntry → ℤ
unfolding strncmp
cmp_entry lookup entry =
    let r = strncmp lookup.name entry.name lookup.len in
    if eq_ℤ r (pos 0) then (if get_or entry.name lookup.len 0 == 0 then pos 0 else minus_one) else r

-- The loop of `type_from_prefix` over `ev_names`: a name's part behind "EV_", then `_`.
unfoldable pub type_from_entries : List NameEntry → Text → ℕ → ℤ
unfolding starts_with
type_from_entries [] name len = minus_one
type_from_entries (entry ∷ entries) name len =
    let e = drop 3 entry.name in
    let l = length e in
    let rest = type_from_entries entries name len in
    if ltb l len && starts_with name len e l && get_or name l 0 == b'_'
    then pos entry.value
    else rest

unfoldable pub type_from_prefix : List NameEntry → Text → ℕ → ℤ
unfolding type_from_entries
type_from_prefix ev_names name len =
    if starts_with name len (text "MAX_") 4
    then minus_one
    else if starts_with name len (text "BTN_") 4
    then pos ev_key
    else if starts_with name len (text "FF_STATUS_") 10
    then pos ev_ff_status
    else type_from_entries ev_names name len

-- The tables that the lookups go through.
pub record Tables : Type 0 where
  pub ev_names : List NameEntry
  pub code_names : List NameEntry
  pub tool_type_names : List NameEntry
  pub prop_names : List NameEntry

-- `bsearch` is given the comparison with the key.
abbrev pub Bsearch : Type 0
Bsearch = (NameEntry → ℤ) → List NameEntry → Option NameEntry

module _ (bsearch : Bsearch) where
  unfoldable pub lookup_name : List NameEntry → NameLookup → Option NameEntry
  unfolding cmp_entry
  lookup_name array lookup = bsearch (cmp_entry lookup) array

  abbrev entry_value : Option NameEntry → ℤ
  entry_value none = minus_one
  entry_value (some entry) = pos entry.value

  unfoldable pub event_type_from_name_n : Tables → Text → ℕ → ℤ
  unfolding lookup_name
  event_type_from_name_n t name len =
      entry_value (lookup_name t.ev_names (record { name = name; len = len }))

  -- The name must be one of the type's.
  unfoldable pub event_code_from_name_n : Tables → ℕ → Text → ℕ → ℤ
  unfolding lookup_name type_from_prefix
  event_code_from_name_n t type name len =
      let real_type = type_from_prefix t.ev_names name len in
      if is_neg real_type || not (to_unsigned real_type == type)
      then minus_one
      else entry_value (lookup_name t.code_names (record { name = name; len = len }))

  unfoldable pub event_value_from_name_n : Tables → ℕ → ℕ → Text → ℕ → ℤ
  unfolding lookup_name
  event_value_from_name_n t type code name len =
      if not (type == ev_abs) || not (code == abs_mt_tool_type)
      then minus_one
      else entry_value (lookup_name t.tool_type_names (record { name = name; len = len }))

  unfoldable pub property_from_name_n : Tables → Text → ℕ → ℤ
  unfolding lookup_name
  property_from_name_n t name len =
      entry_value (lookup_name t.prop_names (record { name = name; len = len }))

  unfoldable pub event_code_from_code_name_n : Tables → Text → ℕ → ℤ
  unfolding lookup_name
  event_code_from_code_name_n t name len =
      entry_value (lookup_name t.code_names (record { name = name; len = len }))

  unfoldable pub event_type_from_code_name_n : Tables → Text → ℕ → ℤ
  unfolding lookup_name type_from_prefix
  event_type_from_code_name_n t name len =
      elim (lookup_name t.code_names (record { name = name; len = len })) [
        | none ↦ minus_one
        | some entry ↦ type_from_prefix t.ev_names name len
      ]

  -- The functions without `_n` take `strlen(name)` for the length.
  unfoldable pub event_type_from_name : Tables → Text → ℤ
  unfolding event_type_from_name_n
  event_type_from_name t name = event_type_from_name_n t name (length name)

  unfoldable pub event_code_from_name : Tables → ℕ → Text → ℤ
  unfolding event_code_from_name_n
  event_code_from_name t type name = event_code_from_name_n t type name (length name)

  unfoldable pub event_value_from_name : Tables → ℕ → ℕ → Text → ℤ
  unfolding event_value_from_name_n
  event_value_from_name t type code name = event_value_from_name_n t type code name (length name)

  unfoldable pub property_from_name : Tables → Text → ℤ
  unfolding property_from_name_n
  property_from_name t name = property_from_name_n t name (length name)

  unfoldable pub event_code_from_code_name : Tables → Text → ℤ
  unfolding event_code_from_code_name_n
  event_code_from_code_name t name = event_code_from_code_name_n t name (length name)

  unfoldable pub event_type_from_code_name : Tables → Text → ℤ
  unfolding event_type_from_code_name_n
  event_type_from_code_name t name = event_type_from_code_name_n t name (length name)

-- The names of values, over the arrays `ev_map`, `event_type_map`, `mt_tool_map` and
-- `input_prop_map`, whose entries are NULL where there is no name.
pub record NameMaps : Type 0 where
  pub ev_map : ℕ → Option Text
  pub event_type_map : ℕ → ℕ → Option Text
  pub mt_tool_map : ℕ → Option Text
  pub input_prop_map : ℕ → Option Text

unfoldable pub event_type_get_name : NameMaps → ℕ → Option Text
event_type_get_name m type = if ltb ev_max_type type then none else m.ev_map type

unfoldable pub event_code_get_name : NameMaps → ℕ → ℕ → Option Text
event_code_get_name m type code =
    let max = event_type_get_max type in
    if eq_ℤ max minus_one || ltb (to_unsigned max) code then none else m.event_type_map type code

-- MT_TOOL_MAX
abbrev pub mt_tool_max : ℕ
mt_tool_max = 0x0f

unfoldable pub event_value_get_name : NameMaps → ℕ → ℕ → ℤ → Option Text
event_value_get_name m type code value =
    if not (type == ev_abs) || not (code == abs_mt_tool_type)
    then none
    else if is_neg value || lt_ℤ (pos mt_tool_max) value
    then none
    else m.mt_tool_map (to_unsigned value)

unfoldable pub property_get_name : NameMaps → ℕ → Option Text
property_get_name m prop = if ltb input_prop_max prop then none else m.input_prop_map prop
