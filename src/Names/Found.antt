-- ===== src/Names/Found.antt =====
-- The tables of include/event-names.h: their order, and which names of the arrays they have.
use android_external_libevde.Base.{
  ℕ, Bool, true, List, [], ◌∷◌, ◌≡◌, refl, ℤ, pos, minus_one, eq_ℤ, ◌&&◌, ◌||◌, ◌==◌, leb, Option,
  none, some, length, Bool-cases, inl, inr, sym, ap, ◌∙◌, ==→eq, arith,
}
use mathlib.Core.Path.{ap₂}
use android_external_libevde.Event.{Text}
use android_external_libevde.Names.{NameEntry, Tables, type_from_prefix}
use android_external_libevde.Names.Order.{text_order}
use android_external_libevde.Names.Lookup.{find_named, ascends}
use android_external_libevde.Names.EventNames.{
  tables, name_at, code_table, event_type_arrays, names_of, TypeNames,
}
use android_external_libevde.Names.EventNames.Values.{ev_map_entries}
use android_external_libevde.Names.EventNames.More.{
  ev_table, prop_table, tool_type_table, input_prop_entries, mt_tool_entries,
}
use android_external_libevde.Codes.{ev_ff}

pub code_table-ascends : ascends code_table ≡ true
unfolding text_order
code_table-ascends = refl

pub ev_table-ascends : ascends ev_table ≡ true
unfolding text_order
ev_table-ascends = refl

pub prop_table-ascends : ascends prop_table ≡ true
unfolding text_order
prop_table-ascends = refl

pub tool_type_table-ascends : ascends tool_type_table ≡ true
unfolding text_order
tool_type_table-ascends = refl

-- The names FF_STATUS_STOPPED and FF_STATUS_MAX stand in `ff_map` and belong to EV_FF_STATUS.
abbrev pub is_status : ℕ → ℕ → Bool
is_status type code = type == ev_ff && leb code 1

abbrev pub value_of : Option NameEntry → ℤ
value_of none = minus_one
value_of (some e) = pos e.value

unfoldable pub is_found : List NameEntry → NameEntry → Bool
unfolding find_named text_order
is_found table e = eq_ℤ (value_of (find_named table e.name)) (pos e.value)

unfoldable pub leads_back : Tables → ℕ → NameEntry → Bool
unfolding is_found
leads_back t type e =
    is_status type e.value
    || (eq_ℤ (type_from_prefix t.ev_names e.name (length e.name)) (pos type)
        && is_found t.code_names e)

abbrev pub all : (NameEntry → Bool) → List NameEntry → Bool
all p [] = true
all p (e ∷ es) = let rest = all p es in p e && rest

abbrev pub lead_back : TypeNames → Bool
lead_back a = all (leads_back tables a.type) a.names

abbrev pub all_lead_back : List TypeNames → Bool
all_lead_back [] = true
all_lead_back (a ∷ arrays) = let rest = all_lead_back arrays in lead_back a && rest

-- Every name in the arrays is found in the sorted table, with its type and its code.
pub event_type_arrays-lead_back : all_lead_back event_type_arrays ≡ true
unfolding leads_back is_found type_from_prefix
event_type_arrays-lead_back = refl

pub name_at-all :
    (p : NameEntry → Bool) (es : List NameEntry) (i : ℕ) {n : Text}
    → all p es ≡ true
    → name_at es i ≡ some n
    → p (record { name = n; value = i }) ≡ true
unfolding name_at
name_at-all p [] i a h = ground arith
name_at-all p (e ∷ es) i {n} a h = elim (Bool-cases (e.value == i)) [
  | inl here ↦
      let same_name : e.name ≡ n = ground arith in
      ap₂ (λ m v. p (record { name = m; value = v })) (sym same_name) (sym (==→eq e.value i here))
      ∙ ground arith
  | inr there ↦ name_at-all p es i (ground arith) (ground arith)
]

pub ev_map-found : all (is_found ev_table) ev_map_entries ≡ true
unfolding is_found
ev_map-found = refl

pub input_prop_map-found : all (is_found prop_table) input_prop_entries ≡ true
unfolding is_found
input_prop_map-found = refl

pub mt_tool_map-found : all (is_found tool_type_table) mt_tool_entries ≡ true
unfolding is_found
mt_tool_map-found = refl

pub names_of-all :
    (arrays : List TypeNames) (type : ℕ)
    → all_lead_back arrays ≡ true
    → all (leads_back tables type) (names_of arrays type) ≡ true
unfolding names_of
names_of-all [] type h = refl
names_of-all (a ∷ arrays) type h = elim (Bool-cases (a.type == type)) [
  | inl same ↦
      rw same
        (ap (λ t. all (leads_back tables t) a.names) (sym (==→eq a.type type same)) ∙ ground arith)
  | inr other ↦ rw other (names_of-all arrays type (ground arith))
]

pub names_lead_back :
    (type code : ℕ) {n : Text}
    → name_at (names_of event_type_arrays type) code ≡ some n
    → leads_back tables type (record { name = n; value = code }) ≡ true
names_lead_back type code h =
    name_at-all (leads_back tables type) (names_of event_type_arrays type) code
      (names_of-all event_type_arrays type event_type_arrays-lead_back) h
