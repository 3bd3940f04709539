-- ===== src/Tests/Lookups.antt =====
-- The theorems on names at concrete names, with a search through the table for `bsearch`.
use mathlib.Core.List.{Memᴰ}
use android_external_libevde.Base.{
  ◌≡◌, ◌≢◌, refl, sym, ◌∙◌, ℤ, pos, eq_ℤ, eq_ℤ→eq, Option, none, some, List, [], ◌∷◌, if◌then◌else◌,
  Bool-cases, inl, inr, arith, ap,
}
use android_external_libevde.Codes.{event_type_get_max, ev_rel, ev_abs, abs_mt_tool_type}
use android_external_libevde.Names.{
  NameEntry, text, lookup_name, event_code_from_name, event_type_from_code_name,
  event_code_from_code_name, event_value_from_name, NameLookup, event_code_get_name,
  event_value_get_name,
}
use android_external_libevde.Names.Order.{text_order}
use android_external_libevde.Names.Lookup.{BsearchLaws, find_named, lookup_name_lem}
use android_external_libevde.Names.EventNames.{tables, name_at, names_of}
use android_external_libevde.Names.EventNames.More.{prop_table}
use android_external_libevde.Names.RoundTrip.{code_name_round_trip, value_name_round_trip}

-- The first element that compares equal.
unfoldable pub first_match : (NameEntry → ℤ) → List NameEntry → Option NameEntry
first_match c [] = none
first_match c (e ∷ es) = let rest = first_match c es in if eq_ℤ (c e) (pos 0) then some e else rest

first_match_sound :
    (c : NameEntry → ℤ) (es : List NameEntry) {e : NameEntry}
    → first_match c es ≡ some e
    → Memᴰ e es × (c e ≡ pos 0)
unfolding first_match
first_match_sound c [] h = ground arith
first_match_sound c (f ∷ es) h = elim (Bool-cases (eq_ℤ (c f) (pos 0))) [
  | inl here ↦
      let same : f ≡ _ = ground arith in
      (Memᴰ.head (sym same), ap c (sym same) ∙ eq_ℤ→eq (c f) (pos 0) here)
  | inr there ↦ let rest = first_match_sound c es (ground arith) in (Memᴰ.tail rest.0, rest.1)
]

first_match_complete :
    (c : NameEntry → ℤ) (es : List NameEntry)
    → first_match c es ≡ none
    → (e : NameEntry) → Memᴰ e es
    → c e ≢ pos 0
unfolding first_match
first_match_complete c [] h e m = elim m [ ]
first_match_complete c (f ∷ es) h e (Memᴰ.head q) =
    λ z. let here : c f ≡ pos 0 = sym (ap c q) ∙ z in absurd (ground (arith, here))
first_match_complete c (f ∷ es) h e (Memᴰ.tail m) = first_match_complete c es (ground arith) e m

pub first_match-BsearchLaws : BsearchLaws first_match
first_match-BsearchLaws = record {
  found = λ c es s h. first_match_sound c es h;
  missed = λ c es s h. first_match_complete c es h;
}

code_name_round_trip_example :
    (event_code_from_name first_match tables ev_rel (text "REL_WHEEL") ≡ pos 8)
    × (event_type_from_code_name first_match tables (text "REL_WHEEL") ≡ pos ev_rel)
    × (event_code_from_code_name first_match tables (text "REL_WHEEL") ≡ pos 8)
unfolding event_code_get_name event_type_get_max name_at names_of
code_name_round_trip_example =
    code_name_round_trip first_match first_match-BsearchLaws ev_rel 8 (text "REL_WHEEL") refl refl

value_name_round_trip_example :
    event_value_from_name first_match tables ev_abs abs_mt_tool_type (text "MT_TOOL_PALM") ≡ pos 2
unfolding event_value_get_name name_at
value_name_round_trip_example =
    value_name_round_trip first_match first_match-BsearchLaws ev_abs abs_mt_tool_type (pos 2)
      (text "MT_TOOL_PALM") refl

-- Five bytes of a longer text.
palm_and_more : NameLookup
palm_and_more = record { name = text "INPUT_PROP_DIRECTLY"; len = 17 }

lookup_name_example :
    lookup_name first_match prop_table palm_and_more
    ≡ find_named prop_table (text "INPUT_PROP_DIRECT")
unfolding palm_and_more text_order
lookup_name_example =
    lookup_name_lem first_match first_match-BsearchLaws prop_table palm_and_more (omega arith) refl
