-- ===== src/Names/RoundTrip.antt =====
-- From the name of a type, code, value or property back to its number, over the tables of
-- include/event-names.h.
use android_external_libevde.Base.{
  ℕ, Bool, true, List, ◌≡◌, refl, ℤ, pos, minus_one, ◌&&◌, ◌||◌, Option, none, some, to_unsigned,
  negsuc, take, take_all, length, Option-cases, eq_ℤ→eq, inl, inr, sym, ap, ◌∙◌, false, arith,
}
use android_external_libevde.Event.{Text}
use android_external_libevde.Names.{
  NameEntry, NameMaps, Tables, Bsearch, type_from_prefix, event_code_from_name,
  event_type_from_code_name, event_code_from_code_name, event_code_get_name, lookup_name,
  entry_value, event_type_get_name, event_type_from_name, property_get_name, property_from_name,
  event_value_get_name, event_value_from_name,
}
use android_external_libevde.Names.Lookup.{find_named, ascends, BsearchLaws, lookup_name_lem}
use android_external_libevde.Names.EventNames.{name_maps, tables, name_at}
use android_external_libevde.Names.EventNames.Values.{ev_map_entries}
use android_external_libevde.Names.EventNames.More.{
  ev_table, prop_table, tool_type_table, input_prop_entries, mt_tool_entries,
}
use android_external_libevde.Codes.{ev_abs, abs_mt_tool_type}
use android_external_libevde.Names.Found.{
  code_table-ascends, ev_table-ascends, prop_table-ascends, tool_type_table-ascends, is_status,
  value_of, is_found, leads_back, all, name_at-all, ev_map-found, input_prop_map-found,
  mt_tool_map-found, names_lead_back,
}

take-length : (xs : Text) → take (length xs) xs ≡ xs
take-length xs = take_all (length xs) xs (omega arith)

both_true : (b c d : Bool) → (b || (c && d)) ≡ true → b ≡ false → (c ≡ true) × (d ≡ true)
both_true b c d h k = ground arith

event_code_get_name-some :
    (m : NameMaps) (type code : ℕ) {n : Text}
    → event_code_get_name m type code ≡ some n
    → m.event_type_map type code ≡ some n
unfolding event_code_get_name
event_code_get_name-some m type code h = ground arith

event_type_get_name-some :
    (m : NameMaps) (type : ℕ) {n : Text}
    → event_type_get_name m type ≡ some n
    → m.ev_map type ≡ some n
unfolding event_type_get_name
event_type_get_name-some m type h = ground arith

property_get_name-some :
    (m : NameMaps) (prop : ℕ) {n : Text}
    → property_get_name m prop ≡ some n
    → m.input_prop_map prop ≡ some n
unfolding property_get_name
property_get_name-some m prop h = ground arith

event_value_get_name-some :
    (m : NameMaps) (type code : ℕ) (value : ℤ) {n : Text}
    → event_value_get_name m type code value ≡ some n
    → (type ≡ ev_abs)
      × (code ≡ abs_mt_tool_type)
      × (m.mt_tool_map (to_unsigned value) ≡ some n)
      × (pos (to_unsigned value) ≡ value)
unfolding event_value_get_name
event_value_get_name-some m type code (pos v) h = (ground arith, ground arith, ground arith, refl)
event_value_get_name-some m type code (negsuc v) h = ground arith

module _ (bsearch : Bsearch) (laws : BsearchLaws bsearch) where
  lookup_text :
      (table : List NameEntry) (n : Text)
      → ascends table ≡ true
      → lookup_name bsearch table (record { name = n; len = length n }) ≡ find_named table n
  lookup_text table n a =
      lookup_name_lem bsearch laws table (record { name = n; len = length n }) (omega arith) a
      ∙ ap (find_named table) (take-length n)

module _ (bsearch : Bsearch) (laws : BsearchLaws bsearch) (t : Tables) where
  leads_back-Found :
      (type code : ℕ) (n : Text)
      → ascends t.code_names ≡ true
      → leads_back t type (record { name = n; value = code }) ≡ true
      → is_status type code ≡ false
      → (event_code_from_name bsearch t type n ≡ pos code)
        × (event_type_from_code_name bsearch t n ≡ pos type)
        × (event_code_from_code_name bsearch t n ≡ pos code)
  unfolding event_code_from_name event_type_from_code_name event_code_from_code_name leads_back
      is_found
  leads_back-Found type code n a h ordinary =
      let parts = both_true _ _ _ h ordinary in
      let prefix = eq_ℤ→eq (type_from_prefix t.ev_names n (length n)) (pos type) parts.0 in
      let value = eq_ℤ→eq (value_of (find_named t.code_names n)) (pos code) parts.1 in
      elim (Option-cases (find_named t.code_names n)) [
        | inl absent ↦ absurd (ground (arith, value, absent))
        | inr (e, found) ↦
            let there = lookup_text bsearch laws t.code_names n a ∙ found in
            let code_there : pos e.value ≡ pos code = ap value_of (sym found) ∙ value in
            (
              rw (there, prefix) (ground (arith, code_there)),
              ap
                    (λ o. elim o [
                      | none ↦ minus_one
                      | some e ↦ type_from_prefix t.ev_names n (length n)
                    ])
                    there
                  ∙ prefix,
              rw there code_there,
            )
      ]

module _ (bsearch : Bsearch) (laws : BsearchLaws bsearch) where
  -- If a code of a type has a name, looking that name up gives back the code and the type, for
  -- every `bsearch` that keeps what the C library documents. The two names FF_STATUS_ are left
  -- out: they stand in the array of EV_FF and belong to EV_FF_STATUS.
  pub code_name_round_trip :
      (type code : ℕ) (n : Text)
      → event_code_get_name name_maps type code ≡ some n
      → is_status type code ≡ false
      → (event_code_from_name bsearch tables type n ≡ pos code)
        × (event_type_from_code_name bsearch tables n ≡ pos type)
        × (event_code_from_code_name bsearch tables n ≡ pos code)
  code_name_round_trip type code n h ordinary =
      leads_back-Found bsearch laws tables type code n code_table-ascends
        (names_lead_back type code (event_code_get_name-some name_maps type code h)) ordinary

  value_of_lem : (o : Option NameEntry) → entry_value bsearch o ≡ value_of o
  value_of_lem none = refl
  value_of_lem (some e) = refl

  found-lookup :
      (table es : List NameEntry) (i : ℕ) {n : Text}
      → ascends table ≡ true
      → all (is_found table) es ≡ true
      → name_at es i ≡ some n
      → entry_value bsearch (lookup_name bsearch table (record { name = n; len = length n }))
        ≡ pos i
  unfolding is_found
  found-lookup table es i {n} a f h =
      ap (entry_value bsearch) (lookup_text bsearch laws table n a)
      ∙ value_of_lem (find_named table n)
      ∙ eq_ℤ→eq (value_of (find_named table n)) (pos i) (name_at-all (is_found table) es i f h)

  type_name_round_trip :
      (type : ℕ) (n : Text)
      → event_type_get_name name_maps type ≡ some n
      → event_type_from_name bsearch tables n ≡ pos type
  unfolding event_type_from_name event_type_get_name
  type_name_round_trip type n h =
      found-lookup ev_table ev_map_entries type ev_table-ascends ev_map-found
        (event_type_get_name-some name_maps type h)

  property_name_round_trip :
      (prop : ℕ) (n : Text)
      → property_get_name name_maps prop ≡ some n
      → property_from_name bsearch tables n ≡ pos prop
  unfolding property_from_name property_get_name
  property_name_round_trip prop n h =
      found-lookup prop_table input_prop_entries prop prop_table-ascends input_prop_map-found
        (property_get_name-some name_maps prop h)

  -- If a value of an axis has a name, looking that name up for the axis gives back the value, for
  -- every `bsearch` that keeps what the C library documents.
  pub value_name_round_trip :
      (type code : ℕ) (value : ℤ) (n : Text)
      → event_value_get_name name_maps type code value ≡ some n
      → event_value_from_name bsearch tables type code n ≡ value
  unfolding event_value_from_name event_value_get_name
  value_name_round_trip type code value n h =
      let (a, b, there, same) = event_value_get_name-some name_maps type code value h in
      rw (a, b)
        (found-lookup tool_type_table mt_tool_entries (to_unsigned value) tool_type_table-ascends
            mt_tool_map-found there
          ∙ same)
