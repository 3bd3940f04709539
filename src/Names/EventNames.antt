-- ===== src/Names/EventNames.antt =====
-- The tables of include/event-names.h. An array with designated places is the list of the places
-- that are set, and a place that is not set is NULL.
pub mod Keys1
pub mod Keys2
pub mod Keys3
pub mod Keys4
pub mod Keys5
pub mod Codes1
pub mod Codes2
pub mod Codes3
pub mod Codes4
pub mod Codes5
pub mod Codes6
pub mod Values
pub mod More
use Keys1.{keys_1}
use Keys2.{keys_2}
use Keys3.{keys_3}
use Keys4.{keys_4}
use Keys5.{keys_5}
use Codes1.{codes_1}
use Codes2.{codes_2}
use Codes3.{codes_3}
use Codes4.{codes_4}
use Codes5.{codes_5}
use Codes6.{codes_6}
use Values.*
use More.*
use android_external_libevde.Base.{ℕ, List, [], ◌∷◌, ◌++◌, Option, none, some, ◌==◌, if◌then◌else◌}
use android_external_libevde.Codes.{
  ev_syn, ev_key, ev_rel, ev_abs, ev_msc, ev_sw, ev_led, ev_snd, ev_rep, ev_ff,
}
use android_external_libevde.Event.{Text}
use android_external_libevde.Names.{NameEntry, NameMaps, Tables}

unfoldable pub name_at : List NameEntry → ℕ → Option Text
name_at [] i = none
name_at (entry ∷ entries) i =
    let rest = name_at entries i in if entry.value == i then some entry.name else rest

abbrev pub key_map : List NameEntry
key_map = keys_1 ++ (keys_2 ++ (keys_3 ++ (keys_4 ++ keys_5)))

abbrev pub code_table : List NameEntry
code_table = codes_1 ++ (codes_2 ++ (codes_3 ++ (codes_4 ++ (codes_5 ++ codes_6))))

-- A place of `event_type_map`.
pub record TypeNames : Type 0 where
  pub type : ℕ
  pub names : List NameEntry

abbrev of_type : ℕ → List NameEntry → TypeNames
of_type t ns = record { type = t; names = ns }

abbrev pub event_type_arrays : List TypeNames
event_type_arrays =
    of_type ev_rel rel_map
    ∷ of_type ev_abs abs_map
    ∷ of_type ev_key key_map
    ∷ of_type ev_led led_map
    ∷ of_type ev_snd snd_map
    ∷ of_type ev_msc msc_map
    ∷ of_type ev_sw sw_map
    ∷ of_type ev_ff ff_map
    ∷ of_type ev_syn syn_map
    ∷ of_type ev_rep rep_map
    ∷ []

-- The array of a type, empty for NULL.
unfoldable pub names_of : List TypeNames → ℕ → List NameEntry
names_of [] t = []
names_of (a ∷ arrays) t = let rest = names_of arrays t in if a.type == t then a.names else rest

abbrev pub name_maps : NameMaps
name_maps = record {
  ev_map = name_at ev_map_entries;
  event_type_map = λ type. name_at (names_of event_type_arrays type);
  mt_tool_map = name_at mt_tool_entries;
  input_prop_map = name_at input_prop_entries;
}

abbrev pub tables : Tables
tables = record {
  ev_names = ev_table;
  code_names = code_table;
  tool_type_names = tool_type_table;
  prop_names = prop_table;
}
