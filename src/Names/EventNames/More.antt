-- ===== src/Names/EventNames/More.antt =====
-- The arrays of include/event-names.h for the other types, the properties and the tools, and the
-- short sorted tables.
use android_external_libevde.Base.{List, [], ◌∷◌}
use android_external_libevde.Names.{NameEntry, named}

abbrev pub ff_map : List NameEntry
ff_map =
    named "FF_STATUS_STOPPED" 0
    ∷ named "FF_STATUS_MAX" 1
    ∷ named "FF_AUTOCENTER" 97
    ∷ named "FF_GAIN" 96
    ∷ named "FF_RUMBLE" 80
    ∷ named "FF_PERIODIC" 81
    ∷ named "FF_CONSTANT" 82
    ∷ named "FF_SPRING" 83
    ∷ named "FF_FRICTION" 84
    ∷ named "FF_DAMPER" 85
    ∷ named "FF_INERTIA" 86
    ∷ named "FF_RAMP" 87
    ∷ named "FF_SQUARE" 88
    ∷ named "FF_TRIANGLE" 89
    ∷ named "FF_SINE" 90
    ∷ named "FF_SAW_UP" 91
    ∷ named "FF_SAW_DOWN" 92
    ∷ named "FF_CUSTOM" 93
    ∷ named "FF_MAX" 127
    ∷ []

abbrev pub syn_map : List NameEntry
syn_map =
    named "SYN_REPORT" 0
    ∷ named "SYN_CONFIG" 1
    ∷ named "SYN_MT_REPORT" 2
    ∷ named "SYN_DROPPED" 3
    ∷ named "SYN_MAX" 15
    ∷ []

abbrev pub rep_map : List NameEntry
rep_map = named "REP_DELAY" 0 ∷ named "REP_PERIOD" 1 ∷ []

abbrev pub input_prop_entries : List NameEntry
input_prop_entries =
    named "INPUT_PROP_POINTER" 0
    ∷ named "INPUT_PROP_DIRECT" 1
    ∷ named "INPUT_PROP_BUTTONPAD" 2
    ∷ named "INPUT_PROP_SEMI_MT" 3
    ∷ named "INPUT_PROP_TOPBUTTONPAD" 4
    ∷ named "INPUT_PROP_POINTING_STICK" 5
    ∷ named "INPUT_PROP_ACCELEROMETER" 6
    ∷ named "INPUT_PROP_MAX" 31
    ∷ []

abbrev pub mt_tool_entries : List NameEntry
mt_tool_entries =
    named "MT_TOOL_FINGER" 0
    ∷ named "MT_TOOL_PEN" 1
    ∷ named "MT_TOOL_PALM" 2
    ∷ named "MT_TOOL_DIAL" 10
    ∷ named "MT_TOOL_MAX" 15
    ∷ []

abbrev pub tool_type_table : List NameEntry
tool_type_table =
    named "MT_TOOL_DIAL" 10
    ∷ named "MT_TOOL_FINGER" 0
    ∷ named "MT_TOOL_MAX" 15
    ∷ named "MT_TOOL_PALM" 2
    ∷ named "MT_TOOL_PEN" 1
    ∷ []

abbrev pub ev_table : List NameEntry
ev_table =
    named "EV_ABS" 3
    ∷ named "EV_FF" 21
    ∷ named "EV_FF_STATUS" 23
    ∷ named "EV_KEY" 1
    ∷ named "EV_LED" 17
    ∷ named "EV_MAX" 31
    ∷ named "EV_MSC" 4
    ∷ named "EV_PWR" 22
    ∷ named "EV_REL" 2
    ∷ named "EV_REP" 20
    ∷ named "EV_SND" 18
    ∷ named "EV_SW" 5
    ∷ named "EV_SYN" 0
    ∷ []

abbrev pub prop_table : List NameEntry
prop_table =
    named "INPUT_PROP_ACCELEROMETER" 6
    ∷ named "INPUT_PROP_BUTTONPAD" 2
    ∷ named "INPUT_PROP_DIRECT" 1
    ∷ named "INPUT_PROP_MAX" 31
    ∷ named "INPUT_PROP_POINTER" 0
    ∷ named "INPUT_PROP_POINTING_STICK" 5
    ∷ named "INPUT_PROP_SEMI_MT" 3
    ∷ named "INPUT_PROP_TOPBUTTONPAD" 4
    ∷ []
