-- ===== src/Names/EventNames/Values.antt =====
-- The arrays of include/event-names.h for the types but EV_KEY, by code.
use android_external_libevde.Base.{List, [], ◌∷◌}
use android_external_libevde.Names.{NameEntry, named}

abbrev pub ev_map_entries : List NameEntry
ev_map_entries =
    named "EV_SYN" 0
    ∷ named "EV_KEY" 1
    ∷ named "EV_REL" 2
    ∷ named "EV_ABS" 3
    ∷ named "EV_MSC" 4
    ∷ named "EV_SW" 5
    ∷ named "EV_LED" 17
    ∷ named "EV_SND" 18
    ∷ named "EV_REP" 20
    ∷ named "EV_FF" 21
    ∷ named "EV_PWR" 22
    ∷ named "EV_FF_STATUS" 23
    ∷ named "EV_MAX" 31
    ∷ []

abbrev pub rel_map : List NameEntry
rel_map =
    named "REL_X" 0
    ∷ named "REL_Y" 1
    ∷ named "REL_Z" 2
    ∷ named "REL_RX" 3
    ∷ named "REL_RY" 4
    ∷ named "REL_RZ" 5
    ∷ named "REL_HWHEEL" 6
    ∷ named "REL_DIAL" 7
    ∷ named "REL_WHEEL" 8
    ∷ named "REL_MISC" 9
    ∷ named "REL_RESERVED" 10
    ∷ named "REL_WHEEL_HI_RES" 11
    ∷ named "REL_HWHEEL_HI_RES" 12
    ∷ named "REL_MAX" 15
    ∷ []

abbrev pub abs_map : List NameEntry
abs_map =
    named "ABS_X" 0
    ∷ named "ABS_Y" 1
    ∷ named "ABS_Z" 2
    ∷ named "ABS_RX" 3
    ∷ named "ABS_RY" 4
    ∷ named "ABS_RZ" 5
    ∷ named "ABS_THROTTLE" 6
    ∷ named "ABS_RUDDER" 7
    ∷ named "ABS_WHEEL" 8
    ∷ named "ABS_GAS" 9
    ∷ named "ABS_BRAKE" 10
    ∷ named "ABS_HAT0X" 16
    ∷ named "ABS_HAT0Y" 17
    ∷ named "ABS_HAT1X" 18
    ∷ named "ABS_HAT1Y" 19
    ∷ named "ABS_HAT2X" 20
    ∷ named "ABS_HAT2Y" 21
    ∷ named "ABS_HAT3X" 22
    ∷ named "ABS_HAT3Y" 23
    ∷ named "ABS_PRESSURE" 24
    ∷ named "ABS_DISTANCE" 25
    ∷ named "ABS_TILT_X" 26
    ∷ named "ABS_TILT_Y" 27
    ∷ named "ABS_TOOL_WIDTH" 28
    ∷ named "ABS_VOLUME" 32
    ∷ named "ABS_MISC" 40
    ∷ named "ABS_RESERVED" 46
    ∷ named "ABS_MT_SLOT" 47
    ∷ named "ABS_MT_TOUCH_MAJOR" 48
    ∷ named "ABS_MT_TOUCH_MINOR" 49
    ∷ named "ABS_MT_WIDTH_MAJOR" 50
    ∷ named "ABS_MT_WIDTH_MINOR" 51
    ∷ named "ABS_MT_ORIENTATION" 52
    ∷ named "ABS_MT_POSITION_X" 53
    ∷ named "ABS_MT_POSITION_Y" 54
    ∷ named "ABS_MT_TOOL_TYPE" 55
    ∷ named "ABS_MT_BLOB_ID" 56
    ∷ named "ABS_MT_TRACKING_ID" 57
    ∷ named "ABS_MT_PRESSURE" 58
    ∷ named "ABS_MT_DISTANCE" 59
    ∷ named "ABS_MT_TOOL_X" 60
    ∷ named "ABS_MT_TOOL_Y" 61
    ∷ named "ABS_MAX" 63
    ∷ []

abbrev pub led_map : List NameEntry
led_map =
    named "LED_NUML" 0
    ∷ named "LED_CAPSL" 1
    ∷ named "LED_SCROLLL" 2
    ∷ named "LED_COMPOSE" 3
    ∷ named "LED_KANA" 4
    ∷ named "LED_SLEEP" 5
    ∷ named "LED_SUSPEND" 6
    ∷ named "LED_MUTE" 7
    ∷ named "LED_MISC" 8
    ∷ named "LED_MAIL" 9
    ∷ named "LED_CHARGING" 10
    ∷ named "LED_MAX" 15
    ∷ []

abbrev pub snd_map : List NameEntry
snd_map = named "SND_CLICK" 0 ∷ named "SND_BELL" 1 ∷ named "SND_TONE" 2 ∷ named "SND_MAX" 7 ∷ []

abbrev pub msc_map : List NameEntry
msc_map =
    named "MSC_SERIAL" 0
    ∷ named "MSC_PULSELED" 1
    ∷ named "MSC_GESTURE" 2
    ∷ named "MSC_RAW" 3
    ∷ named "MSC_SCAN" 4
    ∷ named "MSC_TIMESTAMP" 5
    ∷ named "MSC_MAX" 7
    ∷ []

abbrev pub sw_map : List NameEntry
sw_map =
    named "SW_LID" 0
    ∷ named "SW_TABLET_MODE" 1
    ∷ named "SW_HEADPHONE_INSERT" 2
    ∷ named "SW_RFKILL_ALL" 3
    ∷ named "SW_MICROPHONE_INSERT" 4
    ∷ named "SW_DOCK" 5
    ∷ named "SW_LINEOUT_INSERT" 6
    ∷ named "SW_JACK_PHYSICAL_INSERT" 7
    ∷ named "SW_VIDEOOUT_INSERT" 8
    ∷ named "SW_CAMERA_LENS_COVER" 9
    ∷ named "SW_KEYPAD_SLIDE" 10
    ∷ named "SW_FRONT_PROXIMITY" 11
    ∷ named "SW_ROTATE_LOCK" 12
    ∷ named "SW_LINEIN_INSERT" 13
    ∷ named "SW_MUTE_DEVICE" 14
    ∷ named "SW_PEN_INSERTED" 15
    ∷ []
