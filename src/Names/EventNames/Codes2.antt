-- ===== src/Names/EventNames/Codes2.antt =====
-- A part of `code_names` of include/event-names.h, in its order.
use android_external_libevde.Base.{List, [], ◌∷◌}
use android_external_libevde.Names.{NameEntry, named}

abbrev pub codes_2 : List NameEntry
codes_2 =
    named "BTN_TRIGGER_HAPPY11" 714
    ∷ named "BTN_TRIGGER_HAPPY12" 715
    ∷ named "BTN_TRIGGER_HAPPY13" 716
    ∷ named "BTN_TRIGGER_HAPPY14" 717
    ∷ named "BTN_TRIGGER_HAPPY15" 718
    ∷ named "BTN_TRIGGER_HAPPY16" 719
    ∷ named "BTN_TRIGGER_HAPPY17" 720
    ∷ named "BTN_TRIGGER_HAPPY18" 721
    ∷ named "BTN_TRIGGER_HAPPY19" 722
    ∷ named "BTN_TRIGGER_HAPPY2" 705
    ∷ named "BTN_TRIGGER_HAPPY20" 723
    ∷ named "BTN_TRIGGER_HAPPY21" 724
    ∷ named "BTN_TRIGGER_HAPPY22" 725
    ∷ named "BTN_TRIGGER_HAPPY23" 726
    ∷ named "BTN_TRIGGER_HAPPY24" 727
    ∷ named "BTN_TRIGGER_HAPPY25" 728
    ∷ named "BTN_TRIGGER_HAPPY26" 729
    ∷ named "BTN_TRIGGER_HAPPY27" 730
    ∷ named "BTN_TRIGGER_HAPPY28" 731
    ∷ named "BTN_TRIGGER_HAPPY29" 732
    ∷ named "BTN_TRIGGER_HAPPY3" 706
    ∷ named "BTN_TRIGGER_HAPPY30" 733
    ∷ named "BTN_TRIGGER_HAPPY31" 734
    ∷ named "BTN_TRIGGER_HAPPY32" 735
    ∷ named "BTN_TRIGGER_HAPPY33" 736
    ∷ named "BTN_TRIGGER_HAPPY34" 737
    ∷ named "BTN_TRIGGER_HAPPY35" 738
    ∷ named "BTN_TRIGGER_HAPPY36" 739
    ∷ named "BTN_TRIGGER_HAPPY37" 740
    ∷ named "BTN_TRIGGER_HAPPY38" 741
    ∷ named "BTN_TRIGGER_HAPPY39" 742
    ∷ named "BTN_TRIGGER_HAPPY4" 707
    ∷ named "BTN_TRIGGER_HAPPY40" 743
    ∷ named "BTN_TRIGGER_HAPPY5" 708
    ∷ named "BTN_TRIGGER_HAPPY6" 709
    ∷ named "BTN_TRIGGER_HAPPY7" 710
    ∷ named "BTN_TRIGGER_HAPPY8" 711
    ∷ named "BTN_TRIGGER_HAPPY9" 712
    ∷ named "BTN_WEST" 308
    ∷ named "BTN_X" 307
    ∷ named "BTN_Y" 308
    ∷ named "BTN_Z" 309
    ∷ named "FF_AUTOCENTER" 97
    ∷ named "FF_CONSTANT" 82
    ∷ named "FF_CUSTOM" 93
    ∷ named "FF_DAMPER" 85
    ∷ named "FF_FRICTION" 84
    ∷ named "FF_GAIN" 96
    ∷ named "FF_INERTIA" 86
    ∷ named "FF_MAX" 127
    ∷ named "FF_PERIODIC" 81
    ∷ named "FF_RAMP" 87
    ∷ named "FF_RUMBLE" 80
    ∷ named "FF_SAW_DOWN" 92
    ∷ named "FF_SAW_UP" 91
    ∷ named "FF_SINE" 90
    ∷ named "FF_SPRING" 83
    ∷ named "FF_SQUARE" 88
    ∷ named "FF_STATUS_MAX" 1
    ∷ named "FF_STATUS_STOPPED" 0
    ∷ named "FF_TRIANGLE" 89
    ∷ named "KEY_0" 11
    ∷ named "KEY_1" 2
    ∷ named "KEY_102ND" 86
    ∷ named "KEY_10CHANNELSDOWN" 441
    ∷ named "KEY_10CHANNELSUP" 440
    ∷ named "KEY_2" 3
    ∷ named "KEY_3" 4
    ∷ named "KEY_3D_MODE" 623
    ∷ named "KEY_4" 5
    ∷ named "KEY_5" 6
    ∷ named "KEY_6" 7
    ∷ named "KEY_7" 8
    ∷ named "KEY_8" 9
    ∷ named "KEY_9" 10
    ∷ named "KEY_A" 30
    ∷ named "KEY_AB" 406
    ∷ named "KEY_ADDRESSBOOK" 429
    ∷ named "KEY_AGAIN" 129
    ∷ named "KEY_ALS_TOGGLE" 560
    ∷ named "KEY_ALTERASE" 222
    ∷ named "KEY_ANGLE" 371
    ∷ named "KEY_APOSTROPHE" 40
    ∷ named "KEY_APPSELECT" 580
    ∷ named "KEY_ARCHIVE" 361
    ∷ named "KEY_ASPECT_RATIO" 375
    ∷ named "KEY_ASSISTANT" 583
    ∷ named "KEY_ATTENDANT_OFF" 540
    ∷ named "KEY_ATTENDANT_ON" 539
    ∷ named "KEY_ATTENDANT_TOGGLE" 541
    ∷ named "KEY_AUDIO" 392
    ∷ named "KEY_AUDIO_DESC" 622
    ∷ named "KEY_AUX" 390
    ∷ named "KEY_B" 48
    ∷ named "KEY_BACK" 158
    ∷ named "KEY_BACKSLASH" 43
    ∷ named "KEY_BACKSPACE" 14
    ∷ named "KEY_BASSBOOST" 209
    ∷ named "KEY_BATTERY" 236
    ∷ named "KEY_BLUE" 401
    ∷ named "KEY_BLUETOOTH" 237
    ∷ named "KEY_BOOKMARKS" 156
    ∷ named "KEY_BREAK" 411
    ∷ named "KEY_BRIGHTNESSDOWN" 224
    ∷ named "KEY_BRIGHTNESSUP" 225
    ∷ named "KEY_BRIGHTNESS_AUTO" 244
    ∷ named "KEY_BRIGHTNESS_CYCLE" 243
    ∷ named "KEY_BRIGHTNESS_MAX" 593
    ∷ named "KEY_BRIGHTNESS_MIN" 592
    ∷ named "KEY_BRL_DOT1" 497
    ∷ named "KEY_BRL_DOT10" 506
    ∷ named "KEY_BRL_DOT2" 498
    ∷ named "KEY_BRL_DOT3" 499
    ∷ []
