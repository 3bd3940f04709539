-- ===== src/Names/EventNames/Codes4.antt =====
-- A part of `code_names` of include/event-names.h, in its order.
use android_external_libevde.Base.{List, [], ◌∷◌}
use android_external_libevde.Names.{NameEntry, named}

abbrev pub codes_4 : List NameEntry
codes_4 =
    named "KEY_FN_F12" 477
    ∷ named "KEY_FN_F2" 467
    ∷ named "KEY_FN_F3" 468
    ∷ named "KEY_FN_F4" 469
    ∷ named "KEY_FN_F5" 470
    ∷ named "KEY_FN_F6" 471
    ∷ named "KEY_FN_F7" 472
    ∷ named "KEY_FN_F8" 473
    ∷ named "KEY_FN_F9" 474
    ∷ named "KEY_FN_S" 483
    ∷ named "KEY_FORWARD" 159
    ∷ named "KEY_FORWARDMAIL" 233
    ∷ named "KEY_FRAMEBACK" 436
    ∷ named "KEY_FRAMEFORWARD" 437
    ∷ named "KEY_FRONT" 132
    ∷ named "KEY_FULL_SCREEN" 372
    ∷ named "KEY_G" 34
    ∷ named "KEY_GAMES" 417
    ∷ named "KEY_GOTO" 354
    ∷ named "KEY_GRAPHICSEDITOR" 424
    ∷ named "KEY_GRAVE" 41
    ∷ named "KEY_GREEN" 399
    ∷ named "KEY_H" 35
    ∷ named "KEY_HANGEUL" 122
    ∷ named "KEY_HANJA" 123
    ∷ named "KEY_HELP" 138
    ∷ named "KEY_HENKAN" 92
    ∷ named "KEY_HIRAGANA" 91
    ∷ named "KEY_HOME" 102
    ∷ named "KEY_HOMEPAGE" 172
    ∷ named "KEY_HP" 211
    ∷ named "KEY_I" 23
    ∷ named "KEY_IMAGES" 442
    ∷ named "KEY_INFO" 358
    ∷ named "KEY_INSERT" 110
    ∷ named "KEY_INS_LINE" 450
    ∷ named "KEY_ISO" 170
    ∷ named "KEY_J" 36
    ∷ named "KEY_JOURNAL" 578
    ∷ named "KEY_K" 37
    ∷ named "KEY_KATAKANA" 90
    ∷ named "KEY_KATAKANAHIRAGANA" 93
    ∷ named "KEY_KBDILLUMDOWN" 229
    ∷ named "KEY_KBDILLUMTOGGLE" 228
    ∷ named "KEY_KBDILLUMUP" 230
    ∷ named "KEY_KBDINPUTASSIST_ACCEPT" 612
    ∷ named "KEY_KBDINPUTASSIST_CANCEL" 613
    ∷ named "KEY_KBDINPUTASSIST_NEXT" 609
    ∷ named "KEY_KBDINPUTASSIST_NEXTGROUP" 611
    ∷ named "KEY_KBDINPUTASSIST_PREV" 608
    ∷ named "KEY_KBDINPUTASSIST_PREVGROUP" 610
    ∷ named "KEY_KBD_LAYOUT_NEXT" 584
    ∷ named "KEY_KEYBOARD" 374
    ∷ named "KEY_KP0" 82
    ∷ named "KEY_KP1" 79
    ∷ named "KEY_KP2" 80
    ∷ named "KEY_KP3" 81
    ∷ named "KEY_KP4" 75
    ∷ named "KEY_KP5" 76
    ∷ named "KEY_KP6" 77
    ∷ named "KEY_KP7" 71
    ∷ named "KEY_KP8" 72
    ∷ named "KEY_KP9" 73
    ∷ named "KEY_KPASTERISK" 55
    ∷ named "KEY_KPCOMMA" 121
    ∷ named "KEY_KPDOT" 83
    ∷ named "KEY_KPENTER" 96
    ∷ named "KEY_KPEQUAL" 117
    ∷ named "KEY_KPJPCOMMA" 95
    ∷ named "KEY_KPLEFTPAREN" 179
    ∷ named "KEY_KPMINUS" 74
    ∷ named "KEY_KPPLUS" 78
    ∷ named "KEY_KPPLUSMINUS" 118
    ∷ named "KEY_KPRIGHTPAREN" 180
    ∷ named "KEY_KPSLASH" 98
    ∷ named "KEY_L" 38
    ∷ named "KEY_LANGUAGE" 368
    ∷ named "KEY_LAST" 405
    ∷ named "KEY_LEFT" 105
    ∷ named "KEY_LEFTALT" 56
    ∷ named "KEY_LEFTBRACE" 26
    ∷ named "KEY_LEFTCTRL" 29
    ∷ named "KEY_LEFTMETA" 125
    ∷ named "KEY_LEFTSHIFT" 42
    ∷ named "KEY_LEFT_DOWN" 617
    ∷ named "KEY_LEFT_UP" 616
    ∷ named "KEY_LIGHTS_TOGGLE" 542
    ∷ named "KEY_LINEFEED" 101
    ∷ named "KEY_LIST" 395
    ∷ named "KEY_LOGOFF" 433
    ∷ named "KEY_M" 50
    ∷ named "KEY_MACRO" 112
    ∷ named "KEY_MAIL" 155
    ∷ named "KEY_MAX" 767
    ∷ named "KEY_MEDIA" 226
    ∷ named "KEY_MEDIA_REPEAT" 439
    ∷ named "KEY_MEDIA_TOP_MENU" 619
    ∷ named "KEY_MEMO" 396
    ∷ named "KEY_MENU" 139
    ∷ named "KEY_MESSENGER" 430
    ∷ named "KEY_MHP" 367
    ∷ named "KEY_MICMUTE" 248
    ∷ named "KEY_MINUS" 12
    ∷ named "KEY_MODE" 373
    ∷ named "KEY_MOVE" 175
    ∷ named "KEY_MP3" 391
    ∷ named "KEY_MSDOS" 151
    ∷ named "KEY_MUHENKAN" 94
    ∷ named "KEY_MUTE" 113
    ∷ named "KEY_N" 49
    ∷ named "KEY_NEW" 181
    ∷ named "KEY_NEWS" 427
    ∷ named "KEY_NEXT" 407
    ∷ []
