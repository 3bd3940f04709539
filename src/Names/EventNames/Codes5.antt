-- ===== src/Names/EventNames/Codes5.antt =====
-- A part of `code_names` of include/event-names.h, in its order.
use android_external_libevde.Base.{List, [], ◌∷◌}
use android_external_libevde.Names.{NameEntry, named}

abbrev pub codes_5 : List NameEntry
codes_5 =
    named "KEY_NEXTSONG" 163
    ∷ named "KEY_NEXT_FAVORITE" 624
    ∷ named "KEY_NUMERIC_0" 512
    ∷ named "KEY_NUMERIC_1" 513
    ∷ named "KEY_NUMERIC_11" 620
    ∷ named "KEY_NUMERIC_12" 621
    ∷ named "KEY_NUMERIC_2" 514
    ∷ named "KEY_NUMERIC_3" 515
    ∷ named "KEY_NUMERIC_4" 516
    ∷ named "KEY_NUMERIC_5" 517
    ∷ named "KEY_NUMERIC_6" 518
    ∷ named "KEY_NUMERIC_7" 519
    ∷ named "KEY_NUMERIC_8" 520
    ∷ named "KEY_NUMERIC_9" 521
    ∷ named "KEY_NUMERIC_A" 524
    ∷ named "KEY_NUMERIC_B" 525
    ∷ named "KEY_NUMERIC_C" 526
    ∷ named "KEY_NUMERIC_D" 527
    ∷ named "KEY_NUMERIC_POUND" 523
    ∷ named "KEY_NUMERIC_STAR" 522
    ∷ named "KEY_NUMLOCK" 69
    ∷ named "KEY_O" 24
    ∷ named "KEY_OK" 352
    ∷ named "KEY_ONSCREEN_KEYBOARD" 632
    ∷ named "KEY_OPEN" 134
    ∷ named "KEY_OPTION" 357
    ∷ named "KEY_P" 25
    ∷ named "KEY_PAGEDOWN" 109
    ∷ named "KEY_PAGEUP" 104
    ∷ named "KEY_PASTE" 135
    ∷ named "KEY_PAUSE" 119
    ∷ named "KEY_PAUSECD" 201
    ∷ named "KEY_PAUSE_RECORD" 626
    ∷ named "KEY_PC" 376
    ∷ named "KEY_PHONE" 169
    ∷ named "KEY_PLAY" 207
    ∷ named "KEY_PLAYCD" 200
    ∷ named "KEY_PLAYER" 387
    ∷ named "KEY_PLAYPAUSE" 164
    ∷ named "KEY_POWER" 116
    ∷ named "KEY_POWER2" 356
    ∷ named "KEY_PRESENTATION" 425
    ∷ named "KEY_PREVIOUS" 412
    ∷ named "KEY_PREVIOUSSONG" 165
    ∷ named "KEY_PRINT" 210
    ∷ named "KEY_PROG1" 148
    ∷ named "KEY_PROG2" 149
    ∷ named "KEY_PROG3" 202
    ∷ named "KEY_PROG4" 203
    ∷ named "KEY_PROGRAM" 362
    ∷ named "KEY_PROPS" 130
    ∷ named "KEY_PVR" 366
    ∷ named "KEY_Q" 16
    ∷ named "KEY_QUESTION" 214
    ∷ named "KEY_R" 19
    ∷ named "KEY_RADIO" 385
    ∷ named "KEY_RECORD" 167
    ∷ named "KEY_RED" 398
    ∷ named "KEY_REDO" 182
    ∷ named "KEY_REFRESH" 173
    ∷ named "KEY_REPLY" 232
    ∷ named "KEY_RESERVED" 0
    ∷ named "KEY_RESTART" 408
    ∷ named "KEY_REWIND" 168
    ∷ named "KEY_RFKILL" 247
    ∷ named "KEY_RIGHT" 106
    ∷ named "KEY_RIGHTALT" 100
    ∷ named "KEY_RIGHTBRACE" 27
    ∷ named "KEY_RIGHTCTRL" 97
    ∷ named "KEY_RIGHTMETA" 126
    ∷ named "KEY_RIGHTSHIFT" 54
    ∷ named "KEY_RIGHT_DOWN" 615
    ∷ named "KEY_RIGHT_UP" 614
    ∷ named "KEY_RO" 89
    ∷ named "KEY_ROOT_MENU" 618
    ∷ named "KEY_ROTATE_DISPLAY" 153
    ∷ named "KEY_ROTATE_LOCK_TOGGLE" 561
    ∷ named "KEY_S" 31
    ∷ named "KEY_SAT" 381
    ∷ named "KEY_SAT2" 382
    ∷ named "KEY_SAVE" 234
    ∷ named "KEY_SCALE" 120
    ∷ named "KEY_SCREENSAVER" 581
    ∷ named "KEY_SCROLLDOWN" 178
    ∷ named "KEY_SCROLLLOCK" 70
    ∷ named "KEY_SCROLLUP" 177
    ∷ named "KEY_SEARCH" 217
    ∷ named "KEY_SELECT" 353
    ∷ named "KEY_SEMICOLON" 39
    ∷ named "KEY_SEND" 231
    ∷ named "KEY_SENDFILE" 145
    ∷ named "KEY_SETUP" 141
    ∷ named "KEY_SHOP" 221
    ∷ named "KEY_SHUFFLE" 410
    ∷ named "KEY_SLASH" 53
    ∷ named "KEY_SLEEP" 142
    ∷ named "KEY_SLOW" 409
    ∷ named "KEY_SLOWREVERSE" 630
    ∷ named "KEY_SOUND" 213
    ∷ named "KEY_SPACE" 57
    ∷ named "KEY_SPELLCHECK" 432
    ∷ named "KEY_SPORT" 220
    ∷ named "KEY_SPREADSHEET" 423
    ∷ named "KEY_STOP" 128
    ∷ named "KEY_STOPCD" 166
    ∷ named "KEY_STOP_RECORD" 625
    ∷ named "KEY_SUBTITLE" 370
    ∷ named "KEY_SUSPEND" 205
    ∷ named "KEY_SWITCHVIDEOMODE" 227
    ∷ named "KEY_SYSRQ" 99
    ∷ named "KEY_T" 20
    ∷ named "KEY_TAB" 15
    ∷ named "KEY_TAPE" 384
    ∷ []
