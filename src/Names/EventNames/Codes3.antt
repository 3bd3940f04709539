-- ===== src/Names/EventNames/Codes3.antt =====
-- A part of `code_names` of include/event-names.h, in its order.
use android_external_libevde.Base.{List, [], ◌∷◌}
use android_external_libevde.Names.{NameEntry, named}

abbrev pub codes_3 : List NameEntry
codes_3 =
    named "KEY_BRL_DOT4" 500
    ∷ named "KEY_BRL_DOT5" 501
    ∷ named "KEY_BRL_DOT6" 502
    ∷ named "KEY_BRL_DOT7" 503
    ∷ named "KEY_BRL_DOT8" 504
    ∷ named "KEY_BRL_DOT9" 505
    ∷ named "KEY_BUTTONCONFIG" 576
    ∷ named "KEY_C" 46
    ∷ named "KEY_CALC" 140
    ∷ named "KEY_CALENDAR" 397
    ∷ named "KEY_CAMERA" 212
    ∷ named "KEY_CAMERA_DOWN" 536
    ∷ named "KEY_CAMERA_FOCUS" 528
    ∷ named "KEY_CAMERA_LEFT" 537
    ∷ named "KEY_CAMERA_RIGHT" 538
    ∷ named "KEY_CAMERA_UP" 535
    ∷ named "KEY_CAMERA_ZOOMIN" 533
    ∷ named "KEY_CAMERA_ZOOMOUT" 534
    ∷ named "KEY_CANCEL" 223
    ∷ named "KEY_CAPSLOCK" 58
    ∷ named "KEY_CD" 383
    ∷ named "KEY_CHANNEL" 363
    ∷ named "KEY_CHANNELDOWN" 403
    ∷ named "KEY_CHANNELUP" 402
    ∷ named "KEY_CHAT" 216
    ∷ named "KEY_CLEAR" 355
    ∷ named "KEY_CLOSE" 206
    ∷ named "KEY_CLOSECD" 160
    ∷ named "KEY_COFFEE" 152
    ∷ named "KEY_COMMA" 51
    ∷ named "KEY_COMPOSE" 127
    ∷ named "KEY_COMPUTER" 157
    ∷ named "KEY_CONFIG" 171
    ∷ named "KEY_CONNECT" 218
    ∷ named "KEY_CONTEXT_MENU" 438
    ∷ named "KEY_CONTROLPANEL" 579
    ∷ named "KEY_COPY" 133
    ∷ named "KEY_CUT" 137
    ∷ named "KEY_CYCLEWINDOWS" 154
    ∷ named "KEY_D" 32
    ∷ named "KEY_DASHBOARD" 204
    ∷ named "KEY_DATA" 631
    ∷ named "KEY_DATABASE" 426
    ∷ named "KEY_DELETE" 111
    ∷ named "KEY_DELETEFILE" 146
    ∷ named "KEY_DEL_EOL" 448
    ∷ named "KEY_DEL_EOS" 449
    ∷ named "KEY_DEL_LINE" 451
    ∷ named "KEY_DIGITS" 413
    ∷ named "KEY_DIRECTORY" 394
    ∷ named "KEY_DISPLAYTOGGLE" 431
    ∷ named "KEY_DISPLAY_OFF" 245
    ∷ named "KEY_DOCUMENTS" 235
    ∷ named "KEY_DOLLAR" 434
    ∷ named "KEY_DOT" 52
    ∷ named "KEY_DOWN" 108
    ∷ named "KEY_DVD" 389
    ∷ named "KEY_E" 18
    ∷ named "KEY_EDIT" 176
    ∷ named "KEY_EDITOR" 422
    ∷ named "KEY_EJECTCD" 161
    ∷ named "KEY_EJECTCLOSECD" 162
    ∷ named "KEY_EMAIL" 215
    ∷ named "KEY_END" 107
    ∷ named "KEY_ENTER" 28
    ∷ named "KEY_EPG" 365
    ∷ named "KEY_EQUAL" 13
    ∷ named "KEY_ESC" 1
    ∷ named "KEY_EURO" 435
    ∷ named "KEY_EXIT" 174
    ∷ named "KEY_F" 33
    ∷ named "KEY_F1" 59
    ∷ named "KEY_F10" 68
    ∷ named "KEY_F11" 87
    ∷ named "KEY_F12" 88
    ∷ named "KEY_F13" 183
    ∷ named "KEY_F14" 184
    ∷ named "KEY_F15" 185
    ∷ named "KEY_F16" 186
    ∷ named "KEY_F17" 187
    ∷ named "KEY_F18" 188
    ∷ named "KEY_F19" 189
    ∷ named "KEY_F2" 60
    ∷ named "KEY_F20" 190
    ∷ named "KEY_F21" 191
    ∷ named "KEY_F22" 192
    ∷ named "KEY_F23" 193
    ∷ named "KEY_F24" 194
    ∷ named "KEY_F3" 61
    ∷ named "KEY_F4" 62
    ∷ named "KEY_F5" 63
    ∷ named "KEY_F6" 64
    ∷ named "KEY_F7" 65
    ∷ named "KEY_F8" 66
    ∷ named "KEY_F9" 67
    ∷ named "KEY_FASTFORWARD" 208
    ∷ named "KEY_FASTREVERSE" 629
    ∷ named "KEY_FAVORITES" 364
    ∷ named "KEY_FILE" 144
    ∷ named "KEY_FINANCE" 219
    ∷ named "KEY_FIND" 136
    ∷ named "KEY_FIRST" 404
    ∷ named "KEY_FN" 464
    ∷ named "KEY_FN_1" 478
    ∷ named "KEY_FN_2" 479
    ∷ named "KEY_FN_B" 484
    ∷ named "KEY_FN_D" 480
    ∷ named "KEY_FN_E" 481
    ∷ named "KEY_FN_ESC" 465
    ∷ named "KEY_FN_F" 482
    ∷ named "KEY_FN_F1" 466
    ∷ named "KEY_FN_F10" 475
    ∷ named "KEY_FN_F11" 476
    ∷ []
