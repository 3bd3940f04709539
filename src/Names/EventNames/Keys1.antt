-- ===== src/Names/EventNames/Keys1.antt =====
-- A part of `key_map` of include/event-names.h, in its order.
use android_external_libevde.Base.{List, [], ◌∷◌}
use android_external_libevde.Names.{NameEntry, named}

abbrev pub keys_1 : List NameEntry
keys_1 =
    named "KEY_RESERVED" 0
    ∷ named "KEY_ESC" 1
    ∷ named "KEY_1" 2
    ∷ named "KEY_2" 3
    ∷ named "KEY_3" 4
    ∷ named "KEY_4" 5
    ∷ named "KEY_5" 6
    ∷ named "KEY_6" 7
    ∷ named "KEY_7" 8
    ∷ named "KEY_8" 9
    ∷ named "KEY_9" 10
    ∷ named "KEY_0" 11
    ∷ named "KEY_MINUS" 12
    ∷ named "KEY_EQUAL" 13
    ∷ named "KEY_BACKSPACE" 14
    ∷ named "KEY_TAB" 15
    ∷ named "KEY_Q" 16
    ∷ named "KEY_W" 17
    ∷ named "KEY_E" 18
    ∷ named "KEY_R" 19
    ∷ named "KEY_T" 20
    ∷ named "KEY_Y" 21
    ∷ named "KEY_U" 22
    ∷ named "KEY_I" 23
    ∷ named "KEY_O" 24
    ∷ named "KEY_P" 25
    ∷ named "KEY_LEFTBRACE" 26
    ∷ named "KEY_RIGHTBRACE" 27
    ∷ named "KEY_ENTER" 28
    ∷ named "KEY_LEFTCTRL" 29
    ∷ named "KEY_A" 30
    ∷ named "KEY_S" 31
    ∷ named "KEY_D" 32
    ∷ named "KEY_F" 33
    ∷ named "KEY_G" 34
    ∷ named "KEY_H" 35
    ∷ named "KEY_J" 36
    ∷ named "KEY_K" 37
    ∷ named "KEY_L" 38
    ∷ named "KEY_SEMICOLON" 39
    ∷ named "KEY_APOSTROPHE" 40
    ∷ named "KEY_GRAVE" 41
    ∷ named "KEY_LEFTSHIFT" 42
    ∷ named "KEY_BACKSLASH" 43
    ∷ named "KEY_Z" 44
    ∷ named "KEY_X" 45
    ∷ named "KEY_C" 46
    ∷ named "KEY_V" 47
    ∷ named "KEY_B" 48
    ∷ named "KEY_N" 49
    ∷ named "KEY_M" 50
    ∷ named "KEY_COMMA" 51
    ∷ named "KEY_DOT" 52
    ∷ named "KEY_SLASH" 53
    ∷ named "KEY_RIGHTSHIFT" 54
    ∷ named "KEY_KPASTERISK" 55
    ∷ named "KEY_LEFTALT" 56
    ∷ named "KEY_SPACE" 57
    ∷ named "KEY_CAPSLOCK" 58
    ∷ named "KEY_F1" 59
    ∷ named "KEY_F2" 60
    ∷ named "KEY_F3" 61
    ∷ named "KEY_F4" 62
    ∷ named "KEY_F5" 63
    ∷ named "KEY_F6" 64
    ∷ named "KEY_F7" 65
    ∷ named "KEY_F8" 66
    ∷ named "KEY_F9" 67
    ∷ named "KEY_F10" 68
    ∷ named "KEY_NUMLOCK" 69
    ∷ named "KEY_SCROLLLOCK" 70
    ∷ named "KEY_KP7" 71
    ∷ named "KEY_KP8" 72
    ∷ named "KEY_KP9" 73
    ∷ named "KEY_KPMINUS" 74
    ∷ named "KEY_KP4" 75
    ∷ named "KEY_KP5" 76
    ∷ named "KEY_KP6" 77
    ∷ named "KEY_KPPLUS" 78
    ∷ named "KEY_KP1" 79
    ∷ named "KEY_KP2" 80
    ∷ named "KEY_KP3" 81
    ∷ named "KEY_KP0" 82
    ∷ named "KEY_KPDOT" 83
    ∷ named "KEY_ZENKAKUHANKAKU" 85
    ∷ named "KEY_102ND" 86
    ∷ named "KEY_F11" 87
    ∷ named "KEY_F12" 88
    ∷ named "KEY_RO" 89
    ∷ named "KEY_KATAKANA" 90
    ∷ named "KEY_HIRAGANA" 91
    ∷ named "KEY_HENKAN" 92
    ∷ named "KEY_KATAKANAHIRAGANA" 93
    ∷ named "KEY_MUHENKAN" 94
    ∷ named "KEY_KPJPCOMMA" 95
    ∷ named "KEY_KPENTER" 96
    ∷ named "KEY_RIGHTCTRL" 97
    ∷ named "KEY_KPSLASH" 98
    ∷ named "KEY_SYSRQ" 99
    ∷ named "KEY_RIGHTALT" 100
    ∷ named "KEY_LINEFEED" 101
    ∷ named "KEY_HOME" 102
    ∷ named "KEY_UP" 103
    ∷ named "KEY_PAGEUP" 104
    ∷ named "KEY_LEFT" 105
    ∷ named "KEY_RIGHT" 106
    ∷ named "KEY_END" 107
    ∷ named "KEY_DOWN" 108
    ∷ named "KEY_PAGEDOWN" 109
    ∷ named "KEY_INSERT" 110
    ∷ []
