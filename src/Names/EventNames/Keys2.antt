-- ===== src/Names/EventNames/Keys2.antt =====
-- A part of `key_map` of include/event-names.h, in its order.
use android_external_libevde.Base.{List, [], ◌∷◌}
use android_external_libevde.Names.{NameEntry, named}

abbrev pub keys_2 : List NameEntry
keys_2 =
    named "KEY_DELETE" 111
    ∷ named "KEY_MACRO" 112
    ∷ named "KEY_MUTE" 113
    ∷ named "KEY_VOLUMEDOWN" 114
    ∷ named "KEY_VOLUMEUP" 115
    ∷ named "KEY_POWER" 116
    ∷ named "KEY_KPEQUAL" 117
    ∷ named "KEY_KPPLUSMINUS" 118
    ∷ named "KEY_PAUSE" 119
    ∷ named "KEY_SCALE" 120
    ∷ named "KEY_KPCOMMA" 121
    ∷ named "KEY_HANGEUL" 122
    ∷ named "KEY_HANJA" 123
    ∷ named "KEY_YEN" 124
    ∷ named "KEY_LEFTMETA" 125
    ∷ named "KEY_RIGHTMETA" 126
    ∷ named "KEY_COMPOSE" 127
    ∷ named "KEY_STOP" 128
    ∷ named "KEY_AGAIN" 129
    ∷ named "KEY_PROPS" 130
    ∷ named "KEY_UNDO" 131
    ∷ named "KEY_FRONT" 132
    ∷ named "KEY_COPY" 133
    ∷ named "KEY_OPEN" 134
    ∷ named "KEY_PASTE" 135
    ∷ named "KEY_FIND" 136
    ∷ named "KEY_CUT" 137
    ∷ named "KEY_HELP" 138
    ∷ named "KEY_MENU" 139
    ∷ named "KEY_CALC" 140
    ∷ named "KEY_SETUP" 141
    ∷ named "KEY_SLEEP" 142
    ∷ named "KEY_WAKEUP" 143
    ∷ named "KEY_FILE" 144
    ∷ named "KEY_SENDFILE" 145
    ∷ named "KEY_DELETEFILE" 146
    ∷ named "KEY_XFER" 147
    ∷ named "KEY_PROG1" 148
    ∷ named "KEY_PROG2" 149
    ∷ named "KEY_WWW" 150
    ∷ named "KEY_MSDOS" 151
    ∷ named "KEY_COFFEE" 152
    ∷ named "KEY_ROTATE_DISPLAY" 153
    ∷ named "KEY_CYCLEWINDOWS" 154
    ∷ named "KEY_MAIL" 155
    ∷ named "KEY_BOOKMARKS" 156
    ∷ named "KEY_COMPUTER" 157
    ∷ named "KEY_BACK" 158
    ∷ named "KEY_FORWARD" 159
    ∷ named "KEY_CLOSECD" 160
    ∷ named "KEY_EJECTCD" 161
    ∷ named "KEY_EJECTCLOSECD" 162
    ∷ named "KEY_NEXTSONG" 163
    ∷ named "KEY_PLAYPAUSE" 164
    ∷ named "KEY_PREVIOUSSONG" 165
    ∷ named "KEY_STOPCD" 166
    ∷ named "KEY_RECORD" 167
    ∷ named "KEY_REWIND" 168
    ∷ named "KEY_PHONE" 169
    ∷ named "KEY_ISO" 170
    ∷ named "KEY_CONFIG" 171
    ∷ named "KEY_HOMEPAGE" 172
    ∷ named "KEY_REFRESH" 173
    ∷ named "KEY_EXIT" 174
    ∷ named "KEY_MOVE" 175
    ∷ named "KEY_EDIT" 176
    ∷ named "KEY_SCROLLUP" 177
    ∷ named "KEY_SCROLLDOWN" 178
    ∷ named "KEY_KPLEFTPAREN" 179
    ∷ named "KEY_KPRIGHTPAREN" 180
    ∷ named "KEY_NEW" 181
    ∷ named "KEY_REDO" 182
    ∷ named "KEY_F13" 183
    ∷ named "KEY_F14" 184
    ∷ named "KEY_F15" 185
    ∷ named "KEY_F16" 186
    ∷ named "KEY_F17" 187
    ∷ named "KEY_F18" 188
    ∷ named "KEY_F19" 189
    ∷ named "KEY_F20" 190
    ∷ named "KEY_F21" 191
    ∷ named "KEY_F22" 192
    ∷ named "KEY_F23" 193
    ∷ named "KEY_F24" 194
    ∷ named "KEY_PLAYCD" 200
    ∷ named "KEY_PAUSECD" 201
    ∷ named "KEY_PROG3" 202
    ∷ named "KEY_PROG4" 203
    ∷ named "KEY_DASHBOARD" 204
    ∷ named "KEY_SUSPEND" 205
    ∷ named "KEY_CLOSE" 206
    ∷ named "KEY_PLAY" 207
    ∷ named "KEY_FASTFORWARD" 208
    ∷ named "KEY_BASSBOOST" 209
    ∷ named "KEY_PRINT" 210
    ∷ named "KEY_HP" 211
    ∷ named "KEY_CAMERA" 212
    ∷ named "KEY_SOUND" 213
    ∷ named "KEY_QUESTION" 214
    ∷ named "KEY_EMAIL" 215
    ∷ named "KEY_CHAT" 216
    ∷ named "KEY_SEARCH" 217
    ∷ named "KEY_CONNECT" 218
    ∷ named "KEY_FINANCE" 219
    ∷ named "KEY_SPORT" 220
    ∷ named "KEY_SHOP" 221
    ∷ named "KEY_ALTERASE" 222
    ∷ named "KEY_CANCEL" 223
    ∷ named "KEY_BRIGHTNESSDOWN" 224
    ∷ named "KEY_BRIGHTNESSUP" 225
    ∷ []
