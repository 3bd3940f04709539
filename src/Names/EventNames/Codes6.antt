-- ===== src/Names/EventNames/Codes6.antt =====
-- A part of `code_names` of include/event-names.h, in its order.
use android_external_libevde.Base.{List, [], ◌∷◌}
use android_external_libevde.Names.{NameEntry, named}

abbrev pub codes_6 : List NameEntry
codes_6 =
    named "KEY_TASKMANAGER" 577
    ∷ named "KEY_TEEN" 414
    ∷ named "KEY_TEXT" 388
    ∷ named "KEY_TIME" 359
    ∷ named "KEY_TITLE" 369
    ∷ named "KEY_TOUCHPAD_OFF" 532
    ∷ named "KEY_TOUCHPAD_ON" 531
    ∷ named "KEY_TOUCHPAD_TOGGLE" 530
    ∷ named "KEY_TUNER" 386
    ∷ named "KEY_TV" 377
    ∷ named "KEY_TV2" 378
    ∷ named "KEY_TWEN" 415
    ∷ named "KEY_U" 22
    ∷ named "KEY_UNDO" 131
    ∷ named "KEY_UNKNOWN" 240
    ∷ named "KEY_UNMUTE" 628
    ∷ named "KEY_UP" 103
    ∷ named "KEY_UWB" 239
    ∷ named "KEY_V" 47
    ∷ named "KEY_VCR" 379
    ∷ named "KEY_VCR2" 380
    ∷ named "KEY_VENDOR" 360
    ∷ named "KEY_VIDEO" 393
    ∷ named "KEY_VIDEOPHONE" 416
    ∷ named "KEY_VIDEO_NEXT" 241
    ∷ named "KEY_VIDEO_PREV" 242
    ∷ named "KEY_VOD" 627
    ∷ named "KEY_VOICECOMMAND" 582
    ∷ named "KEY_VOICEMAIL" 428
    ∷ named "KEY_VOLUMEDOWN" 114
    ∷ named "KEY_VOLUMEUP" 115
    ∷ named "KEY_W" 17
    ∷ named "KEY_WAKEUP" 143
    ∷ named "KEY_WLAN" 238
    ∷ named "KEY_WORDPROCESSOR" 421
    ∷ named "KEY_WPS_BUTTON" 529
    ∷ named "KEY_WWAN" 246
    ∷ named "KEY_WWW" 150
    ∷ named "KEY_X" 45
    ∷ named "KEY_XFER" 147
    ∷ named "KEY_Y" 21
    ∷ named "KEY_YELLOW" 400
    ∷ named "KEY_YEN" 124
    ∷ named "KEY_Z" 44
    ∷ named "KEY_ZENKAKUHANKAKU" 85
    ∷ named "KEY_ZOOMIN" 418
    ∷ named "KEY_ZOOMOUT" 419
    ∷ named "KEY_ZOOMRESET" 420
    ∷ named "LED_CAPSL" 1
    ∷ named "LED_CHARGING" 10
    ∷ named "LED_COMPOSE" 3
    ∷ named "LED_KANA" 4
    ∷ named "LED_MAIL" 9
    ∷ named "LED_MAX" 15
    ∷ named "LED_MISC" 8
    ∷ named "LED_MUTE" 7
    ∷ named "LED_NUML" 0
    ∷ named "LED_SCROLLL" 2
    ∷ named "LED_SLEEP" 5
    ∷ named "LED_SUSPEND" 6
    ∷ named "MSC_GESTURE" 2
    ∷ named "MSC_MAX" 7
    ∷ named "MSC_PULSELED" 1
    ∷ named "MSC_RAW" 3
    ∷ named "MSC_SCAN" 4
    ∷ named "MSC_SERIAL" 0
    ∷ named "MSC_TIMESTAMP" 5
    ∷ named "REL_DIAL" 7
    ∷ named "REL_HWHEEL" 6
    ∷ named "REL_HWHEEL_HI_RES" 12
    ∷ named "REL_MAX" 15
    ∷ named "REL_MISC" 9
    ∷ named "REL_RESERVED" 10
    ∷ named "REL_RX" 3
    ∷ named "REL_RY" 4
    ∷ named "REL_RZ" 5
    ∷ named "REL_WHEEL" 8
    ∷ named "REL_WHEEL_HI_RES" 11
    ∷ named "REL_X" 0
    ∷ named "REL_Y" 1
    ∷ named "REL_Z" 2
    ∷ named "REP_DELAY" 0
    ∷ named "REP_MAX" 1
    ∷ named "REP_PERIOD" 1
    ∷ named "SND_BELL" 1
    ∷ named "SND_CLICK" 0
    ∷ named "SND_MAX" 7
    ∷ named "SND_TONE" 2
    ∷ named "SW_CAMERA_LENS_COVER" 9
    ∷ named "SW_DOCK" 5
    ∷ named "SW_FRONT_PROXIMITY" 11
    ∷ named "SW_HEADPHONE_INSERT" 2
    ∷ named "SW_JACK_PHYSICAL_INSERT" 7
    ∷ named "SW_KEYPAD_SLIDE" 10
    ∷ named "SW_LID" 0
    ∷ named "SW_LINEIN_INSERT" 13
    ∷ named "SW_LINEOUT_INSERT" 6
    ∷ named "SW_MAX" 16
    ∷ named "SW_MICROPHONE_INSERT" 4
    ∷ named "SW_MUTE_DEVICE" 14
    ∷ named "SW_PEN_INSERTED" 15
    ∷ named "SW_RFKILL_ALL" 3
    ∷ named "SW_ROTATE_LOCK" 12
    ∷ named "SW_TABLET_MODE" 1
    ∷ named "SW_VIDEOOUT_INSERT" 8
    ∷ named "SYN_CONFIG" 1
    ∷ named "SYN_DROPPED" 3
    ∷ named "SYN_MAX" 15
    ∷ named "SYN_MT_REPORT" 2
    ∷ named "SYN_REPORT" 0
    ∷ []
