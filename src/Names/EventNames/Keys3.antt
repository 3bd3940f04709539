-- ===== src/Names/EventNames/Keys3.antt =====
-- A part of `key_map` of include/event-names.h, in its order.
use android_external_libevde.Base.{List, [], ◌∷◌}
use android_external_libevde.Names.{NameEntry, named}

abbrev pub keys_3 : List NameEntry
keys_3 =
    named "KEY_MEDIA" 226
    ∷ named "KEY_SWITCHVIDEOMODE" 227
    ∷ named "KEY_KBDILLUMTOGGLE" 228
    ∷ named "KEY_KBDILLUMDOWN" 229
    ∷ named "KEY_KBDILLUMUP" 230
    ∷ named "KEY_SEND" 231
    ∷ named "KEY_REPLY" 232
    ∷ named "KEY_FORWARDMAIL" 233
    ∷ named "KEY_SAVE" 234
    ∷ named "KEY_DOCUMENTS" 235
    ∷ named "KEY_BATTERY" 236
    ∷ named "KEY_BLUETOOTH" 237
    ∷ named "KEY_WLAN" 238
    ∷ named "KEY_UWB" 239
    ∷ named "KEY_UNKNOWN" 240
    ∷ named "KEY_VIDEO_NEXT" 241
    ∷ named "KEY_VIDEO_PREV" 242
    ∷ named "KEY_BRIGHTNESS_CYCLE" 243
    ∷ named "KEY_BRIGHTNESS_AUTO" 244
    ∷ named "KEY_DISPLAY_OFF" 245
    ∷ named "KEY_WWAN" 246
    ∷ named "KEY_RFKILL" 247
    ∷ named "KEY_MICMUTE" 248
    ∷ named "KEY_OK" 352
    ∷ named "KEY_SELECT" 353
    ∷ named "KEY_GOTO" 354
    ∷ named "KEY_CLEAR" 355
    ∷ named "KEY_POWER2" 356
    ∷ named "KEY_OPTION" 357
    ∷ named "KEY_INFO" 358
    ∷ named "KEY_TIME" 359
    ∷ named "KEY_VENDOR" 360
    ∷ named "KEY_ARCHIVE" 361
    ∷ named "KEY_PROGRAM" 362
    ∷ named "KEY_CHANNEL" 363
    ∷ named "KEY_FAVORITES" 364
    ∷ named "KEY_EPG" 365
    ∷ named "KEY_PVR" 366
    ∷ named "KEY_MHP" 367
    ∷ named "KEY_LANGUAGE" 368
    ∷ named "KEY_TITLE" 369
    ∷ named "KEY_SUBTITLE" 370
    ∷ named "KEY_ANGLE" 371
    ∷ named "KEY_FULL_SCREEN" 372
    ∷ named "KEY_MODE" 373
    ∷ named "KEY_KEYBOARD" 374
    ∷ named "KEY_ASPECT_RATIO" 375
    ∷ named "KEY_PC" 376
    ∷ named "KEY_TV" 377
    ∷ named "KEY_TV2" 378
    ∷ named "KEY_VCR" 379
    ∷ named "KEY_VCR2" 380
    ∷ named "KEY_SAT" 381
    ∷ named "KEY_SAT2" 382
    ∷ named "KEY_CD" 383
    ∷ named "KEY_TAPE" 384
    ∷ named "KEY_RADIO" 385
    ∷ named "KEY_TUNER" 386
    ∷ named "KEY_PLAYER" 387
    ∷ named "KEY_TEXT" 388
    ∷ named "KEY_DVD" 389
    ∷ named "KEY_AUX" 390
    ∷ named "KEY_MP3" 391
    ∷ named "KEY_AUDIO" 392
    ∷ named "KEY_VIDEO" 393
    ∷ named "KEY_DIRECTORY" 394
    ∷ named "KEY_LIST" 395
    ∷ named "KEY_MEMO" 396
    ∷ named "KEY_CALENDAR" 397
    ∷ named "KEY_RED" 398
    ∷ named "KEY_GREEN" 399
    ∷ named "KEY_YELLOW" 400
    ∷ named "KEY_BLUE" 401
    ∷ named "KEY_CHANNELUP" 402
    ∷ named "KEY_CHANNELDOWN" 403
    ∷ named "KEY_FIRST" 404
    ∷ named "KEY_LAST" 405
    ∷ named "KEY_AB" 406
    ∷ named "KEY_NEXT" 407
    ∷ named "KEY_RESTART" 408
    ∷ named "KEY_SLOW" 409
    ∷ named "KEY_SHUFFLE" 410
    ∷ named "KEY_BREAK" 411
    ∷ named "KEY_PREVIOUS" 412
    ∷ named "KEY_DIGITS" 413
    ∷ named "KEY_TEEN" 414
    ∷ named "KEY_TWEN" 415
    ∷ named "KEY_VIDEOPHONE" 416
    ∷ named "KEY_GAMES" 417
    ∷ named "KEY_ZOOMIN" 418
    ∷ named "KEY_ZOOMOUT" 419
    ∷ named "KEY_ZOOMRESET" 420
    ∷ named "KEY_WORDPROCESSOR" 421
    ∷ named "KEY_EDITOR" 422
    ∷ named "KEY_SPREADSHEET" 423
    ∷ named "KEY_GRAPHICSEDITOR" 424
    ∷ named "KEY_PRESENTATION" 425
    ∷ named "KEY_DATABASE" 426
    ∷ named "KEY_NEWS" 427
    ∷ named "KEY_VOICEMAIL" 428
    ∷ named "KEY_ADDRESSBOOK" 429
    ∷ named "KEY_MESSENGER" 430
    ∷ named "KEY_DISPLAYTOGGLE" 431
    ∷ named "KEY_SPELLCHECK" 432
    ∷ named "KEY_LOGOFF" 433
    ∷ named "KEY_DOLLAR" 434
    ∷ named "KEY_EURO" 435
    ∷ named "KEY_FRAMEBACK" 436
    ∷ named "KEY_FRAMEFORWARD" 437
    ∷ named "KEY_CONTEXT_MENU" 438
    ∷ []
