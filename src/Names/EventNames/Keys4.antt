-- ===== src/Names/EventNames/Keys4.antt =====
-- A part of `key_map` of include/event-names.h, in its order.
use android_external_libevde.Base.{List, [], ◌∷◌}
use android_external_libevde.Names.{NameEntry, named}

abbrev pub keys_4 : List NameEntry
keys_4 =
    named "KEY_MEDIA_REPEAT" 439
    ∷ named "KEY_10CHANNELSUP" 440
    ∷ named "KEY_10CHANNELSDOWN" 441
    ∷ named "KEY_IMAGES" 442
    ∷ named "KEY_DEL_EOL" 448
    ∷ named "KEY_DEL_EOS" 449
    ∷ named "KEY_INS_LINE" 450
    ∷ named "KEY_DEL_LINE" 451
    ∷ named "KEY_FN" 464
    ∷ named "KEY_FN_ESC" 465
    ∷ named "KEY_FN_F1" 466
    ∷ named "KEY_FN_F2" 467
    ∷ named "KEY_FN_F3" 468
    ∷ named "KEY_FN_F4" 469
    ∷ named "KEY_FN_F5" 470
    ∷ named "KEY_FN_F6" 471
    ∷ named "KEY_FN_F7" 472
    ∷ named "KEY_FN_F8" 473
    ∷ named "KEY_FN_F9" 474
    ∷ named "KEY_FN_F10" 475
    ∷ named "KEY_FN_F11" 476
    ∷ named "KEY_FN_F12" 477
    ∷ named "KEY_FN_1" 478
    ∷ named "KEY_FN_2" 479
    ∷ named "KEY_FN_D" 480
    ∷ named "KEY_FN_E" 481
    ∷ named "KEY_FN_F" 482
    ∷ named "KEY_FN_S" 483
    ∷ named "KEY_FN_B" 484
    ∷ named "KEY_BRL_DOT1" 497
    ∷ named "KEY_BRL_DOT2" 498
    ∷ named "KEY_BRL_DOT3" 499
    ∷ named "KEY_BRL_DOT4" 500
    ∷ named "KEY_BRL_DOT5" 501
    ∷ named "KEY_BRL_DOT6" 502
    ∷ named "KEY_BRL_DOT7" 503
    ∷ named "KEY_BRL_DOT8" 504
    ∷ named "KEY_BRL_DOT9" 505
    ∷ named "KEY_BRL_DOT10" 506
    ∷ named "KEY_NUMERIC_0" 512
    ∷ named "KEY_NUMERIC_1" 513
    ∷ named "KEY_NUMERIC_2" 514
    ∷ named "KEY_NUMERIC_3" 515
    ∷ named "KEY_NUMERIC_4" 516
    ∷ named "KEY_NUMERIC_5" 517
    ∷ named "KEY_NUMERIC_6" 518
    ∷ named "KEY_NUMERIC_7" 519
    ∷ named "KEY_NUMERIC_8" 520
    ∷ named "KEY_NUMERIC_9" 521
    ∷ named "KEY_NUMERIC_STAR" 522
    ∷ named "KEY_NUMERIC_POUND" 523
    ∷ named "KEY_NUMERIC_A" 524
    ∷ named "KEY_NUMERIC_B" 525
    ∷ named "KEY_NUMERIC_C" 526
    ∷ named "KEY_NUMERIC_D" 527
    ∷ named "KEY_CAMERA_FOCUS" 528
    ∷ named "KEY_WPS_BUTTON" 529
    ∷ named "KEY_TOUCHPAD_TOGGLE" 530
    ∷ named "KEY_TOUCHPAD_ON" 531
    ∷ named "KEY_TOUCHPAD_OFF" 532
    ∷ named "KEY_CAMERA_ZOOMIN" 533
    ∷ named "KEY_CAMERA_ZOOMOUT" 534
    ∷ named "KEY_CAMERA_UP" 535
    ∷ named "KEY_CAMERA_DOWN" 536
    ∷ named "KEY_CAMERA_LEFT" 537
    ∷ named "KEY_CAMERA_RIGHT" 538
    ∷ named "KEY_ATTENDANT_ON" 539
    ∷ named "KEY_ATTENDANT_OFF" 540
    ∷ named "KEY_ATTENDANT_TOGGLE" 541
    ∷ named "KEY_LIGHTS_TOGGLE" 542
    ∷ named "KEY_ALS_TOGGLE" 560
    ∷ named "KEY_ROTATE_LOCK_TOGGLE" 561
    ∷ named "KEY_BUTTONCONFIG" 576
    ∷ named "KEY_TASKMANAGER" 577
    ∷ named "KEY_JOURNAL" 578
    ∷ named "KEY_CONTROLPANEL" 579
    ∷ named "KEY_APPSELECT" 580
    ∷ named "KEY_SCREENSAVER" 581
    ∷ named "KEY_VOICECOMMAND" 582
    ∷ named "KEY_ASSISTANT" 583
    ∷ named "KEY_KBD_LAYOUT_NEXT" 584
    ∷ named "KEY_BRIGHTNESS_MIN" 592
    ∷ named "KEY_BRIGHTNESS_MAX" 593
    ∷ named "KEY_KBDINPUTASSIST_PREV" 608
    ∷ named "KEY_KBDINPUTASSIST_NEXT" 609
    ∷ named "KEY_KBDINPUTASSIST_PREVGROUP" 610
    ∷ named "KEY_KBDINPUTASSIST_NEXTGROUP" 611
    ∷ named "KEY_KBDINPUTASSIST_ACCEPT" 612
    ∷ named "KEY_KBDINPUTASSIST_CANCEL" 613
    ∷ named "KEY_RIGHT_UP" 614
    ∷ named "KEY_RIGHT_DOWN" 615
    ∷ named "KEY_LEFT_UP" 616
    ∷ named "KEY_LEFT_DOWN" 617
    ∷ named "KEY_ROOT_MENU" 618
    ∷ named "KEY_MEDIA_TOP_MENU" 619
    ∷ named "KEY_NUMERIC_11" 620
    ∷ named "KEY_NUMERIC_12" 621
    ∷ named "KEY_AUDIO_DESC" 622
    ∷ named "KEY_3D_MODE" 623
    ∷ named "KEY_NEXT_FAVORITE" 624
    ∷ named "KEY_STOP_RECORD" 625
    ∷ named "KEY_PAUSE_RECORD" 626
    ∷ named "KEY_VOD" 627
    ∷ named "KEY_UNMUTE" 628
    ∷ named "KEY_FASTREVERSE" 629
    ∷ named "KEY_SLOWREVERSE" 630
    ∷ named "KEY_DATA" 631
    ∷ named "KEY_ONSCREEN_KEYBOARD" 632
    ∷ named "KEY_MAX" 767
    ∷ named "BTN_DPAD_UP" 544
    ∷ []
