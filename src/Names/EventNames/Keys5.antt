-- ===== src/Names/EventNames/Keys5.antt =====
-- A part of `key_map` of include/event-names.h, in its order.
use android_external_libevde.Base.{List, [], ◌∷◌}
use android_external_libevde.Names.{NameEntry, named}

abbrev pub keys_5 : List NameEntry
keys_5 =
    named "BTN_DPAD_DOWN" 545
    ∷ named "BTN_DPAD_LEFT" 546
    ∷ named "BTN_DPAD_RIGHT" 547
    ∷ named "BTN_TRIGGER_HAPPY1" 704
    ∷ named "BTN_TRIGGER_HAPPY2" 705
    ∷ named "BTN_TRIGGER_HAPPY3" 706
    ∷ named "BTN_TRIGGER_HAPPY4" 707
    ∷ named "BTN_TRIGGER_HAPPY5" 708
    ∷ named "BTN_TRIGGER_HAPPY6" 709
    ∷ named "BTN_TRIGGER_HAPPY7" 710
    ∷ named "BTN_TRIGGER_HAPPY8" 711
    ∷ named "BTN_TRIGGER_HAPPY9" 712
    ∷ named "BTN_TRIGGER_HAPPY10" 713
    ∷ named "BTN_TRIGGER_HAPPY11" 714
    ∷ named "BTN_TRIGGER_HAPPY12" 715
    ∷ named "BTN_TRIGGER_HAPPY13" 716
    ∷ named "BTN_TRIGGER_HAPPY14" 717
    ∷ named "BTN_TRIGGER_HAPPY15" 718
    ∷ named "BTN_TRIGGER_HAPPY16" 719
    ∷ named "BTN_TRIGGER_HAPPY17" 720
    ∷ named "BTN_TRIGGER_HAPPY18" 721
    ∷ named "BTN_TRIGGER_HAPPY19" 722
    ∷ named "BTN_TRIGGER_HAPPY20" 723
    ∷ named "BTN_TRIGGER_HAPPY21" 724
    ∷ named "BTN_TRIGGER_HAPPY22" 725
    ∷ named "BTN_TRIGGER_HAPPY23" 726
    ∷ named "BTN_TRIGGER_HAPPY24" 727
    ∷ named "BTN_TRIGGER_HAPPY25" 728
    ∷ named "BTN_TRIGGER_HAPPY26" 729
    ∷ named "BTN_TRIGGER_HAPPY27" 730
    ∷ named "BTN_TRIGGER_HAPPY28" 731
    ∷ named "BTN_TRIGGER_HAPPY29" 732
    ∷ named "BTN_TRIGGER_HAPPY30" 733
    ∷ named "BTN_TRIGGER_HAPPY31" 734
    ∷ named "BTN_TRIGGER_HAPPY32" 735
    ∷ named "BTN_TRIGGER_HAPPY33" 736
    ∷ named "BTN_TRIGGER_HAPPY34" 737
    ∷ named "BTN_TRIGGER_HAPPY35" 738
    ∷ named "BTN_TRIGGER_HAPPY36" 739
    ∷ named "BTN_TRIGGER_HAPPY37" 740
    ∷ named "BTN_TRIGGER_HAPPY38" 741
    ∷ named "BTN_TRIGGER_HAPPY39" 742
    ∷ named "BTN_TRIGGER_HAPPY40" 743
    ∷ named "BTN_0" 256
    ∷ named "BTN_1" 257
    ∷ named "BTN_2" 258
    ∷ named "BTN_3" 259
    ∷ named "BTN_4" 260
    ∷ named "BTN_5" 261
    ∷ named "BTN_6" 262
    ∷ named "BTN_7" 263
    ∷ named "BTN_8" 264
    ∷ named "BTN_9" 265
    ∷ named "BTN_LEFT" 272
    ∷ named "BTN_RIGHT" 273
    ∷ named "BTN_MIDDLE" 274
    ∷ named "BTN_SIDE" 275
    ∷ named "BTN_EXTRA" 276
    ∷ named "BTN_FORWARD" 277
    ∷ named "BTN_BACK" 278
    ∷ named "BTN_TASK" 279
    ∷ named "BTN_TRIGGER" 288
    ∷ named "BTN_THUMB" 289
    ∷ named "BTN_THUMB2" 290
    ∷ named "BTN_TOP" 291
    ∷ named "BTN_TOP2" 292
    ∷ named "BTN_PINKIE" 293
    ∷ named "BTN_BASE" 294
    ∷ named "BTN_BASE2" 295
    ∷ named "BTN_BASE3" 296
    ∷ named "BTN_BASE4" 297
    ∷ named "BTN_BASE5" 298
    ∷ named "BTN_BASE6" 299
    ∷ named "BTN_DEAD" 303
    ∷ named "BTN_SOUTH" 304
    ∷ named "BTN_EAST" 305
    ∷ named "BTN_C" 306
    ∷ named "BTN_NORTH" 307
    ∷ named "BTN_WEST" 308
    ∷ named "BTN_Z" 309
    ∷ named "BTN_TL" 310
    ∷ named "BTN_TR" 311
    ∷ named "BTN_TL2" 312
    ∷ named "BTN_TR2" 313
    ∷ named "BTN_SELECT" 314
    ∷ named "BTN_START" 315
    ∷ named "BTN_MODE" 316
    ∷ named "BTN_THUMBL" 317
    ∷ named "BTN_THUMBR" 318
    ∷ named "BTN_TOOL_PEN" 320
    ∷ named "BTN_TOOL_RUBBER" 321
    ∷ named "BTN_TOOL_BRUSH" 322
    ∷ named "BTN_TOOL_PENCIL" 323
    ∷ named "BTN_TOOL_AIRBRUSH" 324
    ∷ named "BTN_TOOL_FINGER" 325
    ∷ named "BTN_TOOL_MOUSE" 326
    ∷ named "BTN_TOOL_LENS" 327
    ∷ named "BTN_TOOL_QUINTTAP" 328
    ∷ named "BTN_STYLUS3" 329
    ∷ named "BTN_TOUCH" 330
    ∷ named "BTN_STYLUS" 331
    ∷ named "BTN_STYLUS2" 332
    ∷ named "BTN_TOOL_DOUBLETAP" 333
    ∷ named "BTN_TOOL_TRIPLETAP" 334
    ∷ named "BTN_TOOL_QUADTAP" 335
    ∷ named "BTN_GEAR_DOWN" 336
    ∷ named "BTN_GEAR_UP" 337
    ∷ []
