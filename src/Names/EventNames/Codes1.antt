-- ===== src/Names/EventNames/Codes1.antt =====
-- A part of `code_names` of include/event-names.h, in its order.
use android_external_libevde.Base.{List, [], ◌∷◌}
use android_external_libevde.Names.{NameEntry, named}

abbrev pub codes_1 : List NameEntry
codes_1 =
    named "ABS_BRAKE" 10
    ∷ named "ABS_DISTANCE" 25
    ∷ named "ABS_GAS" 9
    ∷ named "ABS_HAT0X" 16
    ∷ named "ABS_HAT0Y" 17
    ∷ named "ABS_HAT1X" 18
    ∷ named "ABS_HAT1Y" 19
    ∷ named "ABS_HAT2X" 20
    ∷ named "ABS_HAT2Y" 21
    ∷ named "ABS_HAT3X" 22
    ∷ named "ABS_HAT3Y" 23
    ∷ named "ABS_MAX" 63
    ∷ named "ABS_MISC" 40
    ∷ named "ABS_MT_BLOB_ID" 56
    ∷ named "ABS_MT_DISTANCE" 59
    ∷ named "ABS_MT_ORIENTATION" 52
    ∷ named "ABS_MT_POSITION_X" 53
    ∷ named "ABS_MT_POSITION_Y" 54
    ∷ named "ABS_MT_PRESSURE" 58
    ∷ named "ABS_MT_SLOT" 47
    ∷ named "ABS_MT_TOOL_TYPE" 55
    ∷ named "ABS_MT_TOOL_X" 60
    ∷ named "ABS_MT_TOOL_Y" 61
    ∷ named "ABS_MT_TOUCH_MAJOR" 48
    ∷ named "ABS_MT_TOUCH_MINOR" 49
    ∷ named "ABS_MT_TRACKING_ID" 57
    ∷ named "ABS_MT_WIDTH_MAJOR" 50
    ∷ named "ABS_MT_WIDTH_MINOR" 51
    ∷ named "ABS_PRESSURE" 24
    ∷ named "ABS_RESERVED" 46
    ∷ named "ABS_RUDDER" 7
    ∷ named "ABS_RX" 3
    ∷ named "ABS_RY" 4
    ∷ named "ABS_RZ" 5
    ∷ named "ABS_THROTTLE" 6
    ∷ named "ABS_TILT_X" 26
    ∷ named "ABS_TILT_Y" 27
    ∷ named "ABS_TOOL_WIDTH" 28
    ∷ named "ABS_VOLUME" 32
    ∷ named "ABS_WHEEL" 8
    ∷ named "ABS_X" 0
    ∷ named "ABS_Y" 1
    ∷ named "ABS_Z" 2
    ∷ named "BTN_0" 256
    ∷ named "BTN_1" 257
    ∷ named "BTN_2" 258
    ∷ named "BTN_3" 259
    ∷ named "BTN_4" 260
    ∷ named "BTN_5" 261
    ∷ named "BTN_6" 262
    ∷ named "BTN_7" 263
    ∷ named "BTN_8" 264
    ∷ named "BTN_9" 265
    ∷ named "BTN_A" 304
    ∷ named "BTN_B" 305
    ∷ named "BTN_BACK" 278
    ∷ named "BTN_BASE" 294
    ∷ named "BTN_BASE2" 295
    ∷ named "BTN_BASE3" 296
    ∷ named "BTN_BASE4" 297
    ∷ named "BTN_BASE5" 298
    ∷ named "BTN_BASE6" 299
    ∷ named "BTN_C" 306
    ∷ named "BTN_DEAD" 303
    ∷ named "BTN_DPAD_DOWN" 545
    ∷ named "BTN_DPAD_LEFT" 546
    ∷ named "BTN_DPAD_RIGHT" 547
    ∷ named "BTN_DPAD_UP" 544
    ∷ named "BTN_EAST" 305
    ∷ named "BTN_EXTRA" 276
    ∷ named "BTN_FORWARD" 277
    ∷ named "BTN_GEAR_DOWN" 336
    ∷ named "BTN_GEAR_UP" 337
    ∷ named "BTN_LEFT" 272
    ∷ named "BTN_MIDDLE" 274
    ∷ named "BTN_MODE" 316
    ∷ named "BTN_NORTH" 307
    ∷ named "BTN_PINKIE" 293
    ∷ named "BTN_RIGHT" 273
    ∷ named "BTN_SELECT" 314
    ∷ named "BTN_SIDE" 275
    ∷ named "BTN_SOUTH" 304
    ∷ named "BTN_START" 315
    ∷ named "BTN_STYLUS" 331
    ∷ named "BTN_STYLUS2" 332
    ∷ named "BTN_STYLUS3" 329
    ∷ named "BTN_TASK" 279
    ∷ named "BTN_THUMB" 289
    ∷ named "BTN_THUMB2" 290
    ∷ named "BTN_THUMBL" 317
    ∷ named "BTN_THUMBR" 318
    ∷ named "BTN_TL" 310
    ∷ named "BTN_TL2" 312
    ∷ named "BTN_TOOL_AIRBRUSH" 324
    ∷ named "BTN_TOOL_BRUSH" 322
    ∷ named "BTN_TOOL_DOUBLETAP" 333
    ∷ named "BTN_TOOL_FINGER" 325
    ∷ named "BTN_TOOL_LENS" 327
    ∷ named "BTN_TOOL_MOUSE" 326
    ∷ named "BTN_TOOL_PEN" 320
    ∷ named "BTN_TOOL_PENCIL" 323
    ∷ named "BTN_TOOL_QUADTAP" 335
    ∷ named "BTN_TOOL_QUINTTAP" 328
    ∷ named "BTN_TOOL_RUBBER" 321
    ∷ named "BTN_TOOL_TRIPLETAP" 334
    ∷ named "BTN_TOP" 291
    ∷ named "BTN_TOP2" 292
    ∷ named "BTN_TOUCH" 330
    ∷ named "BTN_TR" 311
    ∷ named "BTN_TR2" 313
    ∷ named "BTN_TRIGGER" 288
    ∷ named "BTN_TRIGGER_HAPPY1" 704
    ∷ named "BTN_TRIGGER_HAPPY10" 713
    ∷ []
