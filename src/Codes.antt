-- ===== src/Codes.antt =====
-- The event types and codes of the kernel's headers (include/linux/linux/input-event-codes.h, as
-- included on Linux) and the table of the highest code of each type (include/event-names.h).
use android_external_libevde.Base.{ℕ, ℤ, pos, minus_one, ltb, ◌==◌, if◌then◌else◌}

abbrev pub ev_syn : ℕ
ev_syn = 0x00

abbrev pub ev_key : ℕ
ev_key = 0x01

abbrev pub ev_rel : ℕ
ev_rel = 0x02

abbrev pub ev_abs : ℕ
ev_abs = 0x03

abbrev pub ev_msc : ℕ
ev_msc = 0x04

abbrev pub ev_sw : ℕ
ev_sw = 0x05

abbrev pub ev_led : ℕ
ev_led = 0x11

abbrev pub ev_snd : ℕ
ev_snd = 0x12

abbrev pub ev_rep : ℕ
ev_rep = 0x14

abbrev pub ev_ff : ℕ
ev_ff = 0x15

abbrev pub ev_ff_status : ℕ
ev_ff_status = 0x17

abbrev pub ev_max_type : ℕ
ev_max_type = 0x1f

abbrev pub ev_cnt : ℕ
ev_cnt = 0x20

abbrev pub syn_report : ℕ
syn_report = 0

abbrev pub syn_dropped : ℕ
syn_dropped = 3

abbrev pub syn_max : ℕ
syn_max = 0x0f

abbrev pub key_max : ℕ
key_max = 0x2ff

abbrev pub key_cnt : ℕ
key_cnt = 0x300

abbrev pub rel_max : ℕ
rel_max = 0x0f

abbrev pub abs_max : ℕ
abs_max = 0x3f

abbrev pub abs_cnt : ℕ
abs_cnt = 0x40

abbrev pub sw_max : ℕ
sw_max = 0x10

abbrev pub sw_cnt : ℕ
sw_cnt = 0x11

abbrev pub msc_max : ℕ
msc_max = 0x07

abbrev pub led_max : ℕ
led_max = 0x0f

abbrev pub led_cnt : ℕ
led_cnt = 0x10

abbrev pub rep_delay : ℕ
rep_delay = 0x00

abbrev pub rep_period : ℕ
rep_period = 0x01

abbrev pub rep_max : ℕ
rep_max = 0x01

abbrev pub rep_cnt : ℕ
rep_cnt = 0x02

abbrev pub snd_max : ℕ
snd_max = 0x07

abbrev pub ff_max : ℕ
ff_max = 0x7f

abbrev pub input_prop_max : ℕ
input_prop_max = 0x1f

abbrev pub abs_x : ℕ
abs_x = 0x00

abbrev pub abs_y : ℕ
abs_y = 0x01

abbrev pub abs_mt_position_x : ℕ
abs_mt_position_x = 0x35

abbrev pub abs_mt_position_y : ℕ
abs_mt_position_y = 0x36

abbrev pub rel_x : ℕ
rel_x = 0x00

abbrev pub abs_reserved : ℕ
abs_reserved = 0x2e

abbrev pub abs_mt_slot : ℕ
abs_mt_slot = 0x2f

abbrev pub abs_mt_tool_type : ℕ
abs_mt_tool_type = 0x37

abbrev pub abs_mt_tracking_id : ℕ
abs_mt_tracking_id = 0x39

abbrev pub abs_mt_tool_y : ℕ
abs_mt_tool_y = 0x3d

-- ABS_MT_MIN, ABS_MT_MAX and ABS_MT_CNT of libevdev/libevdev-int.h.
abbrev pub abs_mt_min : ℕ
abs_mt_min = 0x2f

abbrev pub abs_mt_max : ℕ
abs_mt_max = 0x3d

abbrev pub abs_mt_cnt : ℕ
abs_mt_cnt = 15

abbrev pub btn_tool_finger : ℕ
btn_tool_finger = 0x145

abbrev pub btn_tool_quinttap : ℕ
btn_tool_quinttap = 0x148

abbrev pub btn_tool_doubletap : ℕ
btn_tool_doubletap = 0x14d

abbrev pub btn_tool_tripletap : ℕ
btn_tool_tripletap = 0x14e

abbrev pub btn_tool_quadtap : ℕ
btn_tool_quadtap = 0x14f

-- The array `ev_max` of include/event-names.h at `type`, for `type <= EV_MAX`.
unfoldable pub ev_max : ℕ → ℤ
ev_max type =
    if type == ev_syn
    then pos syn_max
    else if type == ev_key
    then pos key_max
    else if type == ev_rel
    then pos rel_max
    else if type == ev_abs
    then pos abs_max
    else if type == ev_msc
    then pos msc_max
    else if type == ev_sw
    then pos sw_max
    else if type == ev_led
    then pos led_max
    else if type == ev_snd
    then pos snd_max
    else if type == ev_rep
    then pos rep_max
    else if type == ev_ff
    then pos ff_max
    else minus_one

-- libevdev_event_type_get_max
unfoldable pub event_type_get_max : ℕ → ℤ
unfolding ev_max
event_type_get_max type = if ltb ev_max_type type then minus_one else ev_max type
