-- ===== src/Lib.antt =====
-- libevdev: the library that reads the events of an input device, keeps the device's state, and mends
-- both after the kernel has dropped events.
--
-- The parts, with the C functions without their prefix `libevdev_`:
--   Bitfield: the bit arrays of libevdev/libevdev-util.h, in 64-bit words.
--   Codes, Event: the constants of the kernel's headers, ev_max of include/event-names.h, and the
--     types that are shared with the kernel.
--   Queue: the event queue of libevdev/libevdev-int.h. Queue/Fifo: against a bounded queue.
--   Device: `struct libevdev` and type_to_mask of libevdev/libevdev-int.h, and the queries on the masks.
--     Device/Fields: the members that are only read and set.
--   All the following are of libevdev/libevdev.c, if nothing else is said.
--   Slots: the multitouch slot array. Slots/Valid: when it fits the number of slots. Slots/Values:
--     what set_slot_value does to get_slot_value.
--   State: update_state, sanitize_event and the event values. State/Safe, State/Whole, State/Filter, State/Taken:
--     which memory an event touches. State/Values: what set_event_value does to get_event_value.
--   Caps: enabling and disabling types and codes. Caps/Masks: which codes a device has then.
--   Kernel: what the kernel answers during one call.
--   Sync: the syncs of keys, switches, LEDs and axes. Sync/Replay: what the queued events mean.
--     Sync/Bits: the syncs of keys, switches and LEDs as a whole. Sync/Axes: the axes.
--     Sync/Safe: what all of them keep.
--   Touch: the sync of the touches: sync_mt_state, terminate_slots and push_mt_sync_events.
--     Touch/Safe, Touch/Pushes: which slots they read and write.
--   Reader: read_more_events, drain_events and sync_state. Reader/Valid, Reader/Drain: what they keep.
--     Reader/Drained: draining. Reader/Total: sync_state as a whole.
--   NextEvent: next_event and has_event_pending. NextEvent/Total, NextEvent/Loop,
--     NextEvent/Call: rounds and calls that start no sync.
--     NextEvent/Status: what the result says about the sync state. NextEvent/Complete: calls that
--     may start a sync. NextEvent/Outcomes: the three ends of its loop. NextEvent/Machine: the sync state
--     as a state machine. NextEvent/Progress: calls while a sync is in progress. NextEvent/Leaving: an abandoned sync. NextEvent/Spending:
--     calls in normal mode and the events that are left, for the loops of the tools.
--   Log: the log settings, and where a message goes. Log/Handlers, Log/Reached: which handler is called.
--   Open: new, new_from_fd, set_fd, change_fd and reset. Open/Failure: what a failure leaves behind.
--     Open/Loading, Open/Slots, Open/Counting, Open/Valid, Open/Ends: what the requests, init_slots,
--     init_event_queue and set_fd leave behind.
--   Requests: grab, kernel_set_abs_info, kernel_set_led_values and set_clock_id. Requests/Leds: the grab.
--   Uinput: the virtual devices of libevdev/libevdev-uinput.c, as the system calls that are made.
--     Uinput/Setup: set_evbits, set_props, uinput_create_write and uinput_create_DEV_SETUP.
--     Uinput/Syspath: fetch_syspath_and_devnode. Uinput/Create: uinput_create_from_device and
--     uinput_destroy. Uinput/Closing, Uinput/Scanning, Uinput/Release, Uinput/Whole: which file
--     descriptors are closed.
--     Uinput/Told, Uinput/Sent: which codes the kernel is told of.
--   Names: the lookups of libevdev/libevdev-names.c, and the names of values. Names/EventNames: the tables
--     of include/event-names.h. Names/Order, Names/Lookup: the binary search. Names/Found,
--     Names/RoundTrip: from a name back to its number.
--   Tools: the programs in tools/.
--     Tools/Polling: the main loop of tools/touchpad-edge-detector.c and tools/mouse-dpi-tool.c.
--       Tools/Polling/Delivered: what their handler is given.
--     Tools/EdgeDetector: tools/touchpad-edge-detector.c. Edges: its ranges. Rule: the printed rule.
--     Tools/MouseDpi: tools/mouse-dpi-tool.c. Measured: its array. Distance, Summary: what it measures.
--     Tools/TweakDevice: the options of tools/libevdev-tweak-device.c. Apply: what it does to the device.
--       Asked, Changes, Parsed, Locals: its variables that are not initialised. Meaning: what options mean.
--     Tools/Listing: the loops over types and codes. Tools/ListCodes: tools/libevdev-list-codes.c.
--     Tools/Events: tools/libevdev-events.c. Watch: its loop.
--     EdgeDetector/Main, MouseDpi/Main, TweakDevice/Main: the functions main.
--   Base: lists, options, C's int and the Boolean tests. Base/Arith: arithmetic on C's int. Tests: the theorems at concrete inputs.
--
-- How they interact: next_event calls the parts of Reader to fill the queue and to sync, takes events
-- from the Queue, and gives each to the filter and the update of State, which use Slots.
--
-- The state is passed on explicitly: an operation takes a Libevdev and gives the new one beside its
-- result. `none`, and `undefined` for next_event, stand for what C leaves undefined: an access outside
-- an array or through NULL. An `int` is an unbounded integer, but in init_slots, init_event_queue and the
-- tools, where an overflow gives `none`; `size_t queue_nsync` wraps at 2^64.
-- `next_loop` has fuel: each round but the last one drops an event, so more fuel than events queued
-- and still to be read is enough. `drain_events` makes the nine rounds of the source.
--
-- A main loop of Tools has fuel for its rounds and for the calls of next_event in each: `poll` may
-- wake the program for ever, so the loop makes as many rounds as the list of its results is long.
-- Within a round more fuel than events queued and still to be read is enough.
--
-- A function of Uinput takes a Session, the calls made so far and `errno`, and gives the new one. A
-- `System` answers a call by the calls before it, so a theorem holds for every history of answers.
--
-- Parameters: the answers of `ioctl`, `read`, `write`, `open`, `time`, `poll`, `scandir` and `strdup`,
-- whether `calloc` succeeds, and `bsearch`, with what the C library documents of it as laws. A request
-- of one kind is made at most once in a call of next_event. For the tools also the results of
-- getopt_long and sscanf, strtol and atoi, and the operations on `double`.
--
-- Not modelled: the branches for FreeBSD, the tests, libevdev_free, which only releases memory, the
-- text of log messages, and the words that the tools print around their values.
pub mod Base
pub mod Codes
pub mod Event
pub mod Bitfield
pub mod Queue
pub mod Device
pub mod Slots
pub mod State
pub mod Caps
pub mod Kernel
pub mod Sync
pub mod Touch
pub mod Reader
pub mod NextEvent
pub mod Log
pub mod Open
pub mod Requests
pub mod Names
pub mod Uinput
pub mod Tests
pub mod Tools
