-- ===== src/Sync/Bits.antt =====
-- The syncs of keys, switches and LEDs, from the kernel's whole bitmap.
use android_external_libevde.Base.{ℕ, ◌+◌, ◌≤◌, ◌≡◌, refl, List, drop, pos, ◌++◌, length, arith, ap}
use android_external_libevde.Codes.{ev_key, ev_sw, ev_led, key_cnt, sw_cnt, led_cnt}
use android_external_libevde.Event.{Event, done}
use android_external_libevde.Bitfield.{Words, copy_bytes}
use android_external_libevde.Bitfield.Laws.{copy_bytes_all}
use android_external_libevde.Queue.Fifo
use android_external_libevde.Queue.Fifo.{contents}
use android_external_libevde.Queue.{Queue}
use android_external_libevde.Device.{Libevdev}
use android_external_libevde.Sync.{sync_key_state, sync_sw_state, sync_led_state}
use android_external_libevde.Sync.Replay.{changes, push_changes_lem}

-- A key sync that gets the whole bitmap, with room in the queue for an event of each key, queues
-- one report for each key that changed, in the order of the codes, takes over the kernel's state,
-- succeeds, and changes nothing else.
pub sync_key_state_lem :
    (d : Libevdev) (rc : ℕ) (keystate : Words)
    → Fifo.IsValid d.queue
    → d.queue.queue_next + key_cnt ≤ d.queue.queue_size
    → length d.key_values ≡ 12
    → length keystate ≡ 12
    → 96 ≤ rc
    → (q : Queue) × (sync_key_state d (done rc keystate)
        ≡ (record d { queue = q; key_values = keystate }, pos 0))
      × Fifo.IsValid q
      × (contents q
          ≡ contents d.queue ++ changes d.last_event_time ev_key d.key_values keystate key_cnt 0)
unfolding sync_key_state
sync_key_state_lem d rc keystate v room old_size new_size whole =
    let (q, pushed, well, kept) =
      push_changes_lem ev_key d.key_values keystate key_cnt 0 d v room in
    let copied : copy_bytes rc keystate d.key_values ≡ keystate =
      copy_bytes_all rc keystate d.key_values (omega arith) (omega arith) in
    (q, rw (pushed, ap (λ w. w) copied) refl, well, kept)

-- The events that stand in the queue of the second device behind those of the first.
abbrev pub queued_since : Libevdev → Libevdev → List Event
queued_since d d' = drop (length (contents d.queue)) (contents d'.queue)

-- A switch sync that gets the whole bitmap, with room in the queue for an event of each switch,
-- queues one report for each switch that changed, takes over the kernel's state, succeeds, and
-- changes nothing else.
pub sync_sw_state_lem :
    (d : Libevdev) (rc : ℕ) (swstate : Words)
    → Fifo.IsValid d.queue
    → d.queue.queue_next + sw_cnt ≤ d.queue.queue_size
    → length d.sw_values ≡ 1
    → length swstate ≡ 1
    → 8 ≤ rc
    → (q : Queue) × (sync_sw_state d (done rc swstate)
        ≡ (record d { queue = q; sw_values = swstate }, pos 0))
      × Fifo.IsValid q
      × (contents q
          ≡ contents d.queue ++ changes d.last_event_time ev_sw d.sw_values swstate sw_cnt 0)
unfolding sync_sw_state
sync_sw_state_lem d rc swstate v room old_size new_size whole =
    let (q, pushed, well, kept) = push_changes_lem ev_sw d.sw_values swstate sw_cnt 0 d v room in
    let copied : copy_bytes rc swstate d.sw_values ≡ swstate =
      copy_bytes_all rc swstate d.sw_values (omega arith) (omega arith) in
    (q, rw (pushed, ap (λ w. w) copied) refl, well, kept)

-- An LED sync that gets the whole bitmap, with room in the queue for an event of each LED, queues
-- one report for each LED that changed, takes over the kernel's state, succeeds, and changes
-- nothing else.
pub sync_led_state_lem :
    (d : Libevdev) (rc : ℕ) (ledstate : Words)
    → Fifo.IsValid d.queue
    → d.queue.queue_next + led_cnt ≤ d.queue.queue_size
    → length d.led_values ≡ 1
    → length ledstate ≡ 1
    → 8 ≤ rc
    → (q : Queue) × (sync_led_state d (done rc ledstate)
        ≡ (record d { queue = q; led_values = ledstate }, pos 0))
      × Fifo.IsValid q
      × (contents q
          ≡ contents d.queue ++ changes d.last_event_time ev_led d.led_values ledstate led_cnt 0)
unfolding sync_led_state
sync_led_state_lem d rc ledstate v room old_size new_size whole =
    let (q, pushed, well, kept) =
      push_changes_lem ev_led d.led_values ledstate led_cnt 0 d v room in
    let copied : copy_bytes rc ledstate d.led_values ≡ ledstate =
      copy_bytes_all rc ledstate d.led_values (omega arith) (omega arith) in
    (q, rw (pushed, ap (λ w. w) copied) refl, well, kept)
