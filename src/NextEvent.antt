-- ===== src/NextEvent.antt =====
-- libevdev_next_event and libevdev_has_event_pending (libevdev/libevdev.c).
pub mod Total
pub mod Leaving
pub mod Loop
pub mod Call
pub mod Outcomes
pub mod Status
pub mod Complete
pub mod Machine
pub mod Progress
pub mod Spending
use android_external_libevde.Base.{
  ℕ, zero, suc, ◌+◌, ◌-◌, ◌%◌, ◌^◌, bit_and, Bool, true, false, not, ltb, leb, ◌==◌, ◌||◌, ◌&&◌,
  if◌then◌else◌, ℤ, pos, negsuc, minus_one, neg, eq_ℤ, is_neg, Option, none, some, ◌>>=◌, List, [],
  ◌∷◌,
}
use android_external_libevde.Codes.{ev_syn, syn_dropped}
use android_external_libevde.Event.{Event, ReadReply, Reply, done, failed, ebadf, eagain, einval}
use android_external_libevde.Queue
use android_external_libevde.Queue.{Queue}
use android_external_libevde.Device.{
  Libevdev, SyncState, sync_none, sync_needed, sync_in_progress, has_event_code,
}
use android_external_libevde.Kernel.{Kernel}
use android_external_libevde.State.{
  FilterStatus, filter_none, filter_modified, filter_discard, sanitize_event, update_state,
  is_sync_none, is_discard,
}
use android_external_libevde.Reader.{read_more_events, sync_state}

-- enum libevdev_read_flag and enum libevdev_read_status
abbrev pub flag_sync : ℕ
flag_sync = 1

abbrev pub flag_normal : ℕ
flag_normal = 2

abbrev pub flag_force_sync : ℕ
flag_force_sync = 4

abbrev pub flag_blocking : ℕ
flag_blocking = 8

abbrev pub status_success : ℤ
status_success = pos 0

abbrev pub status_sync : ℤ
status_sync = pos 1

-- `flags & flag`
abbrev pub has_flag : ℕ → ℕ → Bool
has_flag flags flag = not (bit_and flags flag == 0)

-- `dev->queue_nsync--`, a `size_t`.
abbrev pub dec_size : ℕ → ℕ
dec_size n = (n + 2 ^ 64 - 1) % 2 ^ 64

-- An event is filtered, and changes the state unless it is dropped.
unfoldable pub take_event : Libevdev → Event → Option (Libevdev × FilterStatus × Event)
take_event d e = sanitize_event d e d.sync_state >>= λ r.
    if is_discard r.0
    then some (d, r.0, r.1)
    else (update_state d r.1 >>= λ u. some (u.0, r.0, r.1))

-- The loop over the queue for events that the caller did not fetch. Each round takes one event, so
-- the number queued is enough rounds.
unfoldable pub flush_from : ℕ → Libevdev → Option Libevdev
flush_from zero d = some d
flush_from (suc n) d =
    let (q, ev) = Queue.shift d.queue in
    elim ev [
      | none ↦ some (record d { queue = q })
      | some e ↦
          take_event (record d { queue = q; queue_nsync = dec_size d.queue_nsync }) e >>= λ r.
          flush_from n r.0
    ]

-- What a call gives: a result, an access that C leaves undefined, or no fuel left.
pub data Outcome (A : Type 0) : Type 0 where
  returns : A → Outcome A
  undefined : Outcome A
  out_of_fuel : Outcome A

-- `*ev` is `none` where the code does not set it or says that it is undefined.
pub record Next (W : Type 0) : Type 0 where
  pub device : Libevdev
  pub rc : ℤ
  pub event : Option Event
  pub world : W

-- The code after the loop.
unfoldable pub deliver : {W : Type 0} → ℕ → Libevdev → Event → W → Next W
deliver flags d ev w =
    let dropped = ev.type == ev_syn && ev.code == syn_dropped in
    let d1 = if dropped then record d { sync_state = sync_needed } else d in
    let rc1 = if dropped then status_sync else status_success in
    if has_flag flags flag_sync && ltb 0 d1.queue_nsync
    then record {
      device = record d1 {
        queue_nsync = dec_size d1.queue_nsync;
        sync_state = if dec_size d1.queue_nsync == 0 then sync_none else d1.sync_state;
      };
      rc = status_sync;
      event = some ev;
      world = w;
    }
    else record { device = d1; rc = rc1; event = some ev; world = w }

-- More events are read only when none is queued; `rc` is looked at only then.
unfoldable pub refill : {W : Type 0} → (W → ℕ → ReadReply × W) → Libevdev → W → Libevdev × ℤ × W
refill read d w =
    if Queue.num_elements d.queue == 0 then read_more_events read d w else (d, pos 0, w)

-- The part of a round behind the tests: the first event is taken from the queue, and the loop goes on
-- with `again` if it was dropped.
unfoldable pub take_head :
    {W : Type 0} → ℕ → W → (Libevdev → Outcome (Next W)) → Libevdev → Outcome (Next W)
take_head flags w again d =
    let (q, head) = Queue.shift d.queue in
    elim head [
      | none ↦
          returns
            (record { device = record d { queue = q }; rc = neg eagain; event = none; world = w })
      | some e ↦ elim (take_event (record d { queue = q }) e) [
        | none ↦ undefined
        | some (d2, status, ev) ↦
            elim (is_discard status || not (has_event_code d2.masks ev.type ev.code)) [
              | true ↦ again d2
              | false ↦ returns (deliver flags d2 ev w)
            ]
      ]
    ]

-- The loop, with fuel: each round but the last one drops an event. `NextEvent/Total` has how much is
-- enough.
unfoldable pub next_loop :
    {W : Type 0} → (W → ℕ → ReadReply × W) → ℕ → ℕ → Libevdev → W → Outcome (Next W)
next_loop {W} read zero flags d w = out_of_fuel
next_loop {W} read (suc n) flags d w =
    let (d1, rc, w1) = refill read d w in
    let round : Outcome (Next W) = take_head flags w1 (λ d2. next_loop read n flags d2 w1) d1 in
    if is_neg rc && not (eq_ℤ rc (neg eagain))
    then returns (record { device = d1; rc = rc; event = none; world = w1 })
    else if has_flag flags flag_force_sync
    then returns (record {
      device = record d1 { sync_state = sync_needed };
      rc = status_sync;
      event = none;
      world = w1;
    })
    else round

abbrev pub is_sync_needed : SyncState → Bool
is_sync_needed sync_needed = true
is_sync_needed sync_none = false
is_sync_needed sync_in_progress = false

-- The part of libevdev_next_event for LIBEVDEV_READ_FLAG_SYNC: the device to go on with, or the
-- device and result to return.
unfoldable pub enter_sync :
    {W : Type 0} → Kernel W → Libevdev → W → Option (Libevdev × W × Option ℤ)
enter_sync {W} k d w =
    let synced : Option (Libevdev × W × Option ℤ) =
      if is_sync_needed d.sync_state
      then (sync_state k d w >>= λ r. some (
          if eq_ℤ r.1 (pos 0)
          then (record r.0 { sync_state = sync_in_progress }, r.2, none)
          else (r.0, r.2, some r.1)))
      else some (d, w, none) in
    synced >>= λ s. elim s.2 [
      | some rc ↦ some s
      | none ↦
          if s.0.queue_nsync == 0
          then some (record s.0 { sync_state = sync_none }, s.1, some (neg eagain))
          else some s
    ]

-- The other part: without that flag the events of a sync are taken at once.
unfoldable pub leave_sync : Libevdev → Option Libevdev
leave_sync d =
    if is_sync_none d.sync_state
    then some d
    else (flush_from (Queue.num_elements d.queue) d >>= λ d1.
        some (record d1 { sync_state = sync_none }))

abbrev pub valid_flags : ℕ
valid_flags = 15

abbrev pub quick : {W : Type 0} → Libevdev → ℤ → W → Outcome (Next W)
quick d rc w = returns (record { device = d; rc = rc; event = none; world = w })

-- libevdev_next_event
unfoldable pub next_event : {W : Type 0} → Kernel W → ℕ → Libevdev → ℕ → W → Outcome (Next W)
next_event k fuel d flags w =
    if not d.initialized
    then quick d (neg ebadf) w
    else if is_neg d.fd
    then quick d (neg ebadf) w
    else if not (has_flag flags valid_flags)
    then quick d (neg einval) w
    else if has_flag flags flag_sync
    then elim (enter_sync k d w) [
      | none ↦ undefined
      | some (d1, w1, early) ↦ elim early [
        | some rc ↦ quick d1 rc w1
        | none ↦ next_loop k.read fuel flags d1 w1
      ]
    ]
    else elim (leave_sync d) [ none ↦ undefined | some d1 ↦ next_loop k.read fuel flags d1 w ]

-- libevdev_has_event_pending, with the answer of `poll`.
unfoldable pub has_event_pending : Libevdev → Reply (Unit {0}) → ℤ
has_event_pending d polled =
    if not d.initialized
    then neg ebadf
    else if is_neg d.fd
    then neg ebadf
    else if not (Queue.num_elements d.queue == 0)
    then pos 1
    else elim polled [ done rc u ↦ pos rc | failed errno ↦ neg errno ]
