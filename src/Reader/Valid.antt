-- ===== src/Reader/Valid.antt =====
-- `read_more_events` of libevdev/libevdev.c: what it does to the queue.
use android_external_libevde.Base.{
  ℕ, ◌+◌, ◌/◌, ◌%◌, ◌≤◌, ◌≡◌, refl, not, ltb, ◌==◌, ◌&&◌, ℤ, List, [], ◌∷◌, length, length-set, set,
  arith, Bool-cases, Option-cases, inl, inr, ap, ◌∙◌,
}
use android_external_libevde.Event.{Event, ReadReply, bytes, fault}
use android_external_libevde.Queue
use android_external_libevde.Queue.Fifo
use android_external_libevde.Queue.{Queue}
use android_external_libevde.Device.{Libevdev}
use android_external_libevde.Slots.Valid.{SlotsValid, no_slots, slots}
use android_external_libevde.Reader.{event_size, write_events, fill, take_reply, read_more_events}

-- What `read` promises: no more events than there was room for, as many as the bytes say.
abbrev pub Fits : ℕ → ReadReply → Type 0
Fits room (fault errno) = Unit {0}
Fits room (bytes len evs) = (length evs ≤ room) × (len / event_size ≡ length evs)

abbrev pub received : ReadReply → ℕ
received (fault errno) = 0
received (bytes len evs) = length evs

-- The events come from a supply that they use up.
abbrev pub ReadsFrom : {W : Type 0} → (W → ℕ → ReadReply × W) → (W → ℕ) → Type 0
ReadsFrom {W} read supply =
    (w : W) (room : ℕ)
    → Fits room (read w room).0 × (supply (read w room).1 + received (read w room).0 ≤ supply w)

length-write_events :
    (a : List Event) (i : ℕ) (evs : List Event) → length (write_events a i evs) ≡ length a
unfolding write_events
length-write_events a i [] = refl
length-write_events a i (e ∷ evs) = length-write_events (set a i e) (i + 1) evs ∙ length-set a i e

-- A device whose queue and slot array are well formed.
pub record Valid (d : Libevdev) : Type 0 where
  pub queue_valid : Fifo.IsValid d.queue
  pub slots_valid : SlotsValid d

pub with_queue-SlotsValid :
    (d : Libevdev) (q : Queue) → SlotsValid d → SlotsValid (record d { queue = q })
with_queue-SlotsValid d q (no_slots en ec) = no_slots en ec
with_queue-SlotsValid d q (slots n c vals en ec lt ev len) = slots n c vals en ec lt ev len

fill-IsValid : (q : Queue) (evs : List Event) → Fifo.IsValid q → Fifo.IsValid (fill q evs)
unfolding fill
fill-IsValid q evs v = elim (Option-cases q.queue) [
  | inl no_array ↦ ground arith
  | inr (a, is_array) ↦ ground (arith, length-write_events a q.queue_next evs)
]

fill-queue_next : (q : Queue) (evs : List Event) → (fill q evs).queue_next ≡ q.queue_next
unfolding fill
fill-queue_next q evs = refl

-- Reading keeps the device valid, and the events queued and still to come are no more than before.
pub record Read {W : Type 0} (supply : W → ℕ) (d : Libevdev) (w : W) (r : Libevdev × ℤ × W)
    : Type 0 where
  pub valid : Valid r.0
  pub spends : r.0.queue.queue_next + supply r.2 ≤ d.queue.queue_next + supply w
  pub grows : d.queue.queue_next ≤ r.0.queue.queue_next
  pub same_masks : r.0.masks ≡ d.masks
  pub same_sync : r.0.sync_state ≡ d.sync_state
  pub same_nsync : r.0.queue_nsync ≡ d.queue_nsync

-- The queue after a reply: well formed, with the new events counted.
take_reply-IsValid :
    (d : Libevdev) (reply : ReadReply)
    → Fifo.IsValid d.queue
    → Fits (Queue.num_free_elements d.queue) reply
    → Fifo.IsValid (take_reply d reply).0.queue
      × ((take_reply d reply).0.queue.queue_next ≤ d.queue.queue_next + received reply)
      × (d.queue.queue_next ≤ (take_reply d reply).0.queue.queue_next)
unfolding take_reply Queue.num_free_elements Queue.num_elements Queue.set_num_elements
take_reply-IsValid d (fault errno) v fits = ground arith
take_reply-IsValid d (bytes len evs) v fits =
    ground (arith, fill-IsValid d.queue evs v, fill-queue_next d.queue evs)

pub take_reply-same :
    (d : Libevdev) (reply : ReadReply)
    → (q : Queue) × ((take_reply d reply).0 ≡ record d { queue = q })
unfolding take_reply
take_reply-same d (fault errno) = (d.queue, refl)
take_reply-same d (bytes len evs) = elim (Bool-cases (ltb 0 len && not (len % event_size == 0))) [
  | inl partial ↦ (fill d.queue evs, rw partial)
  | inr whole ↦ elim (Bool-cases (ltb 0 len)) [
    | inl some_bytes ↦ (
      (Queue.set_num_elements (fill d.queue evs)
          (Queue.num_elements (fill d.queue evs) + len / event_size)).0,
      rw (whole, some_bytes),
    )
    | inr no_bytes ↦ (fill d.queue evs, rw (whole, no_bytes))
  ]
]

take_reply-Valid :
    (d : Libevdev) (reply : ReadReply)
    → Valid d
    → Fits (Queue.num_free_elements d.queue) reply
    → Valid (take_reply d reply).0
take_reply-Valid d reply v fits =
    let (q, same) = take_reply-same d reply in
    record {
      queue_valid = (take_reply-IsValid d reply v.queue_valid fits).0;
      slots_valid = rw same (with_queue-SlotsValid d q v.slots_valid);
    }

-- Where `read` gives no more events than there is room for and the queue and slots are well
-- formed, reading keeps them so, queues no more events than the kernel gave up, makes their number
-- no smaller, and leaves the masks, the sync state and the number of sync events alone.
pub read_more_events-Read :
    {W : Type 0} (read : W → ℕ → ReadReply × W) (supply : W → ℕ) (d : Libevdev) (w : W)
    → ReadsFrom read supply
    → Valid d
    → Read supply d w (read_more_events read d w)
unfolding read_more_events
read_more_events-Read read supply d w promise v =
    let room = Queue.num_free_elements d.queue in
    let reply = (read w room).0 in
    elim (Bool-cases (room == 0)) [
      | inl full ↦ rw full (record {
        valid = v;
        spends = omega arith;
        grows = omega arith;
        same_masks = refl;
        same_sync = refl;
        same_nsync = refl;
      })
      | inr space ↦
          let (fits, used) = promise w room in
          let (q, same) = take_reply-same d reply in
          let (well, most, least) = take_reply-IsValid d reply v.queue_valid fits in
          rw space (record {
            valid = take_reply-Valid d reply v fits;
            spends = omega arith;
            grows = least;
            same_masks = ap (λ t. t.masks) same;
            same_sync = ap (λ t. t.sync_state) same;
            same_nsync = ap (λ t. t.queue_nsync) same;
          })
    ]
