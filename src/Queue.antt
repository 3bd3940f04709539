-- ===== src/Queue.antt =====
-- The event queue of libevdev/libevdev-int.h: an array of `queue_size` events of which the first
-- `queue_next` are queued.
pub mod Fifo
use android_external_libevde.Base.{
  ℕ, suc, ◌+◌, ◌-◌, Bool, true, false, ltb, ◌==◌, ◌||◌, if◌then◌else◌, ℤ, pos, neg, Option, none,
  some, List, [], ◌∷◌, ◌++◌, get_elem?, set, take, drop, replicate,
}
use Prim.Native.Nat.{min}
use android_external_libevde.Event.{Event, enomem}

-- The members `queue`, `queue_size` and `queue_next` of `struct libevdev`. `none` is NULL.
pub record Queue : Type 0 where
  pub queue : Option (List Event)
  pub queue_size : ℕ
  pub queue_next : ℕ

abbrev pub array : Queue → List Event
array q = elim q.queue [ none ↦ [] | some a ↦ a ]

-- The event that `calloc` leaves in each place.
abbrev pub blank : Event
blank = record { sec = pos 0; usec = pos 0; type = 0; code = 0; value = pos 0 }

-- `*queue_push(dev) = ev`: the place and the new count, or NULL if the queue is full.
unfoldable pub push : Queue → Event → Queue × Bool
push q ev =
    if ltb q.queue_next q.queue_size
    then (
      record q {
        queue = elim q.queue [ none ↦ none | some a ↦ some (set a q.queue_next ev) ];
        queue_next = q.queue_next + 1;
      },
      true,
    )
    else (q, false)

unfoldable pub pop : Queue → Queue × Option Event
pop q =
    if q.queue_next == 0
    then (q, none)
    else (record q { queue_next = q.queue_next - 1 }, get_elem? (array q) (q.queue_next - 1))

-- 1, or 0 beside the event that is read: `none` is a read past the array.
unfoldable pub peek : Queue → ℕ → ℕ × Option Event
peek q idx =
    if q.queue_next == 0 || ltb q.queue_next idx then (1, none) else (0, get_elem? (array q) idx)

-- The events that go to the buffer `ev`; their number is the return value.
unfoldable pub shift_multiple : Queue → ℕ → Queue × List Event
shift_multiple q n =
    if q.queue_next == 0
    then (q, [])
    else (let k = min n q.queue_next in
        let remaining = q.queue_next - k in
        (
          record q {
            queue = elim q.queue [
              | none ↦ none
              | some a ↦ some (take remaining (drop k a) ++ drop remaining a)
            ];
            queue_next = remaining;
          },
          take k (array q),
        ))

-- `queue_shift_multiple(dev, 1, ev) == 1 ? 0 : 1`: the event, if the result is 0.
unfoldable pub shift : Queue → Queue × Option Event
shift q =
    let (q', evs) = shift_multiple q 1 in
    (q', elim evs [ [] ↦ none | e ∷ rest ↦ elim rest [ [] ↦ some e | _ ↦ none ] ])

-- `alloc` says whether `calloc` of that many elements succeeds.
unfoldable pub alloc : (ℕ → Bool) → Queue → ℕ → Queue × ℤ
alloc can q size =
    if size == 0
    then (q, neg enomem)
    else (if can size
        then (
          record { queue = some (replicate size blank); queue_size = size; queue_next = 0 },
          pos 0,
        )
        else (record q { queue = none }, neg enomem))

-- The pointer is left dangling; nothing reads through it while `queue_size` is 0.
unfoldable pub free : Queue → Queue
free q = record { queue = none; queue_size = 0; queue_next = 0 }

unfoldable pub num_elements : Queue → ℕ
num_elements q = q.queue_next

unfoldable pub size : Queue → ℕ
size q = q.queue_size

unfoldable pub num_free_elements : Queue → ℕ
num_free_elements q = if q.queue_size == 0 then 0 else q.queue_size - q.queue_next

-- The index of the element, or NULL if the queue is full.
unfoldable pub next_element : Queue → Option ℕ
next_element q = if q.queue_next == q.queue_size then none else some q.queue_next

unfoldable pub set_num_elements : Queue → ℕ → Queue × ℕ
set_num_elements q nelem =
    if ltb q.queue_size nelem then (q, 1) else (record q { queue_next = nelem }, 0)
