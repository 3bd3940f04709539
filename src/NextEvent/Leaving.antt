-- ===== src/NextEvent/Leaving.antt =====
-- What libevdev_next_event does with the events of an abandoned sync (libevdev/libevdev.c).
use android_external_libevde.Base.{◌≡◌, ◌⊎◌, false, some, Option, List, [], ◌∷◌}
use android_external_libevde.Event.{Event}
use android_external_libevde.Queue
use android_external_libevde.Queue.Fifo
use android_external_libevde.Queue.Fifo.{contents}
use android_external_libevde.Queue.{Queue}
use android_external_libevde.Device.{Libevdev, sync_none}
use android_external_libevde.State.{FilterStatus, is_sync_none}
use android_external_libevde.Reader.Valid.{Valid}
use android_external_libevde.NextEvent.{take_event, dec_size}

-- Each of the events is taken in, the oldest first: taken off the queue, counted down, given to the
-- filter and, unless dropped, to the update of the state. Then nothing is queued.
pub data TakesIn : List Event → Libevdev → Libevdev → Type 0 where
  took_all :
      (d : Libevdev) (q : Queue)
      → contents d.queue ≡ []
      → contents q ≡ []
      → TakesIn [] d (record d { queue = q })
  takes :
      (e : Event) (es : List Event) (q : Queue) (d d' : Libevdev)
      (r : Libevdev × FilterStatus × Event)
      → contents d.queue ≡ e ∷ es
      → contents q ≡ es
      → take_event (record d { queue = q; queue_nsync = dec_size d.queue_nsync }) e ≡ some r
      → r.0.queue ≡ q
      → TakesIn es r.0 d'
      → TakesIn (e ∷ es) d d'

abbrev Flushes : Libevdev → Option Libevdev → Type 0
Flushes d o = (d' : Libevdev) × (o ≡ some d') × Valid d' × TakesIn (contents d.queue) d d'

-- What leaving the sync state does: nothing in the default state, and else the pending events are
-- taken in and the state is the default one.
abbrev pub LeavesSync : Libevdev → Libevdev → Type 0
LeavesSync d d' =
    ((d.sync_state ≡ sync_none) × (d' ≡ d))
    ⊎ ((is_sync_none d.sync_state ≡ false)
        × ((d1 : Libevdev) × TakesIn (contents d.queue) d d1
            × (d' ≡ record d1 { sync_state = sync_none })))
