-- ===== src/Tests/Syncs.antt =====
-- The theorems on a whole sync at a device that has lost events and a kernel that answers.
use android_external_libevde.Base.{
  true, ◌≤◌, ◌≡◌, refl, ap, ℤ, pos, pos_part, length, some, List, [], ◌∷◌, arith,
}
use android_external_libevde.Event.{Event, AbsInfo, done}
use android_external_libevde.Device.{Libevdev, sync_needed}
use android_external_libevde.Kernel.{Kernel}
use android_external_libevde.Reader.{sync_state}
use android_external_libevde.Reader.Valid.{Valid}
use android_external_libevde.Reader.Total.{AnswersFor, sync_state_total}
use android_external_libevde.Sync.Safe.{Synced}
use android_external_libevde.NextEvent.{next_event}
use android_external_libevde.NextEvent.Loop.{Returns}
use android_external_libevde.NextEvent.Total.{with_sync-Valid}
use android_external_libevde.NextEvent.Complete.{next_event-Returns}
use android_external_libevde.NextEvent.Machine.{Moves, next_event-Moves}
use android_external_libevde.NextEvent.{Next, returns}
use android_external_libevde.NextEvent.Progress.{Advances, next_event-Advances}
use android_external_libevde.Device.{sync_in_progress}
use android_external_libevde.Device.{abs_at}
use android_external_libevde.Base.{if◌then◌else◌}
use android_external_libevde.Sync.{sync_abs_state}
use android_external_libevde.Sync.Axes.{is_asked, sync_abs_state_lem}
use android_external_libevde.Tests.Data.{
  sample_masks, press, screen, screen-Valid, key_30, replay_read, replay_read-ReadsFrom,
}

abbrev axis_at_one : AbsInfo
axis_at_one = record {
  value = pos 1;
  minimum = pos 0;
  maximum = pos 9;
  fuzz = pos 0;
  flat = pos 0;
  resolution = pos 0;
}

-- Key 30 is down, and both slots and the current slot have changed.
abbrev live_kernel : Kernel (List Event)
live_kernel = record {
  key_state = done 96 key_30;
  led_state = done 8 (1 ∷ []);
  switch_state = done 8 (2 ∷ []);
  abs_state = λ axis. done 0 axis_at_one;
  mt_state = λ axis. done 0 (pos 7 ∷ pos 8 ∷ []);
  read = replay_read;
}

abbrev lost : Libevdev
lost = record screen { sync_state = sync_needed; queue_nsync = 0 }

lost-Valid : Valid lost
lost-Valid = with_sync-Valid screen sync_needed 0 screen-Valid

live_kernel-AnswersFor : AnswersFor live_kernel lost
live_kernel-AnswersFor n counted =
    let two : 2 ≡ n = ap pos_part counted in
    record { covers = λ axis. omega arith; names = (1, refl, omega arith) }

sync_state_example :
    (r : Libevdev × ℤ × List Event) × (sync_state live_kernel lost (press ∷ []) ≡ some r)
    × Synced lost r.0
    × (length r.2 ≤ 1)
sync_state_example =
    sync_state_total live_kernel length lost (press ∷ []) replay_read-ReadsFrom lost-Valid
      live_kernel-AnswersFor

-- A call with the sync flag.
next_event-Returns_example : Returns (next_event live_kernel 9 lost 1 (press ∷ []))
next_event-Returns_example =
    next_event-Returns live_kernel length replay_read-ReadsFrom 9 1 lost (press ∷ []) lost-Valid
      live_kernel-AnswersFor (omega arith)

next_event-Moves_example : Moves true sync_needed (next_event live_kernel 9 lost 1 (press ∷ []))
next_event-Moves_example =
    next_event-Moves live_kernel length replay_read-ReadsFrom 9 1 lost (press ∷ []) lost-Valid
      live_kernel-AnswersFor refl refl refl (omega arith)

-- Two events are left of a sync.
abbrev syncing : Libevdev
syncing = record screen { sync_state = sync_in_progress; queue_nsync = 2 }

next_event-Advances_example :
    (r : Next (List Event)) × (next_event live_kernel 9 syncing 1 (press ∷ []) ≡ returns r)
    × Advances 2 r
next_event-Advances_example =
    next_event-Advances live_kernel length replay_read-ReadsFrom 9 1 syncing (press ∷ [])
      (with_sync-Valid screen sync_in_progress 2 screen-Valid) refl refl refl refl refl refl
      (omega arith) (omega arith) (omega arith)

-- A device with the axis 0, for which the kernel has the value 1.
abbrev pointer : Libevdev
pointer = record screen { masks = record sample_masks { abs_bits = 1 ∷ [] } }

sync_abs_state_example :
    ((sync_abs_state pointer (λ i. done 0 axis_at_one)).1 ≡ pos 0)
    × ((abs_at (sync_abs_state pointer (λ i. done 0 axis_at_one)).0 0).value
        ≡ (if is_asked pointer.masks 0 then pos 1 else (abs_at pointer 0).value))
sync_abs_state_example = sync_abs_state_lem pointer (λ i. axis_at_one) 0 refl (omega arith)
