-- ===== src/Tests/Virtual.antt =====
-- The theorems on virtual devices at a concrete device, host and kernel.
use android_external_libevde.Base.{◌+◌, true, ◌||◌, ◌≡◌, refl, pos, none, some, [], ◌∷◌}
use android_external_libevde.Device.{has_event_code}
use android_external_libevde.Codes.{ev_key}
use android_external_libevde.Uinput.{
  open_uinput, ui_get_sysname, key_bit, refused, done, Session, System,
}
use android_external_libevde.Uinput.Setup.{set_evbits, uinput_bit}
use android_external_libevde.Names.{text}
use android_external_libevde.Uinput.Syspath.{Host}
use android_external_libevde.Uinput.Create.{create_from_device, open_managed}
use android_external_libevde.Uinput.Closing.{closes, opens, called}
use android_external_libevde.Uinput.Release.{Releases}
use android_external_libevde.Uinput.Whole.{create_from_device_foreign, create_from_device_managed}
use android_external_libevde.Uinput.Sent.{set_evbits_sent}
use android_external_libevde.Uinput.Told.{was_set}
use android_external_libevde.Tests.Data.{screen}

-- A kernel that agrees to every call, and one that knows no name of the device.
abbrev willing : System
willing calls call = done 0 5 []

abbrev nameless : System
nameless calls (ui_get_sysname fd size) = refused 25
nameless calls _ = done 0 5 []

-- No input device in /sys, and memory for everything.
abbrev bare_host : Host
bare_host = record {
  directory = λ path. none;
  strdup = λ s. some s;
  asprintf = λ s. some s;
  calloc_works = true;
}

abbrev start : Session
start = record { calls = []; errno = 0 }

-- One input device in /sys.
abbrev one_entry : Host
one_entry = record bare_host { directory = λ path. some (record { d_name = text "input7" } ∷ []) }

create_from_device_foreign_example :
    closes 7 (create_from_device nameless one_entry screen (pos 7) start).1.calls
      + opens nameless 7 start.calls
    ≡ closes 7 start.calls
      + opens nameless 7 (create_from_device nameless one_entry screen (pos 7) start).1.calls
create_from_device_foreign_example =
    create_from_device_foreign nameless 7 one_entry screen (pos 7) start refl

create_from_device_managed_example :
    Releases nameless 0
      (called nameless open_uinput start)
      0
      (create_from_device nameless one_entry screen open_managed start)
create_from_device_managed_example =
    create_from_device_managed nameless 0 one_entry screen 0 start refl refl

set_evbits_sent_example :
    ((set_evbits willing screen (pos 7) none start).0.0 ≡ pos 0)
    × (was_set key_bit 30 (set_evbits willing screen (pos 7) none start).1.calls
        ≡ (was_set key_bit 30 start.calls || has_event_code screen.masks ev_key 30))
unfolding uinput_bit
set_evbits_sent_example =
    set_evbits_sent willing screen (pos 7) (λ h c. refl) key_bit 30 ev_key refl none start
