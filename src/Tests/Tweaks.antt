-- ===== src/Tests/Tweaks.antt =====
-- The theorems on tools/libevdev-tweak-device.c and on the programs that list codes, at concrete inputs.
use mathlib.Core.List.{Memᴰ}
use android_external_libevde.Base.{
  ◌≡◌, ◌↔◌, refl, true, ◌==◌, if◌then◌else◌, pos, negsuc, minus_one, none, some, List, [], ◌∷◌,
  arith,
}
use android_external_libevde.Codes.{ev_rel, event_type_get_max}
use android_external_libevde.Event.{AbsInfo, done, failed, Text}
use android_external_libevde.Bitfield.{zeros}
use android_external_libevde.Device.{has_event_code, blank_abs}
use android_external_libevde.Names.{text, event_code_get_name, event_type_get_name}
use android_external_libevde.Names.EventNames.{tables, name_maps, name_at, names_of}
use android_external_libevde.Open.{Opening}
use android_external_libevde.Requests.{led_on, led_off}
use android_external_libevde.Tools.TweakDevice.{
  Library, Options, LedOptions, opt_abs, opt_min, opt_led, opt_off, parse_event_code,
  parse_options_led, take_options, take_led_option,
}
use android_external_libevde.Tools.TweakDevice.Apply.{led_value}
use android_external_libevde.Tools.TweakDevice.Main.{System, main}
use android_external_libevde.Tools.TweakDevice.Locals.{with_locals, main-with_locals}
use android_external_libevde.Tools.TweakDevice.Meaning.{has_off, parse_options_led_value}
use android_external_libevde.Tools.ListCodes
use android_external_libevde.Tools.ListCodes.{TypeLines}
use android_external_libevde.Tools.Events
use android_external_libevde.Tests.Data.{screen}
use android_external_libevde.Tests.Lookups.{first_match}

-- A C library that reads no numbers.
abbrev no_numbers : Library
no_numbers = record {
  sscanf = λ arg. none;
  strtol = λ arg. (pos 0, 0);
  atoi = λ arg. pos 5;
  bsearch = first_match;
}

-- `--led LED_CAPSL --off /dev/input/event0`
abbrev led_off_options : Options
led_off_options = record {
  found =
      record { c = opt_led; optarg = text "LED_CAPSL"; optind = 3 }
      ∷ record { c = opt_off; optarg = []; optind = 4 }
      ∷ [];
  last = 4;
}

abbrev caps_off : LedOptions
caps_off = record { led = pos 1; led_state = pos 0 }

parse_options_led_value_example :
    led_value (pos 0) ≡ (if has_off led_off_options.found then led_off else led_on)
unfolding parse_options_led take_options take_led_option parse_event_code first_match
parse_options_led_value_example =
    parse_options_led_value no_numbers tables 5 led_off_options minus_one caps_off refl

-- A device with the axis ABS_X that answers every request.
abbrev answers : Opening
answers = record {
  bits = done 8 (9 ∷ []);
  name = done 4 (text "pad");
  phys = failed 2;
  uniq = failed 2;
  id = done 0 (record { bustype = 3; vendor = 1; product = 2; version = 0 });
  version = done 0 (pos 65537);
  props = done 8 (zeros 1);
  code_bits = λ type. done 8 (if type == 3 then 1 ∷ [] else zeros 12);
  key_state = done 96 (zeros 12);
  led_state = done 8 (zeros 1);
  switch_state = done 8 (zeros 1);
  repeat = failed 22;
  abs_state = λ axis. done 0 blank_abs;
  mt_state = λ axis. failed 22;
  strdup = some;
  can = λ n. true;
}

-- `--abs ABS_X --min 5 /dev/input/event0`, for a device that takes the change.
abbrev set_minimum : System
set_minimum = record {
  library = no_numbers;
  first = record {
    found = record { c = opt_abs; optarg = text "ABS_X"; optind = 3 } ∷ [];
    last = 5;
  };
  second = record {
    found =
        record { c = opt_abs; optarg = text "ABS_X"; optind = 3 }
        ∷ record { c = opt_min; optarg = text "5"; optind = 5 }
        ∷ [];
    last = 5;
  };
  open' = λ path. done 3 tt;
  opening = answers;
  requested = record { can = λ n. true; set_axis = λ axis. done 0 tt; write = done 48 tt };
  absinfo = blank_abs;
  local = blank_abs;
}

abbrev set_minimum_args : List Text
set_minimum_args =
    text "tweak" ∷ text "--abs" ∷ text "ABS_X" ∷ text "--min" ∷ text "5" ∷ text "event0" ∷ []

abbrev other_abs : AbsInfo
other_abs = record blank_abs { minimum = negsuc 6; maximum = pos 77; fuzz = pos 9 }

main-with_locals_example :
    main (with_locals blank_abs other_abs set_minimum) tables name_maps set_minimum_args
    ≡ main (with_locals other_abs blank_abs set_minimum) tables name_maps set_minimum_args
main-with_locals_example =
    main-with_locals set_minimum tables name_maps blank_abs other_abs other_abs blank_abs
      set_minimum_args

-- The lines for EV_REL.
main_complete_example :
    (lines : TypeLines) × Memᴰ lines (ListCodes.main name_maps)
    × (lines.name ≡ text "EV_REL")
    × Memᴰ (record { code = 8; name = text "REL_WHEEL" }) lines.codes
unfolding event_code_get_name event_type_get_name event_type_get_max name_at names_of
main_complete_example =
    ListCodes.main_complete name_maps ev_rel 8 (text "EV_REL") (text "REL_WHEEL") (omega arith) refl
      refl

print_code_bits_example :
    Events.Listed name_maps screen 3 47 (Events.print_code_bits name_maps screen 3 63)
    ↔ (has_event_code screen.masks 3 47 ≡ true)
print_code_bits_example = Events.print_code_bits_lem name_maps screen 3 63 47 (omega arith)
