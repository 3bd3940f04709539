-- ===== src/Uinput/Syspath.antt =====
-- Finding the paths of a new virtual device: `fetch_device_node` and `fetch_syspath_and_devnode`, as
-- they are built for Linux. `none` is a use of a NULL name, which C leaves undefined.
use android_external_libevde.Base.{
  ℕ, ◌+◌, ◌-◌, Bool, true, false, not, ltb, leb, ◌==◌, ◌&&◌, ◌||◌, if◌then◌else◌, ℤ, pos, minus_one,
  eq_ℤ, is_neg, Option, none, some, List, [], ◌∷◌, ◌++◌, length, take,
}
use android_external_libevde.Event.{Text}
use android_external_libevde.Names.{text, strncmp}
use android_external_libevde.Uinput.{
  LibevdevUinput, ui_get_sysname, open_name, fstat, read_name, close, Answer, refused, done, System,
  M, ◌>>=◌, give, sys, sys_rc,
}

pub record DirEntry : Type 0 where
  pub d_name : Text

-- What the C library gives: `scandir` with the entries in order, `strdup`, `asprintf` and `calloc`.
pub record Host : Type 0 where
  pub directory : Text → Option (List DirEntry)
  pub strdup : Text → Option Text
  pub asprintf : Text → Option Text
  pub calloc_works : Bool

unfoldable pub is_event_device : DirEntry → Bool
unfolding strncmp
is_event_device e = eq_ℤ (strncmp (text "event") e.d_name 5) (pos 0)

unfoldable pub is_input_device : DirEntry → Bool
unfolding strncmp
is_input_device e = eq_ℤ (strncmp (text "input") e.d_name 5) (pos 0)

-- The entries that the filter of `scandir` keeps.
unfoldable pub keep : (DirEntry → Bool) → List DirEntry → List DirEntry
keep test [] = []
keep test (e ∷ entries) = let rest = keep test entries in if test e then e ∷ rest else rest

-- The loop of `fetch_device_node`.
unfoldable pub first_node : Host → Option Text → List DirEntry → Option Text
first_node host node [] = node
first_node host node (e ∷ entries) =
    first_node host
      (elim node [ some n ↦ some n | none ↦ host.asprintf (text "/dev/input/" ++ e.d_name) ])
      entries

unfoldable pub fetch_device_node : Host → Text → Option Text
fetch_device_node host path = elim (host.directory path) [
  | none ↦ none
  | some entries ↦ first_node host none (keep is_event_device entries)
]

abbrev pub sys_input_dir : Text
sys_input_dir = text "/sys/devices/virtual/input/"

-- `sizeof(buf)`
abbrev pub buf_size : ℕ
buf_size = 92

-- The C string that starts at a buffer.
unfoldable pub c_string : Text → Text
c_string [] = []
c_string (c ∷ rest) = let tail = c_string rest in if c == 0 then [] else c ∷ tail

-- `strcmp(a, b) == 0`, for texts without the byte 0.
unfoldable pub same_text : Text → Text → Bool
same_text [] [] = true
same_text [] (y ∷ b) = false
same_text (x ∷ a) [] = false
same_text (x ∷ a) (y ∷ b) = x == y && same_text a b

-- Whether the file could not be looked at, or did not change within the time frame.
abbrev pub is_outside : LibevdevUinput → Answer → Bool
is_outside u (refused errno) = true
is_outside u (done rc changed t) = ltb changed u.ctime.0 || ltb u.ctime.1 changed

-- The name in the buffer, whose last byte is a newline.
abbrev pub name_of : Answer → Option Text
name_of (refused errno) = none
name_of (done len n bytes) = if len == 0 then none else some (c_string (take (len - 1) bytes))

-- The file that holds the name of a device: `open`, `fstat`, `read` and `close`.
unfoldable pub name_in : System → LibevdevUinput → DirEntry → M (Option Text)
name_in system u e = sys_rc system (open_name (sys_input_dir ++ e.d_name ++ text "/name")) >>= λ fd.
    if is_neg fd
    then give none
    else (sys system (fstat fd) >>= λ st.
        if is_outside u st
        then (sys_rc system (close fd) >>= λ _. give none)
        else (sys system (read_name fd buf_size) >>= λ got.
            sys_rc system (close fd) >>= λ _. give (name_of got)))

-- The paths are filled in for an entry of the device's name.
abbrev pub with_paths : Host → LibevdevUinput → Text → LibevdevUinput
with_paths host u path = record u {
  syspath = host.strdup path;
  devnode = fetch_device_node host path;
}

-- What a round does with the name that it found; the two options are the members `name` and
-- `syspath` of the device, and `next` is the rest of the loop.
unfoldable pub match_named :
    Host
    → LibevdevUinput
    → DirEntry
    → Text
    → Option Text
    → Option Text
    → (LibevdevUinput → M (Option LibevdevUinput))
    → M (Option LibevdevUinput)
match_named host u e found none path next = give none
match_named host u e found (some name) path next =
    if not (same_text found name) then next u else elim path [
      | some twice ↦ give (some u)
      | none ↦
          if leb buf_size (length sys_input_dir + length e.d_name)
          then give (some u)
          else next (with_paths host u (sys_input_dir ++ e.d_name))
    ]

-- The round of the loop behind the `close`.
unfoldable pub match_name :
    Host
    → LibevdevUinput
    → DirEntry
    → Option Text
    → (LibevdevUinput → M (Option LibevdevUinput))
    → M (Option LibevdevUinput)
match_name host u e none next = next u
match_name host u e (some found) next = match_named host u e found u.name u.syspath next

-- The loop over the entries.
unfoldable pub match_entries :
    System → Host → List DirEntry → LibevdevUinput → M (Option LibevdevUinput)
match_entries system host [] u = give (some u)
match_entries system host (e ∷ entries) u =
    let next = match_entries system host entries in
    if leb buf_size (length sys_input_dir + length e.d_name + 5)
    then next u
    else (name_in system u e >>= λ found. match_name host u e found next)

-- The device, and -1 or 0 if its node was found.
abbrev pub with_result : Option LibevdevUinput → Option (LibevdevUinput × ℤ)
with_result none = none
with_result (some u) = some (u, elim u.devnode [ none ↦ minus_one | some node ↦ pos 0 ])

-- The same for the entries that `scandir` gives.
unfoldable pub find_entry :
    System → Host → List DirEntry → LibevdevUinput → M (Option (LibevdevUinput × ℤ))
find_entry system host [] u = give (some (u, minus_one))
find_entry system host (e ∷ rest) u =
    match_entries system host (e ∷ rest) u >>= λ o. give (with_result o)

unfoldable pub scan_input_dir : System → Host → LibevdevUinput → M (Option (LibevdevUinput × ℤ))
scan_input_dir system host u = elim (host.directory sys_input_dir) [
  | none ↦ give (some (u, minus_one))
  | some entries ↦ find_entry system host (keep is_input_device entries) u
]

unfoldable pub fetch_syspath_and_devnode :
    System → Host → LibevdevUinput → M (Option (LibevdevUinput × ℤ))
fetch_syspath_and_devnode system host u = sys system (ui_get_sysname u.fd (buf_size - 27)) >>= λ a.
    elim a [
      | refused errno ↦ scan_input_dir system host u
      | done rc n sysname ↦ give (some (with_paths host u (sys_input_dir ++ sysname), pos 0))
    ]
