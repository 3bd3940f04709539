-- ===== src/Uinput/Scanning.antt =====
-- The files that the search in /sys opens are closed (libevdev/libevdev-uinput.c).
use android_external_libevde.Base.{
  ℕ, ◌+◌, ◌≡◌, refl, Bool-cases, inl, inr, not, leb, if◌then◌else◌, is_neg, ℤ, none, some, Option,
  Option-cases, List, [], ◌∷◌, ◌++◌, length, arith,
}
use android_external_libevde.Event.{Text}
use android_external_libevde.Names.{text}
use android_external_libevde.Uinput.{
  LibevdevUinput, ui_get_sysname, open_name, fstat, Answer, refused, done, rc_of, Session, System,
  M, give,
}
use android_external_libevde.Uinput.Syspath.{
  Host, DirEntry, is_outside, name_in, same_text, match_named, match_name, match_entries,
  with_result, find_entry, scan_input_dir, fetch_syspath_and_devnode, with_paths, keep,
  is_input_device, sys_input_dir, buf_size,
}
use android_external_libevde.Uinput.Closing.{Spends, Quiet, called}

-- What is found keeps the file descriptor of the device.
abbrev pub KeepsFd : LibevdevUinput → Option LibevdevUinput → Type 0
KeepsFd u none = Unit
KeepsFd u (some u') = (u'.fd ≡ u.fd) × (u'.fd_is_managed ≡ u.fd_is_managed)

-- A search: it closes what it opens, and keeps the file descriptor of the device.
abbrev Searches : System → ℕ → LibevdevUinput → M (Option LibevdevUinput) → Type 0
Searches system x u m = (s : Session) → Spends system x 0 0 s (m s).1 × KeepsFd u (m s).0

module _ (system : System) (x : ℕ) where
  Quiet-name_in : (u : LibevdevUinput) (e : DirEntry) → Quiet system x (name_in system u e)
  unfolding name_in
  Quiet-name_in u e s =
      let opening = open_name (sys_input_dir ++ e.d_name ++ text "/name") in
      let fd = rc_of (system s.calls opening) in
      let s1 = called system opening s in
      elim (Bool-cases (is_neg fd)) [
        | inl missing ↦ rw missing (ground arith)
        | inr there ↦ elim (Bool-cases (is_outside u (system s1.calls (fstat fd)))) [
          | inl outside ↦ rw (there, outside) (ground arith)
          | inr inside ↦ rw (there, inside) (ground arith)
        ]
      ]

  -- The rest of a loop, for a device with the file descriptor of `u`.
  abbrev Goes : LibevdevUinput → (LibevdevUinput → M (Option LibevdevUinput)) → Type 0
  Goes u next =
      (u1 : LibevdevUinput)
      → u1.fd ≡ u.fd
      → u1.fd_is_managed ≡ u.fd_is_managed
      → Searches system x u (next u1)

  module _ (host : Host) (u u1 : LibevdevUinput) (e : DirEntry)
      (next : LibevdevUinput → M (Option LibevdevUinput)) (same : u1.fd ≡ u.fd)
      (managed : u1.fd_is_managed ≡ u.fd_is_managed) (rest : Goes u next) where
    match_named-Searches :
        (found : Text) (name path : Option Text)
        → Searches system x u (match_named host u1 e found name path next)
    unfolding match_named
    match_named-Searches found none path s = (omega arith, tt)
    match_named-Searches found (some name) path s = elim (Bool-cases (not (same_text found name))) [
      | inl other ↦ rw other (rest u1 same managed s)
      | inr named ↦ rw named (by_path path)
    ]
      where
        by_path :
            (p : Option Text)
            → let m : M (Option LibevdevUinput) = elim p [
              | some twice ↦ give (some u1)
              | none ↦
                  if leb buf_size (length sys_input_dir + length e.d_name)
                  then give (some u1)
                  else next (with_paths host u1 (sys_input_dir ++ e.d_name))
            ] in
              Spends system x 0 0 s (m s).1 × KeepsFd u (m s).0
        by_path (some twice) = (omega arith, (same, managed))
        by_path none = elim (Bool-cases (leb buf_size (length sys_input_dir + length e.d_name))) [
          | inl long ↦ rw long (omega arith, (same, managed))
          | inr fits ↦
              rw fits (rest (with_paths host u1 (sys_input_dir ++ e.d_name)) same managed s)
        ]

    match_name-Searches :
        (found : Option Text) → Searches system x u (match_name host u1 e found next)
    unfolding match_name
    match_name-Searches none s = rest u1 same managed s
    match_name-Searches (some found) s = match_named-Searches found u1.name u1.syspath s

  match_entries-Searches :
      (host : Host) (entries : List DirEntry) (u : LibevdevUinput)
      → Goes u (match_entries system host entries)
  unfolding match_entries
  match_entries-Searches host [] u u1 same managed s = (omega arith, (same, managed))
  match_entries-Searches host (e ∷ entries) u u1 same managed s =
      elim (Bool-cases (leb buf_size (length sys_input_dir + length e.d_name + 5))) [
        | inl long ↦ rw long (match_entries-Searches host entries u u1 same managed s)
        | inr fits ↦
            let looked = name_in system u1 e s in
            let (later, kept) =
              match_name-Searches host u u1 e (match_entries system host entries) same managed
                (match_entries-Searches host entries u) looked.0 looked.1 in
            rw fits (omega (arith, Quiet-name_in u1 e s, later), kept)
      ]

  -- The search for the paths closes the files that it opens, and keeps the file descriptor.
  abbrev pub Finds : LibevdevUinput → M (Option (LibevdevUinput × ℤ)) → Type 0
  Finds u m =
      (s : Session)
      → Spends system x 0 0 s (m s).1 × KeepsFd u (elim (m s).0 [ none ↦ none | some r ↦ some r.0 ])

  KeepsFd-result :
      (u : LibevdevUinput) (o : Option LibevdevUinput)
      → KeepsFd u o
      → KeepsFd u (elim (with_result o) [ none ↦ none | some r ↦ some r.0 ])
  KeepsFd-result u none k = tt
  KeepsFd-result u (some u1) k = k

  find_entry-Finds :
      (host : Host) (entries : List DirEntry) (u : LibevdevUinput)
      → Finds u (find_entry system host entries u)
  unfolding find_entry
  find_entry-Finds host [] u s = (omega arith, (refl, refl))
  find_entry-Finds host (e ∷ rest) u s =
      let (balanced, kept) = match_entries-Searches host (e ∷ rest) u u refl refl s in
      (balanced, KeepsFd-result u (match_entries system host (e ∷ rest) u s).0 kept)

  scan_input_dir-Finds : (host : Host) (u : LibevdevUinput) → Finds u (scan_input_dir system host u)
  unfolding scan_input_dir
  scan_input_dir-Finds host u s = elim (Option-cases (host.directory sys_input_dir)) [
    | inl missing ↦ rw (missing, scan_input_dir) (omega arith, (refl, refl))
    | inr (entries, there) ↦
        rw (there, scan_input_dir) (find_entry-Finds host (keep is_input_device entries) u s)
  ]

  pub fetch-Finds :
      (host : Host) (u : LibevdevUinput) → Finds u (fetch_syspath_and_devnode system host u)
  unfolding fetch_syspath_and_devnode
  fetch-Finds host u s = by_answer (system s.calls (ui_get_sysname u.fd 65)) refl
    where
      by_answer :
          (a : Answer)
          → system s.calls (ui_get_sysname u.fd 65) ≡ a
          → let r = fetch_syspath_and_devnode system host u s in
            Spends system x 0 0 s r.1 × KeepsFd u (elim r.0 [ none ↦ none | some p ↦ some p.0 ])
      by_answer (refused errno) told =
          let (balanced, kept) =
            scan_input_dir-Finds host u
              (record s { calls = ui_get_sysname u.fd 65 ∷ s.calls; errno = errno }) in
          rw told (omega (arith, balanced), kept)
      by_answer (done rc n sysname) told = rw told (omega arith, (refl, refl))
