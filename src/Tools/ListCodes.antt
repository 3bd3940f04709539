-- ===== src/Tools/ListCodes.antt =====
-- tools/libevdev-list-codes.c: the types and codes that have names.
use mathlib.Core.List.{Memᴰ}
use android_external_libevde.Base.{
  ℕ, ◌+◌, ◌≤◌, ◌≡◌, ◌↔◌, refl, sym, ap, if◌then◌else◌, Bool-cases, inl, inr, minus_one, eq_ℤ,
  to_unsigned, Option, Option-cases, false, none, some, some_injective, List, arith,
}
use android_external_libevde.Codes.{ev_max_type, event_type_get_max}
use android_external_libevde.Event.{Text}
use android_external_libevde.Names.{NameMaps, event_type_get_name, event_code_get_name}
use android_external_libevde.Tools.Listing.{collect, collect_sound, collect_complete}

-- A printed code, and a printed type with its codes.
pub record CodeLine : Type 0 where
  pub code : ℕ
  pub name : Text

pub record TypeLines : Type 0 where
  pub name : Text
  pub codes : List CodeLine

module _ (maps : NameMaps) where
  -- One round of the loop of list_event_codes: a code without a name is left out.
  unfoldable pub code_line : ℕ → ℕ → Option CodeLine
  code_line type code = elim (event_code_get_name maps type code) [
    | none ↦ none
    | some str ↦ some (record { code = code; name = str })
  ]

  -- list_event_codes: nothing for a type without a name.
  unfoldable pub list_event_codes : ℕ → ℕ → Option TypeLines
  unfolding code_line
  list_event_codes type max = elim (event_type_get_name maps type) [
    | none ↦ none
    | some typestr ↦ some (record { name = typestr; codes = collect (code_line type) (max + 1) 0 })
  ]

  -- One round of the loop of main.
  unfoldable pub type_lines : ℕ → Option TypeLines
  unfolding list_event_codes
  type_lines type =
      let max = event_type_get_max type in
      let lines = list_event_codes type (to_unsigned max) in
      if eq_ℤ max minus_one then none else lines

  -- main
  unfoldable pub main : List TypeLines
  unfolding type_lines
  main = collect type_lines (ev_max_type + 1) 0

  code_line-some :
      (type j : ℕ) (l : CodeLine)
      → code_line type j ≡ some l
      → (l.code ≡ j) × (event_code_get_name maps type l.code ≡ some l.name)
  unfolding code_line
  code_line-some type j l h = elim (Option-cases (event_code_get_name maps type j)) [
    | inl nameless ↦ absurd (ground (arith, h, nameless))
    | inr (n, named) ↦
        let same : record { code = j; name = n } ≡ l =
          some_injective (rw (named, code_line) at h) in
        (ap (λ x. x.code) (sym same), rw (sym same) named)
  ]

  type_lines-some :
      (type : ℕ) (lines : TypeLines)
      → type_lines type ≡ some lines
      → (event_type_get_name maps type ≡ some lines.name)
        × (lines.codes ≡ collect (code_line type) (to_unsigned (event_type_get_max type) + 1) 0)
  unfolding type_lines list_event_codes
  type_lines-some type lines h = elim (Bool-cases (eq_ℤ (event_type_get_max type) minus_one)) [
    | inl no_codes ↦ absurd (ground (arith, h, no_codes))
    | inr codes ↦ elim (Option-cases (event_type_get_name maps type)) [
      | inl nameless ↦ absurd (ground (arith, h, codes, nameless))
      | inr (n, named) ↦
          let same = some_injective (rw (codes, type_lines, list_event_codes, named) at h) in
          (rw (sym same) named, ap (λ x. x.codes) (sym same))
    ]
  ]

  -- A code with a name is in the range of its type.
  code_in_range :
      (type code : ℕ) (n : Text)
      → event_code_get_name maps type code ≡ some n
      → (eq_ℤ (event_type_get_max type) minus_one ≡ false)
        × (code ≤ to_unsigned (event_type_get_max type))
  unfolding event_code_get_name
  code_in_range type code n h = ground (arith, h)

  -- lists
  pub type_lines_lem :
      (type code : ℕ) (lines : TypeLines) (n : Text)
      → type_lines type ≡ some lines
      → Memᴰ (record { code = code; name = n }) lines.codes
        ↔ (event_code_get_name maps type code ≡ some n)
  unfolding code_line
  type_lines_lem type code lines n listed =
      let (named, codes) = type_lines-some type lines listed in
      let top = to_unsigned (event_type_get_max type) in
      (
        (λ m.
            let (j, low, high, there) =
              collect_sound (code_line type) (top + 1) 0 (record { code = code; name = n })
                (rw codes at m) in
            (code_line-some type j (record { code = code; name = n }) there).1),
        (λ has_name.
            let (known, within) = code_in_range type code n has_name in
            let there : code_line type code ≡ some (record { code = code; name = n }) =
              rw (has_name, code_line) refl in
            rw codes (
              collect_complete (code_line type) (top + 1) 0 code (record { code = code; name = n })
                (omega arith) (omega arith) there)),
      )

  -- If a type up to EV_MAX and one of its codes have names, libevdev-list-codes lists the type
  -- under its name and the code with its name among the lines of the type.
  pub main_complete :
      (type code : ℕ) (typestr n : Text)
      → type ≤ ev_max_type
      → event_type_get_name maps type ≡ some typestr
      → event_code_get_name maps type code ≡ some n
      → (lines : TypeLines) × Memᴰ lines main
        × (lines.name ≡ typestr)
        × Memᴰ (record { code = code; name = n }) lines.codes
  unfolding main type_lines list_event_codes
  main_complete type code typestr n small named has_name =
      let (known, within) = code_in_range type code n has_name in
      let lines : TypeLines = record {
        name = typestr;
        codes = collect (code_line type) (to_unsigned (event_type_get_max type) + 1) 0;
      } in
      let listed : type_lines type ≡ some lines =
        rw (known, type_lines, list_event_codes, named) refl in
      (
        lines,
        collect_complete type_lines (ev_max_type + 1) 0 type lines (omega arith) (omega arith)
            listed,
        refl,
        (type_lines_lem type code lines n listed).1 has_name,
      )
