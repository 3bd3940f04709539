-- ===== src/Tools/TweakDevice/Locals.antt =====
-- `main` of tools/libevdev-tweak-device.c and the variables that it does not initialise.
use android_external_libevde.Base.{
  ℕ, ◌≡◌, refl, ap, ◌∙◌, ltb, inl, inr, Bool-cases, Option, Option-cases, none, some, List, length,
  get_elem?, minus_one, to_unsigned, arith, pos, [], ◌∷◌,
}
use android_external_libevde.Event.{AbsInfo, Text}
use android_external_libevde.Names.{NameMaps, Tables}
use android_external_libevde.Tools.TweakDevice.{
  Mode, mode_none, mode_abs, mode_led, mode_resolution, mode_help, AbsOptions, parse_options_abs,
  parse_options_led, parse_options_resolution, parse_options_mode,
}
use android_external_libevde.Tools.TweakDevice.Apply.{set_abs}
use android_external_libevde.Tools.TweakDevice.Asked.{Agrees, set_abs-Agrees, set_resolution-local}
use android_external_libevde.Tools.TweakDevice.Parsed.{BothAlike, take_options-Alike}
use android_external_libevde.Tools.TweakDevice.Main.{
  System, Exit, Task, exits, usage, change_axis, change_led, change_resolution, do_task, open_then,
  do_parsed, parse_task, parse_and_do, main,
}

-- The program with other values in the variables that are not initialised.
abbrev pub with_locals : AbsInfo → AbsInfo → System → System
with_locals absinfo local sys = record sys { absinfo = absinfo; local = local }

nothing_asked : {a b : AbsInfo} → Agrees 0 a b
nothing_asked = record {
  minimum = λ asked. absurd (ground (arith, asked));
  maximum = λ asked. absurd (ground (arith, asked));
  fuzz = λ asked. absurd (ground (arith, asked));
  flat = λ asked. absurd (ground (arith, asked));
  resolution = λ asked. absurd (ground (arith, asked));
}

module _ (tables : Tables) (maps : NameMaps) (sys : System) (a b l m : AbsInfo) where
  one : System
  one = with_locals a l sys

  other : System
  other = with_locals b m sys

  -- Results of the second parse that have the same effect.
  data SameEffect : Option Task → Option Task → Type 0 where
    neither : SameEffect none none
    both :
        (t u : Task)
        → do_task one tables maps t ≡ do_task other tables maps u
        → SameEffect (some t) (some u)

  Alike-SameEffect :
      (x y : Option AbsOptions)
      → BothAlike x y
      → SameEffect
          (elim x [ none ↦ none | some o ↦ some (change_axis o) ])
          (elim y [ none ↦ none | some o ↦ some (change_axis o) ])
  unfolding do_task one other
  Alike-SameEffect x y BothAlike.both_none = neither
  Alike-SameEffect x y (BothAlike.both_some o p s) = both (change_axis o) (change_axis p) (λ i d.
      (set_abs-Agrees sys.requested maps d o.changes (to_unsigned o.axis) o.absinfo p.absinfo
            s.agrees
          ∙ (λ j.
              set_abs sys.requested maps d (s.same_changes j) (to_unsigned (s.same_axis j))
                p.absinfo))
        i)

  parsed-Alike :
      (argc : ℕ)
      → BothAlike
          (parse_options_abs sys.library tables argc sys.second
            (record { changes = 0; axis = minus_one; absinfo = a }))
          (parse_options_abs sys.library tables argc sys.second
            (record { changes = 0; axis = minus_one; absinfo = b }))
  unfolding parse_options_abs
  parsed-Alike argc = elim (Bool-cases (ltb argc 2)) [
    | inl few ↦ rw few BothAlike.both_none
    | inr enough ↦ rw enough (
        take_options-Alike sys.library tables sys.second.found
          (record { changes = 0; axis = minus_one; absinfo = a })
          (record { changes = 0; axis = minus_one; absinfo = b })
          (record {
            same_changes = refl;
            same_axis = refl;
            small = omega arith;
            agrees = nothing_asked;
          }))
  ]

  parse_task-SameEffect :
      (mode : Mode) (argc : ℕ)
      → SameEffect (parse_task one tables maps mode argc) (parse_task other tables maps mode argc)
  unfolding parse_task do_task one other
  parse_task-SameEffect mode_none argc = neither
  parse_task-SameEffect mode_help argc = neither
  parse_task-SameEffect mode_led argc =
      elim (Option-cases (
        parse_options_led sys.library tables argc sys.second
          (record { led = minus_one; led_state = minus_one }))) [
            | inl failed ↦ rw (failed, parse_task) neither
            | inr (o, parsed) ↦ rw (parsed, parse_task) (both (change_led o) (change_led o) refl)
          ]
  parse_task-SameEffect mode_resolution argc =
      elim (Option-cases (parse_options_resolution sys.library argc sys.second (pos 0, pos 0))) [
        | inl failed ↦ rw (failed, parse_task) neither
        | inr ((x, y), parsed) ↦
            rw (parsed, parse_task)
              (both (change_resolution (x, y)) (change_resolution (x, y))
                (λ i d. set_resolution-local sys.requested maps l m d x y i))
      ]
  parse_task-SameEffect mode_abs argc = Alike-SameEffect _ _ (parsed-Alike argc)

  do_parsed-same :
      (x y : Option Task) (argv : List Text)
      → SameEffect x y
      → do_parsed one tables maps x argv ≡ do_parsed other tables maps y argv
  unfolding do_parsed open_then one other
  do_parsed-same x y argv neither = refl
  do_parsed-same x y argv (both t u same) = elim (Option-cases (get_elem? argv sys.second.last)) [
    | inl missing ↦ rw (missing, do_parsed) refl
    | inr (path, there) ↦
        rw (there, do_parsed) (ap (λ act. open_then one tables maps act path) same)
  ]

  parse_and_do-same :
      (mode : Mode) (argv : List Text)
      → parse_and_do one tables maps mode argv ≡ parse_and_do other tables maps mode argv
  unfolding parse_and_do
  parse_and_do-same mode argv =
      do_parsed-same (parse_task one tables maps mode (length argv))
        (parse_task other tables maps mode (length argv)) argv
        (parse_task-SameEffect mode (length argv))

  main-same : (argv : List Text) → main one tables maps argv ≡ main other tables maps argv
  unfolding main one other
  main-same argv = cases (parse_options_mode (length argv) sys.first)
    where
      cases :
          (mode : Mode)
          → elim mode as (λ x. Exit) [
            | mode_help ↦ exits none (pos 0) (usage ∷ [])
            | mode_none ↦ exits none (pos 1) (usage ∷ [])
            | mode_abs ↦ parse_and_do one tables maps mode_abs argv
            | mode_led ↦ parse_and_do one tables maps mode_led argv
            | mode_resolution ↦ parse_and_do one tables maps mode_resolution argv
          ]
            ≡ elim mode as (λ x. Exit) [
              | mode_help ↦ exits none (pos 0) (usage ∷ [])
              | mode_none ↦ exits none (pos 1) (usage ∷ [])
              | mode_abs ↦ parse_and_do other tables maps mode_abs argv
              | mode_led ↦ parse_and_do other tables maps mode_led argv
              | mode_resolution ↦ parse_and_do other tables maps mode_resolution argv
            ]
      cases mode_help = refl
      cases mode_none = refl
      cases mode_abs = parse_and_do-same mode_abs argv
      cases mode_led = parse_and_do-same mode_led argv
      cases mode_resolution = parse_and_do-same mode_resolution argv

-- libevdev-tweak-device does the same whatever its variables `absinfo` and `abs` held before,
-- which it does not initialise: for any arguments, any results of getopt_long and any answers of
-- the system, it exits with the same code, the same complaints and the same device.
pub main-with_locals :
    (sys : System) (tables : Tables) (maps : NameMaps) (a b l m : AbsInfo) (argv : List Text)
    → main (with_locals a l sys) tables maps argv ≡ main (with_locals b m sys) tables maps argv
unfolding one other
main-with_locals sys tables maps a b l m argv = main-same tables maps sys a b l m argv
