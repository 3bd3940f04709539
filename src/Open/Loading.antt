-- ===== src/Open/Loading.antt =====
-- The requests of libevdev_set_fd, and what they leave alone (libevdev/libevdev.c).
use mathlib.Core.Path.{subst}
use android_external_libevde.Base.{
  ℕ, zero, suc, ◌+◌, ◌≤◌, ◌<◌, ◌≡◌, ◌≢◌, refl, sym, ap, ◌∙◌, Bool, true, false, ◌==◌, ==→eq,
  if◌then◌else◌, ℤ, pos, minus_one, Option, none, some, List, length, length-set, set, get_or,
  get_or-set_self, get_or-set_ne, Bool-cases, inl, inr, arith,
}
use android_external_libevde.Codes.{ev_rep, abs_mt_slot}
use android_external_libevde.Event.{AbsInfo, Text, Reply, done, failed, enomem, einval, enoent}
use android_external_libevde.Bitfield.{Words, bit_is_set}
use android_external_libevde.Queue.{Queue}
use android_external_libevde.Device.{Libevdev, abs_at, blank_abs}
use android_external_libevde.Open.{
  Opening, Setup, next, out, ◌then_do◌, load, load_string, load_optional, load_props,
  fix_invalid_absinfo, load_axes, load_repeat, load_identity, load_masks, load_values,
}
use android_external_libevde.Open.Slots.{InRange}

abbrev pub no_queue : Queue
no_queue = record { queue = none; queue_size = 0; queue_next = 0 }

-- A device while the answers are taken in: no slots, no queue, and a sensible ABS_MT_SLOT.
abbrev pub Loading : Libevdev → Type 0
Loading d =
    (d.num_slots ≡ minus_one)
    × (d.current_slot ≡ minus_one)
    × (d.queue ≡ no_queue)
    × (length d.abs_info ≡ 64)
    × InRange (abs_at d abs_mt_slot)

abbrev pub Loads : Setup → Type 0
Loads (next d) = Loading d
Loads (out rc errno d) = Loading d

pub then_do-Loads :
    (s : Setup) (f : Libevdev → Setup)
    → Loads s
    → ((d : Libevdev) → Loading d → Loads (f d))
    → Loads (s then_do f)
then_do-Loads (next d) f b later = later d b
then_do-Loads (out rc errno d) f b later = b

load-Loads {ℓ} :
    {A : Type ℓ} (reply : Reply A) (put : A → Libevdev → Libevdev) (d : Libevdev)
    → ((a : A) → Loading (put a d))
    → Loading d
    → Loads (load reply put d)
load-Loads (done rc a) put d keeps b = keeps a
load-Loads (failed errno) put d keeps b = b

load_string-Loads :
    (strdup : Text → Option Text) (reply : Reply Text) (put : Option Text → Libevdev → Libevdev)
    (d : Libevdev)
    → ((s : Option Text) → Loading (put s d))
    → Loading d
    → Loads (load_string strdup reply put d)
load_string-Loads strdup (done rc s) put d keeps b = cases (strdup s)
  where
    cases :
        (o : Option Text)
        → Loads
            (elim o [ none ↦ out (pos rc) enomem (put none d) | some s' ↦ next (put (some s') d) ])
    cases none = keeps none
    cases (some s') = keeps (some s')
load_string-Loads strdup (failed errno) put d keeps b = b

load_optional-Loads :
    (strdup : Text → Option Text) (reply : Reply Text) (put : Option Text → Libevdev → Libevdev)
    (d : Libevdev)
    → ((d1 : Libevdev) (s : Option Text) → Loading d1 → Loading (put s d1))
    → Loading d
    → Loads (load_optional strdup reply put d)
load_optional-Loads strdup (done rc s) put d keeps b =
    load_string-Loads strdup (done rc s) put (put none d)
      (λ s1. keeps (put none d) s1 (keeps d none b)) (keeps d none b)
load_optional-Loads strdup (failed errno) put d keeps b = elim (Bool-cases (errno == enoent)) [
  | inl missing ↦ rw missing (keeps d none b)
  | inr error ↦ rw error (keeps d none b)
]

pub load_identity-Loads : (o : Opening) (d : Libevdev) → Loading d → Loads (load_identity o d)
unfolding load_identity
load_identity-Loads o d b =
    then_do-Loads _ _
      (then_do-Loads _ _
        (then_do-Loads _ _
          (then_do-Loads _ _
            (then_do-Loads _ _ (load-Loads o.bits _ d (λ w. b) b)
              (λ d1 b1. load_string-Loads o.strdup o.name _ d1 (λ s. b1) b1))
            (λ d1 b1. load_optional-Loads o.strdup o.phys _ d1 (λ d2 s b2. b2) b1))
          (λ d1 b1. load_optional-Loads o.strdup o.uniq _ d1 (λ d2 s b2. b2) b1))
        (λ d1 b1. load-Loads o.id _ d1 (λ i. b1) b1))
      (λ d1 b1. load-Loads o.version _ d1 (λ v. b1) b1)

load_props-Loads : (reply : Reply Words) (d : Libevdev) → Loading d → Loads (load_props reply d)
load_props-Loads (done rc w) d b = b
load_props-Loads (failed errno) d b = elim (Bool-cases (errno == einval)) [
  | inl without ↦ rw without b
  | inr error ↦ rw error b
]

pub load_masks-Loads : (o : Opening) (d : Libevdev) → Loading d → Loads (load_masks o d)
unfolding load_masks
load_masks-Loads o d b =
    then_do-Loads _ _
      (then_do-Loads _ _
        (then_do-Loads _ _
          (then_do-Loads _ _
            (then_do-Loads _ _
              (then_do-Loads _ _
                (then_do-Loads _ _
                  (then_do-Loads _ _ (load_props-Loads o.props d b)
                    (λ d1 b1. load-Loads (o.code_bits 2) _ d1 (λ w. b1) b1))
                  (λ d1 b1. load-Loads (o.code_bits 3) _ d1 (λ w. b1) b1))
                (λ d1 b1. load-Loads (o.code_bits 17) _ d1 (λ w. b1) b1))
              (λ d1 b1. load-Loads (o.code_bits 1) _ d1 (λ w. b1) b1))
            (λ d1 b1. load-Loads (o.code_bits 5) _ d1 (λ w. b1) b1))
          (λ d1 b1. load-Loads (o.code_bits 4) _ d1 (λ w. b1) b1))
        (λ d1 b1. load-Loads (o.code_bits 21) _ d1 (λ w. b1) b1))
      (λ d1 b1. load-Loads (o.code_bits 18) _ d1 (λ w. b1) b1)

-- What the kernel tells of an axis. For ABS_MT_SLOT the current slot is in the range.
abbrev pub Sensible : ℕ → Reply AbsInfo → Type 0
Sensible axis (failed errno) = Unit
Sensible axis (done rc a) = InRange a

module _ (abs_state : ℕ → Reply AbsInfo)
    (sensible : Sensible abs_mt_slot (abs_state abs_mt_slot)) where
  -- One axis is stored.
  store_axis :
      (i : ℕ) (a : AbsInfo) (rc : ℕ) (d : Libevdev)
      → abs_state i ≡ done rc a
      → i < 64
      → Loading d
      → Loading (record d { abs_info = set d.abs_info i (fix_invalid_absinfo i a) })
  unfolding fix_invalid_absinfo
  store_axis i a rc d told inside (count, current, empty, long, range) = (
    count,
    current,
    empty,
    length-set d.abs_info i (fix_invalid_absinfo i a) ∙ long,
    elim (Bool-cases (i == 47)) [
      | inl slot_axis ↦
          let here : i ≡ 47 = ==→eq i 47 slot_axis in
          let same : abs_state 47 ≡ done rc a = ap abs_state (sym here) ∙ told in
          let ok : InRange a = subst (Sensible 47) same sensible in
          let stored : get_or (set d.abs_info i (fix_invalid_absinfo i a)) 47 blank_abs ≡ a =
            ap (λ k. get_or (set d.abs_info k (fix_invalid_absinfo k a)) 47 blank_abs) here
            ∙ get_or-set_self d.abs_info 47 a blank_abs (omega arith) in
          subst InRange (sym stored) ok
      | inr other ↦
          let apart : i ≢ 47 = λ e. absurd (ground (arith, other, e)) in
          subst InRange
            (sym (get_or-set_ne d.abs_info i 47 (fix_invalid_absinfo i a) blank_abs apart)) range
    ],
  )

  load_axes-Loads :
      (n i : ℕ) (d : Libevdev) → i + n ≤ 64 → Loading d → Loads (load_axes abs_state n i d)
  unfolding load_axes
  load_axes-Loads zero i d within b = b
  load_axes-Loads (suc n) i d within b =
      then_do-Loads _ _ (one (bit_is_set d.masks.abs_bits i))
        (λ d1 b1. load_axes-Loads n (i + 1) d1 (omega arith) b1)
    where
      answered :
          (reply : Reply AbsInfo)
          → abs_state i ≡ reply
          → Loads (
              load reply
                (λ a d'. record d' { abs_info = set d'.abs_info i (fix_invalid_absinfo i a) })
                d)
      answered (done rc a) told = store_axis i a rc d told (omega arith) b
      answered (failed errno) told = b

      one :
          (set' : Bool)
          → Loads (
              if set'
              then load
                  (abs_state i)
                  (λ a d'. record d' { abs_info = set d'.abs_info i (fix_invalid_absinfo i a) })
                  d
              else next d)
      one true = answered (abs_state i) refl
      one false = b

load_repeat-Loads :
    (reply : Reply (List ℤ)) (d : Libevdev) → Loading d → Loads (load_repeat reply d)
load_repeat-Loads reply d b = elim (Bool-cases (bit_is_set d.masks.bits ev_rep)) [
  | inl repeats ↦ rw repeats (load-Loads reply _ _ (λ v. b) b)
  | inr plain ↦ rw plain b
]

pub load_values-Loads :
    (o : Opening) (d : Libevdev)
    → Sensible abs_mt_slot (o.abs_state abs_mt_slot)
    → Loading d
    → Loads (load_values o d)
unfolding load_values
load_values-Loads o d sensible b =
    then_do-Loads _ _
      (then_do-Loads _ _
        (then_do-Loads _ _
          (then_do-Loads _ _ (load-Loads o.key_state _ d (λ w. b) b)
            (λ d1 b1. load-Loads o.led_state _ d1 (λ w. b1) b1))
          (λ d1 b1. load-Loads o.switch_state _ d1 (λ w. b1) b1))
        (λ d1 b1. load_repeat-Loads o.repeat d1 b1))
      (λ d1 b1. load_axes-Loads o.abs_state sensible 64 0 d1 (omega arith) b1)
