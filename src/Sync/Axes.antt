-- ===== src/Sync/Axes.antt =====
-- `sync_abs_state` as a whole: which values the axes have after it.
use android_external_libevde.Base.{
  ℕ, zero, suc, ◌+◌, ◌≤◌, ◌<◌, ◌≡◌, refl, ap, sym, ◌∙◌, Bool, true, false, not, leb, ltb, ◌||◌,
  ◌&&◌, ◌==◌, if◌then◌else◌, ℤ, eq_ℤ, eq_ℤ→eq, pos, none, arith, Bool-cases, inl, inr, length,
  length-set, get_or-set_self, get_or-set_ne, ==→eq, Option,
}
use android_external_libevde.Codes.{abs_mt_min, abs_mt_max, ev_abs}
use android_external_libevde.Event.{AbsInfo, Reply, done}
use android_external_libevde.Bitfield.{bit_is_set}
use android_external_libevde.Device.{Libevdev, Masks, abs_at, blank_abs}
use android_external_libevde.State.{set_abs_value}
use android_external_libevde.Sync.{queue_push_event, sync_axis, sync_axes, sync_abs_state}

-- Whether the kernel is asked for an axis.
abbrev pub is_asked : Masks → ℕ → Bool
is_asked m i = not (leb abs_mt_min i && leb i abs_mt_max || not (bit_is_set m.abs_bits i))

-- The device after one axis.
record Axis (i : ℕ) (value : ℤ) (d : Libevdev) (r : Libevdev × Option ℕ) : Type 0 where
  works : r.1 ≡ none
  same_masks : r.0.masks ≡ d.masks
  same_length : length r.0.abs_info ≡ length d.abs_info
  values :
      (j : ℕ)
      → (abs_at r.0 j).value ≡ (if i == j && is_asked d.masks i then value else (abs_at d j).value)

set_abs_value-masks : (d : Libevdev) (i : ℕ) (value : ℤ) → (set_abs_value d i value).masks ≡ d.masks
unfolding set_abs_value
set_abs_value-masks d i value = refl

set_abs_value-length :
    (d : Libevdev) (i : ℕ) (value : ℤ)
    → length (set_abs_value d i value).abs_info ≡ length d.abs_info
unfolding set_abs_value
set_abs_value-length d i value = length-set d.abs_info i _

value_after :
    (d : Libevdev) (i j : ℕ) (value : ℤ)
    → i < length d.abs_info
    → (abs_at (set_abs_value d i value) j).value ≡ (if i == j then value else (abs_at d j).value)
unfolding set_abs_value
value_after d i j value inside = elim (Bool-cases (i == j)) [
  | inl same ↦
      rw (same, sym (==→eq i j same))
        (ap (λ a. a.value)
          (get_or-set_self d.abs_info i (record (abs_at d i) { value = value }) blank_abs inside))
  | inr other ↦ rw other (
      ap (λ a. a.value)
        (get_or-set_ne d.abs_info i j (record (abs_at d i) { value = value }) blank_abs
          (λ e. absurd (ground (arith, other, e)))))
]

pick_old : (b c : Bool) (x y : ℤ) → c ≡ true → y ≡ (if b && not c then x else y)
pick_old b c x y h = ground arith

pick_new : (b c : Bool) (x y : ℤ) → c ≡ false → (if b then x else y) ≡ (if b && not c then x else y)
pick_new b c x y h = ground arith

range_empty : (i j : ℕ) (c : Bool) (x y : ℤ) → y ≡ (if leb i j && ltb j (i + 0) && c then x else y)
range_empty i j c x y = ground arith

range_grow :
    (i j n : ℕ) (c : ℕ → Bool) (x : ℕ → ℤ) (y : ℤ)
    → (if leb (i + 1) j && ltb j (i + 1 + n) && c j
        then x j
        else (if i == j && c i then x i else y))
      ≡ (if leb i j && ltb j (i + suc n) && c j then x j else y)
range_grow i j n c x y = elim (Bool-cases (i == j)) [
  | inl here ↦ ground (arith, ap c (==→eq i j here), ap x (==→eq i j here))
  | inr other ↦ ground (arith, other)
]

module _ (infos : ℕ → AbsInfo) where
  -- The kernel's answers.
  abbrev told : ℕ → Reply AbsInfo
  told i = done 0 (infos i)

  sync_axis-Axis :
      (i : ℕ) (d : Libevdev) → i < length d.abs_info → Axis i (infos i).value d (sync_axis told i d)
  unfolding sync_axis queue_push_event
  sync_axis-Axis i d inside =
      elim (Bool-cases
        (leb abs_mt_min i && leb i abs_mt_max || not (bit_is_set d.masks.abs_bits i))) [
          | inl left_out ↦ rw left_out (record {
            works = refl;
            same_masks = refl;
            same_length = refl;
            values = λ j. pick_old (i == j) _ (infos i).value (abs_at d j).value left_out;
          })
          | inr asked ↦ elim (Bool-cases (eq_ℤ (abs_at d i).value (infos i).value)) [
            | inl same ↦
                rw (asked, same)
                  (record {
                    works = refl;
                    same_masks = refl;
                    same_length = refl;
                    values = λ j. elim (Bool-cases (i == j)) [
                      | inl here ↦
                          rw (here, asked)
                            (ap (λ k. (abs_at d k).value) (sym (==→eq i j here))
                              ∙ eq_ℤ→eq (abs_at d i).value (infos i).value same)
                      | inr other ↦ rw other refl
                    ];
                  })
            | inr changed ↦
                let d1 = (queue_push_event d ev_abs i (infos i).value).0 in
                rw (asked, changed)
                  (record {
                    works = refl;
                    same_masks = set_abs_value-masks d1 i (infos i).value;
                    same_length = set_abs_value-length d1 i (infos i).value;
                    values = λ j.
                        value_after d1 i j (infos i).value inside
                        ∙ pick_new (i == j) _ (infos i).value (abs_at d j).value asked;
                  })
          ]
        ]

  -- The same for the axes from `i` on.
  Axes : ℕ → ℕ → Libevdev → Libevdev × ℤ → Type 0
  Axes n i d r =
      (r.1 ≡ pos 0)
      × ((j : ℕ)
          → (abs_at r.0 j).value ≡ (
              if leb i j && ltb j (i + n) && is_asked d.masks j
              then (infos j).value
              else (abs_at d j).value))

  sync_axes-Axes :
      (n i : ℕ) (d : Libevdev) → i + n ≤ length d.abs_info → Axes n i d (sync_axes told n i d)
  unfolding sync_axes Axes
  sync_axes-Axes zero i d inside =
      (refl, λ j. range_empty i j (is_asked d.masks j) (infos j).value (abs_at d j).value)
  sync_axes-Axes (suc n) i d inside =
      let d1 = (sync_axis told i d).0 in
      let first = sync_axis-Axis i d (omega arith) in
      let (works, values) = sync_axes-Axes n (i + 1) d1 (omega (arith, first.same_length)) in
      (
        rw (sync_axes, first.works) works,
        λ j.
            rw (sync_axes, first.works)
              (values j
                ∙ ap
                    (λ m.
                      if leb (i + 1) j && ltb j (i + 1 + n) && is_asked m j
                      then (infos j).value
                      else (abs_at d1 j).value)
                    first.same_masks
                ∙ ap
                    (λ x.
                      if leb (i + 1) j && ltb j (i + 1 + n) && is_asked d.masks j
                      then (infos j).value
                      else x)
                    (first.values j)
                ∙ range_grow i j n (is_asked d.masks) (λ a. (infos a).value) (abs_at d j).value),
      )

range_whole :
    (j : ℕ) (c : Bool) (x y : ℤ)
    → j < 64
    → (if leb 0 j && ltb j (0 + 64) && c then x else y) ≡ (if c then x else y)
range_whole j c x y h = ground arith

-- Where the kernel answers for every axis and the device holds 64 axes, sync_abs_state succeeds;
-- each axis that the device has and that is not a multitouch axis has the kernel's value
-- afterwards, and every other axis the value that it had, whether or not the queue had room for
-- the events.
pub sync_abs_state_lem :
    (d : Libevdev) (infos : ℕ → AbsInfo) (j : ℕ)
    → length d.abs_info ≡ 64
    → j < 64
    → ((sync_abs_state d (λ i. done 0 (infos i))).1 ≡ pos 0)
      × ((abs_at (sync_abs_state d (λ i. done 0 (infos i))).0 j).value
          ≡ (if is_asked d.masks j then (infos j).value else (abs_at d j).value))
unfolding sync_abs_state Axes
sync_abs_state_lem d infos j long below =
    let (works, values) = sync_axes-Axes infos 64 0 d (omega arith) in
    (works, values j ∙ range_whole j (is_asked d.masks j) (infos j).value (abs_at d j).value below)
