-- ===== src/Tools/EdgeDetector/Rule.antt =====
-- print_udev_override_rule of tools/touchpad-edge-detector.c: the values that it prints.
use android_external_libevde.Base.{
  ℕ, ◌≡◌, refl, ap, ◌∙◌, Bool, not, ◌==◌, ◌||◌, ◌&&◌, if◌then◌else◌, ℤ, pos, eq_ℤ, Option, none,
  some, ◌>>=◌, List, [], ◌∷◌, length, take, ◌-ℤ◌, as_int, quotient, round_quotient, arith,
}
use android_external_libevde.Codes.{ev_abs, abs_x, abs_y, abs_mt_position_x}
use android_external_libevde.Event.{Event, AbsInfo, Text}
use android_external_libevde.Device.{Libevdev, has_event_code, get_abs_info}
use android_external_libevde.Device.Fields.{StringField, ProductField, get_string, get_id}
use android_external_libevde.Tools.EdgeDetector.{Dimensions, Detector, Size, is_x, fresh}
use android_external_libevde.Tools.EdgeDetector.Edges.{
  values_of, extent, least, greatest, handles, handle_all-extent,
}
use android_external_libevde.Tools.Polling.Delivered.{handle_all}

-- What the match of the rule is made of.
pub data Match : Type 0 where
  by_ids : ℕ → ℕ → ℕ → Match
  by_dmi : Option Text → Text → Match
  unreadable : Match

-- pid_vid_matchstr: bus type, vendor and product.
unfoldable pub pid_vid_matchstr : Libevdev → Match
pid_vid_matchstr d =
    by_ids (get_id ProductField.bustype d) (get_id ProductField.vendor d)
      (get_id ProductField.product d)

-- dmi_matchstr, with what `fgets` read of the file if it could. An empty line would have no last byte.
unfoldable pub dmi_matchstr : Libevdev → Option Text → Option Match
dmi_matchstr d none = some unreadable
dmi_matchstr d (some []) = none
dmi_matchstr d (some (c ∷ cs)) =
    some (by_dmi (get_string StringField.name d) (take (length cs) (c ∷ cs)))

abbrev pub bus_usb : ℕ
bus_usb = 0x03

abbrev pub bus_bluetooth : ℕ
bus_bluetooth = 0x05

-- The size that the kernel knows of.
unfoldable pub listed_size : AbsInfo → AbsInfo → Option (Option Size)
listed_size x y =
    if not (eq_ℤ x.resolution (pos 0)) && not (eq_ℤ y.resolution (pos 0))
    then (as_int (x.maximum -ℤ x.minimum) >>= λ width. as_int (y.maximum -ℤ y.minimum) >>= λ height.
        quotient width x.resolution >>= λ w.
        quotient height y.resolution >>= λ h. some (some (record { w = w; h = h })))
    else some none

-- One axis in the rule: its range and its resolution.
pub record Range : Type 0 where
  pub low : ℤ
  pub high : ℤ
  pub res : ℤ

-- The printed values; the axes ABS_MT_POSITION_X and Y get the ranges of ABS_X and ABS_Y.
pub record Rule : Type 0 where
  pub listed : Option Size
  pub asked : Size
  pub ranges : Size
  pub match : Match
  pub abs_00 : Range
  pub abs_01 : Range
  pub has_mt : Bool

-- print_udev_override_rule; `none` is an overflow, a division by 0 or a NULL axis.
unfoldable pub override_rule : Libevdev → Option Text → Dimensions → Size → Option Rule
override_rule d modalias dim size = get_abs_info d abs_x >>= λ x. get_abs_info d abs_y >>= λ y.
    as_int (dim.right -ℤ dim.left) >>= λ w. as_int (dim.bottom -ℤ dim.top) >>= λ h.
    round_quotient w size.w >>= λ xres. round_quotient h size.h >>= λ yres.
    listed_size x y >>= λ listed.
    (if get_id ProductField.bustype d == bus_usb || get_id ProductField.bustype d == bus_bluetooth
      then some (pid_vid_matchstr d)
      else dmi_matchstr d modalias)
    >>= λ match'. some (record {
      listed = listed;
      asked = size;
      ranges = record { w = w; h = h };
      match = match';
      abs_00 = record { low = dim.left; high = dim.right; res = xres };
      abs_01 = record { low = dim.top; high = dim.bottom; res = yres };
      has_mt = has_event_code d.masks ev_abs abs_mt_position_x;
    })

-- After touchpad-edge-detector has handled events of which none is of an x axis, its rule cannot
-- be printed: the width of the range overflows, on every device and for every size.
pub override_rule-unmoved :
    (d : Libevdev) (modalias : Option Text) (size : Size) (es : List Event) (s : Detector)
    → handle_all handles fresh es ≡ some s
    → values_of is_x es ≡ []
    → override_rule d modalias s.dimensions size ≡ none
unfolding override_rule least greatest ◌-ℤ◌
override_rule-unmoved d modalias size es s handled still =
    let same : s.dimensions ≡ extent fresh.dimensions es = handle_all-extent es fresh s handled in
    let left_right : as_int
          ((extent fresh.dimensions es).right -ℤ (extent fresh.dimensions es).left)
        ≡ none =
      rw still refl in
    let width : as_int (s.dimensions.right -ℤ s.dimensions.left) ≡ none =
      ap (λ x. as_int (x.right -ℤ x.left)) same ∙ left_right in
    ground (arith, width)
