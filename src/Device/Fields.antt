-- ===== src/Device/Fields.antt =====
-- The accessors of libevdev/libevdev.c: names, identifiers, properties, the ranges of axes.
use android_external_libevde.Base.{
  ℕ, ltb, not, if◌then◌else◌, ℤ, pos, minus_one, Option, none, some, set, [],
}
use android_external_libevde.Codes.{ev_abs, input_prop_max}
use android_external_libevde.Event.{AbsInfo, Text, u16}
use android_external_libevde.Bitfield.{set_bit, clear_bit}
use android_external_libevde.Device.{Libevdev, has_event_code, get_abs_info, abs_at}

-- The parts of a device that have the same getter and setter.
pub data StringField : Type 0 where
  name phys uniq : StringField

pub data ProductField : Type 0 where
  product vendor bustype version : ProductField

pub data AbsField : Type 0 where
  maximum minimum fuzz flat resolution : AbsField

-- libevdev_get_name, libevdev_get_phys, libevdev_get_uniq. A missing name reads as "".
unfoldable pub get_string : StringField → Libevdev → Option Text
get_string StringField.name d = elim d.name [ none ↦ some [] | some n ↦ some n ]
get_string StringField.phys d = d.phys
get_string StringField.uniq d = d.uniq

-- STRING_SETTER: a NULL argument changes nothing. `strdup` may fail.
unfoldable set_string : (Text → Option Text) → StringField → Libevdev → Option Text → Libevdev
set_string strdup field d none = d
set_string strdup StringField.name d (some s) = record d { name = strdup s }
set_string strdup StringField.phys d (some s) = record d { phys = strdup s }
set_string strdup StringField.uniq d (some s) = record d { uniq = strdup s }

-- PRODUCT_GETTER
unfoldable pub get_id : ProductField → Libevdev → ℕ
get_id ProductField.product d = d.ids.product
get_id ProductField.vendor d = d.ids.vendor
get_id ProductField.bustype d = d.ids.bustype
get_id ProductField.version d = d.ids.version

-- PRODUCT_SETTER: the `int` is cut to the `__u16` of `struct input_id`.
unfoldable set_id : ProductField → Libevdev → ℕ → Libevdev
set_id ProductField.product d v = record d { ids = record d.ids { product = u16 v } }
set_id ProductField.vendor d v = record d { ids = record d.ids { vendor = u16 v } }
set_id ProductField.bustype d v = record d { ids = record d.ids { bustype = u16 v } }
set_id ProductField.version d v = record d { ids = record d.ids { version = u16 v } }

unfoldable pub get_driver_version : Libevdev → ℤ
get_driver_version d = d.driver_version

unfoldable get_fd : Libevdev → ℤ
get_fd d = d.fd

unfoldable enable_property : Libevdev → ℕ → Libevdev × ℤ
enable_property d prop =
    if ltb input_prop_max prop
    then (d, minus_one)
    else (record d { masks = record d.masks { props = set_bit d.masks.props prop } }, pos 0)

unfoldable disable_property : Libevdev → ℕ → Libevdev × ℤ
disable_property d prop =
    if ltb input_prop_max prop
    then (d, minus_one)
    else (record d { masks = record d.masks { props = clear_bit d.masks.props prop } }, pos 0)

abbrev get_abs_field : AbsField → AbsInfo → ℤ
get_abs_field AbsField.maximum a = a.maximum
get_abs_field AbsField.minimum a = a.minimum
get_abs_field AbsField.fuzz a = a.fuzz
get_abs_field AbsField.flat a = a.flat
get_abs_field AbsField.resolution a = a.resolution

abbrev set_abs_field : AbsField → ℤ → AbsInfo → AbsInfo
set_abs_field AbsField.maximum v a = record a { maximum = v }
set_abs_field AbsField.minimum v a = record a { minimum = v }
set_abs_field AbsField.fuzz v a = record a { fuzz = v }
set_abs_field AbsField.flat v a = record a { flat = v }
set_abs_field AbsField.resolution v a = record a { resolution = v }

-- ABS_GETTER
unfoldable pub get_abs : AbsField → Libevdev → ℕ → ℤ
unfolding get_abs_info
get_abs field d code = elim (get_abs_info d code) [ none ↦ pos 0 | some a ↦ get_abs_field field a ]

-- ABS_SETTER
unfoldable set_abs : AbsField → Libevdev → ℕ → ℤ → Libevdev
set_abs field d code v =
    if not (has_event_code d.masks ev_abs code)
    then d
    else record d { abs_info = set d.abs_info code (set_abs_field field v (abs_at d code)) }

-- libevdev_set_abs_info
unfoldable set_abs_info : Libevdev → ℕ → AbsInfo → Libevdev
set_abs_info d code a =
    if not (has_event_code d.masks ev_abs code)
    then d
    else record d { abs_info = set d.abs_info code a }
