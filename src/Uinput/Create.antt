-- ===== src/Uinput/Create.antt =====
-- Creating and destroying a virtual device: libevdev_uinput_create_from_device and
-- libevdev_uinput_destroy. `none` is an access that C leaves undefined.
use android_external_libevde.Base.{
  ℕ, Bool, true, false, not, leb, ◌&&◌, if◌then◌else◌, ℤ, pos, negsuc, minus_one, neg, eq_ℤ, is_neg,
  Option, none, some,
}
use android_external_libevde.Event.{Text, ebadf, enomem}
use android_external_libevde.Device.{Libevdev}
use android_external_libevde.Uinput.{
  LibevdevUinput, open_uinput, ui_get_version, ui_dev_create, ui_dev_destroy, close, time, Answer,
  refused, done, System, M, ◌>>=◌, give, get_errno, set_errno, sys, sys_rc,
}
use android_external_libevde.Uinput.Setup.{dev_name, uinput_create_write, uinput_create_dev_setup}
use android_external_libevde.Uinput.Syspath.{Host, fetch_syspath_and_devnode}

-- LIBEVDEV_UINPUT_OPEN_MANAGED
abbrev pub open_managed : ℤ
open_managed = negsuc 1

abbrev pub enodev : ℕ
enodev = 19

unfoldable pub alloc_uinput_device : Host → Text → Option LibevdevUinput
alloc_uinput_device host name =
    if host.calloc_works
    then some (record {
      fd = minus_one;
      fd_is_managed = false;
      name = host.strdup name;
      syspath = none;
      devnode = none;
      ctime = (0, 0);
    })
    else none

-- libevdev_uinput_destroy, but for the memory that it frees.
unfoldable pub uinput_destroy : System → LibevdevUinput → M (Unit {0})
uinput_destroy system u =
    if is_neg u.fd
    then give tt
    else (sys_rc system (ui_dev_destroy u.fd) >>= λ _.
        if u.fd_is_managed then (sys_rc system (close u.fd) >>= λ _. give tt) else give tt)

-- The result: the new device or a negative error number. `none` is undefined behaviour.
abbrev pub Created : Type 0
Created = Option (ℤ × Option LibevdevUinput)

-- The code at the label `error`, with the variable `fd`.
unfoldable pub create_error : System → Bool → ℤ → LibevdevUinput → M Created
create_error system close_fd_on_error fd u = get_errno >>= λ e. uinput_destroy system u >>= λ _.
    if not (eq_ℤ fd minus_one) && close_fd_on_error
    then (sys_rc system (close fd) >>= λ _. give (some (neg e, none)))
    else give (some (neg e, none))

-- The number that `time` gives.
abbrev pub number_of : Answer → ℕ
number_of (refused errno) = 0
number_of (done rc n t) = n

-- From the first call of `time` on.
unfoldable pub create_device : System → Host → Bool → ℤ → LibevdevUinput → M Created
create_device system host managed fd u = sys system time >>= λ before.
    sys_rc system (ui_dev_create fd) >>= λ rc.
    if eq_ℤ rc minus_one
    then create_error system managed fd u
    else (sys system time >>= λ after.
        let u1 = record u { ctime = (number_of before, number_of after); fd = fd } in
        fetch_syspath_and_devnode system host u1 >>= λ r. elim r [
          | none ↦ give none
          | some (u2, found) ↦
              if eq_ℤ found minus_one
              then (set_errno enodev >>= λ _. create_error system managed fd u2)
              else give (some (pos 0, some u2))
        ])

abbrev pub is_new_version : Answer → Bool
is_new_version (refused errno) = false
is_new_version (done rc n t) = eq_ℤ (pos rc) (pos 0) && leb 5 n

-- The set-up of the device, once there is a file descriptor.
unfoldable pub setup_device : System → Host → Libevdev → Bool → ℤ → LibevdevUinput → M Created
setup_device system host d managed fd u = sys system (ui_get_version fd) >>= λ version.
    (if is_new_version version
      then uinput_create_dev_setup system d fd
      else uinput_create_write system d fd)
    >>= λ rc.
        if not (eq_ℤ rc (pos 0))
        then create_error system managed fd u
        else create_device system host managed fd u

-- libevdev_uinput_create_from_device
unfoldable pub create_from_device : System → Host → Libevdev → ℤ → M Created
create_from_device system host d fd = elim (alloc_uinput_device host (dev_name d)) [
  | none ↦ give (some (neg enomem, none))
  | some u ↦
      if eq_ℤ fd open_managed
      then (sys_rc system open_uinput >>= λ fd'.
          if is_neg fd'
          then create_error system true fd' u
          else setup_device system host d true fd' (record u { fd_is_managed = true }))
      else if is_neg fd
      then (set_errno ebadf >>= λ _. create_error system false fd u)
      else setup_device system host d false fd u
]
