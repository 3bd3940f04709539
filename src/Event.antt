-- ===== src/Event.antt =====
-- struct input_event, struct input_absinfo, struct input_id and struct timeval, and the results
-- that a call of the kernel gives.
use android_external_libevde.Base.{ℕ, ℤ, List, ◌%◌, ◌^◌}

-- `__s32` values are only moved and compared, so they are integers.
pub record Event : Type 0 where
  pub sec : ℤ
  pub usec : ℤ
  pub type : ℕ
  pub code : ℕ
  pub value : ℤ

pub record AbsInfo : Type 0 where
  pub value : ℤ
  pub minimum : ℤ
  pub maximum : ℤ
  pub fuzz : ℤ
  pub flat : ℤ
  pub resolution : ℤ

pub record InputId : Type 0 where
  pub bustype : ℕ
  pub vendor : ℕ
  pub product : ℕ
  pub version : ℕ

pub record TimeVal : Type 0 where
  pub tv_sec : ℤ
  pub tv_usec : ℤ

-- The conversion to `__u16` of an event's type and code and of an identifier.
abbrev pub u16 : ℕ → ℕ
u16 n = n % 2 ^ 16

-- A C string: its bytes.
abbrev pub Text : Type 0
Text = List ℕ

-- What an ioctl gives: its return value beside what it filled in, or -1 with `errno`.
pub data Reply {ℓ} (A : Type ℓ) : Type ℓ where
  done : ℕ → A → Reply A
  failed : ℕ → Reply A

-- What `read` gives: the bytes read beside the events they hold, or -1 with `errno`.
pub data ReadReply : Type 0 where
  bytes : ℕ → List Event → ReadReply
  fault : ℕ → ReadReply

-- The values of errno.h that the code names.
abbrev pub enoent : ℕ
enoent = 2

abbrev pub ebadf : ℕ
ebadf = 9

abbrev pub eagain : ℕ
eagain = 11

abbrev pub enomem : ℕ
enomem = 12

abbrev pub einval : ℕ
einval = 22
