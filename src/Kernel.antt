-- ===== src/Kernel.antt =====
-- What the kernel answers during one call of the library. A request of one kind is made at most once
-- in a call, so each kind has one answer; `read` may be called often and changes the kernel's state.
use android_external_libevde.Base.{ℕ, ℤ, List}
use android_external_libevde.Event.{AbsInfo, Reply, ReadReply}
use android_external_libevde.Bitfield.{Words}

pub record Kernel (W : Type 0) : Type 0 where
  -- EVIOCGKEY, EVIOCGLED and EVIOCGSW, as the buffers that they fill.
  pub key_state : Reply Words
  pub led_state : Reply Words
  pub switch_state : Reply Words
  -- EVIOCGABS of each axis.
  pub abs_state : ℕ → Reply AbsInfo
  -- EVIOCGMTSLOTS of each axis: the array `val`.
  pub mt_state : ℕ → Reply (List ℤ)
  -- `read` into room for that many events.
  pub read : W → ℕ → ReadReply × W
