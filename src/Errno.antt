-- ===== src/Errno.antt =====
-- The values of `errno` that the component sets, and the outcome of a call that may fail.
use cruby_on_sel.Prelude.{Bool, true, false}

pub data Errno : Type 0 where
  einval enomem enodev emfile eexist enospc enoent eagain efault erofs ebadf enotty erange : Errno
  eio etimedout esrch enosys : Errno

-- A call either returns its value, or sets `errno` and returns -1, NULL or MAP_FAILED.
pub data Result {ℓ} (A : Type ℓ) : Type ℓ where
  ok : A → Result A
  err : Errno → Result A

abbrev pub is_einval : Errno → Bool
is_einval einval = true
is_einval _ = false
