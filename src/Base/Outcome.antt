-- ===== src/Base/Outcome.antt =====
-- How a kernel function ends: with a value, with a negative error number, or in a panic, which is
-- what a failed ASSERT, UNREACHABLE and UNIMPLEMENTED come to.
use mathlib.Core.Bool.{Bool, true, false}

-- The error numbers of kernel/api/errno.h that the modelled functions return.
pub data Errno : Type 0 where
  enoent eintr ebadf echild eagain enomem eexist exdev enodev enotdir eisdir einval : Errno
  emfile enotty epipe enotsup econnrefused esrch eacces erofs erange : Errno

pub data Outcome {ℓ} (A : Type ℓ) : Type ℓ where
  ok : A → Outcome A
  err : Errno → Outcome A
  panic : Outcome A

infixl 5 ◌>>=◌
abbrev pub ◌>>=◌ {ℓ κ} : {A : Type ℓ} {B : Type κ} → Outcome A → (A → Outcome B) → Outcome B
ok a >>= f = f a
err e >>= f = err e
panic >>= f = panic

-- ASSERT, before what follows it.
abbrev pub asserting {ℓ} : {A : Type ℓ} → Bool → Outcome A → Outcome A
asserting true rest = rest
asserting false rest = panic
