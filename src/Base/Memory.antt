-- ===== src/Base/Memory.antt =====
-- `kmalloc` (kernel/memory/kmalloc.c) as its callers see it: a number says how many of the coming
-- calls succeed, and each call takes one away. Memory that is freed is not counted back.
use Prim.Native.Nat.{ℕ, zero, suc}
use chaotix.Base.Outcome.{Errno, Outcome, ok, err}

unfoldable pub kmalloc : ℕ → Outcome ℕ
kmalloc zero = err Errno.enomem
kmalloc (suc budget) = ok budget
