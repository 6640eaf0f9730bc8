-- ===== src/Base/Word.antt =====
-- 32-bit machine words and page arithmetic (common/extra.h, kernel/boot_defs.h).
use Prim.Native.Nat.{ℕ, ◌+◌, ◌-◌, ◌*◌, ◌/◌, ◌%◌, ◌^◌}

abbrev pub page_size : ℕ
page_size = 4096

-- `a + b` and `a - b` on `size_t` and `uintptr_t`.
abbrev pub add32 : ℕ → ℕ → ℕ
add32 a b = (a + b) % 2 ^ 32

abbrev pub sub32 : ℕ → ℕ → ℕ
sub32 a b = (a + (2 ^ 32 - b)) % 2 ^ 32

-- `x & ~(PAGE_SIZE - 1)`, and `round_up(x, PAGE_SIZE)` with its wrap-around.
abbrev pub round_down_page : ℕ → ℕ
round_down_page x = x / 4096 * 4096

abbrev pub round_up_page : ℕ → ℕ
round_up_page x = round_down_page (add32 x 4095)

-- `div_ceil`.
abbrev pub div_ceil : ℕ → ℕ → ℕ
div_ceil a b = add32 a (b - 1) / b
