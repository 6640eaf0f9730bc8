-- ===== src/RingBuf/Inv.antt =====
-- The representation invariant of the ring, and how many bytes it holds.
use chaotix.Base.{ℕ, ◌+◌, ◌-◌, ◌%◌, ◌<◌, ◌≡◌, true, false, length, length-set, arith}
use chaotix.RingBuf.Defs.{RingBuf, is_empty, is_full, consume, put}

-- Both indices lie in the block.
pub record IsValid (b : RingBuf) : Type 0 where
  pub block : length b.inner_buf ≡ 1024
  pub write_in : b.write_idx < 1024
  pub read_in : b.read_idx < 1024

-- The bytes held, and those that fit beside the slot kept free.
abbrev pub size : RingBuf → ℕ
size b = (b.write_idx + 1024 - b.read_idx) % 1024

abbrev pub free_space : RingBuf → ℕ
free_space b = 1023 - size b

pub size-consume : (b : RingBuf) → IsValid b → 0 < size b → size (consume b) + 1 ≡ size b
size-consume b v h = omega arith

pub size-put : (b : RingBuf) (x : ℕ) → IsValid b → size b < 1023 → size (put b x) ≡ size b + 1
size-put b x v h = omega arith

pub consume-IsValid : (b : RingBuf) → IsValid b → IsValid (consume b)
consume-IsValid b v = omega arith

pub put-IsValid : (b : RingBuf) (x : ℕ) → IsValid b → IsValid (put b x)
put-IsValid b x v = omega (arith, length-set b.inner_buf b.write_idx x)

pub is_empty_iff : (b : RingBuf) → IsValid b → is_empty b ≡ true → size b ≡ 0
unfolding is_empty
is_empty_iff b v h = ground arith

pub not_empty : (b : RingBuf) → IsValid b → is_empty b ≡ false → 0 < size b
unfolding is_empty
not_empty b v h = ground arith

pub size-is_empty : (b : RingBuf) → IsValid b → size b ≡ 0 → is_empty b ≡ true
unfolding is_empty
size-is_empty b v h = ground arith

pub not_full : (b : RingBuf) → IsValid b → is_full b ≡ false → size b < 1023
unfolding is_full
not_full b v h = ground arith

pub full_size : (b : RingBuf) → IsValid b → is_full b ≡ true → size b ≡ 1023
unfolding is_full
full_size b v h = ground arith
