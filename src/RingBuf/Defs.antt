-- ===== src/RingBuf/Defs.antt =====
-- The functions of kernel/ring_buf.c.
use chaotix.Base.{
  ℕ, zero, suc, ◌+◌, ◌%◌, Bool, Option, none, some, List, [], ◌∷◌, get_or, set, ◌==◌, if◌then◌else◌,
}

abbrev pub buf_capacity : ℕ
buf_capacity = 1024

-- `ring_buf`, less its mutex. A byte is a number; it is moved, never computed with.
pub record RingBuf : Type 0 where
  pub inner_buf : List ℕ
  pub write_idx : ℕ
  pub read_idx : ℕ

-- The next index round the ring.
abbrev pub advance : ℕ → ℕ
advance i = (i + 1) % buf_capacity

-- `kmalloc` gives the zeroed block, or NULL, which is `-ENOMEM`.
unfoldable pub init : Option (List ℕ) → Option RingBuf
init none = none
init (some block) = some (record { inner_buf = block; write_idx = 0; read_idx = 0 })

unfoldable pub is_empty : RingBuf → Bool
is_empty b = b.write_idx == b.read_idx

unfoldable pub is_full : RingBuf → Bool
is_full b = advance b.write_idx == b.read_idx

-- One round of the loop of `ring_buf_read`: the ring after it (the byte is the one at `read_idx`).
abbrev pub consume : RingBuf → RingBuf
consume b = record b { read_idx = advance b.read_idx }

-- The number counts the rounds left, `count - nread`. The bytes are those put into `dest`.
unfoldable pub read : RingBuf → ℕ → List ℕ × RingBuf
read b zero = ([], b)
read b (suc n) =
    let byte = get_or b.inner_buf b.read_idx 0 in
    let rest = read (consume b) n in
    if is_empty (consume b) then (byte ∷ [], consume b) else (byte ∷ rest.0, rest.1)

-- One round of the loop of `ring_buf_write`.
abbrev pub put : RingBuf → ℕ → RingBuf
put b x = record b { inner_buf = set b.inner_buf b.write_idx x; write_idx = advance b.write_idx }

-- The list is what is left of `bytes`; the number is `nwritten`.
unfoldable pub write : RingBuf → List ℕ → ℕ × RingBuf
write b [] = (0, b)
write b (x ∷ xs) =
    let rest = write (put b x) xs in
    if is_full (put b x) then (1, put b x) else (suc rest.0, rest.1)

unfoldable pub write_evicting_oldest : RingBuf → List ℕ → ℕ × RingBuf
write_evicting_oldest b [] = (0, b)
write_evicting_oldest b (x ∷ xs) =
    let rest = write_evicting_oldest (put b x) xs in (suc rest.0, rest.1)
