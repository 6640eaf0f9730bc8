-- ===== src/RingBuf/Tests.antt =====
-- Runs of kernel/ring_buf.c, and its theorems at concrete rings.
use chaotix.Base.{ℕ, ◌≡◌, refl, true, [], ◌∷◌, arith, set, replicate, length-replicate}
use chaotix.RingBuf.Defs.{RingBuf, is_empty, is_full, read, write}
use chaotix.RingBuf.Inv.{IsValid}
use chaotix.RingBuf.Contents.{contents}
use chaotix.RingBuf.Transfer.{Took, Put, read-Took, write-Put}

-- Two bytes, the second behind the end of the block.
abbrev wrapped : RingBuf
wrapped = record { inner_buf = set (8 ∷ replicate 1023 0) 1023 7; write_idx = 1; read_idx = 1023 }

-- 1023 bytes: the slot at 1023 is the free one.
abbrev full_ring : RingBuf
full_ring = record { inner_buf = replicate 1024 5; write_idx = 1023; read_idx = 0 }

wrapped-IsValid : IsValid wrapped
wrapped-IsValid = omega arith

full_ring-IsValid : IsValid full_ring
full_ring-IsValid = record {
  block = length-replicate {A = ℕ} 1024 5;
  write_in = omega arith;
  read_in = omega arith;
}

contents-wrapped : contents wrapped ≡ 7 ∷ 8 ∷ []
contents-wrapped = refl

read_stops_when_empty : (read wrapped 5).0 ≡ 7 ∷ 8 ∷ []
unfolding read is_empty
read_stops_when_empty = refl

read_back : (read (write wrapped (9 ∷ [])).1 3).0 ≡ 7 ∷ 8 ∷ 9 ∷ []
unfolding read write is_empty is_full
read_back = refl

is_full-full_ring : is_full full_ring ≡ true
unfolding is_full
is_full-full_ring = refl

read-Took_example : Took wrapped 1 (read wrapped 1)
unfolding is_empty
read-Took_example = read-Took wrapped 1 wrapped-IsValid refl

write-Put_example : Put wrapped (9 ∷ []) (write wrapped (9 ∷ []))
unfolding is_full
write-Put_example = write-Put wrapped (9 ∷ []) wrapped-IsValid refl
