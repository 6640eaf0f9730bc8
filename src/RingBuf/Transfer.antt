-- ===== src/RingBuf/Transfer.antt =====
-- What the loops of kernel/ring_buf.c move.
use chaotix.Base.{
  ℕ, zero, suc, ◌+◌, ◌%◌, ◌≤◌, ◌<◌, min, ◌≡◌, refl, sym, ◌∙◌, inl, inr, true, false, List, [], ◌∷◌,
  ◌++◌, append-nil, append_assoc, arith, Bool-cases, length, take, drop, take-nil, drop-nil,
}
use chaotix.RingBuf.Defs.{
  RingBuf, is_empty, is_full, read, write, write_evicting_oldest, consume, put,
}
use chaotix.RingBuf.Inv.{
  IsValid, size, free_space, size-put, consume-IsValid, put-IsValid, is_empty_iff, not_empty,
  not_full, full_size,
}
use chaotix.RingBuf.Contents.{contents, contents-consume, contents-put}

-- What `ring_buf_read` leaves when it has read up to `n` bytes.
pub record Took (b : RingBuf) (n : ℕ) (out : List ℕ × RingBuf) : Type 0 where
  pub bytes : out.0 ≡ take n (contents b)
  pub rest : contents out.1 ≡ drop n (contents b)
  pub valid : IsValid out.1

contents-empty : (b : RingBuf) → IsValid b → is_empty b ≡ true → contents b ≡ []
contents-empty b v h = rw (is_empty_iff b v h)

-- From a valid ring that holds a byte, `ring_buf_read` takes the oldest `count` bytes in their order, or
-- all if there are fewer; the ring keeps the others.
pub read-Took : (b : RingBuf) (n : ℕ) → IsValid b → is_empty b ≡ false → Took b n (read b n)
unfolding read
read-Took b zero v h = record { bytes = refl; rest = refl; valid = v }
read-Took b (suc n) v h =
    let e = contents-consume b v (not_empty b v h) in
    let v' = consume-IsValid b v in
    elim (Bool-cases (is_empty (consume b))) [
      | inl last ↦
          let nil = contents-empty (consume b) v' last in
          rw last
            (record { bytes = rw (e, nil, take-nil n); rest = rw (e, nil, drop-nil n); valid = v' })
      | inr more ↦
          let r = read-Took (consume b) n v' more in
          rw more (record { bytes = rw (e, ← r.bytes); rest = rw e r.rest; valid = r.valid })
    ]

-- What `ring_buf_write` leaves when it was given `src`.
pub record Put (b : RingBuf) (src : List ℕ) (out : ℕ × RingBuf) : Type 0 where
  pub count : out.0 ≡ min (length src) (free_space b)
  pub bytes : contents out.1 ≡ contents b ++ take (free_space b) src
  pub valid : IsValid out.1

-- Into a valid ring that is not full, `ring_buf_write` puts as many of the bytes as fit, from the front,
-- behind those held, and returns their number.
pub write-Put :
    (b : RingBuf) (src : List ℕ) → IsValid b → is_full b ≡ false → Put b src (write b src)
unfolding write
write-Put b [] v h = record {
  count = omega arith;
  bytes = rw (take-nil (free_space b), append-nil);
  valid = v;
}
write-Put b (x ∷ xs) v h =
    let room = not_full b v h in
    let v' = put-IsValid b x v in
    let s = size-put b x v room in
    let e = contents-put b x v room in
    elim (Bool-cases (is_full (put b x))) [
      | inl last ↦
          let f : free_space b ≡ 1 = omega (arith, full_size (put b x) v' last) in
          rw last (record { count = rw f (omega arith); bytes = rw f e; valid = v' })
      | inr more ↦
          let r = write-Put (put b x) xs v' more in
          let f : free_space b ≡ suc (free_space (put b x)) = omega arith in
          rw more (record {
            count = rw f (omega (arith, r.count));
            bytes = rw (f, r.bytes, e) (append_assoc (contents b) (x ∷ []) _);
            valid = r.valid;
          })
    ]

-- `ring_buf_write_evicting_oldest` moves `write_idx` alone.
pub write_evicting_oldest-IsValid :
    (b : RingBuf) (src : List ℕ) → IsValid b → IsValid (write_evicting_oldest b src).1
unfolding write_evicting_oldest
write_evicting_oldest-IsValid b [] v = v
write_evicting_oldest-IsValid b (x ∷ xs) v =
    write_evicting_oldest-IsValid (put b x) xs (put-IsValid b x v)

-- Into a valid ring with room for them, `ring_buf_write_evicting_oldest` puts all of the bytes behind
-- those held.
pub write_evicting_oldest-contents :
    (b : RingBuf) (src : List ℕ)
    → IsValid b
    → length src ≤ free_space b
    → contents (write_evicting_oldest b src).1 ≡ contents b ++ src
unfolding write_evicting_oldest
write_evicting_oldest-contents b [] v h = sym (append-nil (contents b))
write_evicting_oldest-contents b (x ∷ xs) v h =
    let s = size-put b x v (omega arith) in
    write_evicting_oldest-contents (put b x) xs (put-IsValid b x v) (omega arith)
    ∙ rw (contents-put b x v (omega arith)) (append_assoc (contents b) (x ∷ []) xs)

read_idx-write_evicting_oldest :
    (b : RingBuf) (src : List ℕ) → (write_evicting_oldest b src).1.read_idx ≡ b.read_idx
unfolding write_evicting_oldest
read_idx-write_evicting_oldest b [] = refl
read_idx-write_evicting_oldest b (x ∷ xs) = read_idx-write_evicting_oldest (put b x) xs

write_idx-write_evicting_oldest :
    (b : RingBuf) (src : List ℕ)
    → b.write_idx < 1024
    → (write_evicting_oldest b src).1.write_idx ≡ (b.write_idx + length src) % 1024
unfolding write_evicting_oldest
write_idx-write_evicting_oldest b [] h = omega arith
write_idx-write_evicting_oldest b (x ∷ xs) h =
    omega (arith, write_idx-write_evicting_oldest (put b x) xs (omega arith))

-- The bytes are counted modulo the capacity, since `read_idx` is never moved.
pub size-write_evicting_oldest :
    (b : RingBuf) (src : List ℕ)
    → IsValid b
    → size (write_evicting_oldest b src).1 ≡ (size b + length src) % 1024
size-write_evicting_oldest b src v =
    omega (
      arith,
      read_idx-write_evicting_oldest b src,
      write_idx-write_evicting_oldest b src v.write_in,
    )

-- Given one byte more than there is room for, `ring_buf_write_evicting_oldest` leaves a valid ring
-- looking empty: it loses every byte, not the oldest alone.
pub write_evicting_oldest-loses_all :
    (b : RingBuf) (src : List ℕ)
    → IsValid b
    → length src ≡ free_space b + 1
    → contents (write_evicting_oldest b src).1 ≡ []
write_evicting_oldest-loses_all b src v h =
    let none_left : size (write_evicting_oldest b src).1 ≡ 0 =
      omega (arith, size-write_evicting_oldest b src v) in
    rw none_left
