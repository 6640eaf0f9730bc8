-- ===== src/GrowableBuf/Write.antt =====
-- Writing to a buffer of kernel/growable_buf.c.
use chaotix.Base.{
  ℕ, ◌+◌, ◌^◌, ◌≤◌, ◌<◌, max, ◌≡◌, refl, ap₂, ◌∙◌, ◌⊎◌, inl, inr, some, List, [], arith, ltb,
  ltb→lt, Bool-cases, length,
}
use chaotix.Base.Outcome.{Errno, Outcome, ok, err}
use chaotix.Base.Word.{add32, page_size}
use chaotix.GrowableBuf.{
  GrowableBuf, Replies, overwrite, put, after_growth, grow_buf, growable_buf_pwrite,
}
use chaotix.GrowableBuf.Bytes.{
  byte, length-overwrite, overwrite-inside, overwrite-below, overwrite-above, IsValid, Grown,
  GrowResult, grow_buf-GrowResult,
}

-- The bytes stand at their offset, all others are as they were (zeros between an end and a later
-- offset), and the size reaches over both.
pub record Wrote (src : List ℕ) (offset : ℕ) (b d : GrowableBuf) : Type 0 where
  pub valid : IsValid d
  pub new_size : d.size ≡ max b.size (offset + length src)
  pub inside : (j : ℕ) → j < length src → byte d.bytes (offset + j) ≡ byte src j
  pub below : (i : ℕ) → i < offset → byte d.bytes i ≡ byte b.bytes i
  pub above : (i : ℕ) → offset + length src ≤ i → byte d.bytes i ≡ byte b.bytes i

pub data WriteResult (r : Replies) (src : List ℕ) (offset : ℕ) (b : GrowableBuf)
    : Outcome ℕ → GrowableBuf → Type 0 where
  wrote : (d : GrowableBuf) → Wrote src offset b d → WriteResult r src offset b (ok (length src)) d
  refused :
      (e : Errno)
      → (r.allocated ≡ some e) ⊎ (r.copied ≡ some e) ⊎ (r.mapped ≡ some e)
      → WriteResult r src offset b (err e) b
  lost :
      (e : Errno) → r.freed ≡ some e → WriteResult r src offset b (err e) (record b { bytes = [] })

-- A buffer with the same bytes and room enough is written to.
put-Wrote :
    (src : List ℕ) (offset n : ℕ) (b d : GrowableBuf)
    → Grown n b d
    → offset + length src ≤ n
    → offset + length src + 4096 ≤ 2 ^ 32
    → Wrote src offset b (put src offset d)
put-Wrote src offset n b d g k h =
    let v = g.valid in
    let e : add32 offset (length src) ≡ offset + length src = omega (arith, h) in
    let fits : offset + length src ≤ length d.bytes = omega (arith, g.room, k, v.length_bytes) in
    let size : max d.size (add32 offset (length src)) ≡ max b.size (offset + length src) =
      ap₂ (λ x y. max x y) g.same_size e in
    let below : ((i : ℕ) → i < offset → byte (overwrite d.bytes offset src) i ≡ byte b.bytes i) =
      (λ i l. overwrite-below d.bytes offset src i l ∙ g.same_bytes i) in
    let above : ((i : ℕ)
        → offset + length src ≤ i
        → byte (overwrite d.bytes offset src) i ≡ byte b.bytes i) =
      (λ i l. overwrite-above d.bytes offset src i l ∙ g.same_bytes i) in
    record {
      valid = record {
        length_bytes = length-overwrite d.bytes offset src ∙ v.length_bytes;
        size_fits = omega (arith, size, v.size_fits, g.same_size, g.room, k);
        no_wrap = v.no_wrap;
        whole_pages = v.whole_pages;
        zeros = λ i l.
            overwrite-above d.bytes offset src i (omega (arith, l, e))
            ∙ v.zeros i (omega (arith, l));
        no_addr = v.no_addr;
      };
      new_size = size;
      inside = λ j l. overwrite-inside d.bytes offset src j fits l;
      below = below;
      above = above;
    }

after_growth-WriteResult :
    (r : Replies) (src : List ℕ) (offset n : ℕ) (b : GrowableBuf) (p : Outcome ℕ × GrowableBuf)
    → offset + length src ≤ n
    → offset + length src + 4096 ≤ 2 ^ 32
    → GrowResult r n b p.0 p.1
    → WriteResult r src offset b
        (after_growth (length src) (put src offset) p).0
        (after_growth (length src) (put src offset) p).1
after_growth-WriteResult r src offset n b (_, _) k h (GrowResult.grown d g) =
    WriteResult.wrote (put src offset d) (put-Wrote src offset n b d g k h)
after_growth-WriteResult r src offset n b (_, _) k h (GrowResult.refused e q) =
    WriteResult.refused e q
after_growth-WriteResult r src offset n b (_, _) k h (GrowResult.lost e q) = WriteResult.lost e q

-- A write below 4 GiB less a page to a valid buffer succeeds, with the bytes at their offset, all others
-- as they were, zeros in a gap, and a valid buffer; or an error of the kernel's memory is returned, with
-- the buffer as it was, but for an error from freeing the old memory, after which it has none.
pub growable_buf_pwrite-WriteResult :
    (r : Replies) (src : List ℕ) (offset : ℕ) (b : GrowableBuf)
    → IsValid b
    → offset + length src + page_size ≤ 2 ^ 32
    → WriteResult r src offset b
        (growable_buf_pwrite r src offset b).0
        (growable_buf_pwrite r src offset b).1
unfolding growable_buf_pwrite
growable_buf_pwrite-WriteResult r src offset b v h =
    let n : ℕ = add32 offset (length src) in
    let e : n ≡ offset + length src = omega (arith, h) in
    elim (Bool-cases (ltb b.capacity n)) [
      | inl t ↦
          let l = ltb→lt b.capacity n t in
          simp t (
            after_growth-WriteResult r src offset n b (grow_buf r n b) (omega (arith, e)) h
              (grow_buf-GrowResult r n b v l (omega (arith, e, h))))
      | inr t ↦ simp t (
          WriteResult.wrote (put src offset b) (
            put-Wrote src offset n b b
              (record { valid = v; same_size = refl; room = ground arith; same_bytes = λ i. refl })
              (omega (arith, e)) h))
    ]
