-- ===== src/GrowableBuf/Truncate.antt =====
-- Cutting and extending a buffer of kernel/growable_buf.c.
use chaotix.Base.{
  ℕ, ◌+◌, ◌-◌, ◌^◌, ◌≤◌, ◌<◌, ◌≡◌, refl, sym, ap, ◌∙◌, ◌⊎◌, inl, inr, some, List, [], arith, ltb,
  leb, ltb→lt, leb→le, Bool-cases, length, replicate, length-replicate,
}
use chaotix.Base.Outcome.{Errno, Outcome, ok, err}
use chaotix.Base.Word.{page_size}
use chaotix.GrowableBuf.{
  GrowableBuf, Replies, overwrite, after_growth, resize, zero_out, grow_buf, growable_buf_truncate,
}
use chaotix.GrowableBuf.Bytes.{
  byte, length-overwrite, overwrite-inside, overwrite-below, overwrite-above, byte-replicate,
  IsValid, Grown, GrowResult, grow_buf-GrowResult,
}

-- The new size, the bytes in front of it as they were, and, as the buffer is valid, zeros behind.
pub record Truncated (n : ℕ) (b d : GrowableBuf) : Type 0 where
  pub valid : IsValid d
  pub new_size : d.size ≡ n
  pub kept : (i : ℕ) → i < n → byte d.bytes i ≡ byte b.bytes i

pub data TruncateResult (r : Replies) (n : ℕ) (b : GrowableBuf)
    : Outcome ℕ → GrowableBuf → Type 0 where
  truncated : (d : GrowableBuf) → Truncated n b d → TruncateResult r n b (ok 0) d
  refused :
      (e : Errno)
      → (r.allocated ≡ some e) ⊎ (r.copied ≡ some e) ⊎ (r.mapped ≡ some e)
      → TruncateResult r n b (err e) b
  lost : (e : Errno) → r.freed ≡ some e → TruncateResult r n b (err e) (record b { bytes = [] })

-- A stretch of zeros in the memory.
byte-zeros :
    (mem : List ℕ) (off k i : ℕ)
    → off + k ≤ length mem
    → off ≤ i
    → i < off + k
    → byte (overwrite mem off (replicate k 0)) i ≡ 0
byte-zeros mem off k i h l g =
    let n = length-replicate {A = ℕ} k 0 in
    let e : off + (i - off) ≡ i = omega (arith, l) in
    sym (ap (byte (overwrite mem off (replicate k 0))) e)
    ∙ overwrite-inside mem off (replicate k 0) (i - off) (omega (arith, h, n))
        (omega (arith, g, l, n))
    ∙ byte-replicate k (i - off)

cut-Truncated :
    (n : ℕ) (b : GrowableBuf)
    → IsValid b
    → n ≤ b.size
    → Truncated n b (resize n (zero_out n (b.size - n) b))
cut-Truncated n b v l =
    let k : ℕ = b.size - n in
    let len = length-replicate {A = ℕ} k 0 in
    record {
      valid = record {
        length_bytes = length-overwrite b.bytes n (replicate k 0) ∙ v.length_bytes;
        size_fits = omega (arith, l, v.size_fits);
        no_wrap = v.no_wrap;
        whole_pages = v.whole_pages;
        zeros = λ i g. elim (Bool-cases (ltb i b.size)) [
          | inl t ↦
              byte-zeros b.bytes n k i (omega (arith, l, v.size_fits, v.length_bytes)) g
                (omega (arith, ltb→lt i b.size t, l))
          | inr t ↦
              let q : b.size ≤ i = ground arith in
              overwrite-above b.bytes n (replicate k 0) i (omega (arith, len, q, l)) ∙ v.zeros i q
        ];
        no_addr = v.no_addr;
      };
      new_size = refl;
      kept = λ i g. overwrite-below b.bytes n (replicate k 0) i g;
    }

extended-Truncated :
    (n : ℕ) (b : GrowableBuf)
    → IsValid b
    → b.size ≤ n
    → n ≤ b.capacity
    → Truncated n b (resize n (zero_out b.size (n - b.size) b))
extended-Truncated n b v l h =
    let k : ℕ = n - b.size in
    let len = length-replicate {A = ℕ} k 0 in
    record {
      valid = record {
        length_bytes = length-overwrite b.bytes b.size (replicate k 0) ∙ v.length_bytes;
        size_fits = h;
        no_wrap = v.no_wrap;
        whole_pages = v.whole_pages;
        zeros = λ i g.
            overwrite-above b.bytes b.size (replicate k 0) i (omega (arith, len, g, l))
            ∙ v.zeros i (omega (arith, g, l));
        no_addr = v.no_addr;
      };
      new_size = refl;
      kept = λ i g. elim (Bool-cases (ltb i b.size)) [
        | inl t ↦ overwrite-below b.bytes b.size (replicate k 0) i (ltb→lt i b.size t)
        | inr t ↦
            let q : b.size ≤ i = ground arith in
            byte-zeros b.bytes b.size k i (omega (arith, h, l, v.length_bytes)) q
              (omega (arith, g, l))
            ∙ sym (v.zeros i q)
      ];
    }

Grown-Truncated :
    (n : ℕ) (b d : GrowableBuf) → b.size ≤ n → Grown n b d → Truncated n b (resize n d)
Grown-Truncated n b d l g =
    let v = g.valid in
    record {
      valid = record {
        length_bytes = v.length_bytes;
        size_fits = g.room;
        no_wrap = v.no_wrap;
        whole_pages = v.whole_pages;
        zeros = λ i q. v.zeros i (omega (arith, q, l, g.same_size));
        no_addr = v.no_addr;
      };
      new_size = refl;
      kept = λ i q. g.same_bytes i;
    }

after_growth-TruncateResult :
    (r : Replies) (n : ℕ) (b : GrowableBuf) (p : Outcome ℕ × GrowableBuf)
    → b.size ≤ n
    → GrowResult r n b p.0 p.1
    → TruncateResult r n b (after_growth 0 (resize n) p).0 (after_growth 0 (resize n) p).1
after_growth-TruncateResult r n b (_, _) l (GrowResult.grown d g) =
    TruncateResult.truncated (resize n d) (Grown-Truncated n b d l g)
after_growth-TruncateResult r n b (_, _) l (GrowResult.refused e q) = TruncateResult.refused e q
after_growth-TruncateResult r n b (_, _) l (GrowResult.lost e q) = TruncateResult.lost e q

-- A truncation below 4 GiB less a page sets the size, keeps the bytes in front of it and leaves zeros
-- behind them, in a valid buffer; or an error of the kernel's memory is returned, with the buffer as it
-- was, but for an error from freeing the old memory, after which it has none.
pub growable_buf_truncate-TruncateResult :
    (r : Replies) (n : ℕ) (b : GrowableBuf)
    → IsValid b
    → n + page_size ≤ 2 ^ 32
    → TruncateResult r n b (growable_buf_truncate r n b).0 (growable_buf_truncate r n b).1
unfolding growable_buf_truncate
growable_buf_truncate-TruncateResult r n b v h = elim (Bool-cases (leb n b.size)) [
  | inl t ↦ simp t (TruncateResult.truncated _ (cut-Truncated n b v (leb→le n b.size t)))
  | inr t ↦
      let l : b.size < n = ground arith in
      elim (Bool-cases (leb n b.capacity)) [
        | inl u ↦
            simp (t, u)
              (TruncateResult.truncated _
                (extended-Truncated n b v (omega (arith, l)) (leb→le n b.capacity u)))
        | inr u ↦
            simp (t, u)
              (after_growth-TruncateResult r n b (grow_buf r n b) (omega (arith, l))
                (grow_buf-GrowResult r n b v (ground arith) h))
      ]
]
