-- ===== src/GrowableBuf/RoundTrip.antt =====
-- What is written to a buffer of kernel/growable_buf.c is read back.
use chaotix.Base.{
  ℕ, zero, suc, ◌+◌, ◌-◌, ◌^◌, ◌≤◌, ◌<◌, min, ◌≡◌, refl, sym, ap, ap₂, ◌∙◌, inl, inr, List, [], ◌∷◌,
  arith, leb, leb→le, Bool-cases, length, take, drop, length-take, length-drop,
}
use chaotix.Base.Outcome.{Outcome, ok}
use chaotix.Base.Word.{add32, page_size}
use chaotix.GrowableBuf.{GrowableBuf, Replies, growable_buf_pread, growable_buf_pwrite}
use chaotix.GrowableBuf.Bytes.{byte, IsValid}
use chaotix.GrowableBuf.Write.{Wrote, WriteResult, growable_buf_pwrite-WriteResult}

byte-drop : (n : ℕ) (xs : List ℕ) (j : ℕ) → byte (drop n xs) j ≡ byte xs (n + j)
byte-drop zero xs j = let e : zero + j ≡ j = omega arith in sym (ap (byte xs) e)
byte-drop (suc n) [] j = refl
byte-drop (suc n) (x ∷ xs) j =
    let e : suc n + j ≡ suc (n + j) = omega arith in byte-drop n xs j ∙ sym (ap (byte (x ∷ xs)) e)

byte-take : (n : ℕ) (xs : List ℕ) (j : ℕ) → j < n → byte (take n xs) j ≡ byte xs j
byte-take zero xs j l = absurd (omega (arith, l))
byte-take (suc n) [] j l = refl
byte-take (suc n) (x ∷ xs) zero l = refl
byte-take (suc n) (x ∷ xs) (suc j) l = byte-take n xs j (omega (arith, l))

-- Lists of one length with the same bytes are one list.
same_bytes :
    (xs ys : List ℕ)
    → length xs ≡ length ys
    → ((j : ℕ) → j < length ys → byte xs j ≡ byte ys j)
    → xs ≡ ys
same_bytes [] [] h k = refl
same_bytes [] (y ∷ ys) h k = absurd (omega (arith, h))
same_bytes (x ∷ xs) [] h k = absurd (omega (arith, h))
same_bytes (x ∷ xs) (y ∷ ys) h k =
    ap₂ (λ z zs. z ∷ zs) (k 0 (omega arith))
      (same_bytes xs ys (omega (arith, h)) (λ j l. k (suc j) (omega (arith, l))))

-- What a read returns: as many bytes as are asked for and as there are behind the offset, each the
-- byte at its place.
pub record Read (count offset : ℕ) (b : GrowableBuf) (n : ℕ) (xs : List ℕ) : Type 0 where
  pub number : n ≡ min count (b.size - offset)
  pub as_many : length xs ≡ n
  pub each : (j : ℕ) → j < n → byte xs j ≡ byte b.bytes (offset + j)

take-Read :
    (count offset n : ℕ) (b : GrowableBuf)
    → IsValid b
    → n ≡ min count (b.size - offset)
    → Read count offset b n (take n (drop offset b.bytes))
take-Read count offset n b v e = record {
  number = e;
  as_many =
      length-take n (drop offset b.bytes)
      ∙ ap (min n) (length-drop offset b.bytes)
      ∙ omega (arith, e, v.length_bytes, v.size_fits);
  each = λ j l. byte-take n (drop offset b.bytes) j l ∙ byte-drop offset b.bytes j;
}

-- A read from a valid buffer, with an offset and a count whose sum does not wrap around, returns the
-- bytes behind the offset, as many as are asked for and as there are.
pub growable_buf_pread-Read :
    (count offset : ℕ) (b : GrowableBuf)
    → IsValid b
    → offset + count < 2 ^ 32
    → Read count offset b
        (growable_buf_pread count offset b).0
        (growable_buf_pread count offset b).1
unfolding growable_buf_pread
growable_buf_pread-Read count offset b v h = elim (Bool-cases (leb b.size offset)) [
  | inl t ↦ simp t (record {
    number = omega (arith, leb→le b.size offset t);
    as_many = refl;
    each = λ j l. absurd (omega (arith, l));
  })
  | inr t ↦
      let l : offset < b.size = ground arith in
      let e : add32 offset count ≡ offset + count = omega (arith, h) in
      elim (Bool-cases (leb b.size (add32 offset count))) [
        | inl u ↦
            let g = leb→le b.size (add32 offset count) u in
            simp (t, u) (take-Read count offset (b.size - offset) b v (omega (arith, g, e, l)))
        | inr u ↦
            let g : add32 offset count < b.size = ground arith in
            simp (t, u) (take-Read count offset count b v (omega (arith, g, e, l)))
      ]
]

Wrote-read :
    (src : List ℕ) (offset : ℕ) (b d : GrowableBuf)
    → offset + length src < 2 ^ 32
    → Wrote src offset b d
    → growable_buf_pread (length src) offset d ≡ (length src, src)
Wrote-read src offset b d h w =
    let r = growable_buf_pread-Read (length src) offset d w.valid h in
    let n : (growable_buf_pread (length src) offset d).0 ≡ length src =
      omega (arith, r.number, w.new_size) in
    ap₂ (λ k xs. (k, xs)) n
      (same_bytes (growable_buf_pread (length src) offset d).1 src (r.as_many ∙ n)
        (λ j l. r.each j (omega (arith, l, n)) ∙ w.inside j l))

written :
    (r : Replies) (src : List ℕ) (offset : ℕ) (b : GrowableBuf) (o : Outcome ℕ) (d : GrowableBuf)
    → WriteResult r src offset b o d
    → o ≡ ok (length src)
    → Wrote src offset b d
written r src offset b _ _ (WriteResult.wrote d w) h = w
written r src offset b _ _ (WriteResult.refused e q) h = absurd (cc)
written r src offset b _ _ (WriteResult.lost e q) h = absurd (cc)

-- After a write to a valid buffer that succeeds, below 4 GiB less a page, a read of as many bytes at
-- its offset returns what was written.
pub growable_buf_pread-growable_buf_pwrite :
    (r : Replies) (src : List ℕ) (offset : ℕ) (b : GrowableBuf)
    → IsValid b
    → offset + length src + page_size ≤ 2 ^ 32
    → (growable_buf_pwrite r src offset b).0 ≡ ok (length src)
    → growable_buf_pread (length src) offset (growable_buf_pwrite r src offset b).1
      ≡ (length src, src)
growable_buf_pread-growable_buf_pwrite r src offset b v h k =
    Wrote-read src offset b (growable_buf_pwrite r src offset b).1 (omega (arith, h))
      (written r src offset b _ _ (growable_buf_pwrite-WriteResult r src offset b v h) k)
