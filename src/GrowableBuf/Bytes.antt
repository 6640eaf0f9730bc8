-- ===== src/GrowableBuf/Bytes.antt =====
-- The bytes of a buffer of kernel/growable_buf.c: what a copy into the memory leaves at each place, and
-- what growing keeps.
use chaotix.Base.{
  ℕ, zero, suc, ◌+◌, ◌-◌, ◌*◌, ◌%◌, ◌^◌, ◌≤◌, ◌<◌, max, ◌≡◌, refl, sym, ap, ap₂, ◌∙◌, ◌⊎◌, inl, inr,
  Bool, true, false, not, ◌&&◌, Option, none, some, List, [], ◌∷◌, ◌++◌, arith, ◌==◌, ==_iff,
  Bool-cases, length, get_or, take, replicate, length-append, length-take, length-replicate,
}
use chaotix.Base.Outcome.{Errno, Outcome, ok, err}
use chaotix.Base.Word.{round_up_page}
use chaotix.GrowableBuf.{
  GrowableBuf, Replies, overwrite, new_capacity_of, moved_to, after_map, asked, unless_error,
  grow_buf,
}

-- The byte at a place, 0 behind the memory.
abbrev pub byte : List ℕ → ℕ → ℕ
byte mem i = get_or mem i 0

pub length-overwrite :
    (mem : List ℕ) (off : ℕ) (src : List ℕ) → length (overwrite mem off src) ≡ length mem
unfolding overwrite
length-overwrite [] off src = refl
length-overwrite (m ∷ mem) (suc off) src = ap suc (length-overwrite mem off src)
length-overwrite (m ∷ mem) zero [] = refl
length-overwrite (m ∷ mem) zero (d ∷ src) = ap suc (length-overwrite mem zero src)

pub overwrite-inside :
    (mem : List ℕ) (off : ℕ) (src : List ℕ) (j : ℕ)
    → off + length src ≤ length mem
    → j < length src
    → byte (overwrite mem off src) (off + j) ≡ byte src j
unfolding overwrite
overwrite-inside [] off src j h l = absurd (omega (arith, h, l))
overwrite-inside (m ∷ mem) (suc off) src j h l =
    let e : suc off + j ≡ suc (off + j) = omega arith in
    ap (byte (m ∷ overwrite mem off src)) e ∙ overwrite-inside mem off src j (omega (arith, h)) l
overwrite-inside (m ∷ mem) zero [] j h l = absurd (omega (arith, l))
overwrite-inside (m ∷ mem) zero (d ∷ src) zero h l = refl
overwrite-inside (m ∷ mem) zero (d ∷ src) (suc j) h l =
    let e : zero + suc j ≡ suc (zero + j) = omega arith in
    ap (byte (d ∷ overwrite mem zero src)) e
    ∙ overwrite-inside mem zero src j (omega (arith, h)) (omega (arith, l))

pub overwrite-below :
    (mem : List ℕ) (off : ℕ) (src : List ℕ) (i : ℕ)
    → i < off
    → byte (overwrite mem off src) i ≡ byte mem i
unfolding overwrite
overwrite-below [] off src i l = refl
overwrite-below (m ∷ mem) (suc off) src zero l = refl
overwrite-below (m ∷ mem) (suc off) src (suc i) l = overwrite-below mem off src i (omega (arith, l))
overwrite-below (m ∷ mem) zero [] i l = absurd (omega (arith, l))
overwrite-below (m ∷ mem) zero (d ∷ src) i l = absurd (omega (arith, l))

pub overwrite-above :
    (mem : List ℕ) (off : ℕ) (src : List ℕ) (i : ℕ)
    → off + length src ≤ i
    → byte (overwrite mem off src) i ≡ byte mem i
unfolding overwrite
overwrite-above [] off src i l = refl
overwrite-above (m ∷ mem) (suc off) src zero l = absurd (omega (arith, l))
overwrite-above (m ∷ mem) (suc off) src (suc i) l = overwrite-above mem off src i (omega (arith, l))
overwrite-above (m ∷ mem) zero [] i l = refl
overwrite-above (m ∷ mem) zero (d ∷ src) zero l = absurd (omega (arith, l))
overwrite-above (m ∷ mem) zero (d ∷ src) (suc i) l =
    overwrite-above mem zero src i (omega (arith, l))

pub byte-replicate : (n i : ℕ) → byte (replicate n 0) i ≡ 0
byte-replicate zero i = refl
byte-replicate (suc n) zero = refl
byte-replicate (suc n) (suc i) = byte-replicate n i

-- The bytes in front are kept, and the others are zeros.
pub byte-take_zeros :
    (mem : List ℕ) (n k : ℕ)
    → ((i : ℕ) → n ≤ i → byte mem i ≡ 0)
    → n ≤ length mem
    → (i : ℕ) → byte (take n mem ++ replicate k 0) i ≡ byte mem i
byte-take_zeros mem zero k h l i = byte-replicate k i ∙ sym (h i (omega arith))
byte-take_zeros [] (suc n) k h l i = absurd (omega (arith, l))
byte-take_zeros (m ∷ mem) (suc n) k h l zero = refl
byte-take_zeros (m ∷ mem) (suc n) k h l (suc i) =
    byte-take_zeros mem n k (λ j g. h (suc j) (omega (arith, g))) (omega (arith, l)) i

-- The capacity is in whole pages and the memory has its length, the size fits, the bytes behind the
-- size are zeros, and a buffer without memory has no capacity.
pub record IsValid (b : GrowableBuf) : Type 0 where
  pub length_bytes : length b.bytes ≡ b.capacity
  pub size_fits : b.size ≤ b.capacity
  pub no_wrap : b.capacity < 2 ^ 32
  pub whole_pages : b.capacity % 4096 ≡ 0
  pub zeros : (i : ℕ) → b.size ≤ i → byte b.bytes i ≡ 0
  pub no_addr : b.has_addr ≡ false → b.capacity ≡ 0

-- Nothing is seen of a growth.
pub record Grown (n : ℕ) (b d : GrowableBuf) : Type 0 where
  pub valid : IsValid d
  pub same_size : d.size ≡ b.size
  pub room : n ≤ d.capacity
  pub same_bytes : (i : ℕ) → byte d.bytes i ≡ byte b.bytes i

round_up_page-fits :
    (m : ℕ)
    → m + 4095 < 2 ^ 32
    → m ≤ round_up_page m × (round_up_page m < 2 ^ 32) × (round_up_page m % 4096 ≡ 0)
round_up_page-fits m h = (omega arith, omega arith, omega arith)

new_capacity-fits :
    (c n : ℕ)
    → c % 4096 ≡ 0
    → n + 4096 ≤ 2 ^ 32
    → n ≤ new_capacity_of c n × (new_capacity_of c n < 2 ^ 32) × (new_capacity_of c n % 4096 ≡ 0)
new_capacity-fits c n p h =
    let r = round_up_page-fits (max (c * 2 % 2 ^ 32) n) (omega arith) in
    elim (Bool-cases (round_up_page (max (c * 2 % 2 ^ 32) n) == 0)) [
      | inl t ↦ simp t (let z = (==_iff _ 0).0 t in (omega (arith, r.0, z), omega arith, refl))
      | inr t ↦ simp t (omega (arith, r.0), r.1, r.2)
    ]

-- What a growth comes to: a reply of an error keeps the buffer, but for the one of the last step, which
-- comes when the old memory is unmapped already.
pub data GrowResult (r : Replies) (n : ℕ) (b : GrowableBuf) : Outcome ℕ → GrowableBuf → Type 0 where
  grown : (d : GrowableBuf) → Grown n b d → GrowResult r n b (ok 0) d
  refused :
      (e : Errno)
      → (r.allocated ≡ some e) ⊎ (r.copied ≡ some e) ⊎ (r.mapped ≡ some e)
      → GrowResult r n b (err e) b
  lost : (e : Errno) → r.freed ≡ some e → GrowResult r n b (err e) (record b { bytes = [] })

moved_to-Grown :
    (n : ℕ) (b : GrowableBuf)
    → IsValid b
    → b.capacity < n
    → n + 4096 ≤ 2 ^ 32
    → Grown n b (moved_to (new_capacity_of b.capacity n) b)
moved_to-Grown n b v l h =
    let c : ℕ = new_capacity_of b.capacity n in
    let f = new_capacity-fits b.capacity n v.whole_pages h in
    let same : ((i : ℕ)
        → byte (take b.size b.bytes ++ replicate (c - b.size) 0) i ≡ byte b.bytes i) =
      byte-take_zeros b.bytes b.size (c - b.size) v.zeros
        (omega (arith, v.length_bytes, v.size_fits)) in
    record {
      valid = record {
        length_bytes =
            length-append (take b.size b.bytes) (replicate (c - b.size) 0)
            ∙ ap₂ (λ x y. x + y) (length-take b.size b.bytes) (length-replicate (c - b.size) 0)
            ∙ omega (arith, v.length_bytes, v.size_fits, f.0);
        size_fits = omega (arith, v.size_fits, f.0);
        no_wrap = f.1;
        whole_pages = f.2;
        zeros = λ i g. same i ∙ v.zeros i g;
        no_addr = λ e. absurd (cc);
      };
      same_size = refl;
      room = f.0;
      same_bytes = same;
    }

unless_error-GrowResult :
    (r : Replies) (n : ℕ) (b : GrowableBuf) (o : Option Errno) (rest : Outcome ℕ × GrowableBuf)
    → ((e : Errno) → o ≡ some e → GrowResult r n b (err e) b)
    → GrowResult r n b rest.0 rest.1
    → GrowResult r n b (unless_error o b rest).0 (unless_error o b rest).1
unless_error-GrowResult r n b none rest h k = k
unless_error-GrowResult r n b (some e) rest h k = h e refl

asked-some : (t : Bool) (o : Option Errno) (e : Errno) → asked t o ≡ some e → o ≡ some e
asked-some true o e h = h
asked-some false o e h = absurd (cc)

after_map-GrowResult :
    (r : Replies) (n : ℕ) (b : GrowableBuf) (o : Option Errno)
    → ((e : Errno) → o ≡ some e → r.freed ≡ some e)
    → Grown n b (moved_to (new_capacity_of b.capacity n) b)
    → GrowResult r n b
        (after_map o (new_capacity_of b.capacity n) b).0
        (after_map o (new_capacity_of b.capacity n) b).1
after_map-GrowResult r n b none h g = GrowResult.grown (moved_to (new_capacity_of b.capacity n) b) g
after_map-GrowResult r n b (some e) h g = GrowResult.lost e (h e refl)

-- The assertion in `grow_buf` holds.
assertion-holds : (b : GrowableBuf) → IsValid b → (not b.has_addr && not (b.capacity == 0)) ≡ false
assertion-holds b v = go b.has_addr (v.no_addr)
  where
    go : (t : Bool) → (t ≡ false → b.capacity ≡ 0) → (not t && not (b.capacity == 0)) ≡ false
    go true k = refl
    go false k = simp (k refl)

pub grow_buf-GrowResult :
    (r : Replies) (n : ℕ) (b : GrowableBuf)
    → IsValid b
    → b.capacity < n
    → n + 4096 ≤ 2 ^ 32
    → GrowResult r n b (grow_buf r n b).0 (grow_buf r n b).1
unfolding grow_buf
grow_buf-GrowResult r n b v l h =
    unless_error-GrowResult r n b r.allocated _ (λ e k. GrowResult.refused e (inl k))
      (simp (assertion-holds b v) (
        unless_error-GrowResult r n b (asked b.has_addr r.copied) _
          (λ e k. GrowResult.refused e (inr (inl (asked-some b.has_addr r.copied e k))))
          (unless_error-GrowResult r n b r.mapped _ (λ e k. GrowResult.refused e (inr (inr k)))
            (after_map-GrowResult r n b (asked b.has_addr r.freed)
              (λ e k. asked-some b.has_addr r.freed e k) (moved_to-Grown n b v l h)))))
