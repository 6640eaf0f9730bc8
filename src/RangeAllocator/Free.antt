-- ===== src/RangeAllocator/Free.antt =====
-- What `range_allocator_free` gives back.
use chaotix.Base.{
  ℕ, ◌+◌, ◌%◌, ◌^◌, ◌≤◌, ◌<◌, ◌≡◌, refl, sym, ◌∙◌, ◌⊎◌, inl, inr, true, false, Option, none, some,
  List, [], ◌∷◌, arith, ltb, leb, ◌==◌, ==_iff, Bool-cases,
}
use native.Mathlib.Decide.{dec_lt}
use chaotix.Base.Outcome.{Errno, Outcome, ok, err, panic}
use chaotix.Base.Word.{round_up_page, add32}
use chaotix.RangeAllocator.{
  Range, RangeAllocator, after_walk, free, none_left, walk, give_back, extend_next, insert_range,
  fill_gap, consed, range_end, above, unless_failed,
}
use chaotix.RangeAllocator.Inv.{Chain, IsValid, In, IsFree}

-- The block of `n` bytes at `p` joins the free addresses, and nothing else changes.
pub record Joined (old new : List Range) (p n : ℕ) : Type 0 where
  pub freed : (x : ℕ) → In x p n → IsFree x new
  pub kept : (x : ℕ) → IsFree x old → IsFree x new
  pub only : (x : ℕ) → IsFree x new → In x p n ⊎ IsFree x old

-- No free range meets the block.
abbrev pub Apart : ℕ → ℕ → List Range → Type 0
Apart p n [] = Unit {0}
Apart p n (r ∷ rs) = ((r.addr + r.size ≤ p) ⊎ (p + n ≤ r.addr)) × Apart p n rs

module _ (mapped copied : Option Errno) (hi p n : ℕ) (hi_fits : hi + 4096 ≤ 2 ^ 32)
    (some_bytes : 0 < n) (block_page : p % 4096 ≡ 0) (whole_pages : n % 4096 ≡ 0)
    (inside : p + n ≤ hi) where
  -- What a call that succeeds makes of the ranges.
  Gave : ℕ → List Range → Outcome (List Range) → Type 0
  Gave lo old (ok new) = Chain lo hi new × Joined old new p n
  Gave lo old (err e) = (mapped ≡ some e) ⊎ (copied ≡ some e)
  Gave lo old panic = ⊥

  consed-Gave :
      (lo : ℕ) (q : Range) (old : List Range) (out : Outcome (List Range))
      → Chain lo hi (q ∷ old)
      → Gave (q.addr + q.size + 1) old out
      → Gave lo (q ∷ old) (consed (some q) out)
  unfolding Gave
  consed-Gave lo q old (ok new) c (chain, j) = (
    (c.0, c.1, c.2, c.3, c.4, chain),
    record {
      freed = λ x i. inr (j.freed x i);
      kept = λ x f. elim f [ inl i ↦ inl i | inr g ↦ inr (j.kept x g) ];
      only = λ x f. elim f [
        | inl i ↦ inr (inl i)
        | inr g ↦ elim (j.only x g) [ inl i ↦ inl i | inr h ↦ inr (inr h) ]
      ];
    },
  )
  consed-Gave lo q old (err e) c g = g
  consed-Gave lo q old panic c g = g

  new_range-Gave :
      (o : Option Errno)
      → mapped ≡ o
      → (lo : ℕ) (its : List Range) → lo ≤ p
      → Chain (p + n + 1) hi its
      → Gave lo its (unless_failed o (record { addr = p; size = n } ∷ its))
  unfolding Gave
  new_range-Gave none same lo its h c = (
    (h, some_bytes, block_page, whole_pages, inside, c),
    record { freed = λ x i. inl i; kept = λ x f. inr f; only = λ x f. f },
  )
  new_range-Gave (some e) same lo its h c = inl same

  block_end : add32 p n ≡ p + n
  block_end = omega arith

  above-true :
      (lo : ℕ) (its : List Range) → p + n < lo → Chain lo hi its → above (add32 p n) its ≡ true
  above-true lo [] h c = refl
  above-true lo (it ∷ rs) h c = rw block_end (ground arith)

  insert-Gave :
      (lo : ℕ) (its : List Range)
      → lo ≤ p
      → Chain (p + n + 1) hi its
      → Gave lo its (insert_range mapped copied p n none its)
  unfolding insert_range
  insert-Gave lo its h c =
      rw (above-true (p + n + 1) its (omega arith) c) (new_range-Gave mapped refl lo its h c)

  -- The next range starts where the block ends.
  grown-Gave :
      (o : Option Errno)
      → copied ≡ o
      → (lo : ℕ) (it : Range) (rs : List Range) → lo ≤ p
      → it.addr ≡ p + n
      → Chain (p + n) hi (it ∷ rs)
      → Gave lo (it ∷ rs) (unless_failed o (record { addr = p; size = add32 it.size n } ∷ rs))
  unfolding Gave
  grown-Gave (some e) same lo it rs h e' c = inr same
  grown-Gave none same lo it rs h e c =
      let s : add32 it.size n ≡ it.size + n = omega arith in
      let z : p + (it.size + n) ≡ it.addr + it.size = omega arith in
      rw s (
        (h, omega arith, block_page, omega arith, omega arith, rw z c.5),
        record {
          freed = λ x i. inl (omega arith);
          kept = λ x f. elim f [ inl i ↦ inl (omega arith) | inr g ↦ inr g ];
          only = λ x f. elim f [
            | inl i ↦ elim (dec_lt x (p + n)) [
              | yes low ↦ inl (omega arith)
              | no high ↦ inr (inl (omega arith))
            ]
            | inr g ↦ inr (inr g)
          ];
        },
      )

  extend-Gave :
      (lo : ℕ) (its : List Range)
      → lo ≤ p
      → Chain (p + n) hi its
      → Gave lo its (extend_next mapped copied p n none its)
  unfolding extend_next
  extend-Gave lo [] h c = insert-Gave lo [] h tt
  extend-Gave lo (it ∷ rs) h c = elim (Bool-cases (it.addr == add32 p n)) [
    | inl touch ↦ rw touch (grown-Gave copied refl lo it rs h ((==_iff _ _).0 touch ∙ block_end) c)
    | inr clear ↦
        rw clear (insert-Gave lo (it ∷ rs) h (ground (arith, block_end), c.1, c.2, c.3, c.4, c.5))
  ]

  insert-some :
      (q : Range) (its : List Range)
      → range_end q < p
      → insert_range mapped copied p n (some q) its
        ≡ consed (some q) (insert_range mapped copied p n none its)
  unfolding insert_range
  insert-some q its h =
      let b : ltb (range_end q) p ≡ true = ground arith in
      rw b
        (elim (Bool-cases (above (add32 p n) its)) [ inl a ↦ rw a (linked mapped) | inr a ↦ rw a ])
    where
      linked :
          (o : Option Errno)
          → unless_failed o (q ∷ record { addr = p; size = n } ∷ its)
            ≡ consed (some q) (unless_failed o (record { addr = p; size = n } ∷ its))
      linked none = refl
      linked (some e) = refl

  extend-some :
      (q : Range) (its : List Range)
      → range_end q < p
      → extend_next mapped copied p n (some q) its
        ≡ consed (some q) (extend_next mapped copied p n none its)
  unfolding extend_next
  extend-some q [] h = insert-some q [] h
  extend-some q (it ∷ rs) h = elim (Bool-cases (it.addr == add32 p n)) [
    | inl touch ↦ rw touch (linked copied)
    | inr clear ↦ rw clear (insert-some q (it ∷ rs) h)
  ]
    where
      linked :
          (o : Option Errno)
          → unless_failed o (q ∷ record { addr = p; size = add32 it.size n } ∷ rs)
            ≡ consed (some q) (unless_failed o (record { addr = p; size = add32 it.size n } ∷ rs))
      linked none = refl
      linked (some e) = refl

  prev_grown :
      (lo : ℕ) (q : Range) (rs : List Range)
      → Chain lo hi (q ∷ rs)
      → q.addr + q.size ≡ p
      → Chain (p + n + 1) hi rs
      → Gave lo (q ∷ rs) (ok (record q { size = q.size + n } ∷ rs))
  unfolding Gave
  prev_grown lo q rs c e d =
      let z : q.addr + (q.size + n) ≡ p + n = omega arith in
      (
        (c.0, omega arith, c.2, omega arith, omega arith, rw z d),
        record {
          freed = λ x i. inl (omega arith);
          kept = λ x f. elim f [ inl i ↦ inl (omega arith) | inr g ↦ inr g ];
          only = λ x f. elim f [
            | inl i ↦ elim (dec_lt x p) [
              | yes low ↦ inr (inl (omega arith))
              | no high ↦ inl (omega arith)
            ]
            | inr g ↦ inr (inr g)
          ];
        },
      )

  gap_filled :
      (lo : ℕ) (q it : Range) (rs : List Range)
      → Chain lo hi (q ∷ it ∷ rs)
      → q.addr + q.size ≡ p
      → it.addr ≡ p + n
      → Gave lo (q ∷ it ∷ rs) (ok (record q { size = q.size + n + it.size } ∷ rs))
  unfolding Gave
  gap_filled lo q it rs c e touch =
      let d = c.5 in
      let z : q.addr + (q.size + n + it.size) ≡ it.addr + it.size = omega arith in
      (
        (c.0, omega arith, c.2, omega arith, omega arith, rw z d.5),
        record {
          freed = λ x i. inl (omega arith);
          kept = λ x f. elim f [
            | inl i ↦ inl (omega arith)
            | inr g ↦ elim g [ inl j ↦ inl (omega arith) | inr h ↦ inr h ]
          ];
          only = λ x f. elim f [
            | inl i ↦ elim (dec_lt x p) [
              | yes low ↦ inr (inl (omega arith))
              | no high ↦ elim (dec_lt x (p + n)) [
                | yes mid ↦ inl (omega arith)
                | no top ↦ inr (inr (inl (omega arith)))
              ]
            ]
            | inr g ↦ inr (inr (inr g))
          ];
        },
      )

  fill-Gave :
      (lo : ℕ) (q : Range) (its : List Range)
      → Chain lo hi (q ∷ its)
      → Apart p n its
      → q.addr + q.size ≡ p
      → Gave lo (q ∷ its) (ok (fill_gap mapped copied p n (record q { size = add32 q.size n }) its))
  unfolding fill_gap
  fill-Gave lo q [] c a e =
      let s : add32 q.size n ≡ q.size + n = omega arith in rw s (prev_grown lo q [] c e tt)
  fill-Gave lo q (it ∷ rs) c a e =
      let d = c.5 in
      let s : add32 q.size n ≡ q.size + n = omega arith in
      let z : add32 q.addr (q.size + n) ≡ p + n = omega arith in
      rw (s, z)
        (elim (Bool-cases (p + n == it.addr)) [
          | inl touch ↦
              let s' : add32 (q.size + n) it.size ≡ q.size + n + it.size = ground arith in
              rw (touch, s') (gap_filled lo q it rs c e (sym ((==_iff _ _).0 touch)))
          | inr clear ↦
              rw clear (prev_grown lo q (it ∷ rs) c e (ground arith, d.1, d.2, d.3, d.4, d.5))
        ])

  give_back-Gave-some :
      (lo : ℕ) (q : Range) (its : List Range)
      → Chain lo hi (q ∷ its)
      → Apart p n its
      → Chain (p + n) hi its
      → q.addr + q.size ≤ p
      → Gave lo (q ∷ its) (give_back mapped copied p n (some q) its)
  unfolding give_back
  give_back-Gave-some lo q its c a above_block h =
      let z : range_end q ≡ q.addr + q.size = omega arith in
      elim (Bool-cases (range_end q == p)) [
        | inl touch ↦ rw touch (fill-Gave lo q its c a (ground arith))
        | inr clear ↦
            rw (clear, extend-some q its (ground arith))
              (consed-Gave lo q its _ c
                (extend-Gave (q.addr + q.size + 1) its (ground arith) above_block))
      ]

  -- The loop stops at a range that ends above the block, and so lies above it.
  stop_above :
      (lo : ℕ) (it : Range) (rs : List Range)
      → Chain lo hi (it ∷ rs)
      → Apart p n (it ∷ rs)
      → leb (range_end it) p ≡ false
      → Chain (p + n) hi (it ∷ rs)
  stop_above lo it rs c a h =
      let z : range_end it ≡ it.addr + it.size = omega arith in
      (ground (arith, a.0), c.1, c.2, c.3, c.4, c.5)

  walk-Gave-some :
      (lo : ℕ) (q : Range) (its : List Range)
      → Chain lo hi (q ∷ its)
      → Apart p n its
      → q.addr + q.size ≤ p
      → Gave lo (q ∷ its) (walk mapped copied p n (some q) its)
  unfolding walk
  walk-Gave-some lo q [] c a h = give_back-Gave-some lo q [] c a tt h
  walk-Gave-some lo q (it ∷ rs) c a h =
      let d = c.5 in
      elim (Bool-cases (leb (range_end it) p)) [
        | inl on ↦ rw on (
            consed-Gave lo q (it ∷ rs) _ c
              (walk-Gave-some (q.addr + q.size + 1) it rs c.5 a.1 (ground arith)))
        | inr stop ↦ rw stop (
            give_back-Gave-some lo q (it ∷ rs) c a
              (stop_above (q.addr + q.size + 1) it rs c.5 a stop) h)
      ]

  walk-Gave :
      (lo : ℕ) (its : List Range)
      → Chain lo hi its
      → Apart p n its
      → lo ≤ p
      → Gave lo its (walk mapped copied p n none its)
  unfolding walk give_back
  walk-Gave lo [] c a h = extend-Gave lo [] h tt
  walk-Gave lo (it ∷ rs) c a h = elim (Bool-cases (leb (range_end it) p)) [
    | inl on ↦ rw on (walk-Gave-some lo it rs c a.1 (ground arith))
    | inr stop ↦ rw stop (extend-Gave lo (it ∷ rs) h (stop_above lo it rs c a stop))
  ]

-- What a call may come to.
abbrev pub FreeResult :
    Option Errno
    → Option Errno
    → RangeAllocator
    → ℕ
    → ℕ
    → Outcome (Unit {0}) × RangeAllocator
    → Type 0
FreeResult mapped copied a p n (ok _, a') =
    IsValid a'
    × Joined a.ranges a'.ranges p n
    × (a'.start ≡ a.start)
    × (a'.end ≡ a.end)
    × (a'.lock_level ≡ a.lock_level)
FreeResult mapped copied a p n (err e, a') = (a' ≡ a) × ((mapped ≡ some e) ⊎ (copied ≡ some e))
FreeResult mapped copied a p n (panic, a') = ⊥

module _ (mapped copied : Option Errno) where
  after_walk-result :
      (a : RangeAllocator) (p n : ℕ) (out : Outcome (List Range)) (k : a.end + 4096 ≤ 2 ^ 32)
      (h : 0 < n) (b : p % 4096 ≡ 0) (w : n % 4096 ≡ 0) (i : p + n ≤ a.end)
      → Gave mapped copied a.end p n k h b w i a.start a.ranges out
      → FreeResult mapped copied a p n (after_walk a out)
  unfolding Gave
  after_walk-result a p n (ok rs) k h b w i g =
      (record { chain = g.0; end_fits = k }, g.1, refl, refl, refl)
  after_walk-result a p n (err e) k h b w i g = (refl, g)
  after_walk-result a p n panic k h b w i g = g

not_beyond : (e p n : ℕ) → e + 4096 ≤ 2 ^ 32 → p + n ≤ e → ltb e (add32 p n) ≡ false
not_beyond e p n k h = ground arith

-- For a size that is not 0 and a page below 2 ^ 32 at most:
-- of a valid allocator with a range left, `range_allocator_free` of a page-aligned block inside
-- the bounds that meets no free range makes exactly the block's addresses free, the size rounded
-- up to whole pages; the ranges are in order and none touches the next, so the block has grown
-- into its neighbours, and the mutex is given back. Or paging fails, its error is returned and
-- nothing changes. No assertion fails.
pub free_lem :
    (mapped copied : Option Errno) (a : RangeAllocator) (p size : ℕ)
    → IsValid a
    → 0 < size
    → size + 4096 ≤ 2 ^ 32
    → p % 4096 ≡ 0
    → a.start ≤ p
    → p + round_up_page size ≤ a.end
    → Apart p (round_up_page size) a.ranges
    → none_left a.ranges ≡ false
    → FreeResult mapped copied a p (round_up_page size) (free mapped copied a p size)
unfolding free
free_lem mapped copied a p size v some_bytes fits_word page from inside apart left =
    let k = v.end_fits in
    let h : 0 < round_up_page size = omega arith in
    let w : round_up_page size % 4096 ≡ 0 = omega arith in
    let aligned : (p % 4096 == 0) ≡ true = ground arith in
    let low : ltb p a.start ≡ false = ground arith in
    rw (aligned, left, low, not_beyond a.end p _ k inside)
      (after_walk-result mapped copied a p _ _ k h page w inside
        (walk-Gave mapped copied a.end p _ k h page w inside a.start a.ranges v.chain apart from))
