-- ===== src/RangeAllocator/RoundTrip.antt =====
-- The list of ranges is determined by the addresses that are free; so freeing what was just
-- allocated restores the allocator.
use chaotix.Base.{
  ℕ, ◌+◌, ◌%◌, ◌^◌, ◌≤◌, ◌<◌, ◌≡◌, refl, sym, ap, inl, inr, true, false, Option, none, List, [],
  ◌∷◌, arith, ◌==◌, Bool-cases,
}
use native.Mathlib.Decide.{dec_lt}
use chaotix.Base.Outcome.{Errno, Outcome, ok, err, panic}
use chaotix.Base.Word.{round_up_page}
use chaotix.RangeAllocator.{Range, RangeAllocator, alloc, free, none_left}
use chaotix.RangeAllocator.Inv.{Chain, IsValid, In, IsFree, IsFree-ge}
use chaotix.RangeAllocator.Alloc.{Allocated, alloc_lem, round_up_page_pages}
use chaotix.RangeAllocator.Free.{Apart, FreeResult, free_lem}

-- Every address that is free in the one list is free in the other.
abbrev Within : List Range → List Range → Type 0
Within rs ss = (x : ℕ) → IsFree x rs → IsFree x ss

head-IsFree :
    (lo hi : ℕ) (r : Range) (rs : List Range) → Chain lo hi (r ∷ rs) → IsFree r.addr (r ∷ rs)
head-IsFree lo hi r rs c = inl (omega arith)

same_addr :
    (lo hi : ℕ) (r s : Range) (rs ss : List Range)
    → Chain lo hi (r ∷ rs)
    → Chain lo hi (s ∷ ss)
    → Within (s ∷ ss) (r ∷ rs)
    → r.addr ≤ s.addr
same_addr lo hi r s rs ss c d w =
    IsFree-ge r.addr hi s.addr (r ∷ rs) (omega arith, c.1, c.2, c.3, c.4, c.5)
      (w s.addr (head-IsFree lo hi s ss d))

-- The byte behind `r` is not free, so `s` ends there too.
same_size :
    (lo hi : ℕ) (r s : Range) (rs ss : List Range)
    → Chain lo hi (r ∷ rs)
    → Chain lo hi (s ∷ ss)
    → Within (s ∷ ss) (r ∷ rs)
    → r.addr ≡ s.addr
    → s.size ≤ r.size
same_size lo hi r s rs ss c d w e = elim (dec_lt r.size s.size) [
  | no le ↦ omega arith
  | yes lt ↦ elim (w (r.addr + r.size) (inl (omega arith))) [
    | inl i ↦ absurd (omega arith)
    | inr f ↦ absurd (omega (arith, IsFree-ge _ hi (r.addr + r.size) rs c.5 f))
  ]
]

tail_Within :
    (lo hi : ℕ) (r s : Range) (rs ss : List Range)
    → Chain lo hi (r ∷ rs)
    → r.addr ≡ s.addr
    → r.size ≡ s.size
    → Within (r ∷ rs) (s ∷ ss)
    → Within rs ss
tail_Within lo hi r s rs ss c e z w x f = elim (w x (inr f)) [
  | inl i ↦ absurd (omega (arith, IsFree-ge _ hi x rs c.5 f))
  | inr g ↦ g
]

-- Two ranges lists that keep the invariant and have the same free addresses are equal.
pub ranges_unique :
    (lo hi : ℕ) (rs ss : List Range)
    → Chain lo hi rs
    → Chain lo hi ss
    → ((x : ℕ) → IsFree x rs → IsFree x ss)
    → ((x : ℕ) → IsFree x ss → IsFree x rs)
    → rs ≡ ss
ranges_unique lo hi [] [] c d w w' = refl
ranges_unique lo hi [] (s ∷ ss) c d w w' = absurd (w' s.addr (head-IsFree lo hi s ss d))
ranges_unique lo hi (r ∷ rs) [] c d w w' = absurd (w r.addr (head-IsFree lo hi r rs c))
ranges_unique lo hi (r ∷ rs) (s ∷ ss) c d w w' =
    let e : r.addr ≡ s.addr =
      omega (arith, same_addr lo hi r s rs ss c d w', same_addr lo hi s r ss rs d c w) in
    let z : r.size ≡ s.size =
      omega (arith, same_size lo hi r s rs ss c d w' e, same_size lo hi s r ss rs d c w (sym e)) in
    let tails : rs ≡ ss =
      ranges_unique (r.addr + r.size + 1) hi rs ss c.5 (rw (e, z) d.5)
        (tail_Within lo hi r s rs ss c e z w) (tail_Within lo hi s r ss rs d (sym e) (sym z) w') in
    cc

-- Ranges none of whose addresses lies in the block do not meet it.
disjoint-Apart :
    (lo hi p n : ℕ) (rs : List Range)
    → 0 < n
    → Chain lo hi rs
    → ((x : ℕ) → IsFree x rs → ¬ In x p n)
    → Apart p n rs
disjoint-Apart lo hi p n [] h c d = tt
disjoint-Apart lo hi p n (r ∷ rs) h c d = (
  elim (dec_lt p r.addr) [
    | yes below ↦ elim (dec_lt r.addr (p + n)) [
      | yes meets ↦ absurd (d r.addr (inl (omega arith)) (omega arith))
      | no beyond ↦ inr (omega arith)
    ]
    | no above ↦ elim (dec_lt p (r.addr + r.size)) [
      | yes meets ↦ absurd (d p (inl (omega arith)) (omega arith))
      | no beyond ↦ inl (omega arith)
    ]
  ],
  disjoint-Apart (r.addr + r.size + 1) hi p n rs h c.5 (λ x f. d x (inr f)),
)

module _ (a a' : RangeAllocator) (size p : ℕ) (v : IsValid a)
    (got : Allocated a (round_up_page size) p a') where
  -- A free of that block that succeeds gives the first allocator back.
  restored :
      (out : Outcome (Unit {0}) × RangeAllocator)
      → FreeResult none none a' p (round_up_page size) out
      → out ≡ (ok tt, a)
  restored (ok tt, b) r =
      let back : b.ranges ≡ a.ranges =
        ranges_unique a.start a.end b.ranges a.ranges
          (rw (← got.same_bounds.0, ← got.same_bounds.1, ← r.2, ← r.3) r.0.chain) v.chain
          (λ x f. elim (r.1.only x f) [ inl i ↦ got.cut.was_free x i | inr g ↦ got.cut.kept x g ])
          (λ x f. elim (got.cut.others x f) [ inl i ↦ r.1.freed x i | inr g ↦ r.1.kept x g ]) in
      ground (arith, back, r.2, r.3, r.4, got.same_bounds.0, got.same_bounds.1, got.unlocked)
  restored (err e, b) r = elim r.1 [ inl x ↦ cc | inr x ↦ cc ]
  restored (panic, b) r = absurd r

-- A block that `range_allocator_alloc` has just returned of a valid
-- allocator can be given back where paging does not fail, and then the allocator is the one before,
-- if a range is left; the size is not 0 and a page below 2 ^ 32 at most.
pub free-alloc :
    (copied : Option Errno) (a a' : RangeAllocator) (size p : ℕ)
    → IsValid a
    → 0 < size
    → size + 4096 ≤ 2 ^ 32
    → alloc copied a size ≡ (ok p, a')
    → none_left a'.ranges ≡ false
    → free none none a' p size ≡ (ok tt, a)
free-alloc copied a a' size p v h k e left =
    let got : Allocated a (round_up_page size) p a' = rw e at (alloc_lem copied a size v h k) in
    let w = round_up_page_pages size h k in
    restored a a' size p v got _ (
      free_lem none none a' p size got.valid h k got.aligned
        (omega (arith, got.from, got.same_bounds)) (omega (arith, got.upto, got.same_bounds))
        (disjoint-Apart a'.start a'.end p _ a'.ranges w.0 got.valid.chain got.cut.taken) left)

-- When no free range is left, giving a block at any address back is a panic.
pub free-exhausted :
    (mapped copied : Option Errno) (a : RangeAllocator) (p size : ℕ)
    → a.ranges ≡ []
    → free mapped copied a p size ≡ (panic, a)
unfolding free
free-exhausted mapped copied a p size e =
    let z : none_left a.ranges ≡ true = ap none_left e in
    elim (Bool-cases (p % 4096 == 0)) [ inl c ↦ rw (c, z) | inr c ↦ rw c ]
