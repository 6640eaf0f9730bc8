-- ===== src/RangeAllocator/Alloc.antt =====
-- What `range_allocator_alloc` takes.
use chaotix.Base.{
  ℕ, ◌+◌, ◌-◌, ◌%◌, ◌^◌, ◌≤◌, ◌<◌, ◌≡◌, refl, ◌⊎◌, inl, inr, true, false, Option, none, some, List,
  [], ◌∷◌, arith, ltb, ◌==◌, ==_iff, Bool-cases,
}
use chaotix.Base.Outcome.{Errno, Outcome, ok, err, panic}
use native.Mathlib.Decide.{dec_lt}
use chaotix.Base.Word.{round_up_page}
use chaotix.RangeAllocator.{
  Range, RangeAllocator, Fit, no_fit, unmapped, fits, keep, take_fit, after_fit, alloc, none_left,
}
use chaotix.RangeAllocator.Inv.{Chain, IsValid, In, IsFree, IsFree-ge, Chain-weaken}

-- The block of `n` bytes at `p` is cut out of the free addresses, and nothing else changes.
pub record Cut (old new : List Range) (p n : ℕ) : Type 0 where
  pub was_free : (x : ℕ) → In x p n → IsFree x old
  pub kept : (x : ℕ) → IsFree x new → IsFree x old
  pub taken : (x : ℕ) → IsFree x new → ¬ In x p n
  pub others : (x : ℕ) → IsFree x old → In x p n ⊎ IsFree x new

-- The same of a search.
pub record Fits (lo hi : ℕ) (old : List Range) (n p : ℕ) (new : List Range) : Type 0 where
  pub chain : Chain lo hi new
  pub aligned : p % 4096 ≡ 0
  pub from : lo ≤ p
  pub upto : p + n ≤ hi
  pub cut : Cut old new p n

module _ (hi n : ℕ) (hi_fits : hi + 4096 ≤ 2 ^ 32) (some_bytes : 0 < n)
    (whole_pages : n % 4096 ≡ 0) where
  Cut-whole :
      (lo : ℕ) (r : Range) (rs : List Range)
      → Chain lo hi (r ∷ rs)
      → r.size ≡ n
      → Cut (r ∷ rs) rs r.addr n
  Cut-whole lo r rs c e = record {
    was_free = λ x i. inl (omega arith);
    kept = λ x f. inr f;
    taken = λ x f i. absurd (omega (arith, IsFree-ge _ hi x rs c.5 f));
    others = λ x f. elim f [ inl i ↦ inl (omega arith) | inr g ↦ inr g ];
  }

  Fits-whole :
      (lo : ℕ) (r : Range) (rs : List Range)
      → Chain lo hi (r ∷ rs)
      → r.size ≡ n
      → Fits lo hi (r ∷ rs) n r.addr rs
  Fits-whole lo r rs c e = record {
    chain = Chain-weaken (r.addr + r.size + 1) lo hi rs (omega arith) c.5;
    aligned = c.2;
    from = c.0;
    upto = omega arith;
    cut = Cut-whole lo r rs c e;
  }

  Fits-split :
      (lo : ℕ) (r : Range) (rs : List Range)
      → Chain lo hi (r ∷ rs)
      → n < r.size
      → Fits lo hi
          (r ∷ rs)
          n
          r.addr
          (record { addr = (r.addr + n) % 2 ^ 32; size = r.size - n } ∷ rs)
  Fits-split lo r rs c e =
      let a : (r.addr + n) % 2 ^ 32 ≡ r.addr + n = omega arith in
      let z : r.addr + n + (r.size - n) ≡ r.addr + r.size = omega arith in
      rw a (record {
        chain = (omega arith, omega arith, omega arith, omega arith, omega arith, rw z c.5);
        aligned = c.2;
        from = c.0;
        upto = omega arith;
        cut = record {
          was_free = λ x i. inl (omega arith);
          kept = λ x f. elim f [ inl i ↦ inl (omega arith) | inr g ↦ inr g ];
          taken = λ x f i. elim f [
            | inl j ↦ absurd (omega arith)
            | inr g ↦ absurd (omega (arith, IsFree-ge _ hi x rs c.5 g))
          ];
          others = λ x f. elim f [
            | inl i ↦ elim (dec_lt x (r.addr + n)) [
              | yes low ↦ inl (omega arith)
              | no high ↦ inr (inl (omega arith))
            ]
            | inr g ↦ inr (inr g)
          ];
        };
      })

  Fits-keep :
      (lo p : ℕ) (r : Range) (rs new : List Range)
      → Chain lo hi (r ∷ rs)
      → Fits (r.addr + r.size + 1) hi rs n p new
      → Fits lo hi (r ∷ rs) n p (r ∷ new)
  Fits-keep lo p r rs new c s = record {
    chain = (c.0, c.1, c.2, c.3, c.4, s.chain);
    aligned = s.aligned;
    from = omega (arith, s.from);
    upto = s.upto;
    cut = record {
      was_free = λ x i. inr (s.cut.was_free x i);
      kept = λ x f. elim f [ inl i ↦ inl i | inr g ↦ inr (s.cut.kept x g) ];
      taken =
          λ x f i. elim f [ inl j ↦ absurd (omega (arith, s.from)) | inr g ↦ s.cut.taken x g i ];
      others = λ x f. elim f [
        | inl i ↦ inr (inl i)
        | inr g ↦ elim (s.cut.others x g) [ inl j ↦ inl j | inr k ↦ inr (inr k) ]
      ];
    };
  }

  -- What a search that succeeds has found.
  Found : ℕ → List Range → Fit → Type 0
  Found lo rs no_fit = Unit {0}
  Found lo rs (unmapped e) = Unit {0}
  Found lo rs (fits p new) = Fits lo hi rs n p new

  keep-Found :
      (lo : ℕ) (r : Range) (rs : List Range) (f : Fit)
      → Chain lo hi (r ∷ rs)
      → Found (r.addr + r.size + 1) rs f
      → Found lo (r ∷ rs) (keep r f)
  unfolding Found
  keep-Found lo r rs no_fit c h = tt
  keep-Found lo r rs (unmapped e) c h = tt
  keep-Found lo r rs (fits p new) c h = Fits-keep lo p r rs new c h

  take_fit-Found :
      (copied : Option Errno) (lo : ℕ) (rs : List Range)
      → Chain lo hi rs
      → Found lo rs (take_fit copied n rs)
  unfolding take_fit Found
  take_fit-Found copied lo [] c = tt
  take_fit-Found copied lo (r ∷ rs) c = elim (Bool-cases (ltb r.size n)) [
    | inl small ↦
        rw small (keep-Found lo r rs _ c (take_fit-Found copied (r.addr + r.size + 1) rs c.5))
    | inr large ↦ rw large (elim (Bool-cases (r.size == n)) [
      | inl exact ↦ rw exact (Fits-whole lo r rs c ((==_iff r.size n).0 exact))
      | inr more ↦ let lt : n < r.size = ground arith in rw more (split lt copied)
    ])
  ]
    where
      split :
          n < r.size
          → (o : Option Errno)
          → Found lo (r ∷ rs) (elim o [
            | some e ↦ unmapped e
            | none ↦ fits r.addr (record { addr = (r.addr + n) % 2 ^ 32; size = r.size - n } ∷ rs)
          ])
      split lt none = Fits-split lo r rs c lt
      split lt (some e) = tt

-- A request below the wrap-around is rounded up to whole pages.
pub round_up_page_pages :
    (size : ℕ)
    → 0 < size
    → size + 4096 ≤ 2 ^ 32
    → (0 < round_up_page size) × (round_up_page size % 4096 ≡ 0) × (size ≤ round_up_page size)
round_up_page_pages size h k = omega arith

pub record Allocated (a : RangeAllocator) (n p : ℕ) (a' : RangeAllocator) : Type 0 where
  pub valid : IsValid a'
  pub same_bounds : (a'.start ≡ a.start) × (a'.end ≡ a.end)
  pub unlocked : a'.lock_level ≡ a.lock_level
  pub aligned : p % 4096 ≡ 0
  pub from : a.start ≤ p
  pub upto : p + n ≤ a.end
  pub cut : Cut a.ranges a'.ranges p n

-- What a call may come to.
abbrev pub AllocResult : RangeAllocator → ℕ → Outcome ℕ × RangeAllocator → Type 0
AllocResult a n (ok p, a') = Allocated a n p a'
AllocResult a n (err e, a') = a'.ranges ≡ a.ranges
AllocResult a n (panic, a') = (a.ranges ≡ []) × (a' ≡ a)

none_left_nil : (rs : List Range) → none_left rs ≡ true → rs ≡ []
none_left_nil [] h = refl
none_left_nil (r ∷ rs) h = cc

after_fit-result :
    (a : RangeAllocator) (n : ℕ) (k : a.end + 4096 ≤ 2 ^ 32) (h : 0 < n) (w : n % 4096 ≡ 0)
    (f : Fit)
    → Found a.end n k h w a.start a.ranges f
    → AllocResult a n (after_fit a f)
unfolding Found
after_fit-result a n k h w no_fit s = refl
after_fit-result a n k h w (unmapped e) s = refl
after_fit-result a n k h w (fits p rs) s = record {
  valid = record { chain = s.chain; end_fits = k };
  same_bounds = (refl, refl);
  unlocked = refl;
  aligned = s.aligned;
  from = s.from;
  upto = s.upto;
  cut = s.cut;
}

-- For a size that is not 0 and a page below 2 ^ 32 at most:
-- of a valid allocator `range_allocator_alloc` cuts out a page-aligned block, inside the bounds, of
-- the size rounded up to whole pages; every address of it was free and is free no longer, no other
-- address changes, the invariant holds again and the mutex is given back. If it fails the free
-- ranges are as before, and it panics only where no range is left.
pub alloc_lem :
    (copied : Option Errno) (a : RangeAllocator) (size : ℕ)
    → IsValid a
    → 0 < size
    → size + 4096 ≤ 2 ^ 32
    → AllocResult a (round_up_page size) (alloc copied a size)
unfolding alloc
alloc_lem copied a size v some_bytes fits_word =
    let w = round_up_page_pages size some_bytes fits_word in
    elim (Bool-cases (none_left a.ranges)) [
      | inl nothing ↦ rw nothing (none_left_nil a.ranges nothing, refl)
      | inr left ↦ rw left (
          after_fit-result a _ v.end_fits w.0 w.1 _
            (take_fit-Found a.end _ v.end_fits w.0 w.1 copied a.start a.ranges v.chain))
    ]

-- No range holds `n` bytes.
abbrev pub TooSmall : ℕ → List Range → Type 0
TooSmall n [] = Unit {0}
TooSmall n (r ∷ rs) = (r.size < n) × TooSmall n rs

take_fit-TooSmall :
    (copied : Option Errno) (n : ℕ) (rs : List Range)
    → TooSmall n rs
    → take_fit copied n rs ≡ no_fit
unfolding take_fit
take_fit-TooSmall copied n [] h = refl
take_fit-TooSmall copied n (r ∷ rs) h =
    let small : ltb r.size n ≡ true = ground arith in
    rw small (rw (take_fit-TooSmall copied n rs h.1))

-- Where ranges are left but none is large enough, the call fails with ENOMEM and leaves the mutex
-- taken: one level more
-- than before.
pub alloc_enomem-keeps_lock :
    (copied : Option Errno) (a : RangeAllocator) (size : ℕ)
    → none_left a.ranges ≡ false
    → TooSmall (round_up_page size) a.ranges
    → alloc copied a size ≡ (err Errno.enomem, record a { lock_level = a.lock_level + 1 })
unfolding alloc
alloc_enomem-keeps_lock copied a size left small =
    rw (left, take_fit-TooSmall copied (round_up_page size) a.ranges small)
