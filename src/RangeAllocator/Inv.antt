-- ===== src/RangeAllocator/Inv.antt =====
-- The invariant of the list of free ranges, and the addresses that are free.
use chaotix.Base.{ℕ, ◌+◌, ◌%◌, ◌^◌, ◌≤◌, ◌<◌, ◌≡◌, ◌⊎◌, inl, inr, List, [], ◌∷◌, arith}
use chaotix.RangeAllocator.{Range, RangeAllocator}

-- Ranges in ascending order from `lo` on, none empty, none touching the next, on page bounds.
abbrev pub Chain : ℕ → ℕ → List Range → Type 0
Chain lo hi [] = Unit {0}
Chain lo hi (r ∷ rs) =
    (lo ≤ r.addr)
    × (0 < r.size)
    × (r.addr % 4096 ≡ 0)
    × (r.size % 4096 ≡ 0)
    × (r.addr + r.size ≤ hi)
    × Chain (r.addr + r.size + 1) hi rs

-- The allocator's bounds are below the wrap-around of addresses.
pub record IsValid (a : RangeAllocator) : Type 0 where
  pub chain : Chain a.start a.end a.ranges
  pub end_fits : a.end + 4096 ≤ 2 ^ 32

-- The address lies in the block of `n` bytes at `p`.
abbrev pub In : ℕ → ℕ → ℕ → Type 0
In x p n = (p ≤ x) × (x < p + n)

-- The address lies in a free range.
abbrev pub IsFree : ℕ → List Range → Type 0
IsFree x [] = ⊥
IsFree x (r ∷ rs) = In x r.addr r.size ⊎ IsFree x rs

pub Chain-weaken : (lo lo' hi : ℕ) (rs : List Range) → lo' ≤ lo → Chain lo hi rs → Chain lo' hi rs
Chain-weaken lo lo' hi [] h c = tt
Chain-weaken lo lo' hi (r ∷ rs) h c = (omega arith, c.1, c.2, c.3, c.4, c.5)

-- Nothing below the bound is free.
pub IsFree-ge : (lo hi x : ℕ) (rs : List Range) → Chain lo hi rs → IsFree x rs → lo ≤ x
IsFree-ge lo hi x [] c f = absurd f
IsFree-ge lo hi x (r ∷ rs) c (inl i) = omega arith
IsFree-ge lo hi x (r ∷ rs) c (inr f) = omega (arith, IsFree-ge (r.addr + r.size + 1) hi x rs c.5 f)
