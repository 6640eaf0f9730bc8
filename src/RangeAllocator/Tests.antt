-- ===== src/RangeAllocator/Tests.antt =====
-- Runs of kernel/memory/range_allocator.c, and its theorems at concrete allocators.
use chaotix.Base.{◌≡◌, refl, none, List, [], ◌∷◌, arith}
use chaotix.Base.Outcome.{ok}
use chaotix.RangeAllocator.{Range, RangeAllocator, alloc, free}
use chaotix.RangeAllocator.Inv.{IsValid}
use chaotix.RangeAllocator.Alloc.{AllocResult, alloc_lem}
use chaotix.RangeAllocator.Free.{FreeResult, free_lem}
use chaotix.RangeAllocator.RoundTrip.{free-alloc}

-- Free: one page at 0x1000, and four pages at 0x4000.
abbrev two_ranges : List Range
two_ranges = record { addr = 0x1000; size = 0x1000 } ∷ record { addr = 0x4000; size = 0x4000 } ∷ []

abbrev holed : RangeAllocator
holed = record { start = 0x1000; end = 0x9000; ranges = two_ranges; lock_level = 0 }

-- The same with two pages fewer.
abbrev taken : RangeAllocator
taken = record holed {
  ranges = record { addr = 0x1000; size = 0x1000 } ∷ record { addr = 0x6000; size = 0x2000 } ∷ [];
}

holed-IsValid : IsValid holed
holed-IsValid = omega arith

alloc_two_pages : alloc none holed 0x1001 ≡ (ok 0x4000, taken)
unfolding alloc
alloc_two_pages = refl

-- The block fills the gap between the two ranges.
free_between :
    free none none holed 0x2000 0x2000
    ≡ (ok tt, record holed { ranges = record { addr = 0x1000; size = 0x7000 } ∷ [] })
unfolding free
free_between = refl

alloc_lem_example : AllocResult holed 0x2000 (alloc none holed 0x1001)
alloc_lem_example = alloc_lem none holed 0x1001 holed-IsValid (omega arith) (omega arith)

free_lem_example : FreeResult none none taken 0x4000 0x2000 (free none none taken 0x4000 0x1001)
free_lem_example =
    free_lem none none taken 0x4000 0x1001 (omega arith) (omega arith) (omega arith) (omega arith)
      (omega arith) (omega arith) (omega arith) refl

free-alloc_example : free none none taken 0x4000 0x1001 ≡ (ok tt, holed)
free-alloc_example =
    free-alloc none holed taken 0x1001 0x4000 holed-IsValid (omega arith) (omega arith)
      alloc_two_pages refl
