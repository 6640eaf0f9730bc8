-- ===== src/PageAllocator/Tests.antt =====
-- A machine of 32 pages, of which the pages 2 and 3 are free and page 0 has one reference.
use chaotix.Base.{
  ℕ, ◌*◌, ◌<◌, ◌≡◌, refl, ◌⊎◌, true, false, [], ◌∷◌, arith, ◌==◌, all_less, all_less-holds, same,
  same-true, get_or, take, replicate,
}
use chaotix.Base.Outcome.{Errno, ok, err}
use chaotix.Base.Bits.{test_bit, lowest_bit, clear_bit}
use chaotix.PageAllocator.{
  PageAllocator, is_free, page_allocator_alloc, page_allocator_unref_page, page_size,
}
use chaotix.PageAllocator.Count.{count_pages}
use chaotix.PageAllocator.Inv.{IsValid}
use chaotix.PageAllocator.Alloc.{Taken, page_allocator_alloc-Taken}
use chaotix.PageAllocator.Unref.{after_unref, InUse, page_allocator_unref_page-after_unref}

abbrev machine : PageAllocator
machine = record {
  bitmap_len = 1;
  bitmap = 12 ∷ [];
  ref_counts = 1 ∷ 255 ∷ 0 ∷ 0 ∷ replicate 28 255;
  free = 8;
}

machine-exact :
    all_less 32 (λ i. same (is_free machine.bitmap i) (get_or machine.ref_counts i 0 == 0)) ≡ true
unfolding test_bit
machine-exact = refl

machine-free : 8 ≡ 4 * count_pages (take 1 (12 ∷ []))
unfolding count_pages
machine-free = refl

machine-IsValid : IsValid machine
machine-IsValid = record {
  words = omega arith;
  counts = omega arith;
  exact = λ i l. same-true (is_free machine.bitmap i) (get_or machine.ref_counts i 0 == 0) (
      all_less-holds 32 (λ j. same (is_free machine.bitmap j) (get_or machine.ref_counts j 0 == 0))
        machine-exact i l);
  free_memory = machine-free;
}

machine-InUse : InUse machine 0
machine-InUse = record { in_memory = omega arith; referenced = omega arith }

alloc_machine :
    page_allocator_alloc machine
    ≡ ok (
      2 * page_size,
      record machine { bitmap = 8 ∷ []; ref_counts = 1 ∷ 255 ∷ 1 ∷ 0 ∷ replicate 28 255; free = 4 },
    )
unfolding page_allocator_alloc lowest_bit clear_bit
alloc_machine = refl

page_allocator_alloc-Taken_example :
    ((i : ℕ) × (b : PageAllocator) × (page_allocator_alloc machine ≡ ok (i * page_size, b))
      × Taken machine i b
      × IsValid b)
    ⊎ ((page_allocator_alloc machine ≡ err Errno.enomem)
        × ((i : ℕ) → i < 32 * 1 → is_free machine.bitmap i ≡ false))
page_allocator_alloc-Taken_example = page_allocator_alloc-Taken machine machine-IsValid

page_allocator_unref_page-after_unref_example :
    (page_allocator_unref_page (0 * page_size) machine ≡ ok (after_unref machine 0))
    × IsValid (after_unref machine 0)
page_allocator_unref_page-after_unref_example =
    page_allocator_unref_page-after_unref machine 0 machine-IsValid machine-InUse
