-- ===== src/PageAllocator/Inv.antt =====
-- The invariant of the page allocator.
use chaotix.Base.{ℕ, ◌*◌, ◌≤◌, ◌<◌, ◌≡◌, ◌==◌, length, get_or, take}
use chaotix.PageAllocator.{PageAllocator, is_free}
use chaotix.PageAllocator.Count.{count_pages}

-- The arrays hold the pages; a page is free just if nothing refers to it; and the free memory is 4 KiB
-- for each free page.
pub record IsValid (a : PageAllocator) : Type 0 where
  pub words : a.bitmap_len ≤ length a.bitmap
  pub counts : 32 * a.bitmap_len ≤ length a.ref_counts
  pub exact : (i : ℕ) → i < 32 * a.bitmap_len → is_free a.bitmap i ≡ (get_or a.ref_counts i 0 == 0)
  pub free_memory : a.free ≡ 4 * count_pages (take a.bitmap_len a.bitmap)
