-- ===== src/PageAllocator.antt =====
-- kernel/memory/page_allocator.c: which physical pages are free, and how many references the others
-- have. The mutex makes each operation one step; what it holds is modelled here.
mod Count
mod Find
pub mod Inv
pub mod Alloc
pub mod Unref
pub mod RoundTrip
mod Tests
use chaotix.Base.{
  ℕ, zero, suc, ◌+◌, ◌-◌, ◌*◌, ◌/◌, ◌%◌, ◌^◌, ◌≤◌, ◌<◌, min, max, ◌≡◌, refl, sym, ap, ap₂, ◌∙◌, ◌≢◌,
  ◌↔◌, ◌⊎◌, inl, inr, Bool, true, false, not, ◌&&◌, ◌||◌, Option, none, some, List, [], ◌∷◌, ◌++◌,
  map, append-nil, append_assoc, arith, add-one, ltb, leb, ◌==◌, if◌then◌else◌, ltb→lt, leb→le,
  ==_iff, ==_refl, Bool-cases, Option-cases, length, get_or, set, take, drop, replicate,
  length-append, length-set, get_or-set_self, get_or-set_ne, set_twice, set-get_or, take-nil,
  drop-nil, length-take, length-drop, take_all, take-append-drop, length-replicate, take-min,
}
use chaotix.Base.Outcome.{Errno, Outcome, ok, err, panic, asserting}
use chaotix.Base.Bits.{test_bit, set_bit, clear_bit, lowest_bit}

-- `bitmap_len`, `bitmap` (32-bit words, a bit set for a free page), `ref_counts` and
-- `memory_info.free` (in KiB).
pub record PageAllocator : Type 0 where
  pub bitmap_len : ℕ
  pub bitmap : List ℕ
  pub ref_counts : List ℕ
  pub free : ℕ

abbrev pub page_size : ℕ
page_size = 4096

abbrev pub uint8_max : ℕ
uint8_max = 255

-- Word `i / 32`, bit `i % 32`.
abbrev pub is_free : List ℕ → ℕ → Bool
is_free bitmap i = test_bit (get_or bitmap (i / 32) 0) (i % 32)

unfoldable pub bitmap_get : PageAllocator → ℕ → Outcome Bool
bitmap_get a i = asserting (ltb (i / 32) a.bitmap_len) (ok (is_free a.bitmap i))

unfoldable pub bitmap_set : PageAllocator → ℕ → Outcome PageAllocator
bitmap_set a i = asserting (ltb (i / 32) a.bitmap_len) (
    ok
      (record a { bitmap = set a.bitmap (i / 32) (set_bit (get_or a.bitmap (i / 32) 0) (i % 32)) }))

unfoldable pub bitmap_clear : PageAllocator → ℕ → Outcome PageAllocator
bitmap_clear a i = asserting (ltb (i / 32) a.bitmap_len) (
    ok (record a {
      bitmap = set a.bitmap (i / 32) (clear_bit (get_or a.bitmap (i / 32) 0) (i % 32));
    }))

-- The loop over the words, from word `i` on: `(i << 5) | (b - 1)`.
unfoldable pub find_first_set : ℕ → List ℕ → Option ℕ
find_first_set i [] = none
find_first_set i (w ∷ ws) =
    let rest = find_first_set (suc i) ws in
    elim (lowest_bit 32 w) [ none ↦ rest | some b ↦ some (i * 32 + b) ]

unfoldable pub bitmap_find_first_set : PageAllocator → Option ℕ
unfolding find_first_set
bitmap_find_first_set a = find_first_set 0 (take a.bitmap_len a.bitmap)

-- What `page_allocator_alloc` does with the page that it has found.
unfoldable pub take_page : PageAllocator → ℕ → Outcome (ℕ × PageAllocator)
unfolding bitmap_clear
take_page a i = elim (bitmap_clear a i) [
  | ok b ↦ asserting (get_or b.ref_counts i 0 == 0) (
      ok (
        i * page_size,
        record b { ref_counts = set b.ref_counts i 1; free = b.free - page_size / 1024 },
      ))
  | err e ↦ err e
  | panic ↦ panic
]

unfoldable pub page_allocator_alloc : PageAllocator → Outcome (ℕ × PageAllocator)
unfolding bitmap_find_first_set take_page
page_allocator_alloc a = elim (bitmap_find_first_set a) [
  | none ↦ err Errno.enomem
  | some i ↦ take_page a i
]

unfoldable pub page_allocator_ref_page : ℕ → PageAllocator → Outcome PageAllocator
page_allocator_ref_page physical_addr a =
    let idx = physical_addr / page_size in
    let count = get_or a.ref_counts idx 0 in
    asserting (physical_addr % page_size == 0) (
      ok (
        if ltb count uint8_max
        then record a { ref_counts = set a.ref_counts idx (count + 1) }
        else a))

-- The count falls, and with the last reference the page is free again.
unfoldable pub drop_reference : ℕ → PageAllocator → Outcome PageAllocator
unfolding bitmap_set
drop_reference idx a =
    let count = get_or a.ref_counts idx 0 - 1 in
    let b : PageAllocator = record a { ref_counts = set a.ref_counts idx count } in
    if count == 0
    then elim (bitmap_set b idx) [
      | ok c ↦ ok (record c { free = c.free + page_size / 1024 })
      | err e ↦ err e
      | panic ↦ panic
    ]
    else ok b

-- A count of 255 may have been saturated, and stays.
unfoldable pub page_allocator_unref_page : ℕ → PageAllocator → Outcome PageAllocator
unfolding drop_reference
page_allocator_unref_page physical_addr a =
    let idx = physical_addr / page_size in
    let count = get_or a.ref_counts idx 0 in
    asserting (physical_addr % page_size == 0)
      (asserting (ltb 0 count) (if ltb count uint8_max then drop_reference idx a else ok a))
