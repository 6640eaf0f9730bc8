-- ===== src/PageAllocator/Unref.antt =====
-- References to pages, taken and given back.
use chaotix.Base.{
  ℕ, suc, ◌+◌, ◌-◌, ◌*◌, ◌/◌, ◌%◌, ◌<◌, ◌≡◌, sym, ap, ◌∙◌, inl, inr, true, false, arith, ltb, leb,
  ◌==◌, if◌then◌else◌, ==_iff, Bool-cases, get_or, set, length-set,
}
use chaotix.Base.Outcome.{ok}
use chaotix.Base.Bits.{set_bit}
use chaotix.PageAllocator.{
  PageAllocator, is_free, bitmap_set, page_allocator_unref_page, drop_reference, page_size,
  uint8_max,
}
use chaotix.PageAllocator.Count.{count_bits-set_bit, count_pages-set, is_free-set_bit}
use chaotix.PageAllocator.Inv.{IsValid}
use chaotix.PageAllocator.Alloc.{references-set}

-- The allocator with the count of page `i` changed.
abbrev pub with_count : PageAllocator → ℕ → ℕ → PageAllocator
with_count a i c = record a { ref_counts = set a.ref_counts i c }

-- And with the page given back.
abbrev pub with_page : PageAllocator → ℕ → PageAllocator
with_page a i = record a {
  bitmap = set a.bitmap (i / 32) (set_bit (get_or a.bitmap (i / 32) 0) (i % 32));
  ref_counts = set a.ref_counts i 0;
  free = a.free + 4;
}

-- The allocator's page is in use.
pub record InUse (a : PageAllocator) (i : ℕ) : Type 0 where
  pub in_memory : i < 32 * a.bitmap_len
  pub referenced : 0 < get_or a.ref_counts i 0

InUse-taken : (a : PageAllocator) (i : ℕ) → IsValid a → InUse a i → is_free a.bitmap i ≡ false
InUse-taken a i v u = v.exact i u.in_memory ∙ ground (arith, u.referenced)

pub with_count-IsValid :
    (a : PageAllocator) (i c : ℕ) → IsValid a → InUse a i → IsValid (with_count a i (suc c))
with_count-IsValid a i c v u = record {
  words = v.words;
  counts = omega (arith, v.counts, length-set a.ref_counts i (suc c));
  exact = λ j m.
      exact j m
      ∙ sym (
          ap (λ n. n == 0)
            (references-set a.ref_counts i j (suc c) (omega (arith, v.counts, u.in_memory))));
  free_memory = v.free_memory;
}
  where
    exact :
        (j : ℕ)
        → j < 32 * a.bitmap_len
        → is_free a.bitmap j ≡ ((if i == j then suc c else get_or a.ref_counts j 0) == 0)
    exact j m = elim (Bool-cases (i == j)) [
      | inl e ↦
          let n : (suc c == 0) ≡ false = ground arith in
          simp (e, n) (ap (is_free a.bitmap) (sym ((==_iff i j).0 e)) ∙ InUse-taken a i v u)
      | inr e ↦ simp e (v.exact j m)
    ]

with_page-IsValid : (a : PageAllocator) (i : ℕ) → IsValid a → InUse a i → IsValid (with_page a i)
with_page-IsValid a i v u =
    let b =
      count_bits-set_bit 32 (get_or a.bitmap (i / 32) 0) (i % 32) (omega arith)
        (InUse-taken a i v u) in
    let s =
      count_pages-set a.bitmap_len a.bitmap (i / 32) (set_bit (get_or a.bitmap (i / 32) 0) (i % 32))
        (omega (arith, u.in_memory)) (omega (arith, v.words, u.in_memory)) in
    record {
      words = omega (
        arith,
        v.words,
        length-set a.bitmap (i / 32) (set_bit (get_or a.bitmap (i / 32) 0) (i % 32)),
      );
      counts = omega (arith, v.counts, length-set a.ref_counts i 0);
      exact = λ j m.
          is_free-set_bit a.bitmap i j (omega (arith, v.words, u.in_memory))
          ∙ exact j m
          ∙ sym (
              ap (λ c. c == 0)
                (references-set a.ref_counts i j 0 (omega (arith, v.counts, u.in_memory))));
      free_memory = omega (arith, b, s, v.free_memory);
    }
  where
    exact :
        (j : ℕ)
        → j < 32 * a.bitmap_len
        → (if i == j then true else is_free a.bitmap j)
          ≡ ((if i == j then 0 else get_or a.ref_counts j 0) == 0)
    exact j m = elim (Bool-cases (i == j)) [ inl e ↦ simp e | inr e ↦ simp e (v.exact j m) ]

page-address :
    (i : ℕ) → ((i * page_size) / page_size ≡ i) × ((i * page_size % page_size == 0) ≡ true)
page-address i = (omega arith, ground arith)

-- What giving back a reference does, by the number there was.
abbrev pub after_unref : PageAllocator → ℕ → PageAllocator
after_unref a i =
    let count = get_or a.ref_counts i 0 in
    if leb uint8_max count
    then a
    else if count == 1
    then with_page a i
    else with_count a i (count - 1)

-- Giving back a reference to a page in use, in a valid allocator, never panics. A count of 255 stays;
-- with the last reference the page is free, and its 4 KiB too; otherwise the count is one less and
-- nothing else changes. The allocator stays valid.
pub page_allocator_unref_page-after_unref :
    (a : PageAllocator) (i : ℕ)
    → IsValid a
    → InUse a i
    → (page_allocator_unref_page (i * page_size) a ≡ ok (after_unref a i))
      × IsValid (after_unref a i)
unfolding page_allocator_unref_page drop_reference bitmap_set
page_allocator_unref_page-after_unref a i v u =
    let p = page-address i in
    let idx = p.0 in
    let zero_mod = p.1 in
    let used : ltb 0 (get_or a.ref_counts i 0) ≡ true = ground (arith, u.referenced) in
    let word : ltb (i / 32) a.bitmap_len ≡ true = ground (arith, u.in_memory) in
    elim (Bool-cases (leb uint8_max (get_or a.ref_counts i 0))) [
      | inl big ↦
          let small : ltb (get_or a.ref_counts i 0) uint8_max ≡ false = ground arith in
          (simp (page_allocator_unref_page, zero_mod, idx, used, small, big), simp big v)
      | inr n ↦
          let small : ltb (get_or a.ref_counts i 0) uint8_max ≡ true = ground arith in
          elim (Bool-cases (get_or a.ref_counts i 0 == 1)) [
            | inl one ↦
                let left : get_or a.ref_counts i 0 - 1 ≡ 0 = ground arith in
                (
                  simp (
                    page_allocator_unref_page, zero_mod, idx, used, small, n, one, drop_reference,
                    left, bitmap_set, word,
                  ),
                  simp (n, one) (with_page-IsValid a i v u),
                )
            | inr more ↦
                let left : (get_or a.ref_counts i 0 - 1 == 0) ≡ false =
                  ground (arith, u.referenced) in
                let c : get_or a.ref_counts i 0 - 1 ≡ suc (get_or a.ref_counts i 0 - 2) =
                  ground (arith, u.referenced) in
                (
                  simp (
                    page_allocator_unref_page, zero_mod, idx, used, small, n, more, drop_reference,
                    left,
                  ),
                  simp (n, more) (rw c (with_count-IsValid a i (get_or a.ref_counts i 0 - 2) v u)),
                )
          ]
    ]
