-- ===== src/PageAllocator/Alloc.antt =====
-- Allocating a page.
use chaotix.Base.{
  ℕ, ◌+◌, ◌-◌, ◌*◌, ◌/◌, ◌%◌, ◌<◌, ◌≡◌, sym, ap, ◌∙◌, ◌⊎◌, inl, inr, true, false, some, List, arith,
  ltb, ◌==◌, if◌then◌else◌, ==_iff, Bool-cases, length, get_or, set, take, length-set,
  get_or-set_self, get_or-set_ne, length-take,
}
use chaotix.Base.Outcome.{Errno, ok, err}
use chaotix.Base.Bits.{clear_bit}
use chaotix.PageAllocator.{
  find_first_set, PageAllocator, is_free, bitmap_clear, bitmap_find_first_set, take_page,
  page_allocator_alloc, page_size,
}
use chaotix.PageAllocator.Count.{
  count_pages, count_bits-clear_bit, count_pages-set, is_free-clear_bit,
}
use chaotix.PageAllocator.Find.{find_first_set-First, is_free-take}
use chaotix.PageAllocator.Inv.{IsValid}

-- The allocator without page `i`, which has one reference.
abbrev pub without_page : PageAllocator → ℕ → PageAllocator
without_page a i = record a {
  bitmap = set a.bitmap (i / 32) (clear_bit (get_or a.bitmap (i / 32) 0) (i % 32));
  ref_counts = set a.ref_counts i 1;
  free = a.free - 4;
}

-- Page `i` was the lowest free one, and now it alone is taken.
pub record Taken (a : PageAllocator) (i : ℕ) (b : PageAllocator) : Type 0 where
  pub in_memory : i < 32 * a.bitmap_len
  pub was_free : is_free a.bitmap i ≡ true
  pub lowest : (j : ℕ) → j < i → is_free a.bitmap j ≡ false
  pub pages : (j : ℕ) → is_free b.bitmap j ≡ (if i == j then false else is_free a.bitmap j)
  pub references :
      (j : ℕ) → get_or b.ref_counts j 0 ≡ (if i == j then 1 else get_or a.ref_counts j 0)
  pub free_memory : b.free + 4 ≡ a.free

take_page-without_page :
    (a : PageAllocator) (i : ℕ)
    → IsValid a
    → i < 32 * a.bitmap_len
    → is_free a.bitmap i ≡ true
    → take_page a i ≡ ok (i * page_size, without_page a i)
unfolding take_page bitmap_clear
take_page-without_page a i v l f =
    let t : ltb (i / 32) a.bitmap_len ≡ true = ground arith in
    let z : (get_or a.ref_counts i 0 == 0) ≡ true = sym (v.exact i l) ∙ f in
    simp (take_page, bitmap_clear, t, z)

pub free_left :
    (a : PageAllocator) (i : ℕ)
    → IsValid a
    → i < 32 * a.bitmap_len
    → is_free a.bitmap i ≡ true
    → (count_pages (take a.bitmap_len (without_page a i).bitmap) + 1
        ≡ count_pages (take a.bitmap_len a.bitmap))
free_left a i v l f =
    let b = count_bits-clear_bit 32 (get_or a.bitmap (i / 32) 0) (i % 32) (omega arith) f in
    let s =
      count_pages-set a.bitmap_len a.bitmap (i / 32)
        (clear_bit (get_or a.bitmap (i / 32) 0) (i % 32)) (omega arith) (omega (arith, v.words)) in
    omega (arith, b, s)

pub references-set :
    (counts : List ℕ) (i j c : ℕ)
    → i < length counts
    → get_or (set counts i c) j 0 ≡ (if i == j then c else get_or counts j 0)
references-set counts i j c l = elim (Bool-cases (i == j)) [
  | inl e ↦ simp e (
      ap (λ n. get_or (set counts i c) n 0) (sym ((==_iff i j).0 e))
      ∙ get_or-set_self counts i c 0 l)
  | inr e ↦ simp e (get_or-set_ne counts i j c 0 (ground arith))
]

without_page-Taken :
    (a : PageAllocator) (i : ℕ)
    → IsValid a
    → i < 32 * a.bitmap_len
    → is_free a.bitmap i ≡ true
    → ((j : ℕ) → j < i → is_free a.bitmap j ≡ false)
    → Taken a i (without_page a i)
without_page-Taken a i v l f lowest = record {
  in_memory = l;
  was_free = f;
  lowest = lowest;
  pages = λ j. is_free-clear_bit a.bitmap i j (omega (arith, v.words));
  references = λ j. references-set a.ref_counts i j 1 (omega (arith, v.counts));
  free_memory = omega (arith, free_left a i v l f, v.free_memory);
}

pub without_page-IsValid :
    (a : PageAllocator) (i : ℕ)
    → IsValid a
    → i < 32 * a.bitmap_len
    → is_free a.bitmap i ≡ true
    → IsValid (without_page a i)
without_page-IsValid a i v l f = record {
  words = omega (
    arith,
    v.words,
    length-set a.bitmap (i / 32) (clear_bit (get_or a.bitmap (i / 32) 0) (i % 32)),
  );
  counts = omega (arith, v.counts, length-set a.ref_counts i 1);
  exact = λ j m.
      is_free-clear_bit a.bitmap i j (omega (arith, v.words))
      ∙ exact j m
      ∙ sym (ap (λ c. c == 0) (references-set a.ref_counts i j 1 (omega (arith, v.counts))));
  free_memory = omega (arith, free_left a i v l f, v.free_memory);
}
  where
    exact :
        (j : ℕ)
        → j < 32 * a.bitmap_len
        → (if i == j then false else is_free a.bitmap j)
          ≡ ((if i == j then 1 else get_or a.ref_counts j 0) == 0)
    exact j m = elim (Bool-cases (i == j)) [ inl e ↦ simp e | inr e ↦ simp e (v.exact j m) ]

pub page_allocator_alloc-without_page :
    (a : PageAllocator)
    → IsValid a
    → ((i : ℕ) × (page_allocator_alloc a ≡ ok (i * page_size, without_page a i))
        × (i < 32 * a.bitmap_len)
        × (is_free a.bitmap i ≡ true)
        × ((j : ℕ) → j < i → is_free a.bitmap j ≡ false))
      ⊎ ((page_allocator_alloc a ≡ err Errno.enomem)
          × ((i : ℕ) → i < 32 * a.bitmap_len → is_free a.bitmap i ≡ false))
unfolding page_allocator_alloc bitmap_find_first_set
page_allocator_alloc-without_page a v =
    let len : length (take a.bitmap_len a.bitmap) ≡ a.bitmap_len =
      length-take a.bitmap_len a.bitmap ∙ omega (arith, v.words) in
    elim (find_first_set-First 0 (take a.bitmap_len a.bitmap)) [
      | inl (i, e, first) ↦
          let found : find_first_set 0 (take a.bitmap_len a.bitmap) ≡ some i =
            e ∙ ap some (omega arith) in
          let l : i < 32 * a.bitmap_len = omega (arith, first.in_words, len) in
          let f : is_free a.bitmap i ≡ true =
            sym (is_free-take a.bitmap_len a.bitmap i l) ∙ first.free_page in
          inl (
            i,
            simp (page_allocator_alloc, bitmap_find_first_set, found)
                (take_page-without_page a i v l f),
            l,
            f,
            λ j m. sym (is_free-take a.bitmap_len a.bitmap j (omega arith)) ∙ first.lowest j m,
          )
      | inr (e, none_free) ↦ inr (
        simp (page_allocator_alloc, bitmap_find_first_set, e),
        λ i l. sym (is_free-take a.bitmap_len a.bitmap i l) ∙ none_free i (omega (arith, len)),
      )
    ]

-- With a valid allocator, page_allocator_alloc gives the address of the lowest free page, which alone
-- is then taken and has one reference, and the allocator stays valid; or no page is free and it fails
-- with ENOMEM. It does not panic.
pub page_allocator_alloc-Taken :
    (a : PageAllocator)
    → IsValid a
    → ((i : ℕ) × (b : PageAllocator) × (page_allocator_alloc a ≡ ok (i * page_size, b))
        × Taken a i b
        × IsValid b)
      ⊎ ((page_allocator_alloc a ≡ err Errno.enomem)
          × ((i : ℕ) → i < 32 * a.bitmap_len → is_free a.bitmap i ≡ false))
page_allocator_alloc-Taken a v = elim (page_allocator_alloc-without_page a v) [
  | inl (i, e, l, f, lowest) ↦
      inl (
        i,
        without_page a i,
        e,
        without_page-Taken a i v l f lowest,
        without_page-IsValid a i v l f,
      )
  | inr none_free ↦ inr none_free
]
