-- ===== src/RangeAllocator.antt =====
-- kernel/memory/range_allocator.c: first-fit allocation of virtual address space. The list of free
-- ranges lives in the first bytes of the ranges themselves; here it is a list in that order.
-- The paging functions enter by what they return: `none` is 0, `some e` an error.
pub mod Inv
pub mod Alloc
pub mod Free
pub mod RoundTrip
mod Tests
use chaotix.Base.{
  ℕ, zero, suc, ◌+◌, ◌-◌, ◌*◌, ◌/◌, ◌%◌, ◌^◌, ◌≤◌, ◌<◌, min, max, ◌≡◌, refl, sym, ap, ap₂, ◌∙◌, ◌≢◌,
  ◌↔◌, ◌⊎◌, inl, inr, Bool, true, false, not, ◌&&◌, ◌||◌, Option, none, some, List, [], ◌∷◌, ◌++◌,
  map, append-nil, append_assoc, arith, add-one, ltb, leb, ◌==◌, if◌then◌else◌, ltb→lt, leb→le,
  ==_iff, ==_refl, Bool-cases, Option-cases, length, get_or, set, take, drop, replicate,
  length-append, length-set, get_or-set_self, get_or-set_ne, take-nil, drop-nil, length-take,
  length-drop, take_all, take-append-drop, length-replicate, take-min,
}
use chaotix.Base.Outcome.{Errno, Outcome, ok, err, panic, asserting}
use chaotix.Base.Word.{add32, round_up_page}

-- `struct range`, with the address at which it lies.
pub record Range : Type 0 where
  pub addr : ℕ
  pub size : ℕ

-- `range_allocator`. Of the mutex: how often the calling process holds it.
pub record RangeAllocator : Type 0 where
  pub start : ℕ
  pub end : ℕ
  pub ranges : List Range
  pub lock_level : ℕ

-- `(uintptr_t)it + it->size`.
abbrev pub range_end : Range → ℕ
range_end r = add32 r.addr r.size

init : Option Errno → ℕ → ℕ → Outcome RangeAllocator
init mapped start end = asserting (start % 4096 == 0) (
    asserting (end % 4096 == 0) (elim mapped [
      | some e ↦ err e
      | none ↦ ok (record {
        start = start;
        end = end;
        ranges = record { addr = start; size = end - start } ∷ [];
        lock_level = 0;
      })
    ]))

-- What the search of `range_allocator_alloc` comes to.
pub data Fit : Type 0 where
  no_fit : Fit
  unmapped : Errno → Fit
  fits : ℕ → List Range → Fit

-- The range before the one that is taken stays linked in.
abbrev pub keep : Range → Fit → Fit
keep r no_fit = no_fit
keep r (unmapped e) = unmapped e
keep r (fits p rs) = fits p (r ∷ rs)

-- The loop of `range_allocator_alloc` and what follows it. `copied` is the answer of
-- paging_copy_mapping, which moves the header of a range that is split.
take_fit : Option Errno → ℕ → List Range → Fit
take_fit copied size [] = no_fit
take_fit copied size (r ∷ rs) =
    let rest = take_fit copied size rs in
    if ltb r.size size
    then keep r rest
    else if r.size == size
    then fits r.addr rs
    else elim copied [
      | some e ↦ unmapped e
      | none ↦ fits r.addr (record { addr = add32 r.addr size; size = r.size - size } ∷ rs)
    ]

-- The mutex is taken, and given back on every path but one.
abbrev after_fit : RangeAllocator → Fit → Outcome ℕ × RangeAllocator
after_fit a no_fit = (err Errno.enomem, record a { lock_level = a.lock_level + 1 })
after_fit a (unmapped e) = (err e, a)
after_fit a (fits p rs) = (ok p, record a { ranges = rs })

abbrev none_left : List Range → Bool
none_left [] = true
none_left (r ∷ rs) = false

pub alloc : Option Errno → RangeAllocator → ℕ → Outcome ℕ × RangeAllocator
unfolding take_fit
alloc copied a size =
    if none_left a.ranges
    then (panic, a)
    else after_fit a (take_fit copied (round_up_page size) a.ranges)

abbrev below : ℕ → Option Range → Bool
below addr none = true
below addr (some p) = ltb (range_end p) addr

abbrev above : ℕ → List Range → Bool
above block_end [] = true
above block_end (it ∷ rs) = ltb block_end it.addr

abbrev link : Option Range → List Range → List Range
link none rs = rs
link (some p) rs = p ∷ rs

abbrev unless_failed : Option Errno → List Range → Outcome (List Range)
unless_failed none rs = ok rs
unless_failed (some e) rs = err e

abbrev consed : Option Range → Outcome (List Range) → Outcome (List Range)
consed none out = out
consed (some p) (ok rs) = ok (p ∷ rs)
consed (some p) (err e) = err e
consed (some p) panic = panic

-- `range_allocator_free` once the loop has stopped at `prev` and `it`. `mapped` and `copied` are
-- the answers of paging_map_to_free_pages and paging_copy_mapping.
module _ (mapped copied : Option Errno) (addr size : ℕ) where
  -- Neither neighbour touches the block: it becomes a range of its own.
  insert_range : Option Range → List Range → Outcome (List Range)
  insert_range prev its = asserting (below addr prev) (
      asserting (above (add32 addr size) its)
        (unless_failed mapped (link prev (record { addr = addr; size = size } ∷ its))))

  -- The range behind the block is extended downwards, its header moved.
  extend_next : Option Range → List Range → Outcome (List Range)
  unfolding insert_range
  extend_next prev [] = insert_range prev []
  extend_next prev (it ∷ rs) =
      if it.addr == add32 addr size
      then unless_failed copied (link prev (record { addr = addr; size = add32 it.size size } ∷ rs))
      else insert_range prev (it ∷ rs)

  -- The range before the block has been extended; it may now touch the next.
  fill_gap : Range → List Range → List Range
  fill_gap p [] = p ∷ []
  fill_gap p (it ∷ rs) =
      if range_end p == it.addr then record p { size = add32 p.size it.size } ∷ rs else p ∷ it ∷ rs

  give_back : Option Range → List Range → Outcome (List Range)
  unfolding extend_next fill_gap
  give_back none its = extend_next none its
  give_back (some p) its =
      if range_end p == addr
      then ok (fill_gap (record p { size = add32 p.size size }) its)
      else extend_next (some p) its

  -- The loop: `prev` is the last range that ends at or before the block.
  walk : Option Range → List Range → Outcome (List Range)
  unfolding give_back
  walk prev [] = give_back prev []
  walk prev (it ∷ rs) =
      let rest = walk (some it) rs in
      if leb (range_end it) addr then consed prev rest else give_back prev (it ∷ rs)

abbrev after_walk : RangeAllocator → Outcome (List Range) → Outcome (Unit {0}) × RangeAllocator
after_walk a (ok rs) = (ok tt, record a { ranges = rs })
after_walk a (err e) = (err e, a)
after_walk a panic = (panic, a)

pub free :
    Option Errno → Option Errno → RangeAllocator → ℕ → ℕ → Outcome (Unit {0}) × RangeAllocator
unfolding walk
free mapped copied a addr size =
    let n = round_up_page size in
    if not (addr % 4096 == 0) || none_left a.ranges
    then (panic, a)
    else if ltb addr a.start || ltb a.end (add32 addr n)
    then (err Errno.einval, a)
    else after_walk a (walk mapped copied addr n none a.ranges)
