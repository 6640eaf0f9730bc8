-- ===== src/GrowableBuf.antt =====
-- kernel/growable_buf.c: a buffer of whole pages that grows, the contents of a tmpfs file.
-- `bytes` is the memory at `addr`, or nothing where no page is mapped there. The answers of the range
-- allocator and of the paging functions are arguments, `none` where there is no error.
pub mod Bytes
pub mod Write
pub mod Truncate
pub mod RoundTrip
mod Tests
use chaotix.Base.{
  ℕ, zero, suc, ◌+◌, ◌-◌, ◌*◌, ◌/◌, ◌%◌, ◌^◌, ◌≤◌, ◌<◌, min, max, ◌≡◌, refl, sym, ap, ap₂, ◌∙◌, ◌≢◌,
  ◌↔◌, ◌⊎◌, inl, inr, Bool, true, false, not, ◌&&◌, ◌||◌, Option, none, some, List, [], ◌∷◌, ◌++◌,
  map, append-nil, append_assoc, arith, add-one, ltb, leb, ◌==◌, if◌then◌else◌, ltb→lt, leb→le,
  ==_iff, ==_refl, Bool-cases, Option-cases, all_less, all_less-holds, same, same-true, length,
  get_or, set, take, drop, replicate, length-append, length-set, get_or-set_self, get_or-set_ne,
  set_twice, set-get_or, take-nil, drop-nil, length-take, length-drop, take_all, take-append-drop,
  length-replicate, take-min,
}
use chaotix.Base.Outcome.{Errno, Outcome, ok, err, panic, asserting}
use chaotix.Base.Word.{add32, round_up_page}

pub record GrowableBuf : Type 0 where
  pub has_addr : Bool
  pub capacity : ℕ
  pub size : ℕ
  pub bytes : List ℕ

pub record Replies : Type 0 where
  pub allocated : Option Errno
  pub copied : Option Errno
  pub mapped : Option Errno
  pub freed : Option Errno

-- `memcpy` to an offset; what would fall behind the memory is lost.
unfoldable pub overwrite : List ℕ → ℕ → List ℕ → List ℕ
overwrite [] off src = []
overwrite (m ∷ mem) (suc off) src = m ∷ overwrite mem off src
overwrite (m ∷ mem) zero [] = m ∷ mem
overwrite (m ∷ mem) zero (d ∷ src) = d ∷ overwrite mem zero src

-- The bytes and their number.
unfoldable pub growable_buf_pread : ℕ → ℕ → GrowableBuf → ℕ × List ℕ
growable_buf_pread count offset b =
    if leb b.size offset
    then (0, [])
    else (let n : ℕ = if leb b.size (add32 offset count) then b.size - offset else count in
        (n, take n (drop offset b.bytes)))

abbrev pub new_capacity_of : ℕ → ℕ → ℕ
new_capacity_of capacity requested =
    let c = round_up_page (max (capacity * 2 % 2 ^ 32) requested) in if c == 0 then 4096 else c

-- The buffer after a growth, with zeros behind what it held.
abbrev pub moved_to : ℕ → GrowableBuf → GrowableBuf
moved_to capacity b = record {
  has_addr = true;
  capacity = capacity;
  size = b.size;
  bytes = take b.size b.bytes ++ replicate (capacity - b.size) 0;
}

-- Where the old range cannot be freed, its pages are unmapped already.
abbrev pub after_map : Option Errno → ℕ → GrowableBuf → Outcome ℕ × GrowableBuf
after_map (some e) capacity b = (err e, record b { bytes = [] })
after_map none capacity b = (ok 0, moved_to capacity b)

abbrev pub asked : Bool → Option Errno → Option Errno
asked true reply = reply
asked false reply = none

-- `if (IS_ERR(rc)) return rc;`.
abbrev pub unless_error :
    Option Errno → GrowableBuf → Outcome ℕ × GrowableBuf → Outcome ℕ × GrowableBuf
unless_error none b rest = rest
unless_error (some e) b rest = (err e, b)

unfoldable pub grow_buf : Replies → ℕ → GrowableBuf → Outcome ℕ × GrowableBuf
grow_buf r requested b = unless_error r.allocated b (
    if not b.has_addr && not (b.capacity == 0)
    then (panic, b)
    else unless_error (asked b.has_addr r.copied) b (
        unless_error r.mapped b
          (after_map (asked b.has_addr r.freed) (new_capacity_of b.capacity requested) b)))

-- `memcpy` and the new size.
abbrev pub put : List ℕ → ℕ → GrowableBuf → GrowableBuf
put src offset b = record b {
  size = max b.size (add32 offset (length src));
  bytes = overwrite b.bytes offset src;
}

-- What follows a call of `grow_buf`.
abbrev pub after_growth :
    ℕ → (GrowableBuf → GrowableBuf) → Outcome ℕ × GrowableBuf → Outcome ℕ × GrowableBuf
after_growth a f (ok _, b) = (ok a, f b)
after_growth a f (err e, b) = (err e, b)
after_growth a f (panic, b) = (panic, b)

unfoldable pub growable_buf_pwrite : Replies → List ℕ → ℕ → GrowableBuf → Outcome ℕ × GrowableBuf
unfolding grow_buf overwrite
growable_buf_pwrite r src offset b =
    let end : ℕ = add32 offset (length src) in
    if ltb b.capacity end
    then after_growth (length src) (put src offset) (grow_buf r end b)
    else (ok (length src), put src offset b)

unfoldable pub growable_buf_append : Replies → List ℕ → GrowableBuf → Outcome ℕ × GrowableBuf
unfolding growable_buf_pwrite
growable_buf_append r src b = growable_buf_pwrite r src b.size b

abbrev pub resize : ℕ → GrowableBuf → GrowableBuf
resize n b = record b { size = n }

-- `memset` with 0.
abbrev pub zero_out : ℕ → ℕ → GrowableBuf → GrowableBuf
zero_out offset n b = record b { bytes = overwrite b.bytes offset (replicate n 0) }

unfoldable pub growable_buf_truncate : Replies → ℕ → GrowableBuf → Outcome ℕ × GrowableBuf
unfolding grow_buf overwrite
growable_buf_truncate r n b =
    if leb n b.size
    then (ok 0, resize n (zero_out n (b.size - n) b))
    else if leb n b.capacity
    then (ok 0, resize n (zero_out b.size (n - b.size) b))
    else after_growth 0 (resize n) (grow_buf r n b)

-- `shared` is the flag PAGE_SHARED; `copied` is the answer of paging_copy_mapping.
unfoldable pub growable_buf_mmap : Option Errno → ℕ → ℕ → ℕ → Bool → GrowableBuf → Outcome ℕ
growable_buf_mmap copied addr n offset shared b =
    if not (offset == 0) || not shared
    then err Errno.enotsup
    else if ltb b.size n
    then err Errno.einval
    else elim copied [ some e ↦ err e | none ↦ ok addr ]
