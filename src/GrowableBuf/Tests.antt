-- ===== src/GrowableBuf/Tests.antt =====
-- A buffer of kernel/growable_buf.c with one page, and the theorems at it.
use chaotix.Base.{ℕ, ◌≡◌, refl, false, none, List, [], ◌∷◌, arith}
use chaotix.Base.Outcome.{ok}
use chaotix.GrowableBuf.{
  GrowableBuf, Replies, growable_buf_pread, growable_buf_pwrite, growable_buf_truncate,
}
use chaotix.GrowableBuf.Bytes.{IsValid}
use chaotix.GrowableBuf.Write.{WriteResult, growable_buf_pwrite-WriteResult}
use chaotix.GrowableBuf.Truncate.{TruncateResult, growable_buf_truncate-TruncateResult}
use chaotix.GrowableBuf.RoundTrip.{growable_buf_pread-growable_buf_pwrite}

-- As `tmpfs_create_child` leaves it.
abbrev fresh : GrowableBuf
fresh = record { has_addr = false; capacity = 0; size = 0; bytes = [] }

fresh-IsValid : IsValid fresh
fresh-IsValid = record {
  length_bytes = refl;
  size_fits = omega arith;
  no_wrap = omega arith;
  whole_pages = refl;
  zeros = λ i l. refl;
  no_addr = λ e. refl;
}

abbrev granted : Replies
granted = record { allocated = none; copied = none; mapped = none; freed = none }

abbrev greeting : List ℕ
greeting = 104 ∷ 105 ∷ []

growable_buf_pwrite-WriteResult_example :
    WriteResult granted greeting 3 fresh
      (growable_buf_pwrite granted greeting 3 fresh).0
      (growable_buf_pwrite granted greeting 3 fresh).1
growable_buf_pwrite-WriteResult_example =
    growable_buf_pwrite-WriteResult granted greeting 3 fresh fresh-IsValid (omega arith)

growable_buf_truncate-TruncateResult_example :
    TruncateResult granted 5000 fresh
      (growable_buf_truncate granted 5000 fresh).0
      (growable_buf_truncate granted 5000 fresh).1
growable_buf_truncate-TruncateResult_example =
    growable_buf_truncate-TruncateResult granted 5000 fresh fresh-IsValid (omega arith)

granted-ok : (growable_buf_pwrite granted greeting 3 fresh).0 ≡ ok 2
unfolding growable_buf_pwrite
granted-ok = refl

growable_buf_pread-growable_buf_pwrite_example :
    growable_buf_pread 2 3 (growable_buf_pwrite granted greeting 3 fresh).1 ≡ (2, greeting)
growable_buf_pread-growable_buf_pwrite_example =
    growable_buf_pread-growable_buf_pwrite granted greeting 3 fresh fresh-IsValid (omega arith)
      granted-ok
