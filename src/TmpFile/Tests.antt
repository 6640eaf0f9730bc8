-- ===== src/TmpFile/Tests.antt =====
-- A new file of tmpfs, written, read and shared (kernel/fs/tmpfs.c).
use chaotix.Base.{ℕ, ◌+◌, ◌≡◌, refl, false, none, some, List, [], ◌∷◌, arith}
use chaotix.Base.Outcome.{ok}
use chaotix.GrowableBuf.{GrowableBuf, Replies, growable_buf_pwrite}
use chaotix.GrowableBuf.Bytes.{IsValid}
use chaotix.TmpFile.Session.{at_rest, write_seek_read, write_seek_read-at_rest}
use chaotix.TmpFile.Seek.{HoldsOn, file_description_lseek-HoldsOn}

abbrev fresh : GrowableBuf
fresh = record { has_addr = false; capacity = 0; size = 0; bytes = [] }

fresh-IsValid : IsValid fresh
fresh-IsValid = record {
  length_bytes = refl;
  size_fits = omega arith;
  no_wrap = omega arith;
  whole_pages = refl;
  zeros = λ i l. refl;
  no_addr = λ e. refl;
}

abbrev granted : Replies
granted = record { allocated = none; copied = none; mapped = none; freed = none }

abbrev greeting : List ℕ
greeting = 104 ∷ 105 ∷ []

granted-ok : (growable_buf_pwrite granted greeting 3 fresh).0 ≡ ok 2
unfolding growable_buf_pwrite
granted-ok = refl

write_seek_read-at_rest_example :
    write_seek_read 7 granted greeting (at_rest 3 3 fresh)
    ≡ some (ok (2, greeting), at_rest 3 (3 + 2) (growable_buf_pwrite granted greeting 3 fresh).1)
write_seek_read-at_rest_example =
    write_seek_read-at_rest 7 granted greeting 3 3 fresh refl refl fresh-IsValid (omega arith)
      granted-ok

file_description_lseek-HoldsOn_example : HoldsOn 7 (ok 0) 4 (at_rest 1 3 fresh)
file_description_lseek-HoldsOn_example =
    file_description_lseek-HoldsOn 7 (ok 0) 4 (at_rest 1 3 fresh) refl refl refl (omega arith)
