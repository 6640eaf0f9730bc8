-- ===== src/TmpFile.antt =====
-- Reading and writing through a file description (kernel/fs/fs.c), with the regular files of
-- kernel/fs/tmpfs.c behind it. `current` is the calling process, and `none` says that it waits for the
-- description's mutex. The mutex of the buffer is held only inside of one step.
pub mod Session
pub mod Seek
mod Tests
use chaotix.Base.{
  ℕ, zero, suc, ◌+◌, ◌-◌, ◌*◌, ◌/◌, ◌%◌, ◌^◌, ◌≤◌, ◌<◌, min, max, ◌≡◌, refl, sym, ap, ap₂, ◌∙◌, ◌≢◌,
  ◌↔◌, ◌⊎◌, inl, inr, Bool, true, false, not, ◌&&◌, ◌||◌, Option, none, some, List, [], ◌∷◌, ◌++◌,
  map, append-nil, append_assoc, arith, add-one, ltb, leb, ◌==◌, if◌then◌else◌, ltb→lt, leb→le,
  ==_iff, ==_refl, Bool-cases, Option-cases, all_less, all_less-holds, same, same-true, length,
  get_or, set, take, drop, replicate, length-append, length-set, get_or-set_self, get_or-set_ne,
  set_twice, set-get_or, take-nil, drop-nil, length-take, length-drop, take_all, take-append-drop,
  length-replicate, take-min,
}
use chaotix.Base.Outcome.{Errno, Outcome, ok, err, panic}
use chaotix.Base.Word.{add32}
use chaotix.Mutex.{Mutex, mutex_lock, mutex_unlock, mutex_unlock_if_locked}
use chaotix.GrowableBuf.{
  GrowableBuf, Replies, growable_buf_pread, growable_buf_pwrite, growable_buf_truncate,
}

-- `flags & O_RDONLY` and `flags & O_WRONLY`.
abbrev pub readable : ℕ → Bool
readable flags = flags % 2 == 1

abbrev pub writable : ℕ → Bool
writable flags = flags / 2 % 2 == 1

-- `file_description`, the mode of its inode and the contents of the file. The offset is a 32-bit word.
pub record Description : Type 0 where
  pub offset_lock : Mutex
  pub flags : ℕ
  pub offset : ℕ
  pub is_dir : Bool
  pub buf : GrowableBuf

abbrev pub Answer : Type 0 → Type 0
Answer A = Option (Outcome A × Description)

-- The operations of an inode on its contents; an inode may lack any.
pub record FileOps : Type 0 where
  pub read : Option (ℕ → Description → Answer (ℕ × List ℕ))
  pub write : Option (List ℕ → Description → Answer ℕ)
  pub truncate : Option (ℕ → Description → Answer ℕ)

-- The checks before an operation, in their order.
abbrev pub checked :
    {A : Type 0} → Errno → Option (Description → Answer A) → Bool → Description → Answer A
checked missing op allowed d = if d.is_dir then some (err Errno.eisdir, d) else elim op [
  | none ↦ some (err missing, d)
  | some f ↦ if allowed then f d else some (err Errno.ebadf, d)
]

abbrev pub with_argument :
    {X A : Type 0} → Option (X → Description → Answer A) → X → Option (Description → Answer A)
with_argument none x = none
with_argument (some f) x = some (f x)

unfoldable pub file_description_read : FileOps → ℕ → Description → Answer (ℕ × List ℕ)
file_description_read ops count d =
    checked Errno.einval (with_argument ops.read count) (readable d.flags) d

unfoldable pub file_description_write : FileOps → List ℕ → Description → Answer ℕ
file_description_write ops src d =
    checked Errno.einval (with_argument ops.write src) (writable d.flags) d

unfoldable pub file_description_truncate : FileOps → ℕ → Description → Answer ℕ
file_description_truncate ops n d =
    checked Errno.erofs (with_argument ops.truncate n) (writable d.flags) d

-- `mutex_unlock` behind the work.
abbrev pub unlock : {A : Type 0} → Outcome Mutex → Outcome A × Description → Outcome A × Description
unlock (ok m) (r, d) = (r, record d { offset_lock = m })
unlock (err e) (r, d) = (err e, d)
unlock panic (r, d) = (panic, d)

-- Behind `mutex_lock(&desc->offset_lock)`, which may wait: the work and `mutex_unlock`.
abbrev pub after_lock :
    {A : Type 0}
    → ℕ
    → (Description → Outcome A × Description)
    → Description
    → Option Mutex
    → Answer A
after_lock current work d none = none
after_lock current work d (some m) =
    let r = work (record d { offset_lock = m }) in
    some (unlock (mutex_unlock current r.1.offset_lock) r)

abbrev pub locked :
    {A : Type 0} → ℕ → (Description → Outcome A × Description) → Description → Answer A
locked current work d = after_lock current work d (mutex_lock current d.offset_lock)

-- `IS_ERR` on a number.
abbrev pub is_err : ℕ → Bool
is_err n = leb (2 ^ 32 - 77) n

abbrev pub advance : ℕ → Description → Description
advance n d = if is_err n then d else record d { offset = add32 d.offset n }

unfoldable pub read_step : ℕ → Description → Outcome (ℕ × List ℕ) × Description
unfolding growable_buf_pread
read_step count d =
    let r : ℕ × List ℕ = growable_buf_pread count d.offset d.buf in (ok r, advance r.0 d)

unfoldable pub tmpfs_read : ℕ → ℕ → Description → Answer (ℕ × List ℕ)
unfolding mutex_lock mutex_unlock read_step
tmpfs_read current count d = locked current (read_step count) d

abbrev pub after_pwrite : Outcome ℕ → Description → Description
after_pwrite (ok n) d = advance n d
after_pwrite (err e) d = d
after_pwrite panic d = d

unfoldable pub write_step : Replies → List ℕ → Description → Outcome ℕ × Description
unfolding growable_buf_pwrite
write_step r src d =
    let w : Outcome ℕ × GrowableBuf = growable_buf_pwrite r src d.offset d.buf in
    (w.0, after_pwrite w.0 (record d { buf = w.1 }))

unfoldable pub tmpfs_write : ℕ → Replies → List ℕ → Description → Answer ℕ
unfolding mutex_lock mutex_unlock write_step
tmpfs_write current r src d = locked current (write_step r src) d

unfoldable pub tmpfs_truncate : Replies → ℕ → Description → Answer ℕ
unfolding growable_buf_truncate
tmpfs_truncate r n d =
    let w : Outcome ℕ × GrowableBuf = growable_buf_truncate r n d.buf in
    some (w.0, record d { buf = w.1 })

-- `non_dir_fops`.
abbrev pub non_dir_fops : ℕ → Replies → FileOps
non_dir_fops current r = record {
  read = some (tmpfs_read current);
  write = some (tmpfs_write current r);
  truncate = some (tmpfs_truncate r);
}

-- The end of `file_description_lseek`: the offset is stored unless it is negative.
abbrev pub finish_lseek : ℕ → ℕ → Description → Outcome ℕ × Description
finish_lseek current n d =
    let m : Mutex = (mutex_unlock_if_locked current d.offset_lock).1 in
    if leb (2 ^ 31) n
    then (err Errno.einval, record d { offset_lock = m })
    else (ok n, record d { offset = n; offset_lock = m })

-- `stat` is the size that inode_stat finds: that of the buffer for a file of tmpfs.
unfoldable pub file_description_lseek : ℕ → Outcome ℕ → ℕ → ℕ → Description → Answer ℕ
unfolding mutex_lock mutex_unlock_if_locked
file_description_lseek current stat offset whence d =
    if whence == 0
    then some (finish_lseek current offset d)
    else if whence == 1
    then (elim (mutex_lock current d.offset_lock) [
      | none ↦ none
      | some m ↦ some (finish_lseek current (add32 d.offset offset) (record d { offset_lock = m }))
    ])
    else if whence == 2
    then (elim stat [
      | ok size ↦ some (finish_lseek current (add32 size offset) d)
      | err e ↦ some (err e, d)
      | panic ↦ some (panic, d)
    ])
    else some (err Errno.einval, d)
