-- ===== src/TmpFile/Seek.antt =====
-- What a seek leaves of the description's mutex (kernel/fs/fs.c).
use chaotix.Base.{ℕ, ◌^◌, ◌<◌, ◌≡◌, ap, ◌≢◌, true, false, none, some, arith, leb, ◌==◌, ==_refl}
use chaotix.Base.Outcome.{Outcome, ok}
use chaotix.Base.Word.{add32}
use chaotix.Mutex.{Mutex, mutex_lock, mutex_unlock_if_locked}
use chaotix.GrowableBuf.{Replies}
use chaotix.TmpFile.{
  Description, file_description_read, after_lock, locked, read_step, tmpfs_read, non_dir_fops,
  file_description_lseek, readable,
}
use chaotix.TmpFile.Session.{free_mutex}

-- The mutex as such a seek leaves it: `p` is its holder, and nothing is left to unlock.
abbrev pub still_held : ℕ → Mutex
still_held p = record { holder = some p; level = 0 }

-- The description behind a seek of the process `p` by `by`.
abbrev pub sought : ℕ → ℕ → Description → Description
sought p by d = record d { offset = add32 d.offset by; offset_lock = still_held p }

file_description_lseek-sought :
    (p : ℕ) (stat : Outcome ℕ) (by : ℕ) (d : Description)
    → d.offset_lock ≡ free_mutex
    → add32 d.offset by < 2 ^ 31
    → file_description_lseek p stat by 1 d ≡ some (ok (add32 d.offset by), sought p by d)
unfolding file_description_lseek mutex_lock mutex_unlock_if_locked
file_description_lseek-sought p stat by d f l =
    let t : leb (2 ^ 31) (add32 d.offset by) ≡ false = ground arith in simp (f, ==_refl p, t)

mutex_lock-waits : (p q : ℕ) → p ≢ q → mutex_lock q (still_held p) ≡ none
unfolding mutex_lock
mutex_lock-waits p q d = let t : (p == q) ≡ false = ground arith in simp t

locked-waits :
    {A : Type 0} (q : ℕ) (work : Description → Outcome A × Description) (d : Description)
    → mutex_lock q d.offset_lock ≡ none
    → locked q work d ≡ none
locked-waits q work d e = ap (after_lock q work d) e

read-waits :
    (q : ℕ) (r : Replies) (count : ℕ) (d : Description)
    → mutex_lock q d.offset_lock ≡ none
    → d.is_dir ≡ false
    → readable d.flags ≡ true
    → file_description_read (non_dir_fops q r) count d ≡ none
unfolding file_description_read tmpfs_read
read-waits q r count d w k a = simp (k, a, locked-waits q (read_step count) d w)

-- A seek of the process `p` by `by` with SEEK_CUR succeeds and leaves `p` the holder of the mutex, for
-- which a read of any other process waits.
pub record HoldsOn (p : ℕ) (stat : Outcome ℕ) (by : ℕ) (d : Description) : Type 0 where
  pub reply : file_description_lseek p stat by 1 d ≡ some (ok (add32 d.offset by), sought p by d)
  pub others :
      (q : ℕ) (r : Replies) (count : ℕ)
      → p ≢ q
      → file_description_read (non_dir_fops q r) count (sought p by d) ≡ none

-- A seek with SEEK_CUR, on a description of a regular file of tmpfs that is open for reading and whose
-- mutex is free, to an offset below 2 GiB: it succeeds and stores the offset, and the mutex keeps its
-- holder, so that a read of the description by any other process waits.
pub file_description_lseek-HoldsOn :
    (p : ℕ) (stat : Outcome ℕ) (by : ℕ) (d : Description)
    → d.offset_lock ≡ free_mutex
    → d.is_dir ≡ false
    → readable d.flags ≡ true
    → add32 d.offset by < 2 ^ 31
    → HoldsOn p stat by d
file_description_lseek-HoldsOn p stat by d f k a l = record {
  reply = file_description_lseek-sought p stat by d f l;
  others = λ q r count u. read-waits q r count (sought p by d) (mutex_lock-waits p q u) k a;
}
