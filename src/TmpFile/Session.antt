-- ===== src/TmpFile/Session.antt =====
-- What is written to a file of tmpfs through its description is read back after a seek.
use chaotix.Base.{
  ℕ, ◌+◌, ◌^◌, ◌<◌, ◌≡◌, ap, ◌∙◌, true, false, none, some, List, arith, leb, ==_refl, length,
}
use chaotix.Base.Outcome.{Outcome, ok}
use chaotix.Base.Word.{add32, page_size}
use chaotix.Mutex.{Mutex, mutex_lock, mutex_unlock, mutex_unlock_if_locked}
use chaotix.GrowableBuf.{GrowableBuf, Replies, growable_buf_pread, growable_buf_pwrite}
use chaotix.GrowableBuf.Bytes.{IsValid}
use chaotix.GrowableBuf.RoundTrip.{growable_buf_pread-growable_buf_pwrite}
use chaotix.TmpFile.{
  Description, Answer, file_description_read, file_description_write, locked, is_err, read_step,
  tmpfs_read, write_step, tmpfs_write, non_dir_fops, file_description_lseek, readable, writable,
}

abbrev pub free_mutex : Mutex
free_mutex = record { holder = none; level = 0 }

-- A description of a regular file whose mutex nobody holds.
abbrev pub at_rest : ℕ → ℕ → GrowableBuf → Description
at_rest flags offset b = record {
  offset_lock = free_mutex;
  flags = flags;
  offset = offset;
  is_dir = false;
  buf = b;
}

write_step-ok :
    (r : Replies) (src : List ℕ) (n : ℕ) (d : Description)
    → (growable_buf_pwrite r src d.offset d.buf).0 ≡ ok n
    → is_err n ≡ false
    → write_step r src d ≡ (
      ok n,
      record d { offset = add32 d.offset n; buf = (growable_buf_pwrite r src d.offset d.buf).1 },
    )
unfolding write_step
write_step-ok r src n d h e = simp (h, e)

read_step-ok :
    (count n : ℕ) (xs : List ℕ) (d : Description)
    → growable_buf_pread count d.offset d.buf ≡ (n, xs)
    → is_err n ≡ false
    → read_step count d ≡ (ok (n, xs), record d { offset = add32 d.offset n })
unfolding read_step
read_step-ok count n xs d h e = simp (h, e)

-- The mutex is taken and given back.
locked-at_rest :
    {A : Type 0} (p : ℕ) (work : Description → Outcome A × Description) (a : Outcome A)
    (flags offset offset' : ℕ) (b b' : GrowableBuf)
    → ((m : Mutex)
        → work (record (at_rest flags offset b) { offset_lock = m })
          ≡ (a, record (at_rest flags offset' b') { offset_lock = m }))
    → locked p work (at_rest flags offset b) ≡ some (a, at_rest flags offset' b')
unfolding mutex_lock mutex_unlock
locked-at_rest p work a flags offset offset' b b' h =
    let k = h (record { holder = some p; level = 1 }) in simp (k, ==_refl p)

file_description_write-at_rest :
    (p : ℕ) (r : Replies) (src : List ℕ) (flags offset n : ℕ) (b : GrowableBuf)
    → writable flags ≡ true
    → (growable_buf_pwrite r src offset b).0 ≡ ok n
    → is_err n ≡ false
    → file_description_write (non_dir_fops p r) src (at_rest flags offset b)
      ≡ some (ok n, at_rest flags (add32 offset n) (growable_buf_pwrite r src offset b).1)
unfolding file_description_write tmpfs_write
file_description_write-at_rest p r src flags offset n b w h e = simp w (
    locked-at_rest p (write_step r src) (ok n) flags offset (add32 offset n) b
      (growable_buf_pwrite r src offset b).1
      (λ m. write_step-ok r src n (record (at_rest flags offset b) { offset_lock = m }) h e))

file_description_read-at_rest :
    (p : ℕ) (r : Replies) (count flags offset n : ℕ) (xs : List ℕ) (b : GrowableBuf)
    → readable flags ≡ true
    → growable_buf_pread count offset b ≡ (n, xs)
    → is_err n ≡ false
    → file_description_read (non_dir_fops p r) count (at_rest flags offset b)
      ≡ some (ok (n, xs), at_rest flags (add32 offset n) b)
unfolding file_description_read tmpfs_read
file_description_read-at_rest p r count flags offset n xs b w h e = simp w (
    locked-at_rest p (read_step count) (ok (n, xs)) flags offset (add32 offset n) b b
      (λ m. read_step-ok count n xs (record (at_rest flags offset b) { offset_lock = m }) h e))

file_description_lseek-at_rest :
    (p : ℕ) (stat : Outcome ℕ) (flags offset now : ℕ) (b : GrowableBuf)
    → offset < 2 ^ 31
    → file_description_lseek p stat offset 0 (at_rest flags now b)
      ≡ some (ok offset, at_rest flags offset b)
unfolding file_description_lseek mutex_unlock_if_locked
file_description_lseek-at_rest p stat flags offset now b l =
    let t : leb (2 ^ 31) offset ≡ false = ground arith in simp t

-- The next call, on the description that the last one left.
abbrev pub after_call : {A B : Type 0} → Answer A → (Description → Answer B) → Answer B
after_call none k = none
after_call (some (r, d)) k = k d

-- Write, seek back to where the write began, and read.
abbrev pub write_seek_read : ℕ → Replies → List ℕ → Description → Answer (ℕ × List ℕ)
write_seek_read p r src d = after_call (file_description_write (non_dir_fops p r) src d) (λ e.
    after_call (file_description_lseek p (ok e.buf.size) d.offset 0 e)
      (λ f. file_description_read (non_dir_fops p r) (length src) f))

-- A process writes to a valid file of tmpfs below 2 GiB less a page, through a description that is open
-- for reading and writing and whose mutex nobody holds, seeks back to where it wrote, and reads as many
-- bytes. If the buffer takes the whole write, none of the three calls waits, the process reads what it
-- wrote, and the offset is left behind that and the mutex free.
pub write_seek_read-at_rest :
    (p : ℕ) (r : Replies) (src : List ℕ) (flags offset : ℕ) (b : GrowableBuf)
    → readable flags ≡ true
    → writable flags ≡ true
    → IsValid b
    → offset + length src + page_size < 2 ^ 31
    → (growable_buf_pwrite r src offset b).0 ≡ ok (length src)
    → write_seek_read p r src (at_rest flags offset b)
      ≡ some (
        ok (length src, src),
        at_rest flags (offset + length src) (growable_buf_pwrite r src offset b).1,
      )
write_seek_read-at_rest p r src flags offset b rd wr v h k =
    let n : ℕ = length src in
    let c : GrowableBuf = (growable_buf_pwrite r src offset b).1 in
    let e : is_err n ≡ false = ground (arith, h) in
    let s : add32 offset n ≡ offset + n = omega (arith, h) in
    let read : Description → Answer (ℕ × List ℕ) =
      λ f. file_description_read (non_dir_fops p r) n f in
    let seek : Description → Answer (ℕ × List ℕ) =
      λ f. after_call (file_description_lseek p (ok f.buf.size) offset 0 f) read in
    ap (λ a. after_call a seek) (file_description_write-at_rest p r src flags offset n b wr k e)
    ∙ ap (λ a. after_call a read)
        (file_description_lseek-at_rest p (ok c.size) flags offset (add32 offset n) c
          (omega (arith, h)))
    ∙ file_description_read-at_rest p r n flags offset n src c rd
        (growable_buf_pread-growable_buf_pwrite r src offset b v (omega (arith, h)) k) e
    ∙ ap (λ o. some (ok (n, src), at_rest flags o c)) s
