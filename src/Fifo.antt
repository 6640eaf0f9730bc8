-- ===== src/Fifo.antt =====
-- kernel/fs/fifo.c: pipes and named pipes.
-- A process works on the pipe in atomic steps: the test that decides whether it waits
-- (file_description_block, scheduler_block) and the body that it runs with the ring's mutex held.
-- Between them other processes run, so each step gets the pipe as it finds it.
pub mod History
use chaotix.Base.{
  ℕ, zero, suc, ◌+◌, ◌-◌, ◌*◌, ◌/◌, ◌%◌, ◌^◌, ◌≤◌, ◌<◌, min, max, ◌≡◌, refl, sym, ap, ap₂, ◌∙◌, ◌≢◌,
  ◌↔◌, ◌⊎◌, inl, inr, Bool, true, false, not, ◌&&◌, ◌||◌, Option, none, some, List, [], ◌∷◌, ◌++◌,
  map, append-nil, append_assoc, arith, add-one, ltb, leb, ◌==◌, if◌then◌else◌, ltb→lt, leb→le,
  ==_iff, ==_refl, Bool-cases, Option-cases, length, get_or, set, take, drop, replicate,
  length-append, length-set, get_or-set_self, get_or-set_ne, take-nil, drop-nil, length-take,
  length-drop, take_all, take-append-drop, length-replicate, take-min,
}
use chaotix.Base.Outcome.{Errno, Outcome, ok, err, panic, asserting}
use chaotix.RingBuf
use chaotix.RingBuf.{RingBuf, is_empty, is_full}

pub record Fifo : Type 0 where
  pub buf : RingBuf
  pub num_readers : ℕ
  pub num_writers : ℕ

-- `++` and `--` of an `atomic_size_t`.
abbrev pub incr : ℕ → ℕ
incr n = (n + 1) % 2 ^ 32

abbrev pub decr : ℕ → ℕ
decr n = (n + 2 ^ 32 - 1) % 2 ^ 32

-- `flags & O_RDONLY`, `flags & O_WRONLY`, `flags & O_NONBLOCK` (kernel/api/fcntl.h).
abbrev pub has_rdonly : ℕ → Bool
has_rdonly flags = flags % 2 == 1

abbrev pub has_wronly : ℕ → Bool
has_wronly flags = flags / 2 % 2 == 1

abbrev pub has_nonblock : ℕ → Bool
has_nonblock flags = flags / 2 ^ 8 % 2 == 1

-- `if (test) c(n)`, on a counter.
abbrev count_if : Bool → (ℕ → ℕ) → ℕ → ℕ
count_if test c n = if test then c n else n

abbrev recount : (ℕ → ℕ) → ℕ → Fifo → Fifo
recount c flags p = record p {
  num_readers = count_if (has_rdonly flags) c p.num_readers;
  num_writers = count_if (has_wronly flags) c p.num_writers;
}

fifo_open : Fifo → ℕ → Outcome Fifo
fifo_open p flags =
    if has_rdonly flags && has_wronly flags then err Errno.einval else ok (recount incr flags p)

unfoldable pub fifo_close : Fifo → ℕ → Outcome Fifo
fifo_close p flags =
    asserting (not (has_rdonly flags && has_wronly flags)) (ok (recount decr flags p))

read_should_unblock : Fifo → Bool
read_should_unblock p = p.num_writers == 0 || not (is_empty p.buf)

write_should_unblock : Fifo → Bool
write_should_unblock p = p.num_readers == 0 || not (is_full p.buf)

-- What a body comes to: the loop goes round again, or the call returns.
pub data Turn {ℓ} (A : Type ℓ) : Type ℓ where
  again : Turn A
  returns : A → Fifo → Turn A

-- The body of the loop of `fifo_read`; the value is what has been copied to `buffer`.
read_body : Fifo → ℕ → Turn (List ℕ)
read_body p count =
    let r = RingBuf.read p.buf count in
    if not (is_empty p.buf)
    then returns r.0 (record p { buf = r.1 })
    else if p.num_writers == 0
    then returns [] p
    else again

-- The body of the loop of `fifo_write`. Where nobody reads, the writer is sent SIGPIPE; the first
-- argument is what process_send_signal_to_one answers.
write_body : Outcome (Unit {0}) → Fifo → List ℕ → Turn (Outcome ℕ)
write_body sent p src =
    let r = RingBuf.write p.buf src in
    if p.num_readers == 0
    then returns (elim sent [ ok _ ↦ err Errno.epipe | err e ↦ err e | panic ↦ panic ]) p
    else if is_full p.buf
    then again
    else returns (ok r.0) (record p { buf = r.1 })

-- One round of a loop: the pipe as file_description_block finds it, whether a signal ended the
-- wait (if there is one), and the pipe as the body finds it.
pub record Round : Type 0 where
  pub at_check : Fifo
  pub interrupted : Bool
  pub at_lock : Fifo

-- file_description_block (kernel/fs/fs.c) with scheduler_block (kernel/scheduler.c).
block : (Fifo → Bool) → ℕ → Round → Outcome (Unit {0})
block should_unblock flags r =
    if should_unblock r.at_check
    then ok tt
    else if has_nonblock flags
    then err Errno.eagain
    else if r.interrupted
    then err Errno.eintr
    else ok tt

-- The loop, over the rounds that it is given; `none` if it still waits after them.
fifo_read : ℕ → ℕ → List Round → Option (Outcome (List ℕ))
unfolding read_should_unblock
fifo_read flags count [] = none
fifo_read flags count (r ∷ rs) =
    let rest = fifo_read flags count rs in
    elim (block read_should_unblock flags r) [
      | err e ↦ some (err e)
      | panic ↦ some panic
      | ok _ ↦ elim (read_body r.at_lock count) [ again ↦ rest | returns bytes p ↦ some (ok bytes) ]
    ]

fifo_write : Outcome (Unit {0}) → ℕ → List ℕ → List Round → Option (Outcome ℕ)
unfolding write_should_unblock
fifo_write sent flags src [] = none
fifo_write sent flags src (r ∷ rs) =
    let rest = fifo_write sent flags src rs in
    elim (block write_should_unblock flags r) [
      | err e ↦ some (err e)
      | panic ↦ some panic
      | ok _ ↦ elim (write_body sent r.at_lock src) [ again ↦ rest | returns n p ↦ some n ]
    ]

-- `fifo_create`: both allocations may fail.
fifo_create : Bool → Option (List ℕ) → Outcome Fifo
fifo_create allocated block =
    if allocated
    then elim (RingBuf.init block) [
      | none ↦ err Errno.enomem
      | some b ↦ ok (record { buf = b; num_readers = 0; num_writers = 0 })
    ]
    else err Errno.enomem
