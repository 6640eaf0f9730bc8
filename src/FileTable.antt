-- ===== src/FileTable.antt =====
-- The system calls on file descriptors (kernel/syscall/fs.c) and the table they work on
-- (kernel/fs/fs.c): which descriptors share a description, and how long it lives.
-- A description is known by its address; `refs` has its reference count, 0 where it is freed.
pub mod Counting
pub mod Calls
pub mod Ends
pub mod Lives
mod Tests
use chaotix.Base.{
  ℕ, zero, suc, ◌+◌, ◌-◌, ◌*◌, ◌/◌, ◌%◌, ◌^◌, ◌≤◌, ◌<◌, min, max, ◌≡◌, refl, sym, ap, ap₂, ◌∙◌, ◌≢◌,
  ◌↔◌, ◌⊎◌, inl, inr, Bool, true, false, not, ◌&&◌, ◌||◌, Option, none, some, List, [], ◌∷◌, ◌++◌,
  map, append-nil, append_assoc, arith, add-one, ltb, leb, ◌==◌, if◌then◌else◌, ltb→lt, leb→le,
  ==_iff, ==_refl, Bool-cases, Option-cases, all_less, all_less-holds, same, same-true, length,
  get_or, set, take, drop, replicate, length-append, length-set, get_or-set_self, get_or-set_ne,
  set_twice, set-get_or, take-nil, drop-nil, length-take, length-drop, take_all, take-append-drop,
  length-replicate, take-min,
}
use chaotix.Base.Outcome.{Errno, Outcome, ok, err, panic}
use chaotix.Base.Int.{ℤ, pos, negsuc}
use chaotix.Fifo.{Fifo, fifo_close}
use chaotix.Process.Descriptors.{
  FdTable, open_max, process_alloc_file_descriptor, process_free_file_descriptor,
  process_get_file_description,
}

-- A description has its reference count, its flags and the address of its inode. An inode is a pipe or
-- has a close operation that changes nothing of this, or none; `pipes` has the pipes by their inodes.
-- `released` are the inodes that inode_unref has been called with, the latest first; its own counts are
-- not modelled. `used_after_free`: some call has counted up a description that was freed.
pub record Files : Type 0 where
  pub entries : FdTable
  pub refs : ℕ → ℕ
  pub flags : ℕ → ℕ
  pub inode_of : ℕ → ℕ
  pub is_pipe : ℕ → Bool
  pub pipes : ℕ → Fifo
  pub released : List ℕ
  pub used_after_free : Bool

-- A write to the object at `a`.
abbrev pub update {ℓ} : {A : Type ℓ} → ℕ → A → (ℕ → A) → ℕ → A
update a n f b = if b == a then n else f b

abbrev pub Reply : Type 0
Reply = Outcome ℕ × Files

-- `if (IS_ERR(...)) return ...`, for a result without and with a change of the files.
abbrev pub run {ℓ} : {A : Type ℓ} → Outcome A → Files → (A → Reply) → Reply
run (ok a) f k = k a
run (err e) f k = (err e, f)
run panic f k = (panic, f)

abbrev pub then_do : Reply → (ℕ → Files → Reply) → Reply
then_do (ok n, f) k = k n f
then_do (err e, f) k = (err e, f)
then_do (panic, f) k = (panic, f)

-- `inode->fops->close(desc)`.
unfoldable pub close_inode : ℕ → Files → Reply
unfolding fifo_close
close_inode a f =
    let i : ℕ = f.inode_of a in
    if f.is_pipe i
    then run (fifo_close (f.pipes i) (f.flags a)) f
        (λ p. (ok 0, record f { pipes = update i p f.pipes }))
    else (ok 0, f)

-- What follows when the last reference is gone: the description is freed, and its inode given back.
unfoldable pub last_close : ℕ → Files → Reply
unfolding close_inode
last_close a f =
    then_do (close_inode a f) (λ _ g. (ok 0, record g { released = f.inode_of a ∷ g.released }))

unfoldable pub file_description_close : ℕ → Files → Reply
unfolding last_close
file_description_close a f =
    let g : Files = record f { refs = update a (f.refs a - 1) f.refs } in
    if f.refs a == 0 then (panic, f) else if f.refs a - 1 == 0 then last_close a g else (ok 0, g)

-- process_free_file_descriptor and process_alloc_file_descriptor on the table of the process.
unfoldable pub free_descriptor : ℤ → Files → Reply
unfolding process_free_file_descriptor
free_descriptor z f =
    run (process_free_file_descriptor z f.entries) f (λ e. (ok 0, record f { entries = e }))

unfoldable pub alloc_descriptor : ℤ → ℕ → Files → Reply
unfolding process_alloc_file_descriptor
alloc_descriptor z a f =
    run (process_alloc_file_descriptor z a f.entries) f (λ r. (ok r.0, record f { entries = r.1 }))

-- `++desc->ref_count`, and the descriptor is returned.
unfoldable pub add_ref : ℕ → ℕ → Files → Reply
add_ref a fd f = (
  ok fd,
  record f {
    refs = update a ((f.refs a + 1) % 2 ^ 32) f.refs;
    used_after_free = f.used_after_free || f.refs a == 0;
  },
)

unfoldable pub close_descriptor : ℤ → ℕ → Files → Reply
unfolding file_description_close free_descriptor
close_descriptor z a f = then_do (file_description_close a f) (λ _ g. free_descriptor z g)

unfoldable pub sys_close : ℤ → Files → Reply
unfolding process_get_file_description close_descriptor
sys_close z f = run (process_get_file_description z f.entries) f (λ a. close_descriptor z a f)

unfoldable pub dup_at : ℤ → ℕ → Files → Reply
unfolding alloc_descriptor add_ref
dup_at z a f = then_do (alloc_descriptor z a f) (add_ref a)

-- `F_DUPFD`, `F_GETFL` and `F_SETFL`.
unfoldable pub sys_fcntl : ℤ → ℕ → ℕ → Files → Reply
unfolding process_get_file_description dup_at
sys_fcntl z cmd arg f = run (process_get_file_description z f.entries) f (λ a.
    if cmd == 0
    then dup_at (negsuc 0) a f
    else if cmd == 3
    then (ok (f.flags a), f)
    else if cmd == 4
    then (ok 0, record f { flags = update a arg f.flags })
    else (err Errno.einval, f))

-- The descriptor that is to be taken is closed if it is open.
abbrev pub close_if_open : Outcome ℕ → ℤ → Files → Reply
close_if_open (ok b) z f = close_descriptor z b f
close_if_open (err e) z f = (ok 0, f)
close_if_open panic z f = (panic, f)

unfoldable pub sys_dup2 : ℤ → ℤ → Files → Reply
unfolding process_get_file_description close_descriptor dup_at
sys_dup2 old new f = run (process_get_file_description old f.entries) f (λ a.
    then_do (close_if_open (process_get_file_description new f.entries) new f)
      (λ _ g. dup_at new a g))

-- The loop of `file_descriptor_table_clone_from`: the entries of the child are those of its parent.
unfoldable pub count_up : FdTable → (ℕ → ℕ) → ℕ → ℕ
count_up [] refs = refs
count_up (none ∷ entries) refs = count_up entries refs
count_up (some a ∷ entries) refs = count_up entries (update a ((refs a + 1) % 2 ^ 32) refs)

-- `allocated`: whether `kmalloc` succeeds.
unfoldable pub file_descriptor_table_clone_from : Bool → Files → Outcome FdTable × Files
unfolding count_up
file_descriptor_table_clone_from allocated f =
    if allocated
    then (ok f.entries, record f { refs = count_up f.entries f.refs })
    else (err Errno.enomem, f)

-- The result of a call is ignored; a panic ends all.
abbrev pub ignoring : Reply → (Files → Reply) → Reply
ignoring (ok n, f) k = k f
ignoring (err e, f) k = k f
ignoring (panic, f) k = (panic, f)

-- The loop of `file_descriptor_table_destroy`.
unfoldable pub close_all : FdTable → Files → Reply
unfolding file_description_close
close_all [] f = (ok 0, f)
close_all (none ∷ entries) f = close_all entries f
close_all (some a ∷ entries) f = ignoring (file_description_close a f) (close_all entries)

unfoldable pub file_descriptor_table_destroy : Files → Reply
unfolding close_all
file_descriptor_table_destroy f =
    ignoring (close_all f.entries f) (λ g. (ok 0, record g { entries = [] }))
