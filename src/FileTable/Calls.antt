-- ===== src/FileTable/Calls.antt =====
-- Any sequence of the system calls of kernel/syscall/fs.c on descriptors keeps the reference counts.
use mathlib.Core.Path.{subst}
use chaotix.Base.{
  ℕ, suc, ◌+◌, ◌-◌, ◌%◌, ◌^◌, ◌<◌, ◌≡◌, refl, sym, ap, ◌∙◌, ◌≢◌, ◌⊎◌, inl, inr, Bool, true, false,
  ◌||◌, none, some, List, [], ◌∷◌, arith, leb, ◌==◌, if◌then◌else◌, ==_iff, Bool-cases,
  Option-cases, get_or, set, get_or-set_ne,
}
use chaotix.Base.All.{All}
use chaotix.Base.Outcome.{Errno, Outcome, ok, err, panic, ◌>>=◌}
use chaotix.Base.Int.{ℤ, pos, negsuc}
use chaotix.Process.Descriptors.{
  FdTable, open_max, alloc_lowest, process_alloc_file_descriptor, process_free_file_descriptor,
  process_get_file_description, Placed, alloc-Placed,
}
use chaotix.FileTable.{
  Files, Reply, update, run, then_do, file_description_close, close_inode, last_close,
  free_descriptor, alloc_descriptor, add_ref, close_descriptor, sys_close, dup_at, sys_fcntl,
  sys_dup2,
}
use chaotix.Fifo.{Fifo, fifo_close}
use chaotix.FileTable.Counting.{both, IsValid, held, released, added}

-- A call keeps the invariant, and no assertion fails.
pub record Good (others : ℕ → ℕ) (r : Reply) : Type 0 where
  pub valid : IsValid others r.1
  pub no_panic : r.0 ≢ panic

-- The descriptor is open, with a description.
record Found (z : ℤ) (entries : FdTable) : Type 0 where
  fd : ℕ
  desc : ℕ
  number : z ≡ pos fd
  bound : fd < open_max
  entry : get_or entries fd none ≡ some desc
  reply : process_get_file_description z entries ≡ ok desc

get-Found :
    (z : ℤ) (entries : FdTable)
    → Found z entries ⊎ (process_get_file_description z entries ≡ err Errno.ebadf)
unfolding process_get_file_description
get-Found (negsuc n) entries = inr refl
get-Found (pos fd) entries = elim (Bool-cases (leb open_max fd)) [
  | inl t ↦ inr (simp t)
  | inr t ↦ elim (Option-cases (get_or entries fd none)) [
    | inl e ↦ inr (simp (t, e))
    | inr (d, e) ↦ inl (record {
      fd = fd;
      desc = d;
      number = refl;
      bound = ground arith;
      entry = e;
      reply = simp (t, e);
    })
  ]
]

alloc_lowest-ne-panic : (i : ℕ) (entries : FdTable) (a : ℕ) → alloc_lowest i entries a ≢ panic
unfolding alloc_lowest
alloc_lowest-ne-panic i [] a h = cc
alloc_lowest-ne-panic i (none ∷ entries) a h = cc
alloc_lowest-ne-panic i (some d ∷ entries) a h =
    go (alloc_lowest (suc i) entries a) (alloc_lowest-ne-panic (suc i) entries a) h
  where
    go :
        (o : Outcome (ℕ × FdTable))
        → o ≢ panic
        → (◌>>=◌ {A = ℕ × FdTable} {B = ℕ × FdTable} o (λ r. ok (r.0, some d ∷ r.1)) ≢ panic)
    go (ok r) k e = cc
    go (err x) k e = cc
    go panic k e = k refl

alloc-ne-panic :
    (z : ℤ) (entries : FdTable) (a : ℕ) → process_alloc_file_descriptor z a entries ≢ panic
unfolding process_alloc_file_descriptor
alloc-ne-panic (negsuc n) entries a = alloc_lowest-ne-panic 0 entries a
alloc-ne-panic (pos fd) entries a = elim (Bool-cases (leb open_max fd)) [
  | inl t ↦ simp t (λ e. cc)
  | inr t ↦ elim (Option-cases (get_or entries fd none)) [
    | inl g ↦ simp (t, g) (λ e. cc)
    | inr (d, g) ↦ simp (t, g) (λ e. cc)
  ]
]

-- The end of an allocation for a description that lives.
dup_at-Good :
    (others : ℕ → ℕ) (z : ℤ) (a : ℕ) (f : Files)
    → IsValid others f
    → 0 < f.refs a
    → Good others (dup_at z a f)
unfolding dup_at alloc_descriptor add_ref
dup_at-Good others z a f v h =
    go (process_alloc_file_descriptor z a f.entries) (alloc-ne-panic z f.entries a)
      (λ fd after e. alloc-Placed z f.entries a fd after v.whole e)
  where
    go :
        (o : Outcome (ℕ × FdTable))
        → o ≢ panic
        → ((fd : ℕ) (after : FdTable) → o ≡ ok (fd, after) → Placed f.entries a fd after)
        → Good others (then_do (run o f (λ r. (ok r.0, record f { entries = r.1 }))) (add_ref a))
    go (ok (fd, after)) k p =
        let w = p fd after refl in
        record {
          valid =
              subst
                (λ s. IsValid others (record f {
                  entries = s;
                  refs = update a ((f.refs a + 1) % 2 ^ 32) f.refs;
                  used_after_free = f.used_after_free || f.refs a == 0;
                }))
                (sym w.result)
                (added others f fd a v (omega (arith, w.bound, v.whole)) w.was_free h);
          no_panic = λ e. cc;
        }
    go (err e) k p = record { valid = v; no_panic = λ q. cc }
    go panic k p = absurd (k refl)

-- What a close leaves of the files but for the pipes and the inodes that were given back.
pub record Closes (a : ℕ) (f : Files) (r : Reply) : Type 0 where
  pub pipes : ℕ → Fifo
  pub given : List ℕ
  pub result :
      r
      ≡ (ok 0, record f { refs = update a (f.refs a - 1) f.refs; pipes = pipes; released = given })

-- A pipe that is not open for both ways is closed.
fifo_close-ok :
    (p : Fifo) (flags : ℕ) → both flags ≡ false → (q : Fifo) × (fifo_close p flags ≡ ok q)
unfolding fifo_close
fifo_close-ok p flags h = simp h (_, refl)

close_inode-ok :
    (a : ℕ) (f : Files)
    → (f.is_pipe (f.inode_of a) ≡ true → both (f.flags a) ≡ false)
    → (pipes : ℕ → Fifo) × (close_inode a f ≡ (ok 0, record f { pipes = pipes }))
unfolding close_inode
close_inode-ok a f h = elim (Bool-cases (f.is_pipe (f.inode_of a))) [
  | inl t ↦
      let c = fifo_close-ok (f.pipes (f.inode_of a)) (f.flags a) (h t) in
      (update (f.inode_of a) c.0 f.pipes, simp (t, c.1))
  | inr t ↦ (f.pipes, simp t)
]

pub file_description_close-Closes :
    (a : ℕ) (f : Files)
    → 0 < f.refs a
    → (f.is_pipe (f.inode_of a) ≡ true → both (f.flags a) ≡ false)
    → Closes a f (file_description_close a f)
unfolding file_description_close last_close
file_description_close-Closes a f l h =
    let z : (f.refs a == 0) ≡ false = ground arith in
    let g : Files = record f { refs = update a (f.refs a - 1) f.refs } in
    elim (Bool-cases (f.refs a - 1 == 0)) [
      | inl t ↦
          let c = close_inode-ok a g h in
          record { pipes = c.0; given = f.inode_of a ∷ f.released; result = simp (z, t, c.1) }
      | inr t ↦ record { pipes = f.pipes; given = f.released; result = simp (z, t) }
    ]

-- The files after an open descriptor is closed.
pub record Freed (others : ℕ → ℕ) (fd a : ℕ) (f : Files) (r : Reply) : Type 0 where
  pub pipes : ℕ → Fifo
  pub given : List ℕ
  pub result : r ≡ (
    ok 0,
    record f {
      entries = set f.entries fd none;
      refs = update a (f.refs a - 1) f.refs;
      pipes = pipes;
      released = given;
    },
  )

free_descriptor-freed :
    (fd a : ℕ) (f : Files)
    → fd < open_max
    → get_or f.entries fd none ≡ some a
    → free_descriptor (pos fd) f ≡ (ok 0, record f { entries = set f.entries fd none })
unfolding free_descriptor process_free_file_descriptor
free_descriptor-freed fd a f l g = let t : leb open_max fd ≡ false = ground arith in simp (t, g)

pub close_descriptor-Freed :
    (others : ℕ → ℕ) (fd a : ℕ) (f : Files)
    → IsValid others f
    → fd < open_max
    → get_or f.entries fd none ≡ some a
    → Freed others fd a f (close_descriptor (pos fd) a f)
unfolding close_descriptor
close_descriptor-Freed others fd a f v l g =
    let c = file_description_close-Closes a f (held others f fd a v l g) (v.one_way a) in
    record {
      pipes = c.pipes;
      given = c.given;
      result =
          ap (λ r. then_do r (λ _ h. free_descriptor (pos fd) h)) c.result
          ∙ free_descriptor-freed fd a _ l g;
    }

sys_close-Good :
    (others : ℕ → ℕ) (z : ℤ) (f : Files) → IsValid others f → Good others (sys_close z f)
unfolding sys_close
sys_close-Good others z f v = elim (get-Found z f.entries) [
  | inr e ↦ simp e (record { valid = v; no_panic = λ q. cc })
  | inl w ↦
      let c = close_descriptor-Freed others w.fd w.desc f v w.bound w.entry in
      let k = ap (λ x. close_descriptor x w.desc f) w.number ∙ c.result in
      simp w.reply (
        subst (Good others) (sym k) (record {
          valid = released others f w.fd w.desc c.pipes c.given v w.bound w.entry;
          no_panic = λ q. cc;
        }))
]

set_flags :
    (arg : ℕ) (flags : ℕ → ℕ) (a b : ℕ)
    → both arg ≡ false
    → both (flags b) ≡ false
    → both (update a arg flags b) ≡ false
set_flags arg flags a b h k = elim (Bool-cases (b == a)) [ inl t ↦ simp t h | inr t ↦ simp t k ]

sys_fcntl-Good :
    (others : ℕ → ℕ) (z : ℤ) (cmd arg : ℕ) (f : Files)
    → (cmd ≡ 4 → both arg ≡ false)
    → IsValid others f
    → Good others (sys_fcntl z cmd arg f)
unfolding sys_fcntl
sys_fcntl-Good others z cmd arg f d v = elim (get-Found z f.entries) [
  | inr e ↦ simp e (record { valid = v; no_panic = λ q. cc })
  | inl w ↦ simp w.reply (
      go (cmd == 0) (cmd == 3) (cmd == 4) (λ t. d ((==_iff cmd 4).0 t)) w.desc
        (held others f w.fd w.desc v w.bound w.entry))
]
  where
    go :
        (s t u : Bool)
        → (u ≡ true → both arg ≡ false)
        → (a : ℕ) → 0 < f.refs a
        → Good others (
            if s
            then dup_at (negsuc 0) a f
            else if t
            then (ok (f.flags a), f)
            else if u
            then (ok 0, record f { flags = update a arg f.flags })
            else (err Errno.einval, f))
    go true t u k a h = dup_at-Good others (negsuc 0) a f v h
    go false true u k a h = record { valid = v; no_panic = λ q. cc }
    go false false true k a h = record {
      valid = record {
        whole = v.whole;
        counted = v.counted;
        few = v.few;
        sound = v.sound;
        one_way = λ b q. set_flags arg f.flags a b (k refl) (v.one_way b q);
      };
      no_panic = λ q. cc;
    }
    go false false false k a h = record { valid = v; no_panic = λ q. cc }

-- What `sys_dup2` does with a descriptor that is not the one it copies: the first stays open.
sys_dup2-Good :
    (others : ℕ → ℕ) (old new : ℤ) (f : Files)
    → old ≢ new
    → IsValid others f
    → Good others (sys_dup2 old new f)
unfolding sys_dup2
sys_dup2-Good others old new f d v = elim (get-Found old f.entries) [
  | inr e ↦ simp e (record { valid = v; no_panic = λ q. cc })
  | inl w ↦ simp w.reply (elim (get-Found new f.entries) [
    | inr e ↦
        simp e (dup_at-Good others new w.desc f v (held others f w.fd w.desc v w.bound w.entry))
    | inl x ↦
        let fr = close_descriptor-Freed others x.fd x.desc f v x.bound x.entry in
        let g : Files = record f {
          entries = set f.entries x.fd none;
          refs = update x.desc (f.refs x.desc - 1) f.refs;
          pipes = fr.pipes;
          released = fr.given;
        } in
        let c : close_descriptor new x.desc f ≡ (ok 0, g) =
          ap (λ y. close_descriptor y x.desc f) x.number ∙ fr.result in
        let u : IsValid others g =
          released others f x.fd x.desc fr.pipes fr.given v x.bound x.entry in
        let ne : x.fd ≢ w.fd = λ e. d (w.number ∙ ap pos (sym e) ∙ sym x.number) in
        let still : get_or g.entries w.fd none ≡ some w.desc =
          get_or-set_ne f.entries x.fd w.fd none none ne ∙ w.entry in
        simp (x.reply, c)
          (dup_at-Good others new w.desc g u (held others g w.fd w.desc u w.bound still))
  ])
]

-- The calls.
pub data Call : Type 0 where
  close : ℤ → Call
  fcntl : ℤ → ℕ → ℕ → Call
  dup2 : ℤ → ℤ → Call

abbrev pub step : Call → Files → Reply
step (Call.close z) f = sys_close z f
step (Call.fcntl z cmd arg) f = sys_fcntl z cmd arg f
step (Call.dup2 old new) f = sys_dup2 old new f

-- A call that fails changes nothing for those that follow; a panic ends all.
abbrev continue : (Files → Reply) → Reply → Reply
continue k (ok n, f) = k f
continue k (err e, f) = k f
continue k (panic, f) = (panic, f)

abbrev pub run_calls : List Call → Files → Reply
run_calls [] f = (ok 0, f)
run_calls (c ∷ calls) f = continue (run_calls calls) (step c f)

-- No `dup2` of a descriptor to itself, and no F_SETFL that opens for both ways.
abbrev pub Differs : Call → Type 0
Differs (Call.close z) = Unit
Differs (Call.fcntl z cmd arg) = cmd ≡ 4 → both arg ≡ false
Differs (Call.dup2 old new) = old ≢ new

step-Good :
    (others : ℕ → ℕ) (c : Call) (f : Files) → Differs c → IsValid others f → Good others (step c f)
step-Good others (Call.close z) f d v = sys_close-Good others z f v
step-Good others (Call.fcntl z cmd arg) f d v = sys_fcntl-Good others z cmd arg f d v
step-Good others (Call.dup2 old new) f d v = sys_dup2-Good others old new f d v

continue-Good :
    (others : ℕ → ℕ) (k : Files → Reply) (r : Reply)
    → ((f : Files) → IsValid others f → Good others (k f))
    → Good others r
    → Good others (continue k r)
continue-Good others k (ok n, f) h g = h f g.valid
continue-Good others k (err e, f) h g = h f g.valid
continue-Good others k (panic, f) h g = absurd (g.no_panic refl)

-- Over any sequence of close, fcntl and dup2 (no dup2 of a descriptor to itself, and no F_SETFL with
-- both O_RDONLY and O_WRONLY), whether they succeed or fail, in a process that has no pipe open for both
-- ways: each reference count stays the number of descriptors that have the description, those of other
-- processes included; no assertion of the calls or of fifo_close fails, and no description is counted up
-- after it was freed.
pub run_calls-Good :
    (others : ℕ → ℕ) (calls : List Call) (f : Files)
    → All Differs calls
    → IsValid others f
    → Good others (run_calls calls f)
run_calls-Good others [] f d v = record { valid = v; no_panic = λ e. cc }
run_calls-Good others (c ∷ calls) f d v =
    continue-Good others (run_calls calls) (step c f) (λ g u. run_calls-Good others calls g (d.1) u)
      (step-Good others c f (d.0) v)
