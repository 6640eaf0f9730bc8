-- ===== src/FileTable/Lives.antt =====
-- How long a description lives: a fork, and dup2 of a descriptor to itself
-- (kernel/fs/fs.c, kernel/syscall/fs.c).
use chaotix.Base.{
  ℕ, ◌+◌, ◌%◌, ◌^◌, ◌<◌, ◌≡◌, refl, ap, ◌∙◌, inl, inr, true, false, none, some, [], ◌∷◌, arith, leb,
  ◌==◌, ==_iff, ==_refl, Bool-cases, length, get_or,
}
use chaotix.Base.Outcome.{ok, panic}
use chaotix.Base.Int.{pos}
use chaotix.Process.Descriptors.{FdTable, open_max, process_get_file_description}
use chaotix.FileTable.{
  Files, Reply, update, close_descriptor, sys_close, sys_fcntl, count_up,
  file_descriptor_table_clone_from,
}
use chaotix.FileTable.Counting.{both, points, count, IsValid}
use chaotix.FileTable.Ends.{file_description_close-panic}

count_up-refs :
    (entries : FdTable) (refs : ℕ → ℕ) (a : ℕ)
    → refs a + length entries < 2 ^ 32
    → count_up entries refs a ≡ refs a + count a entries
unfolding count_up count
count_up-refs [] refs a h = omega arith
count_up-refs (none ∷ entries) refs a h =
    count_up-refs entries refs a (omega (arith, h)) ∙ omega arith
count_up-refs (some b ∷ entries) refs a h =
    let next : ℕ → ℕ = update b ((refs b + 1) % 2 ^ 32) refs in
    elim (Bool-cases (a == b)) [
      | inl t ↦
          let e : a ≡ b = (==_iff a b).0 t in
          let n : next a ≡ refs a + 1 = simp t (omega (arith, ap refs e, h)) in
          let q : points a (some b) ≡ 1 = simp t in
          count_up-refs entries next a (omega (arith, h, n)) ∙ omega (arith, n, q)
      | inr t ↦
          let n : next a ≡ refs a = simp t in
          let q : points a (some b) ≡ 0 = simp t in
          count_up-refs entries next a (omega (arith, h, n)) ∙ omega (arith, n, q)
    ]

-- After a fork for which there is memory, parent and child have the same table, and the counts count
-- both: for the parent the child's descriptors are those of another process, as long as the counts have
-- room for them.
pub file_descriptor_table_clone_from-IsValid :
    (others : ℕ → ℕ) (f : Files)
    → IsValid others f
    → ((a : ℕ) → others a + count a f.entries + open_max < 2 ^ 32)
    → ((file_descriptor_table_clone_from true f).0 ≡ ok f.entries)
      × IsValid (λ a. others a + count a f.entries) (file_descriptor_table_clone_from true f).1
unfolding file_descriptor_table_clone_from
file_descriptor_table_clone_from-IsValid others f v h = (
  refl,
  record {
    whole = v.whole;
    counted = λ a.
        let c = v.counted a in
        count_up-refs f.entries f.refs a (omega (arith, c, h a, v.whole)) ∙ omega (arith, c);
    few = h;
    sound = v.sound;
    one_way = v.one_way;
  },
)

get-open :
    (entries : FdTable) (fd a : ℕ)
    → fd < open_max
    → get_or entries fd none ≡ some a
    → process_get_file_description (pos fd) entries ≡ ok a
unfolding process_get_file_description
get-open entries fd a l g = let t : leb open_max fd ≡ false = ground arith in simp (t, g)

-- The reply to a `dup2` of a descriptor to itself: a success, though the description was freed, with the
-- descriptor pointing to it still, and the count that was written into it.
pub record Dangles (fd a : ℕ) (r : Reply) : Type 0 where
  pub reply : r.0 ≡ ok fd
  pub freed : r.1.used_after_free ≡ true
  pub points_still : get_or r.1.entries fd none ≡ some a
  pub counted : r.1.refs a ≡ 1

set_both :
    (f : Files) (fd a : ℕ)
    → fd < open_max
    → get_or f.entries fd none ≡ some a
    → sys_fcntl (pos fd) 4 3 f ≡ (ok 0, record f { flags = update a 3 f.flags })
unfolding sys_fcntl
set_both f fd a l g = simp (get-open f.entries fd a l g)

close_both :
    (f : Files) (fd a : ℕ)
    → fd < open_max
    → get_or f.entries fd none ≡ some a
    → f.refs a ≡ 1
    → f.is_pipe (f.inode_of a) ≡ true
    → both (f.flags a) ≡ true
    → (sys_close (pos fd) f).0 ≡ panic
unfolding sys_close close_descriptor
close_both f fd a l g one p b =
    simp (get-open f.entries fd a l g, file_description_close-panic a f one p b)

-- F_SETFL is not kept from opening a pipe for both ways: with such flags, closing the only descriptor of
-- a pipe's description fails the assertion of fifo_close.
pub sys_close-panic :
    (f : Files) (fd a : ℕ)
    → fd < open_max
    → get_or f.entries fd none ≡ some a
    → f.refs a ≡ 1
    → f.is_pipe (f.inode_of a) ≡ true
    → (sys_close (pos fd) (sys_fcntl (pos fd) 4 3 f).1).0 ≡ panic
sys_close-panic f fd a l g one p =
    let h : Files = record f { flags = update a 3 f.flags } in
    let b : both (h.flags a) ≡ true = let q = ==_refl a in simp q in
    ap (λ r. (sys_close (pos fd) (r.1)).0) (set_both f fd a l g) ∙ close_both h fd a l g one p b
