-- ===== src/FileTable/Ends.antt =====
-- The end of a process: its descriptors are closed (kernel/fs/fs.c, kernel/fs/fifo.c).
use mathlib.Core.Path.{subst}
use chaotix.Base.{
  ℕ, ◌+◌, ◌-◌, ◌<◌, ◌≡◌, refl, sym, ap, ◌∙◌, ◌⊎◌, inl, inr, true, false, none, some, [], ◌∷◌, arith,
  ltb, ◌==◌, ltb→lt, ==_iff, ==_refl, Bool-cases,
}
use chaotix.Base.Outcome.{ok, err, panic}
use chaotix.Process.Descriptors.{FdTable}
use chaotix.FileTable.{
  Files, Reply, update, file_description_close, close_inode, last_close, ignoring, close_all,
  file_descriptor_table_destroy,
}
use chaotix.Fifo.{Fifo, fifo_close}
use chaotix.FileTable.Counting.{both, points, count}
use chaotix.FileTable.Calls.{Closes, file_description_close-Closes}

-- Closing the description of one descriptor leaves the count of those behind it.
closed-counted :
    (others : ℕ → ℕ) (b : ℕ) (entries : FdTable) (f : Files)
    → ((a : ℕ) → f.refs a ≡ count a (some b ∷ entries) + others a)
    → (a : ℕ) → update b (f.refs b - 1) f.refs a ≡ count a entries + others a
unfolding count
closed-counted others b entries f h a = elim (Bool-cases (a == b)) [
  | inl t ↦
      let e : a ≡ b = (==_iff a b).0 t in
      let q : points a (some b) ≡ 1 = simp t in simp t (omega (arith, ap f.refs e, h a, q))
  | inr t ↦ let q : points a (some b) ≡ 0 = simp t in simp t (omega (arith, h a, q))
]

fifo_close-panic : (p : Fifo) (flags : ℕ) → both flags ≡ true → fifo_close p flags ≡ panic
unfolding fifo_close
fifo_close-panic p flags h = simp h

close_inode-panic :
    (a : ℕ) (f : Files)
    → f.is_pipe (f.inode_of a) ≡ true
    → both (f.flags a) ≡ true
    → close_inode a f ≡ (panic, f)
unfolding close_inode
close_inode-panic a f p b = simp (p, fifo_close-panic (f.pipes (f.inode_of a)) (f.flags a) b)

-- The assertion fails in the last close.
pub file_description_close-panic :
    (a : ℕ) (f : Files)
    → f.refs a ≡ 1
    → f.is_pipe (f.inode_of a) ≡ true
    → both (f.flags a) ≡ true
    → file_description_close a f ≡ (panic, record f { refs = update a (f.refs a - 1) f.refs })
unfolding file_description_close last_close
file_description_close-panic a f one p b =
    let z : (f.refs a == 0) ≡ false = ground arith in
    let t : (f.refs a - 1 == 0) ≡ true = ground arith in
    simp (z, t, close_inode-panic a (record f { refs = update a (f.refs a - 1) f.refs }) p b)

-- The loop succeeds, and what is left of each count is what others have.
record Closed (others : ℕ → ℕ) (r : Reply) : Type 0 where
  reply : r.0 ≡ ok 0
  left : (a : ℕ) → r.1.refs a ≡ others a

close_all-Closed :
    (others : ℕ → ℕ) (entries : FdTable) (f : Files)
    → ((a : ℕ) → f.refs a ≡ count a entries + others a)
    → ((a : ℕ) → f.is_pipe (f.inode_of a) ≡ true → both (f.flags a) ≡ false)
    → Closed others (close_all entries f)
unfolding close_all count
close_all-Closed others [] f h w = record { reply = refl; left = λ a. h a ∙ omega arith }
close_all-Closed others (none ∷ entries) f h w =
    close_all-Closed others entries f (λ a. h a ∙ omega arith) w
close_all-Closed others (some b ∷ entries) f h w =
    let own : points b (some b) ≡ 1 = simp (==_refl b) in
    let c = file_description_close-Closes b f (omega (arith, h b, own)) (w b) in
    let g : Files = record f {
      refs = update b (f.refs b - 1) f.refs;
      pipes = c.pipes;
      released = c.given;
    } in
    subst (λ r. Closed others (ignoring r (close_all entries))) (sym c.result)
      (close_all-Closed others entries g (closed-counted others b entries f h) w)

destroyed :
    (others : ℕ → ℕ) (r : Reply)
    → Closed others r
    → Closed others (ignoring r (λ g. (ok 0, record g { entries = [] })))
destroyed others (ok n, g) c = record { reply = refl; left = c.left }
destroyed others (err e, g) c = record { reply = refl; left = c.left }
destroyed others (panic, g) c = absurd (let k = c.reply in cc)

-- A close whose assertions on the count hold goes well or fails the assertion of fifo_close.
close-cases :
    (a : ℕ) (f : Files)
    → 0 < f.refs a
    → Closes a f (file_description_close a f) ⊎ ((file_description_close a f).0 ≡ panic)
unfolding file_description_close
close-cases a f l =
    let z : (f.refs a == 0) ≡ false = ground arith in
    elim (Bool-cases (f.is_pipe (f.inode_of a))) [
      | inr p ↦ inl (file_description_close-Closes a f l (λ q. absurd (cc)))
      | inl p ↦ elim (Bool-cases (both (f.flags a))) [
        | inr w ↦ inl (file_description_close-Closes a f l (λ q. w))
        | inl w ↦ elim (Bool-cases (f.refs a - 1 == 0)) [
          | inl t ↦ inr (ap (λ r. r.0) (file_description_close-panic a f (ground arith) p w))
          | inr t ↦ inl (record { pipes = f.pipes; given = f.released; result = simp (z, t) })
        ]
      ]
    ]

ignoring-panic : (r : Reply) (k : Files → Reply) → r.0 ≡ panic → (ignoring r k).0 ≡ panic
ignoring-panic (ok n, f) k e = absurd (cc)
ignoring-panic (err n, f) k e = absurd (cc)
ignoring-panic (panic, f) k e = refl

close_all-panic :
    (others : ℕ → ℕ) (entries : FdTable) (f : Files) (a : ℕ)
    → ((b : ℕ) → f.refs b ≡ count b entries + others b)
    → 0 < count a entries
    → others a ≡ 0
    → f.is_pipe (f.inode_of a) ≡ true
    → both (f.flags a) ≡ true
    → (close_all entries f).0 ≡ panic
unfolding close_all count
close_all-panic others [] f a h n o p w = absurd (omega (arith, n))
close_all-panic others (none ∷ entries) f a h n o p w =
    close_all-panic others entries f a (λ b. h b ∙ omega arith) (omega (arith, n)) o p w
close_all-panic others (some b ∷ entries) f a h n o p w =
    elim (Bool-cases (ltb 0 (count a entries))) [
      | inl t ↦
          let own : points b (some b) ≡ 1 = simp (==_refl b) in
          elim (close-cases b f (omega (arith, h b, own))) [
            | inr e ↦ ignoring-panic (file_description_close b f) (close_all entries) e
            | inl c ↦
                let g : Files = record f {
                  refs = update b (f.refs b - 1) f.refs;
                  pipes = c.pipes;
                  released = c.given;
                } in
                ap (λ r. (ignoring r (close_all entries)).0) c.result
                ∙ close_all-panic others entries g a (closed-counted others b entries f h)
                    (ltb→lt 0 (count a entries) t) o p w
          ]
      | inr t ↦
          let none_behind : count a entries ≡ 0 = ground arith in
          elim (Bool-cases (a == b)) [
            | inl u ↦
                let q : points a (some b) ≡ 1 = simp u in
                let e : a ≡ b = (==_iff a b).0 u in
                let one : f.refs a ≡ 1 = omega (arith, h a, q, none_behind, o) in
                ignoring-panic (file_description_close b f) (close_all entries) (
                  ap (λ x. (file_description_close x f).0) (sym e)
                  ∙ ap (λ r. r.0) (file_description_close-panic a f one p w))
            | inr u ↦
                let q : points a (some b) ≡ 0 = simp u in absurd (omega (arith, n, q, none_behind))
          ]
    ]

-- What the end of a process comes to: if no pipe is open for both ways, it succeeds and leaves of each
-- reference count what other processes have; if a pipe is, and no other process has its description, it
-- panics.
pub record Ends (others : ℕ → ℕ) (f : Files) (r : Reply) : Type 0 where
  pub closes :
      ((a : ℕ) → f.is_pipe (f.inode_of a) ≡ true → both (f.flags a) ≡ false)
      → (r.0 ≡ ok 0) × ((a : ℕ) → r.1.refs a ≡ others a)
  pub panics :
      (a : ℕ)
      → 0 < count a f.entries
      → others a ≡ 0
      → f.is_pipe (f.inode_of a) ≡ true
      → both (f.flags a) ≡ true
      → r.0 ≡ panic

-- The end of a process whose reference counts are right. If no pipe is open for both ways, each open
-- description is closed without a panic, and of each reference count just what other processes have is
-- left. If a description of its own, which no other process has, is a pipe open for both ways, the end of
-- the process panics, in the assertion of fifo_close.
pub file_descriptor_table_destroy-Ends :
    (others : ℕ → ℕ) (f : Files)
    → ((a : ℕ) → f.refs a ≡ count a f.entries + others a)
    → Ends others f (file_descriptor_table_destroy f)
unfolding file_descriptor_table_destroy
file_descriptor_table_destroy-Ends others f h = record {
  closes = λ w.
      let c = destroyed others (close_all f.entries f) (close_all-Closed others f.entries f h w) in
      (c.reply, c.left);
  panics = λ a n o p w.
      ignoring-panic (close_all f.entries f) (λ g. (ok 0, record g { entries = [] }))
        (close_all-panic others f.entries f a h n o p w);
}
