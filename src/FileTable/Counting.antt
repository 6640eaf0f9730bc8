-- ===== src/FileTable/Counting.antt =====
-- The reference counts of kernel/fs/fs.c count the descriptors: the invariant of the files of a process,
-- and the two changes that the system calls are made of.
use chaotix.Base.{
  ℕ, zero, suc, ◌+◌, ◌-◌, ◌%◌, ◌^◌, ◌≤◌, ◌<◌, ◌≡◌, ap, ◌∙◌, inl, inr, Bool, true, false, ◌&&◌, ◌||◌,
  Option, none, some, List, [], ◌∷◌, arith, ◌==◌, if◌then◌else◌, ==_iff, ==_refl, Bool-cases,
  length, get_or, set, length-set,
}
use chaotix.Process.Descriptors.{FdTable, open_max}
use chaotix.Fifo.{Fifo, has_rdonly, has_wronly}
use chaotix.FileTable.{Files, update}

abbrev pub points : ℕ → Option ℕ → ℕ
points a none = 0
points a (some b) = if a == b then 1 else 0

-- How many descriptors of a table have the description at `a`.
unfoldable pub count : ℕ → FdTable → ℕ
count a [] = 0
count a (o ∷ entries) = points a o + count a entries

points-le : (a : ℕ) (o : Option ℕ) → points a o ≤ 1
points-le a none = omega arith
points-le a (some b) = ground arith

count-le : (a : ℕ) (entries : FdTable) → count a entries ≤ length entries
unfolding count
count-le a [] = omega arith
count-le a (o ∷ entries) = omega (arith, count-le a entries, points-le a o)

count-set :
    (a i : ℕ) (o : Option ℕ) (entries : FdTable)
    → i < length entries
    → points a (get_or entries i none) + count a (set entries i o) ≡ points a o + count a entries
unfolding count
count-set a i o [] l = absurd (omega (arith, l))
count-set a zero o (p ∷ entries) l = omega arith
count-set a (suc i) o (p ∷ entries) l = omega (arith, count-set a i o entries (omega (arith, l)))

-- `(flags & O_RDONLY) && (flags & O_WRONLY)`.
abbrev pub both : ℕ → Bool
both flags = has_rdonly flags && has_wronly flags

-- The table has its length; each count is the number of descriptors that have the description, and of
-- those that `others` (the other processes) have; nothing was used after it was freed; and no description
-- of a pipe is open for both reading and writing.
pub record IsValid (others : ℕ → ℕ) (f : Files) : Type 0 where
  pub whole : length f.entries ≡ open_max
  pub counted : (a : ℕ) → f.refs a ≡ count a f.entries + others a
  pub few : (a : ℕ) → others a + open_max < 2 ^ 32
  pub sound : f.used_after_free ≡ false
  pub one_way : (a : ℕ) → f.is_pipe (f.inode_of a) ≡ true → both (f.flags a) ≡ false

-- A descriptor has a description: its count is not 0.
pub held :
    (others : ℕ → ℕ) (f : Files) (fd a : ℕ)
    → IsValid others f
    → fd < open_max
    → get_or f.entries fd none ≡ some a
    → 0 < f.refs a
held others f fd a v l g =
    let c = count-set a fd none f.entries (omega (arith, l, v.whole)) in
    let p : points a (get_or f.entries fd none) ≡ 1 = ap (points a) g ∙ simp (==_refl a) in
    omega (arith, v.counted a, c, p)

-- A descriptor is closed.
pub released :
    (others : ℕ → ℕ) (f : Files) (fd a : ℕ) (pipes : ℕ → Fifo) (given : List ℕ)
    → IsValid others f
    → fd < open_max
    → get_or f.entries fd none ≡ some a
    → IsValid others (record f {
      entries = set f.entries fd none;
      refs = update a (f.refs a - 1) f.refs;
      pipes = pipes;
      released = given;
    })
released others f fd a pipes given v l g = record {
  whole = length-set f.entries fd none ∙ v.whole;
  counted = λ b.
      let h = held others f fd a v l g in
      let c = count-set b fd none f.entries (omega (arith, l, v.whole)) in
      let p : points b (get_or f.entries fd none) ≡ points b (some a) = ap (points b) g in
      elim (Bool-cases (b == a)) [
        | inl t ↦
            let e : b ≡ a = (==_iff b a).0 t in
            let q : points b (some a) ≡ 1 = simp t in
            simp t (omega (arith, ap f.refs e, v.counted b, c, p, q, h))
        | inr t ↦
            let q : points b (some a) ≡ 0 = simp t in simp t (omega (arith, v.counted b, c, p, q))
      ];
  few = v.few;
  sound = v.sound;
  one_way = v.one_way;
}

-- A free descriptor is given to a description that lives.
pub added :
    (others : ℕ → ℕ) (f : Files) (fd a : ℕ)
    → IsValid others f
    → fd < open_max
    → get_or f.entries fd none ≡ none
    → 0 < f.refs a
    → IsValid others (record f {
      entries = set f.entries fd (some a);
      refs = update a ((f.refs a + 1) % 2 ^ 32) f.refs;
      used_after_free = f.used_after_free || f.refs a == 0;
    })
added others f fd a v l g h = record {
  whole = length-set f.entries fd (some a) ∙ v.whole;
  counted = λ b.
      let c = count-set b fd (some a) f.entries (omega (arith, l, v.whole)) in
      let p : points b (get_or f.entries fd none) ≡ 0 = ap (points b) g in
      elim (Bool-cases (b == a)) [
        | inl t ↦
            let e : b ≡ a = (==_iff b a).0 t in
            let q : points b (some a) ≡ 1 = simp t in
            simp t (
              omega (
                arith,
                ap f.refs e,
                v.counted b,
                c,
                p,
                q,
                v.few b,
                count-le b (set f.entries fd (some a)),
                length-set f.entries fd (some a),
                v.whole,
              ))
        | inr t ↦
            let q : points b (some a) ≡ 0 = simp t in simp t (omega (arith, v.counted b, c, p, q))
      ];
  few = v.few;
  sound = let z : (f.refs a == 0) ≡ false = ground arith in simp (v.sound, z);
  one_way = v.one_way;
}
