-- ===== src/FileTable/Tests.antt =====
-- Two descriptions (kernel/syscall/fs.c): the reading end of a pipe, and a file that another process has
-- open too.
use chaotix.Base.{
  ℕ, zero, suc, ◌+◌, ◌^◌, ◌≤◌, ◌<◌, ◌≡◌, refl, sym, inl, inr, true, false, none, some, List, [],
  ◌∷◌, arith, ◌==◌, if◌then◌else◌, ==_iff, Bool-cases, replicate,
}
use chaotix.Base.All.{All}
use chaotix.Base.Outcome.{ok, panic}
use chaotix.Base.Int.{pos}
use chaotix.Process.Descriptors.{open_max}
use chaotix.FileTable.{
  Files, sys_close, sys_fcntl, file_descriptor_table_clone_from, file_descriptor_table_destroy,
}
use chaotix.FileTable.Counting.{both, count, IsValid}
use chaotix.FileTable.Calls.{Good, Call, run_calls, Differs, run_calls-Good}
use chaotix.FileTable.Ends.{Ends, file_descriptor_table_destroy-Ends}
use chaotix.FileTable.Lives.{file_descriptor_table_clone_from-IsValid, sys_close-panic}

abbrev others : ℕ → ℕ
others a = if a == 2000 then 1 else 0

abbrev counts : ℕ → ℕ
counts a = if a == 1000 then 1 else if a == 2000 then 2 else 0

abbrev files : Files
files = record {
  entries = some 1000 ∷ some 2000 ∷ replicate 1022 none;
  refs = counts;
  flags = λ a. if a == 2000 then 3 else 1;
  inode_of = λ a. a + 500;
  is_pipe = λ i. i == 1500;
  pipes = λ i. record {
    buf = record { inner_buf = replicate 1024 0; write_idx = 0; read_idx = 0 };
    num_readers = 1;
    num_writers = 1;
  };
  released = [];
  used_after_free = false;
}

count-none : (a n : ℕ) → count a (replicate n none) ≡ 0
unfolding count
count-none a zero = refl
count-none a (suc n) = omega (arith, count-none a n)

files-counted : (a : ℕ) → counts a ≡ count a files.entries + others a
unfolding count
files-counted a =
    let z = count-none a 1022 in
    elim (Bool-cases (a == 1000)) [
      | inl t ↦
          let e : a ≡ 1000 = (==_iff a 1000).0 t in
          let u : (a == 2000) ≡ false = ground arith in simp (t, u) (omega (arith, z))
      | inr t ↦ elim (Bool-cases (a == 2000)) [
        | inl u ↦ simp (t, u) (omega (arith, z))
        | inr u ↦ simp (t, u) (omega (arith, z))
      ]
    ]

files-one_way : (a : ℕ) → files.is_pipe (files.inode_of a) ≡ true → both (files.flags a) ≡ false
files-one_way a h =
    let e : a + 500 ≡ 1500 = (==_iff (a + 500) 1500).0 h in
    let t : (a == 2000) ≡ false = ground (arith, e) in simp t

files-IsValid : IsValid others files
files-IsValid = record {
  whole = refl;
  counted = files-counted;
  few = λ a. ground arith;
  sound = refl;
  one_way = files-one_way;
}

abbrev calls : List Call
calls =
    Call.dup2 (pos 0) (pos 1)
    ∷ Call.fcntl (pos 1) 0 0
    ∷ Call.fcntl (pos 1) 4 1
    ∷ Call.close (pos 0)
    ∷ Call.close (pos 7)
    ∷ []

calls-Differ : All Differs calls
calls-Differ = ((λ e. cc), ((λ e. cc), ((λ e. refl), (tt, (tt, tt)))))

run_calls-Good_example : Good others (run_calls calls files)
run_calls-Good_example = run_calls-Good others calls files calls-Differ files-IsValid

file_descriptor_table_destroy-Ends_example : Ends others files (file_descriptor_table_destroy files)
file_descriptor_table_destroy-Ends_example =
    file_descriptor_table_destroy-Ends others files files-counted

room : (a : ℕ) → others a + count a files.entries + open_max < 2 ^ 32
room a = omega (arith, files-IsValid.few a, sym (files-counted a), counts-few a)
  where
    counts-few : (b : ℕ) → counts b ≤ 2
    counts-few b = ground arith

file_descriptor_table_clone_from-IsValid_example :
    ((file_descriptor_table_clone_from true files).0 ≡ ok files.entries)
    × IsValid
        (λ a. others a + count a files.entries)
        (file_descriptor_table_clone_from true files).1
file_descriptor_table_clone_from-IsValid_example =
    file_descriptor_table_clone_from-IsValid others files files-IsValid room

pipe_panic : (sys_close (pos 0) (sys_fcntl (pos 0) 4 3 files).1).0 ≡ panic
pipe_panic = sys_close-panic files 0 1000 (omega arith) refl refl refl
