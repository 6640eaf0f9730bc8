-- ===== src/Process/Descriptors.antt =====
-- The file descriptor table of a process (kernel/process.c): `OPEN_MAX` entries, each empty or with a
-- pointer to a description.
use mathlib.Core.Path.{subst}
use chaotix.Base.{
  ℕ, zero, suc, ◌+◌, ◌-◌, ◌≤◌, ◌<◌, ◌≡◌, refl, sym, ap, ◌∙◌, ◌≢◌, ◌⊎◌, inl, inr, false, Option,
  none, some, List, [], ◌∷◌, arith, leb, if◌then◌else◌, Bool-cases, Option-cases, length, get_or,
  set, replicate, get_or-set_self, set_twice, set-get_or,
}
use chaotix.Base.Outcome.{Errno, Outcome, ok, err, ◌>>=◌}
use chaotix.Base.Int.{ℤ, pos, negsuc}

abbrev pub open_max : ℕ
open_max = 1024

-- The entries; a description is known by its address.
abbrev pub FdTable : Type 0
FdTable = List (Option ℕ)

unfoldable pub file_descriptor_table_init : FdTable
file_descriptor_table_init = replicate open_max none

-- The loop over the entries, from entry `i` on.
unfoldable pub alloc_lowest : ℕ → FdTable → ℕ → Outcome (ℕ × FdTable)
alloc_lowest i [] desc = err Errno.emfile
alloc_lowest i (none ∷ entries) desc = ok (i, some desc ∷ entries)
alloc_lowest i (some d ∷ entries) desc =
    alloc_lowest (suc i) entries desc >>= λ r. ok (r.0, some d ∷ r.1)

unfoldable pub process_alloc_file_descriptor : ℤ → ℕ → FdTable → Outcome (ℕ × FdTable)
unfolding alloc_lowest
process_alloc_file_descriptor (negsuc n) desc entries = alloc_lowest 0 entries desc
process_alloc_file_descriptor (pos fd) desc entries =
    if leb open_max fd then err Errno.ebadf else elim (get_or entries fd none) [
      | some d ↦ err Errno.eexist
      | none ↦ ok (fd, set entries fd (some desc))
    ]

unfoldable pub process_free_file_descriptor : ℤ → FdTable → Outcome FdTable
process_free_file_descriptor (negsuc n) entries = err Errno.ebadf
process_free_file_descriptor (pos fd) entries =
    if leb open_max fd then err Errno.ebadf else elim (get_or entries fd none) [
      | some d ↦ ok (set entries fd none)
      | none ↦ err Errno.ebadf
    ]

unfoldable pub process_get_file_description : ℤ → FdTable → Outcome ℕ
process_get_file_description (negsuc n) entries = err Errno.ebadf
process_get_file_description (pos fd) entries =
    if leb open_max fd
    then err Errno.ebadf
    else elim (get_or entries fd none) [ some d ↦ ok d | none ↦ err Errno.ebadf ]

-- What opening a file without naming a descriptor does: the lowest free entry from `i` on has the
-- description, and every other entry is as before.
pub record Opened (i : ℕ) (entries : FdTable) (desc : ℕ) (fd : ℕ) (after : FdTable) : Type 0 where
  pub in_table : (i ≤ fd) × (fd < i + length entries)
  pub was_free : get_or entries (fd - i) none ≡ none
  pub lowest : (j : ℕ) → j < fd - i → get_or entries j none ≢ none
  pub result : after ≡ set entries (fd - i) (some desc)

abbrev pub IsFull : FdTable → Type 0
IsFull entries = (j : ℕ) → j < length entries → get_or entries j none ≢ none

some-none : (d : ℕ) → some d ≢ none
some-none d h = cc

alloc_lowest-Opened :
    (i : ℕ) (entries : FdTable) (desc : ℕ)
    → ((fd : ℕ) × (after : FdTable) × (alloc_lowest i entries desc ≡ ok (fd, after))
        × Opened i entries desc fd after)
      ⊎ ((alloc_lowest i entries desc ≡ err Errno.emfile) × IsFull entries)
unfolding alloc_lowest
alloc_lowest-Opened i [] desc = inr (refl, λ j l. absurd (omega arith))
alloc_lowest-Opened i (none ∷ entries) desc =
    let e : i - i ≡ 0 = omega arith in
    inl (
      i,
      some desc ∷ entries,
      refl,
      record {
        in_table = (omega arith, omega arith);
        was_free = rw e refl;
        lowest = λ j l. absurd (omega arith);
        result = rw e refl;
      },
    )
alloc_lowest-Opened i (some d ∷ entries) desc = elim (alloc_lowest-Opened (suc i) entries desc) [
  | inl (fd, after, e, o) ↦
      let n : fd - i ≡ suc (fd - suc i) = omega (arith, o.in_table.0) in
      inl (
        fd,
        some d ∷ after,
        simp (alloc_lowest, e),
        record {
          in_table = (omega (arith, o.in_table.0), omega (arith, o.in_table.1));
          was_free = rw n (o.was_free);
          lowest = λ j l.
              occupied-cons (some d) entries (some-none d) (fd - suc i) o.lowest j (omega arith);
          result = rw n (ap (λ t. some d ∷ t) o.result);
        },
      )
  | inr (e, full) ↦ inr (
    simp (alloc_lowest, e),
    λ j l. occupied-cons (some d) entries (some-none d) (length entries) full j (omega arith),
  )
]
  where
    occupied-cons :
        (o : Option ℕ) (entries : FdTable)
        → o ≢ none
        → (n : ℕ) → ((j : ℕ) → j < n → get_or entries j none ≢ none)
        → (j : ℕ) → j < suc n
        → get_or (o ∷ entries) j none ≢ none
    occupied-cons o entries h n f zero l = h
    occupied-cons o entries h n f (suc j) l = f j (omega arith)

-- A call without a number (a negative one) gives the lowest descriptor whose entry is empty and
-- changes no other entry; if no entry is empty, it fails with EMFILE.
pub process_alloc_file_descriptor-Opened :
    (n : ℕ) (entries : FdTable) (desc : ℕ)
    → ((fd : ℕ) × (after : FdTable) × (process_alloc_file_descriptor (negsuc n) desc entries
          ≡ ok (fd, after))
        × Opened 0 entries desc fd after)
      ⊎ ((process_alloc_file_descriptor (negsuc n) desc entries ≡ err Errno.emfile)
          × IsFull entries)
unfolding process_alloc_file_descriptor
process_alloc_file_descriptor-Opened n entries desc = alloc_lowest-Opened 0 entries desc

-- The table after an allocation, however it was asked for.
pub record Placed (entries : FdTable) (desc : ℕ) (fd : ℕ) (after : FdTable) : Type 0 where
  pub bound : fd < length entries
  pub was_free : get_or entries fd none ≡ none
  pub result : after ≡ set entries fd (some desc)

Opened-Placed :
    (entries : FdTable) (desc fd : ℕ) (after : FdTable)
    → Opened 0 entries desc fd after
    → Placed entries desc fd after
Opened-Placed entries desc fd after o =
    let n : fd - 0 ≡ fd = omega arith in
    record {
      bound = omega (arith, o.in_table.1);
      was_free = ap (λ m. get_or entries m none) (sym n) ∙ o.was_free;
      result = o.result ∙ ap (λ m. set entries m (some desc)) n;
    }

Placed-cong :
    (entries : FdTable) (desc fd fd' : ℕ) (after after' : FdTable)
    → ◌≡◌ {A = Outcome (ℕ × FdTable)} (ok (fd', after')) (ok (fd, after))
    → Placed entries desc fd' after'
    → Placed entries desc fd after
Placed-cong entries desc fd fd' after after' h w =
    let p : ◌≡◌ {A = ℕ × FdTable} (fd', after') (fd, after) = cc in
    subst (λ r. Placed entries desc (r.0) (r.1)) p w

pub alloc-Placed :
    (z : ℤ) (entries : FdTable) (desc fd : ℕ) (after : FdTable)
    → length entries ≡ open_max
    → process_alloc_file_descriptor z desc entries ≡ ok (fd, after)
    → Placed entries desc fd after
unfolding process_alloc_file_descriptor
alloc-Placed (negsuc n) entries desc fd after len h = elim (alloc_lowest-Opened 0 entries desc) [
  | inl (fd', after', e, o) ↦
      Placed-cong entries desc fd fd' after after' (sym e ∙ h)
        (Opened-Placed entries desc fd' after' o)
  | inr (e, full) ↦ absurd (cc)
]
alloc-Placed (pos k) entries desc fd after len h = elim (Bool-cases (leb open_max k)) [
  | inl t ↦
      let r : process_alloc_file_descriptor (pos k) desc entries ≡ err Errno.ebadf =
        simp (process_alloc_file_descriptor, t) in
      absurd (cc)
  | inr t ↦ elim (Option-cases (get_or entries k none)) [
    | inl e ↦
        let r : process_alloc_file_descriptor (pos k) desc entries
            ≡ ok (k, set entries k (some desc)) =
          simp (process_alloc_file_descriptor, t, e) in
        Placed-cong entries desc fd k after (set entries k (some desc)) (sym r ∙ h)
          (record { bound = ground arith; was_free = e; result = refl })
    | inr (d, e) ↦
        let r : process_alloc_file_descriptor (pos k) desc entries ≡ err Errno.eexist =
          simp (process_alloc_file_descriptor, t, e) in
        absurd (cc)
  ]
]

-- When a call gives a descriptor of a table with `OPEN_MAX` entries, asked for by number or not,
-- looking it up finds the description, and freeing it gives the table back as it was before.
pub process_alloc_file_descriptor-process_free_file_descriptor :
    (z : ℤ) (entries : FdTable) (desc fd : ℕ) (after : FdTable)
    → length entries ≡ open_max
    → process_alloc_file_descriptor z desc entries ≡ ok (fd, after)
    → (process_get_file_description (pos fd) after ≡ ok desc)
      × (process_free_file_descriptor (pos fd) after ≡ ok entries)
unfolding process_get_file_description process_free_file_descriptor
process_alloc_file_descriptor-process_free_file_descriptor z entries desc fd after len h =
    let w = alloc-Placed z entries desc fd after len h in
    let t : leb open_max fd ≡ false = ground (arith, w.bound, len) in
    let g : get_or after fd none ≡ some desc =
      ap (λ s. get_or s fd none) w.result ∙ get_or-set_self entries fd (some desc) none w.bound in
    let back : set after fd none ≡ entries =
      ap (λ s. set s fd none) w.result
      ∙ set_twice entries fd (some desc) none
      ∙ ap (λ o. set entries fd o) (sym w.was_free)
      ∙ set-get_or entries fd none in
    (simp (process_get_file_description, t, g), simp (process_free_file_descriptor, t, g, back))
