-- ===== src/Dentry/Entries.antt =====
-- A directory is a map from names to inodes: what finding, adding and removing an entry does to it.
use chaotix.Base.{
  ℕ, ◌+◌, ◌-◌, ◌%◌, ◌^◌, ◌<◌, ◌≡◌, refl, sym, ap, ◌∙◌, ◌⊎◌, inl, inr, Bool, true, false, none, some,
  List, [], ◌∷◌, ◌++◌, arith, ltb, ◌==◌, if◌then◌else◌, ==_iff, ==_refl, Bool-cases,
}
use chaotix.Base.Outcome.{Errno, Outcome, ok, err, panic, ◌>>=◌}
use chaotix.Dentry.{
  Dentry, Inodes, Removed, update, inode_ref, same_name, dentry_find, has_name, dentry_append,
  keep_entry, dentry_remove,
}
use chaotix.Dentry.Names.{
  same_name_iff, same_name_sym, same_name_cong, has_name_cong, Distinct, lookup, lookup-has_name,
  has_name-cons, has_name-append,
}

-- dentry_find gives the inode that the directory maps the name to, with one more reference to it, and
-- ENOENT if there is none.
pub dentry_find-lookup :
    (ds : List Dentry) (name : List ℕ) (s : Inodes)
    → dentry_find ds name s
      ≡ elim (lookup ds name) [ none ↦ err Errno.enoent | some i ↦ ok (i, inode_ref i s) ]
unfolding dentry_find
dentry_find-lookup [] name s = refl
dentry_find-lookup (d ∷ ds) name s = elim (Bool-cases (same_name d.name name)) [
  | inl t ↦ simp t
  | inr t ↦ simp t (dentry_find-lookup ds name s)
]

abbrev pub entry : List ℕ → ℕ → Dentry
entry name child = record { name = name; inode = child }

lookup-append :
    (ds : List Dentry) (name : List ℕ) (child : ℕ) (n : List ℕ)
    → has_name ds name ≡ false
    → lookup (ds ++ (entry name child ∷ [])) n
      ≡ (if same_name name n then some child else lookup ds n)
lookup-append [] name child n h = refl
lookup-append (d ∷ ds) name child n h =
    let c = has_name-cons d ds name h in
    elim (Bool-cases (same_name d.name n)) [
      | inl t ↦
          let no : same_name name n ≡ false =
            same_name_sym name n ∙ sym (same_name_cong d.name n name t) ∙ c.0 in
          simp (t, no)
      | inr t ↦ simp t (lookup-append ds name child n c.1)
    ]

Distinct-append :
    (ds : List Dentry) (name : List ℕ) (child : ℕ)
    → Distinct ds
    → has_name ds name ≡ false
    → Distinct (ds ++ (entry name child ∷ []))
unfolding has_name
Distinct-append [] name child u h = (refl, tt)
Distinct-append (d ∷ ds) name child u h =
    let c = has_name-cons d ds name h in
    let no : same_name name d.name ≡ false = same_name_sym name d.name ∙ c.0 in
    let first = u.0 in
    (
      has_name-append ds (entry name child) d.name ∙ simp (first, no),
      Distinct-append ds name child u.1 c.1,
    )

-- What dentry_append comes to, in a directory without a name that stands twice: such a directory, that
-- maps the new name to the child and every other name as before.
pub record Appended (head : List Dentry) (name : List ℕ) (child : ℕ) (after : List Dentry)
    : Type 0 where
  pub distinct : Distinct after
  pub new : lookup head name ≡ none
  pub names :
      (n : List ℕ) → lookup after n ≡ (if same_name name n then some child else lookup head n)

-- When dentry_append succeeds on a directory in which no name stands twice, the name was not there, no
-- name stands twice afterwards, and the new name leads to the child, every other name to what it led
-- to. It fails if the name is there (EEXIST) or there is no memory (ENOMEM).
pub dentry_append-Appended :
    (memory : Bool) (head : List Dentry) (name : List ℕ) (child : ℕ) (s : Inodes)
    → Distinct head
    → ((after : List Dentry) × (s' : Inodes) × (dentry_append memory head name child s
          ≡ ok (after, s'))
        × (memory ≡ true)
        × Appended head name child after)
      ⊎ ((dentry_append memory head name child s ≡ err Errno.eexist) × (has_name head name ≡ true))
      ⊎ ((dentry_append memory head name child s ≡ err Errno.enomem) × (memory ≡ false))
unfolding dentry_append
dentry_append-Appended memory head name child s u = elim (Bool-cases (has_name head name)) [
  | inl t ↦ inr (inl (simp t, t))
  | inr t ↦ elim (Bool-cases memory) [
    | inl m ↦ inl (
      head ++ (entry name child ∷ []),
      record s { num_links = update s.num_links child ((s.num_links child + 1) % 2 ^ 32) },
      simp (t, m),
      m,
      record {
        distinct = Distinct-append head name child u t;
        new = lookup-has_name head name t;
        names = λ n. lookup-append head name child n t;
      },
    )
    | inr m ↦ inr (inr (simp (t, m), m))
  ]
]

remove_last :
    (ds : List Dentry) (name : List ℕ) (child : ℕ) (s : Inodes)
    → has_name ds name ≡ false
    → 0 < s.num_links child
    → dentry_remove (ds ++ (entry name child ∷ [])) name s
      ≡ ok (record {
        inode = child;
        entries = ds;
        inodes = record s { num_links = update s.num_links child (s.num_links child - 1) };
      })
unfolding dentry_remove
remove_last [] name child s h l =
    let t : same_name name name ≡ true = (same_name_iff name name).1 refl in
    let p : ltb 0 (s.num_links child) ≡ true = ground arith in simp (t, p)
remove_last (d ∷ ds) name child s h l =
    let c = has_name-cons d ds name h in
    let no = c.0 in let r = remove_last ds name child s c.1 l in simp (dentry_remove, no, r)

linked_back :
    (f : ℕ → ℕ) (i : ℕ)
    → f i + 1 < 2 ^ 32
    → (j : ℕ)
    → update (update f i ((f i + 1) % 2 ^ 32)) i (update f i ((f i + 1) % 2 ^ 32) i - 1) j ≡ f j
linked_back f i l j = elim (Bool-cases (j == i)) [
  | inl e ↦
      let self : (i == i) ≡ true = ==_refl i in
      let back : (f i + 1) % 2 ^ 32 - 1 ≡ f i = omega arith in
      simp (e, self) (back ∙ ap f (sym ((==_iff j i).0 e)))
  | inr e ↦ simp e
]

-- Adding a name that is not in the directory and removing it again gives the directory and the counts
-- of links back, and the child, when there is memory and the child's count of links does not overflow.
pub dentry_append-dentry_remove :
    (head : List Dentry) (name : List ℕ) (child : ℕ) (s : Inodes)
    → has_name head name ≡ false
    → s.num_links child + 1 < 2 ^ 32
    → (dentry_append true head name child s >>= λ p. dentry_remove p.0 name p.1)
      ≡ ok (record { inode = child; entries = head; inodes = s })
unfolding dentry_append
dentry_append-dentry_remove head name child s h l =
    let linked : Inodes = record s {
      num_links = update s.num_links child ((s.num_links child + 1) % 2 ^ 32);
    } in
    let self : (child == child) ≡ true = ==_refl child in
    let one : 0 < (if child == child then (s.num_links child + 1) % 2 ^ 32 else s.num_links child) =
      simp self (omega arith) in
    let r = remove_last head name child linked h one in
    simp h (
      r ∙ λ k. ok (record {
        inode = child;
        entries = head;
        inodes = record s { num_links = λ j. linked_back s.num_links child l j k };
      }))

lookup-skipped :
    (ds : List Dentry) (name n : List ℕ)
    → has_name ds name ≡ false
    → same_name name n ≡ true
    → lookup ds n ≡ none
lookup-skipped ds name n h t = lookup-has_name ds n (sym (has_name_cong ds name n t) ∙ h)

-- When dentry_remove succeeds on a directory in which no name stands twice, the name leads nowhere
-- afterwards and every other name where it led.
pub dentry_remove-lookup :
    (ds : List Dentry) (name : List ℕ) (s : Inodes) (r : Removed)
    → Distinct ds
    → dentry_remove ds name s ≡ ok r
    → (n : List ℕ) → lookup r.entries n ≡ (if same_name name n then none else lookup ds n)
unfolding dentry_remove
dentry_remove-lookup [] name s r u h n = absurd (cc)
dentry_remove-lookup (d ∷ ds) name s r u h n = elim (Bool-cases (same_name d.name name)) [
  | inl t ↦ elim (Bool-cases (ltb 0 (s.num_links d.inode))) [
    | inl p ↦
        let e : dentry_remove (d ∷ ds) name s
            ≡ ok (record {
              inode = d.inode;
              entries = ds;
              inodes = record s {
                num_links = update s.num_links d.inode (s.num_links d.inode - 1);
              };
            }) =
          simp (t, p) in
        let q : r.entries ≡ ds = ap entries_of (sym h ∙ e) in
        let c : same_name d.name n ≡ same_name name n = same_name_cong d.name name n t in
        ap (λ es. lookup es n) q ∙ elim (Bool-cases (same_name name n)) [
          | inl m ↦ simp m (lookup-skipped ds d.name n u.0 (c ∙ m))
          | inr m ↦ let w = c ∙ m in simp (m, w)
        ]
    | inr p ↦ let e : dentry_remove (d ∷ ds) name s ≡ panic = simp (t, p) in absurd (cc)
  ]
  | inr t ↦
      kept (λ x e. dentry_remove-lookup ds name s x u.1 e n) t (dentry_remove ds name s) refl
        (sym (simp (dentry_remove, t)) ∙ h)
]
  where
    entries_of : Outcome Removed → List Dentry
    entries_of (ok x) = x.entries
    entries_of (err e) = []
    entries_of panic = []

    kept :
        ((x : Removed)
          → dentry_remove ds name s ≡ ok x
          → lookup x.entries n ≡ (if same_name name n then none else lookup ds n))
        → same_name d.name name ≡ false
        → (o : Outcome Removed) → dentry_remove ds name s ≡ o
        → keep_entry d o ≡ ok r
        → lookup r.entries n ≡ (if same_name name n then none else lookup (d ∷ ds) n)
    kept ih f (ok x) e k =
        ap (λ es. lookup es n) (ap entries_of (sym k)) ∙ elim (Bool-cases (same_name d.name n)) [
          | inl m ↦
              let no : same_name name n ≡ false =
                same_name_sym name n ∙ sym (same_name_cong d.name n name m) ∙ f in
              simp (m, no)
          | inr m ↦ simp m (ih x e)
        ]
    kept ih f (err x) e k = absurd (cc)
    kept ih f panic e k = absurd (cc)
