-- ===== src/Dentry.antt =====
-- kernel/fs/dentry.c: the entries of a directory. An inode is known by its address; of the inodes, the
-- counts of references and of links.
pub mod Names
pub mod Entries
mod Tests
use chaotix.Base.{
  ℕ, zero, suc, ◌+◌, ◌-◌, ◌*◌, ◌/◌, ◌%◌, ◌^◌, ◌≤◌, ◌<◌, min, max, ◌≡◌, refl, sym, ap, ap₂, ◌∙◌, ◌≢◌,
  ◌↔◌, ◌⊎◌, inl, inr, Bool, true, false, not, ◌&&◌, ◌||◌, Option, none, some, List, [], ◌∷◌, ◌++◌,
  map, append-nil, append_assoc, arith, add-one, ltb, leb, ◌==◌, if◌then◌else◌, ltb→lt, leb→le,
  ==_iff, ==_refl, Bool-cases, Option-cases, all_less, all_less-holds, same-true, length, get_or,
  set, take, drop, replicate, length-append, length-set, get_or-set_self, get_or-set_ne, set_twice,
  set-get_or, take-nil, drop-nil, length-take, length-drop, take_all, take-append-drop,
  length-replicate, take-min,
}
use chaotix.Base.Outcome.{Errno, Outcome, ok, err, panic, asserting}
use chaotix.CString.{Cmp, same, strcmp}

pub record Dentry : Type 0 where
  pub name : List ℕ
  pub inode : ℕ

-- `ref_count` and `num_links` of each inode.
pub record Inodes : Type 0 where
  pub ref_count : ℕ → ℕ
  pub num_links : ℕ → ℕ

abbrev pub update : (ℕ → ℕ) → ℕ → ℕ → (ℕ → ℕ)
update f i v = λ j. if j == i then v else f j

abbrev pub inode_ref : ℕ → Inodes → Inodes
inode_ref i s = record s { ref_count = update s.ref_count i ((s.ref_count i + 1) % 2 ^ 32) }

-- `!strcmp(dentry->name, name)`.
unfoldable pub same_name : List ℕ → List ℕ → Bool
unfolding strcmp
same_name a b = elim (strcmp a b) [ same ↦ true | _ ↦ false ]

-- The inode, with a reference to it.
unfoldable pub dentry_find : List Dentry → List ℕ → Inodes → Outcome (ℕ × Inodes)
unfolding same_name
dentry_find [] name s = err Errno.enoent
dentry_find (d ∷ ds) name s =
    let rest = dentry_find ds name s in
    if same_name d.name name then ok (d.inode, inode_ref d.inode s) else rest

-- Whether the loop of `dentry_append` meets the name.
unfoldable pub has_name : List Dentry → List ℕ → Bool
unfolding same_name
has_name [] name = false
has_name (d ∷ ds) name = let rest = has_name ds name in if same_name d.name name then true else rest

-- `memory` tells whether both calls of kmalloc succeed.
unfoldable pub dentry_append :
    Bool → List Dentry → List ℕ → ℕ → Inodes → Outcome (List Dentry × Inodes)
unfolding has_name
dentry_append memory head name child s =
    if has_name head name
    then err Errno.eexist
    else if memory
    then ok (
      head ++ (record { name = name; inode = child } ∷ []),
      record s { num_links = update s.num_links child ((s.num_links child + 1) % 2 ^ 32) },
    )
    else err Errno.enomem

-- What `dentry_remove` gives: the inode, the entries that are left and the counts.
pub record Removed : Type 0 where
  pub inode : ℕ
  pub entries : List Dentry
  pub inodes : Inodes

abbrev pub keep_entry : Dentry → Outcome Removed → Outcome Removed
keep_entry d (ok r) = ok (record r { entries = d ∷ r.entries })
keep_entry d (err e) = err e
keep_entry d panic = panic

unfoldable pub dentry_remove : List Dentry → List ℕ → Inodes → Outcome Removed
unfolding same_name
dentry_remove [] name s = err Errno.enoent
dentry_remove (d ∷ ds) name s =
    let rest = dentry_remove ds name s in
    if same_name d.name name
    then asserting (ltb 0 (s.num_links d.inode)) (
        ok (record {
          inode = d.inode;
          entries = ds;
          inodes = record s { num_links = update s.num_links d.inode (s.num_links d.inode - 1) };
        }))
    else keep_entry d rest
