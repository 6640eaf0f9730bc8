-- ===== src/Dentry/Tests.antt =====
-- A directory with the entries "a" and "b".
use chaotix.Base.{◌≡◌, refl, ◌⊎◌, true, false, none, List, [], ◌∷◌, arith, ◌==◌, if◌then◌else◌}
use chaotix.Base.Outcome.{Errno, ok, err, ◌>>=◌}
use chaotix.Dentry.{Dentry, Inodes, Removed, has_name, same_name, dentry_append, dentry_remove}
use chaotix.Dentry.Names.{Distinct, lookup}
use chaotix.Dentry.Entries.{
  Appended, entry, dentry_append-Appended, dentry_append-dentry_remove, dentry_remove-lookup,
}

abbrev letters : List Dentry
letters = entry (97 ∷ []) 1000 ∷ entry (98 ∷ []) 2000 ∷ []

abbrev linked_once : Inodes
linked_once = record { ref_count = λ i. 1; num_links = λ i. 1 }

Distinct-letters : Distinct letters
unfolding has_name
Distinct-letters = (refl, (refl, tt))

c_is_new : has_name letters (99 ∷ []) ≡ false
unfolding has_name
c_is_new = refl

abbrev without_a : Removed
without_a = record {
  inode = 1000;
  entries = entry (98 ∷ []) 2000 ∷ [];
  inodes = record linked_once { num_links = λ j. if j == 1000 then 0 else 1 };
}

remove_a : dentry_remove letters (97 ∷ []) linked_once ≡ ok without_a
unfolding dentry_remove
remove_a = refl

dentry_append-Appended_example :
    ((after : List Dentry) × (s' : Inodes) × (dentry_append true letters (99 ∷ []) 3000 linked_once
        ≡ ok (after, s'))
      × (true ≡ true)
      × Appended letters (99 ∷ []) 3000 after)
    ⊎ ((dentry_append true letters (99 ∷ []) 3000 linked_once ≡ err Errno.eexist)
        × (has_name letters (99 ∷ []) ≡ true))
    ⊎ ((dentry_append true letters (99 ∷ []) 3000 linked_once ≡ err Errno.enomem) × (true ≡ false))
dentry_append-Appended_example =
    dentry_append-Appended true letters (99 ∷ []) 3000 linked_once Distinct-letters

dentry_append-dentry_remove_example :
    (dentry_append true letters (99 ∷ []) 3000 linked_once >>= λ p. dentry_remove p.0 (99 ∷ []) p.1)
    ≡ ok (record { inode = 3000; entries = letters; inodes = linked_once })
dentry_append-dentry_remove_example =
    dentry_append-dentry_remove letters (99 ∷ []) 3000 linked_once c_is_new (omega arith)

dentry_remove-lookup_example :
    lookup without_a.entries (98 ∷ [])
    ≡ (if same_name (97 ∷ []) (98 ∷ []) then none else lookup letters (98 ∷ []))
dentry_remove-lookup_example =
    dentry_remove-lookup letters (97 ∷ []) linked_once without_a Distinct-letters remove_a (98 ∷ [])
