-- ===== src/Vfs/Tests.antt =====
-- Runs of the path functions of kernel/fs/vfs.c, and the theorems at concrete paths.
use chaotix.Base.{ℕ, ◌<◌, ◌≡◌, refl, ◌⊎◌, List, arith}
use chaotix.Base.Outcome.{Errno, ok, err}
use chaotix.Base.Text.{codes}
use chaotix.CString.{is_separator, tokens}
use chaotix.CString.Tokenize.{fields}
use chaotix.Vfs.Components.{vfs_canonicalize_path, is_dot, is_dot_dot}
use chaotix.Vfs.Canonical.{components, target, render, calls_needed, vfs_canonicalize_path_lem}
use chaotix.Vfs.Idempotent.{AllNames, target-AllNames, canonicalize-idempotent}

canonicalize_relative :
    vfs_canonicalize_path 20 (codes "/home/me") (codes "../you/./x") ≡ ok (codes "/home/you/x")
unfolding vfs_canonicalize_path tokens
canonicalize_relative = refl

canonicalize_above_root : vfs_canonicalize_path 20 (codes "/home") (codes "/../..") ≡ ok (codes "/")
unfolding vfs_canonicalize_path tokens
canonicalize_above_root = refl

canonicalize_no_memory : vfs_canonicalize_path 3 (codes "/home") (codes "x") ≡ err Errno.enomem
unfolding vfs_canonicalize_path tokens
canonicalize_no_memory = refl

abbrev home : List ℕ
home = codes "/home"

home-AllNames : AllNames (components home)
unfolding fields is_separator is_dot is_dot_dot
home-AllNames = (
  record { chars = ground arith; some_char = omega arith; not_dot = refl; not_dot_dot = refl },
  tt,
)

vfs_canonicalize_path_lem_example :
    (vfs_canonicalize_path 3 home (codes "x") ≡ ok (render (target home (codes "x"))))
    ⊎ ((3 < calls_needed home (codes "x"))
        × (vfs_canonicalize_path 3 home (codes "x") ≡ err Errno.enomem))
vfs_canonicalize_path_lem_example = vfs_canonicalize_path_lem 3 home (codes "x")

target-AllNames_example : AllNames (target home (codes "../a"))
target-AllNames_example = target-AllNames home (codes "../a") home-AllNames

canonicalize-idempotent_example :
    vfs_canonicalize_path 20 (codes "/tmp") (codes "/home/a") ≡ ok (codes "/home/a")
unfolding vfs_canonicalize_path tokens fields
canonicalize-idempotent_example =
    canonicalize-idempotent 20 20 home (codes "/tmp") (codes "./a") (codes "/home/a") home-AllNames
      refl (omega arith)
