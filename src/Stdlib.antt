-- ===== src/Stdlib.antt =====
-- Parts of common/stdlib.c.
use chaotix.Base.{ℕ, ◌+◌, ◌-◌, ◌*◌, ◌%◌, ◌^◌, ◌&&◌, List, [], ◌∷◌, leb, if◌then◌else◌}
use chaotix.CString.{is_space}

-- The first loop.
unfoldable pub skip_space : List ℕ → List ℕ
skip_space [] = []
skip_space (c ∷ s) = let rest = skip_space s in if is_space c then rest else c ∷ s

-- The second loop; `res` is an `int`, taken modulo 2 ^ 32.
unfoldable pub digits : ℕ → List ℕ → ℕ
digits res [] = res
digits res (c ∷ s) =
    let rest = digits ((res * 10 + (c - 48)) % 2 ^ 32) s in
    if leb 48 c && leb c 57 then rest else res

unfoldable pub atoi : List ℕ → ℕ
unfolding skip_space digits
atoi str = digits 0 (skip_space str)
