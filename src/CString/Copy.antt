-- ===== src/CString/Copy.antt =====
-- Functions that write strings (common/string.c). The first list is the memory from `dest` on; each
-- call gives it back as it is afterwards. A list that ends stands for memory that cannot be written.
use chaotix.Base.{ℕ, zero, suc, ◌+◌, List, [], ◌∷◌, ◌==◌, if◌then◌else◌}
use chaotix.CString.Defs.{strlen}

-- One byte is written at the pointer, and the pointer moves on.
abbrev pub poke : ℕ → List ℕ → (List ℕ → List ℕ) → List ℕ
poke c [] next = []
poke c (d ∷ dest) next = c ∷ next dest

-- `*dest = c`.
abbrev pub store : ℕ → List ℕ → List ℕ
store c dest = poke c dest (λ d. d)

-- The loop ends at the NUL, which it does not copy.
unfoldable pub strcpy : List ℕ → List ℕ → List ℕ
strcpy dest [] = dest
strcpy [] (c ∷ src) = []
strcpy (d ∷ dest) (c ∷ src) = let rest = strcpy dest src in if c == 0 then d ∷ dest else c ∷ rest

-- Copies up to `n` characters, and fills what is left of the `n` bytes with NULs.
unfoldable pub strncpy : List ℕ → List ℕ → ℕ → List ℕ
strncpy dest src zero = dest
strncpy [] src (suc n) = []
strncpy (d ∷ dest) [] (suc n) = 0 ∷ strncpy dest [] n
strncpy (d ∷ dest) (c ∷ src) (suc n) =
    let rest = strncpy dest (if c == 0 then c ∷ src else src) n in c ∷ rest

-- The first loop of `strlcpy`, with the NUL behind it: the memory, what is left of `src`, and `len`.
-- `room` is `size - 1`, what may still be copied.
unfoldable pub strlcpy_loop : List ℕ → List ℕ → ℕ → List ℕ × List ℕ × ℕ
strlcpy_loop dest src zero = (store 0 dest, src, 0)
strlcpy_loop dest [] (suc room) = (store 0 dest, [], 0)
strlcpy_loop [] (c ∷ src) (suc room) = ([], src, 0)
strlcpy_loop (d ∷ dest) (c ∷ src) (suc room) =
    let rest = strlcpy_loop dest src room in
    if c == 0 then (0 ∷ dest, c ∷ src, 0) else (c ∷ rest.0, rest.1, suc rest.2)

-- The length returned counts the characters copied and then those left over.
unfoldable pub strlcpy : List ℕ → List ℕ → ℕ → List ℕ × ℕ
unfolding strlcpy_loop strlen
strlcpy dest src zero = (dest, strlen src)
strlcpy dest src (suc room) = let out = strlcpy_loop dest src room in (out.0, out.2 + strlen out.1)

-- Copying to the end of the string at `dest`, with a NUL behind, of at most `n` characters.
unfoldable pub append_at : List ℕ → List ℕ → ℕ → List ℕ
append_at dest src zero = store 0 dest
append_at dest [] (suc n) = store 0 dest
append_at [] (c ∷ src) (suc n) = []
append_at (d ∷ dest) (c ∷ src) (suc n) =
    let rest = append_at dest src n in if c == 0 then 0 ∷ dest else c ∷ rest

unfoldable pub strncat : List ℕ → List ℕ → ℕ → List ℕ
unfolding append_at
strncat [] src n = []
strncat (d ∷ dest) src n =
    let rest = strncat dest src n in if d == 0 then append_at (d ∷ dest) src n else d ∷ rest

-- `strcat` copies all of `src`.
unfoldable pub strcat : List ℕ → List ℕ → List ℕ
unfolding strncat strlen
strcat dest src = strncat dest src (strlen src)
