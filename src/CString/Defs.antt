-- ===== src/CString/Defs.antt =====
-- Functions that read strings (common/string.c, common/strings.c, common/ctype.h).
use chaotix.Base.{
  ℕ, zero, suc, ◌+◌, ◌%◌, Bool, ◌&&◌, ◌||◌, Option, none, some, List, [], ◌∷◌, ltb, leb, ◌==◌,
  if◌then◌else◌,
}

-- `*s` and `s + 1`.
abbrev pub char_at : List ℕ → ℕ
char_at [] = 0
char_at (c ∷ s) = c

abbrev pub rest_of : List ℕ → List ℕ
rest_of [] = []
rest_of (c ∷ s) = s

-- The characters before the NUL.
abbrev pub c_str : List ℕ → List ℕ
c_str [] = []
c_str (c ∷ s) = if c == 0 then [] else c ∷ c_str s

unfoldable pub strlen : List ℕ → ℕ
strlen [] = 0
strlen (c ∷ s) = if c == 0 then 0 else suc (strlen s)

unfoldable pub strnlen : List ℕ → ℕ → ℕ
strnlen s zero = 0
strnlen [] (suc n) = 0
strnlen (c ∷ s) (suc n) = if c == 0 then 0 else suc (strnlen s n)

-- The sign of the result of a comparison: -1, 0 or 1.
pub data Cmp : Type 0 where
  below same above : Cmp

-- `char` is signed: the order of two bytes as such.
abbrev pub char_lt : ℕ → ℕ → Bool
char_lt a b = ltb ((a + 128) % 256) ((b + 128) % 256)

abbrev pub differ : ℕ → ℕ → Cmp
differ a b = if char_lt a b then below else above

-- As `unsigned char`.
abbrev pub differ_unsigned : ℕ → ℕ → Cmp
differ_unsigned a b = if ltb a b then below else above

unfoldable pub strcmp : List ℕ → List ℕ → Cmp
strcmp [] [] = same
strcmp [] (d ∷ t) = if 0 == d then same else differ 0 d
strcmp (c ∷ s) [] = if c == 0 then same else differ c 0
strcmp (c ∷ s) (d ∷ t) =
    let rest = strcmp s t in if c == d then (if c == 0 then same else rest) else differ c d

-- The result there is the difference of the two bytes: its sign.
unfoldable pub strncmp : List ℕ → List ℕ → ℕ → Cmp
strncmp s t zero = same
strncmp s t (suc n) =
    let rest = strncmp (rest_of s) (rest_of t) n in
    if char_at s == char_at t
    then (if char_at s == 0 then same else rest)
    else differ_unsigned (char_at s) (char_at t)

-- `memcmp` of two blocks of one length.
unfoldable pub memcmp : List ℕ → List ℕ → Cmp
memcmp [] t = same
memcmp (c ∷ s) [] = same
memcmp (c ∷ s) (d ∷ t) = let rest = memcmp s t in if c == d then rest else differ_unsigned c d

-- The pointers that these return are the memory from there on; `none` is NULL.
unfoldable pub strchr : List ℕ → ℕ → Option (List ℕ)
strchr [] ch = none
strchr (c ∷ s) ch =
    let rest = strchr s ch in if c == 0 then none else if c == ch then some (c ∷ s) else rest

abbrev last_of : Option (List ℕ) → List ℕ → ℕ → ℕ → Option (List ℕ)
last_of last s c ch = if c == ch then some s else last

unfoldable pub strrchr_from : Option (List ℕ) → List ℕ → ℕ → Option (List ℕ)
strrchr_from last [] ch = last
strrchr_from last (c ∷ s) ch =
    let rest = strrchr_from (last_of last (c ∷ s) c ch) s ch in if c == 0 then last else rest

unfoldable pub strrchr : List ℕ → ℕ → Option (List ℕ)
unfolding strrchr_from
strrchr s ch = strrchr_from none s ch

unfoldable pub strstr : List ℕ → List ℕ → Option (List ℕ)
strstr [] sub = none
strstr (c ∷ s) sub =
    let rest = strstr s sub in
    if c == 0 then none else elim (strcmp (c ∷ s) sub) [ same ↦ some (c ∷ s) | _ ↦ rest ]

-- `isspace`: tab, newline, vertical tab, form feed, carriage return and space.
abbrev pub is_space : ℕ → Bool
is_space c = (leb 9 c && leb c 13) || c == 32

unfoldable pub tolower : ℕ → ℕ
tolower c = if leb b'A' c && leb c b'Z' then c + 32 else c

unfoldable pub strcasecmp : List ℕ → List ℕ → Cmp
unfolding tolower
strcasecmp [] [] = same
strcasecmp [] (d ∷ t) = if 0 == d then same else differ 0 (tolower d)
strcasecmp (c ∷ s) [] = if c == 0 then same else differ (tolower c) 0
strcasecmp (c ∷ s) (d ∷ t) =
    let rest = strcasecmp s t in
    if tolower c == tolower d
    then (if c == 0 then same else rest)
    else differ (tolower c) (tolower d)
