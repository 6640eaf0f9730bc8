-- ===== src/CString/Tokens.antt =====
-- `strtok_r` (common/string.c). `last` is where the search goes on; the NUL that is written behind
-- a token is the end of the list returned.
use chaotix.Base.{
  ℕ, zero, suc, Bool, true, false, Option, none, some, List, [], ◌∷◌, ◌==◌, if◌then◌else◌,
}
use chaotix.CString.Defs.{strchr}

-- `strchr(sep, c)`, as a test.
unfoldable pub is_separator : List ℕ → ℕ → Bool
unfolding strchr
is_separator sep c = elim (strchr sep c) [ none ↦ false | some _ ↦ true ]

-- The first loop: to the first character that is no separator.
unfoldable pub skip_separators : List ℕ → List ℕ → List ℕ
unfolding is_separator
skip_separators sep [] = []
skip_separators sep (c ∷ s) =
    let rest = skip_separators sep s in
    if c == 0 then c ∷ s else if is_separator sep c then rest else c ∷ s

-- The second loop: the token, and where the next search starts (`none` is NULL).
unfoldable pub split_token : List ℕ → List ℕ → List ℕ × Option (List ℕ)
unfolding is_separator
split_token sep [] = ([], none)
split_token sep (c ∷ s) =
    let rest = split_token sep s in
    if c == 0 then ([], none) else if is_separator sep c then ([], some s) else (c ∷ rest.0, rest.1)

abbrev pub at_token : List ℕ → List ℕ → Option (List ℕ × Option (List ℕ))
at_token sep [] = none
at_token sep (c ∷ s) = if c == 0 then none else some (split_token sep (c ∷ s))

-- A call with the string, or with the `last` of the call before: the token and the new `last`, or
-- NULL.
unfoldable pub strtok_r : Option (List ℕ) → List ℕ → Option (List ℕ × Option (List ℕ))
unfolding skip_separators split_token
strtok_r none sep = none
strtok_r (some s) sep = at_token sep (skip_separators sep s)

-- The loop `for (t = strtok_r(s, …); t; t = strtok_r(NULL, …))` on fuel: the tokens in order.
unfoldable pub tokens : ℕ → Option (List ℕ) → List ℕ → List (List ℕ)
unfolding strtok_r
tokens zero s sep = []
tokens (suc fuel) s sep = elim (strtok_r s sep) [
  | none ↦ []
  | some (t, last) ↦ t ∷ tokens fuel last sep
]
