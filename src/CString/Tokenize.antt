-- ===== src/CString/Tokenize.antt =====
-- The loop over `strtok_r` yields the fields of the string between separators, less the empty ones.
use chaotix.Base.{
  ℕ, zero, suc, ◌≤◌, ◌<◌, ◌≡◌, refl, ap, ◌∙◌, ◌⊎◌, inl, inr, Bool, false, Option, none, some, List,
  [], ◌∷◌, arith, ◌==◌, if◌then◌else◌, ==_iff, Bool-cases, length,
}
use chaotix.CString.Defs.{c_str}
use chaotix.CString.Tokens.{is_separator, skip_separators, split_token, at_token, tokens}

-- Splitting at every separator, empty fields included.
abbrev pub cons_first : ℕ → List (List ℕ) → List (List ℕ)
cons_first c [] = (c ∷ []) ∷ []
cons_first c (f ∷ fs) = (c ∷ f) ∷ fs

unfoldable pub fields : (ℕ → Bool) → List ℕ → List (List ℕ)
fields p [] = [] ∷ []
fields p (c ∷ s) = if p c then [] ∷ fields p s else cons_first c (fields p s)

abbrev pub drop_empty : List (List ℕ) → List (List ℕ)
drop_empty [] = []
drop_empty ([] ∷ fs) = drop_empty fs
drop_empty ((c ∷ f) ∷ fs) = (c ∷ f) ∷ drop_empty fs

abbrev pub words : (ℕ → Bool) → List ℕ → List (List ℕ)
words p s = drop_empty (fields p s)

module _ (sep : List ℕ) where
  abbrev pub p : ℕ → Bool
  p = is_separator sep

  skip-words : (s : List ℕ) → words p (c_str (skip_separators sep s)) ≡ words p (c_str s)
  unfolding skip_separators fields
  skip-words [] = refl
  skip-words (c ∷ s) = elim (Bool-cases (c == 0)) [
    | inl nul ↦ simp nul
    | inr char ↦ elim (Bool-cases (is_separator sep c)) [
      | inl s' ↦ simp (char, s') (skip-words s)
      | inr t ↦ simp (char, t)
    ]
  ]

  -- The fields that are left behind a token.
  abbrev left_over : Option (List ℕ) → List (List ℕ)
  left_over none = []
  left_over (some l) = fields p (c_str l)

  split-fields :
      (s : List ℕ) → let out = split_token sep s in fields p (c_str s) ≡ out.0 ∷ left_over out.1
  unfolding split_token fields
  split-fields [] = refl
  split-fields (c ∷ s) = elim (Bool-cases (c == 0)) [
    | inl nul ↦ simp nul
    | inr char ↦ elim (Bool-cases (is_separator sep c)) [
      | inl s' ↦ simp (char, s')
      | inr t ↦ simp (char, t) (ap (cons_first c) (split-fields s))
    ]
  ]

  -- The text behind a token is shorter.
  left_shorter : (s l : List ℕ) → (split_token sep s).1 ≡ some l → length l < length s
  unfolding split_token
  left_shorter [] l e = cc
  left_shorter (c ∷ s) l e = ground (arith, left_shorter s l)

  -- Where the search for a token stops there is no separator.
  StopsAt : List ℕ → Type 0
  StopsAt [] = Unit {0}
  StopsAt (c ∷ s) = (c ≡ 0) ⊎ (is_separator sep c ≡ false)

  skip-StopsAt : (s : List ℕ) → StopsAt (skip_separators sep s)
  unfolding skip_separators StopsAt
  skip-StopsAt [] = tt
  skip-StopsAt (c ∷ s) = elim (Bool-cases (c == 0)) [
    | inl nul ↦ rw nul (inl ((==_iff c 0).0 nul))
    | inr char ↦ elim (Bool-cases (is_separator sep c)) [
      | inl s' ↦ rw (char, s') (skip-StopsAt s)
      | inr t ↦ rw (char, t) (inr t)
    ]
  ]

  length-skip : (s : List ℕ) → length (skip_separators sep s) ≤ length s
  unfolding skip_separators
  length-skip [] = omega arith
  length-skip (c ∷ s) = ground (arith, length-skip s)

  -- The search for a token at the end of the loop.
  abbrev first_token : ℕ → Option (List ℕ × Option (List ℕ)) → List (List ℕ)
  first_token fuel r = elim r [ none ↦ [] | some (t, last) ↦ t ∷ tokens fuel last sep ]

  tokens-null : (fuel : ℕ) → tokens fuel none sep ≡ []
  unfolding tokens
  tokens-null zero = refl
  tokens-null (suc fuel) = refl

  tokens-last :
      (fuel : ℕ) (last : Option (List ℕ))
      → ((l : List ℕ) → last ≡ some l → tokens fuel (some l) sep ≡ words p (c_str l))
      → tokens fuel last sep ≡ drop_empty (left_over last)
  tokens-last fuel none ih = tokens-null fuel
  tokens-last fuel (some l) ih = ih l refl

  at_token-words :
      (fuel : ℕ) (s : List ℕ)
      → StopsAt s
      → ((l : List ℕ) → length l < length s → tokens fuel (some l) sep ≡ words p (c_str l))
      → first_token fuel (at_token sep s) ≡ words p (c_str s)
  unfolding StopsAt fields split_token
  at_token-words fuel [] stops ih = refl
  at_token-words fuel (c ∷ s) stops ih = elim (Bool-cases (c == 0)) [
    | inl nul ↦ simp nul
    | inr char ↦ elim stops [
      | inl z ↦ absurd (ground arith)
      | inr t ↦
          let rest =
            tokens-last fuel (split_token sep s).1
              (λ l e. ih l (omega (arith, left_shorter s l e))) in
          simp (char, t, split-fields s) (ap (λ fs. (c ∷ (split_token sep s).0) ∷ fs) rest)
    ]
  ]

  -- With fuel for one token more than the string is long, the loop over `strtok_r` yields the
  -- fields of the string between separators, in order, less the empty ones.
  pub tokens-words :
      (fuel : ℕ) (s : List ℕ) → length s < fuel → tokens fuel (some s) sep ≡ words p (c_str s)
  unfolding tokens
  tokens-words zero s h = absurd (omega arith)
  tokens-words (suc fuel) s h =
      at_token-words fuel (skip_separators sep s) (skip-StopsAt s)
        (λ l k. tokens-words fuel l (omega (arith, length-skip s)))
      ∙ skip-words s
