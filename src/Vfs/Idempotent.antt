-- ===== src/Vfs/Idempotent.antt =====
-- The text that `vfs_canonicalize_path` yields is in normal form, and canonical again.
use chaotix.Base.{
  ℕ, ◌≤◌, ◌<◌, ◌≡◌, refl, sym, ap, ◌∙◌, ◌≢◌, inl, inr, true, false, List, [], ◌∷◌, ◌++◌, append-nil,
  append_assoc, arith, ◌==◌, if◌then◌else◌, Bool-cases, length,
}
use chaotix.Base.Outcome.{ok}
use chaotix.CString.{c_str, is_separator}
use chaotix.CString.Tokenize.{words, fields, drop_empty, cons_first}
use chaotix.Vfs.Components.{
  list_pop, vfs_canonicalize_path, join, is_dot, is_dot_dot, is_absolute_path, slash, separators,
}
use chaotix.Vfs.Canonical.{
  components, resolve_one, resolve, target, render, vfs_canonicalize_path_lem, calls_needed,
}

-- Characters of a component: no NUL and no slash.
abbrev pub Chars : List ℕ → Type 0
Chars [] = Unit {0}
Chars (x ∷ xs) = (x ≢ 0) × (is_separator separators x ≡ false) × Chars xs

-- A component that may stand in a canonical text: not empty, and neither "." nor "..".
pub record IsName (c : List ℕ) : Type 0 where
  pub chars : Chars c
  pub some_char : 0 < length c
  pub not_dot : is_dot c ≡ false
  pub not_dot_dot : is_dot_dot c ≡ false

abbrev pub AllNames : List (List ℕ) → Type 0
AllNames [] = Unit {0}
AllNames (c ∷ cs) = IsName c × AllNames cs

-- The fields of a text are made of such characters.
abbrev AllChars : List (List ℕ) → Type 0
AllChars [] = Unit {0}
AllChars (c ∷ cs) = Chars c × AllChars cs

cons_first-AllChars :
    (c : ℕ) (fs : List (List ℕ))
    → c ≢ 0
    → is_separator separators c ≡ false
    → AllChars fs
    → AllChars (cons_first c fs)
cons_first-AllChars c [] n s h = ((n, s, tt), tt)
cons_first-AllChars c (f ∷ fs) n s h = ((n, s, h.0), h.1)

fields-AllChars : (s : List ℕ) → AllChars (fields (is_separator separators) (c_str s))
unfolding fields
fields-AllChars [] = (tt, tt)
fields-AllChars (c ∷ s) = elim (Bool-cases (c == 0)) [
  | inl nul ↦ simp nul (tt, tt)
  | inr char ↦ elim (Bool-cases (is_separator separators c)) [
    | inl sep ↦ simp (char, sep) (tt, fields-AllChars s)
    | inr plain ↦
        let n : c ≢ 0 = ground arith in
        simp (char, plain) (cons_first-AllChars c _ n plain (fields-AllChars s))
  ]
]

-- The components of a text, less "." and "..", are names.
abbrev AllWords : List (List ℕ) → Type 0
AllWords [] = Unit {0}
AllWords (c ∷ cs) = (Chars c × (0 < length c)) × AllWords cs

drop_empty-AllWords : (fs : List (List ℕ)) → AllChars fs → AllWords (drop_empty fs)
drop_empty-AllWords [] h = tt
drop_empty-AllWords ([] ∷ fs) h = drop_empty-AllWords fs h.1
drop_empty-AllWords ((c ∷ f) ∷ fs) h = ((h.0, omega arith), drop_empty-AllWords fs h.1)

append-AllNames :
    (dir : List (List ℕ)) (c : List ℕ) → AllNames dir → IsName c → AllNames (dir ++ c ∷ [])
append-AllNames [] c h n = (n, tt)
append-AllNames (d ∷ dir) c h n = (h.0, append-AllNames dir c h.1 n)

list_pop-AllNames : (dir : List (List ℕ)) → AllNames dir → AllNames (list_pop dir)
unfolding list_pop
list_pop-AllNames [] h = tt
list_pop-AllNames (x ∷ []) h = tt
list_pop-AllNames (x ∷ y ∷ dir) h = (h.0, list_pop-AllNames (y ∷ dir) h.1)

resolve-AllNames : (dir cs : List (List ℕ)) → AllNames dir → AllWords cs → AllNames (resolve dir cs)
resolve-AllNames dir [] h w = h
resolve-AllNames dir (c ∷ cs) h w = resolve-AllNames (resolve_one dir c) cs one w.1
  where
    one : AllNames (resolve_one dir c)
    one = elim (Bool-cases (is_dot c)) [
      | inl d ↦ simp d h
      | inr n ↦ elim (Bool-cases (is_dot_dot c)) [
        | inl d ↦ simp (n, d) (list_pop-AllNames dir h)
        | inr m ↦
            simp (n, m)
              (append-AllNames dir c h
                (record { chars = w.0.0; some_char = w.0.1; not_dot = n; not_dot_dot = m }))
      ]
    ]

-- In a working directory of names, the components that a path name stands for are names: not
-- empty, without a slash or a NUL, and neither "." nor "..".
pub target-AllNames : (cwd path : List ℕ) → AllNames (components cwd) → AllNames (target cwd path)
unfolding target
target-AllNames cwd path h =
    resolve-AllNames _ (components path) start (drop_empty-AllWords _ (fields-AllChars path))
  where
    start : AllNames (if is_absolute_path path then [] else components cwd)
    start = elim (Bool-cases (is_absolute_path path)) [ inl a ↦ simp a tt | inr r ↦ simp r h ]

-- Names without dots resolve to themselves.
resolve-names : (dir cs : List (List ℕ)) → AllNames cs → resolve dir cs ≡ dir ++ cs
resolve-names dir [] h = sym (append-nil dir)
resolve-names dir (c ∷ cs) h =
    simp (h.0.not_dot, h.0.not_dot_dot)
      (resolve-names (dir ++ c ∷ []) cs h.1 ∙ append_assoc dir (c ∷ []) cs)

fields-name : (c : List ℕ) → Chars c → fields (is_separator separators) c ≡ c ∷ []
unfolding fields
fields-name [] h = refl
fields-name (x ∷ c) h = simp (h.1, fields-name c h.2)

fields-name-slash :
    (c t : List ℕ)
    → Chars c
    → fields (is_separator separators) (c ++ slash ∷ t) ≡ c ∷ fields (is_separator separators) t
unfolding fields is_separator
fields-name-slash [] t h = refl
fields-name-slash (x ∷ c) t h = simp (h.1, fields-name-slash c t h.2)

-- The fields of the joined text are the names.
words-join :
    (c : List ℕ) (cs : List (List ℕ))
    → AllNames (c ∷ cs)
    → drop_empty (fields (is_separator separators) (c ++ join cs)) ≡ c ∷ cs
words-join c [] h = rw (append-nil c, fields-name c h.0.chars) (keep c h.0.some_char)
  where
    keep : (c : List ℕ) → 0 < length c → drop_empty (c ∷ []) ≡ c ∷ []
    keep [] k = absurd (omega arith)
    keep (x ∷ c) k = refl
words-join c (d ∷ ds) h =
    rw (fields-name-slash c (d ++ join ds) h.0.chars)
      (keep c h.0.some_char _ _ (words-join d ds h.1))
  where
    keep :
        (c : List ℕ)
        → 0 < length c
        → (fs gs : List (List ℕ)) → drop_empty fs ≡ gs
        → drop_empty (c ∷ fs) ≡ c ∷ gs
    keep [] k fs gs e = absurd (omega arith)
    keep (x ∷ c) k fs gs e = ap (λ l. (x ∷ c) ∷ l) e

c_str-append : (c t : List ℕ) → Chars c → c_str (c ++ t) ≡ c ++ c_str t
c_str-append [] t h = refl
c_str-append (x ∷ c) t h =
    let n : (x == 0) ≡ false = ground (arith, h.0) in rw n (ap (λ l. x ∷ l) (c_str-append c t h.2))

c_str-join : (cs : List (List ℕ)) → AllNames cs → c_str (join cs) ≡ join cs
c_str-join [] h = refl
c_str-join (c ∷ cs) h =
    ap (λ l. slash ∷ l) (c_str-append c (join cs) h.0.chars ∙ ap (λ l. c ++ l) (c_str-join cs h.1))

-- The components of the text of some names are those names.
pub components-render : (cs : List (List ℕ)) → AllNames cs → components (render cs) ≡ cs
unfolding fields is_separator
components-render [] h = refl
components-render (c ∷ cs) h =
    ap (λ l. words (is_separator separators) l) (c_str-join (c ∷ cs) h) ∙ words-join c cs h

render-is_absolute : (cs : List (List ℕ)) → is_absolute_path (render cs) ≡ true
unfolding is_absolute_path
render-is_absolute [] = refl
render-is_absolute (c ∷ cs) = refl

target-render : (cwd : List ℕ) (cs : List (List ℕ)) → AllNames cs → target cwd (render cs) ≡ cs
unfolding target
target-render cwd cs h = rw (render-is_absolute cs, components-render cs h) (resolve-names [] cs h)

-- From a working directory of names: the text that `vfs_canonicalize_path` yields is its own
-- canonical text, from any working directory, given the memory.
pub canonicalize-idempotent :
    (budget budget' : ℕ) (cwd cwd' path text : List ℕ)
    → AllNames (components cwd)
    → vfs_canonicalize_path budget cwd path ≡ ok text
    → calls_needed cwd' text ≤ budget'
    → vfs_canonicalize_path budget' cwd' text ≡ ok text
canonicalize-idempotent budget budget' cwd cwd' path text h e enough =
    elim (vfs_canonicalize_path_lem budget cwd path) [
      | inr failed ↦ cc (failed.1)
      | inl found ↦ again (ok_injective (sym e ∙ found))
    ]
  where
    ok_injective : {a b : List ℕ} → ok a ≡ ok b → a ≡ b
    ok_injective p = cc

    again : text ≡ render (target cwd path) → vfs_canonicalize_path budget' cwd' text ≡ ok text
    again t = elim (vfs_canonicalize_path_lem budget' cwd' text) [
      | inr failed ↦ absurd (omega (arith, failed.0))
      | inl found ↦
          found
          ∙ ap ok (
              ap render (
                ap (target cwd') t
                ∙ target-render cwd' (target cwd path) (target-AllNames cwd path h))
              ∙ sym t)
    ]
