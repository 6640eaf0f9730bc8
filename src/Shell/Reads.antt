-- ===== src/Shell/Reads.antt =====
-- The parser of userland/sh.c reads the lines of its grammar.
use chaotix.Base.{
  ℕ, zero, suc, ◌-◌, ◌<◌, ◌≡◌, refl, sym, ap, ◌∙◌, Bool, true, false, Option, none, some, List, [],
  ◌∷◌, ◌++◌, append-nil, append_assoc, arith, ◌==◌, length,
}
use chaotix.Base.All.{All}
use chaotix.CString.{is_space}
use chaotix.Shell.Parser.{
  Result, Node, Parser, Parsed, is_valid_filename_character, span, skip_whitespaces, parse_filename,
  new_node, finish_execute, parse_args, parse_execute,
}
use chaotix.Shell.Grammar.{GoodWord, print_words}

-- The parser before the text `s`, with `m` nodes left.
abbrev pub before : List ℕ → ℕ → Parser
before s m = record { cursor = s; result = Result.success; memory = m }

-- The text does not start with such a character.
abbrev pub Stops : (ℕ → Bool) → List ℕ → Type 0
Stops cond [] = Unit
Stops cond (c ∷ s) = cond c ≡ false

span-append :
    (cond : ℕ → Bool) (w s : List ℕ)
    → All (λ c. cond c ≡ true) w
    → Stops cond s
    → span cond (w ++ s) ≡ (w, s)
unfolding span
span-append cond [] [] h k = refl
span-append cond [] (c ∷ s) h k = simp k
span-append cond (c ∷ w) s h k = simp (h.0, span-append cond w s h.1 k)

-- A character of a word is no white space.
word-not_space : (c : ℕ) → is_valid_filename_character c ≡ true → is_space c ≡ false
word-not_space c h = ground arith

-- The text starts with no white space.
abbrev pub Starts : List ℕ → Type 0
Starts s = Stops is_space s

pub skip-space :
    (s : List ℕ) (m : ℕ) → Starts s → skip_whitespaces (before (0x20 ∷ s) m) ≡ before s m
unfolding skip_whitespaces span
skip-space s m h = ap (λ r. before (r.1) m) (span-append is_space (0x20 ∷ []) s (refl, tt) h)

pub skip-none : (s : List ℕ) (m : ℕ) → Starts s → skip_whitespaces (before s m) ≡ before s m
unfolding skip_whitespaces
skip-none s m h = ap (λ r. before (r.1) m) (span-append is_space [] s tt h)

pub parse_filename-word :
    (w s : List ℕ) (m : ℕ)
    → GoodWord w
    → parse_filename (before (w ++ (0x20 ∷ s)) m) ≡ some (w, before (0x20 ∷ s) m)
unfolding parse_filename
parse_filename-word [] s m h = absurd h
parse_filename-word (c ∷ w) s m h =
    ap (λ (r : List ℕ × List ℕ). elim r.0 [ [] ↦ none | d ∷ v ↦ some (d ∷ v, before r.1 m) ])
      (span-append is_valid_filename_character (c ∷ w) (0x20 ∷ s) h refl)

parse_filename-none :
    (s : List ℕ) (m : ℕ) → Stops is_valid_filename_character s → parse_filename (before s m) ≡ none
unfolding parse_filename
parse_filename-none s m h = simp (span-append is_valid_filename_character [] s tt h)

pub word-Starts : (w s : List ℕ) → GoodWord w → Starts (w ++ s)
word-Starts [] s h = absurd h
word-Starts (c ∷ w) s h = word-not_space c (h.0)

-- The text starts with neither a word nor white space.
abbrev pub Sign : List ℕ → Type 0
Sign s = Stops is_valid_filename_character s × Starts s

pub words-Starts :
    (ws : List (List ℕ)) (s : List ℕ) → All GoodWord ws → Starts s → Starts (print_words ws s)
words-Starts [] s h k = k
words-Starts (w ∷ ws) s h k = word-Starts w (0x20 ∷ print_words ws s) (h.0)

-- What follows a word, whether there is one or not, and likewise a sign.
abbrev pub with_word : Parsed → (List ℕ → Parser → Parsed) → Option (List ℕ × Parser) → Parsed
with_word other f none = other
with_word other f (some (w, q)) = f w q

abbrev pub with_char : Parsed → (List ℕ → Parsed) → Option (List ℕ) → Parsed
with_char other f none = other
with_char other f (some s) = f s

pub parse_args-words :
    (room : ℕ) (args ws : List (List ℕ)) (s : List ℕ) (m : ℕ)
    → length ws < room
    → All GoodWord ws
    → Sign s
    → parse_args room args (before (print_words ws s) m) ≡ finish_execute (args ++ ws) (before s m)
unfolding parse_args
parse_args-words zero args ws s m l h k = absurd (omega (arith, l))
parse_args-words (suc room) args [] s m l h k =
    let p : Parser = before s m in
    ap
      (with_word (finish_execute args p)
        (λ w q. parse_args room (args ++ (w ∷ [])) (skip_whitespaces q)))
      (parse_filename-none s m (k.0))
    ∙ ap (λ a. finish_execute a p) (sym (append-nil args))
parse_args-words (suc room) args (w ∷ ws) s m l h k =
    let p : Parser = before (print_words (w ∷ ws) s) m in
    ap
      (with_word (finish_execute args p)
        (λ v q. parse_args room (args ++ (v ∷ [])) (skip_whitespaces q)))
      (parse_filename-word w (print_words ws s) m (h.0))
    ∙ ap (parse_args room (args ++ (w ∷ [])))
        (skip-space (print_words ws s) m (words-Starts ws s (h.1) (k.1)))
    ∙ parse_args-words room (args ++ (w ∷ [])) ws s m (omega (arith, l)) (h.1) k
    ∙ ap (λ a. finish_execute a (before s m)) (append_assoc args (w ∷ []) ws)

pub suc-sub : (m : ℕ) → suc m - 1 ≡ m
suc-sub m = omega arith

pub suc-ne_zero : (m : ℕ) → (suc m == 0) ≡ false
suc-ne_zero m = ground arith

pub new_node-some :
    (n : Node) (s : List ℕ) (m : ℕ) → new_node n (before s (suc m)) ≡ (some n, before s m)
unfolding new_node
new_node-some n s m = simp (suc-ne_zero m, suc-sub m)

pub parse_execute-words :
    (ws : List (List ℕ)) (s : List ℕ) (m : ℕ)
    → 0 < length ws
    → length ws < 16
    → All GoodWord ws
    → Sign s
    → parse_execute (before (print_words ws s) (suc m)) ≡ (some (Node.execute ws), before s m)
unfolding parse_execute
parse_execute-words [] s m l b h k = absurd (omega (arith, l))
parse_execute-words (w ∷ ws) s m l b h k =
    simp (suc-ne_zero m, suc-sub m) (parse_args-words 16 [] (w ∷ ws) s m b h k)
