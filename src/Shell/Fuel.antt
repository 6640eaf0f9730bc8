-- ===== src/Shell/Fuel.antt =====
-- The parser ends: every recursive call has a shorter line before it.
use mathlib.Core.Path.{subst}
use chaotix.Base.{
  ℕ, zero, suc, ◌-◌, ◌≤◌, ◌<◌, ◌≡◌, refl, ap, ◌≢◌, inl, inr, Bool, Option, none, some, List, [],
  ◌∷◌, ◌++◌, arith, ◌==◌, Bool-cases, length,
}
use chaotix.CString.{is_space}
use chaotix.Shell.Parser.{
  Result, Node, Parser, Parsed, max_argc, is_valid_filename_character, span, skip_whitespaces,
  parse_filename, consume_if, fail, new_node, finish_execute, parse_args, parse_execute,
  parse_target, after_execute, and_then, parse_redirect, empty_to, finish_pipe, after_redirect,
  parse_pipe, finish_juxtaposition, after_separator, after_pipe, parse_juxtaposition, at_end,
  finish_parse, parse,
}

-- No character is put back, and the fuel does not run out on the way.
pub record Shrinks (p q : Parser) : Type 0 where
  shorter : length q.cursor ≤ length p.cursor
  in_fuel : p.result ≢ Result.out_of_fuel → q.result ≢ Result.out_of_fuel

Shrinks-trans : {p q r : Parser} → Shrinks p q → Shrinks q r → Shrinks p r
Shrinks-trans h k = record {
  shorter = omega (arith, h.shorter, k.shorter);
  in_fuel = λ x. k.in_fuel (h.in_fuel x);
}

-- A successful malloc.
spend : (p : Parser) → Shrinks p (record p { memory = p.memory - 1 })
spend p = record { shorter = omega arith; in_fuel = λ x. x }

-- A result is written down, and nothing else is changed.
fail-Shrinks : (r : Result) (p : Parser) → r ≢ Result.out_of_fuel → Shrinks p (fail r p).1
fail-Shrinks r p h = record { shorter = omega arith; in_fuel = λ _. h }

Shrinks-refl : (p : Parser) → Shrinks p p
Shrinks-refl p = record { shorter = omega arith; in_fuel = λ x. x }

length-span : (cond : ℕ → Bool) (s : List ℕ) → length (span cond s).1 ≤ length s
unfolding span
length-span cond [] = omega arith
length-span cond (c ∷ s) = elim (Bool-cases (cond c)) [
  | inl t ↦ simp t (omega (arith, length-span cond s))
  | inr t ↦ simp t (omega arith)
]

skip_whitespaces-Shrinks : (p : Parser) → Shrinks p (skip_whitespaces p)
unfolding skip_whitespaces
skip_whitespaces-Shrinks p = record { shorter = length-span is_space p.cursor; in_fuel = λ h. h }

parse_filename-Shrinks : (p q : Parser) (w : List ℕ) → parse_filename p ≡ some (w, q) → Shrinks p q
unfolding parse_filename
parse_filename-Shrinks p q w h =
    go (span is_valid_filename_character p.cursor)
      (length-span is_valid_filename_character p.cursor) h
  where
    go :
        (r : List ℕ × List ℕ)
        → length r.1 ≤ length p.cursor
        → ◌≡◌ {A = Option (List ℕ × Parser)}
            (elim r.0 [ [] ↦ none | c ∷ v ↦ some (c ∷ v, record p { cursor = r.1 }) ])
            (some (w, q))
        → Shrinks p q
    go ([], s) l e = absurd (cc)
    go (c ∷ v, s) l e =
        let k : ◌≡◌ {A = Parser} (record p { cursor = s }) q = cc in
        subst (Shrinks p) k (record { shorter = l; in_fuel = λ x. x })

consume_if-lt : (c : ℕ) (s t : List ℕ) → consume_if c s ≡ some t → length t < length s
unfolding consume_if
consume_if-lt c [] t h = absurd (cc)
consume_if-lt c (d ∷ s) t h = elim (Bool-cases (d == c)) [
  | inl e ↦
      let k : consume_if c (d ∷ s) ≡ some s = simp e in
      let l : s ≡ t = cc in omega (arith, ap length l)
  | inr e ↦ let k : consume_if c (d ∷ s) ≡ none = simp e in absurd (cc)
]

new_node-Shrinks : (n : Node) (p : Parser) → Shrinks p (new_node n p).1
unfolding new_node
new_node-Shrinks n p = elim (Bool-cases (p.memory == 0)) [
  | inl t ↦ simp t (fail-Shrinks Result.nomem_error p (λ e. cc))
  | inr t ↦ simp t (record { shorter = omega arith; in_fuel = λ x. x })
]

finish_execute-Shrinks : (args : List (List ℕ)) (p : Parser) → Shrinks p (finish_execute args p).1
finish_execute-Shrinks [] p = fail-Shrinks Result.empty p (λ e. cc)
finish_execute-Shrinks (w ∷ ws) p = Shrinks-refl p

-- What follows a word, whether there is one or not.
abbrev with_word : Parsed → (List ℕ → Parser → Parsed) → Option (List ℕ × Parser) → Parsed
with_word other f none = other
with_word other f (some (w, q)) = f w q

with_word-Shrinks :
    (p : Parser) (other : Parsed) (f : List ℕ → Parser → Parsed)
    → Shrinks p other.1
    → ((w : List ℕ) (q : Parser) → Shrinks p q → Shrinks p (f w q).1)
    → Shrinks p (with_word other f (parse_filename p)).1
with_word-Shrinks p other f h k = go (parse_filename p) refl
  where
    go : (o : Option (List ℕ × Parser)) → parse_filename p ≡ o → Shrinks p (with_word other f o).1
    go none e = h
    go (some (w, q)) e = k w q (parse_filename-Shrinks p q w e)

parse_args-Shrinks :
    (room : ℕ) (args : List (List ℕ)) (p : Parser) → Shrinks p (parse_args room args p).1
unfolding parse_args
parse_args-Shrinks zero args p = fail-Shrinks Result.too_many_args_error p (λ e. cc)
parse_args-Shrinks (suc room) args p =
    with_word-Shrinks p (finish_execute args p)
      (λ w q. parse_args room (args ++ (w ∷ [])) (skip_whitespaces q))
      (finish_execute-Shrinks args p)
      (λ w q h. Shrinks-trans h (
        Shrinks-trans (skip_whitespaces-Shrinks q)
          (parse_args-Shrinks room (args ++ (w ∷ [])) (skip_whitespaces q))))

parse_execute-Shrinks : (p : Parser) → Shrinks p (parse_execute p).1
unfolding parse_execute
parse_execute-Shrinks p = elim (Bool-cases (p.memory == 0)) [
  | inl t ↦ simp t (fail-Shrinks Result.nomem_error p (λ e. cc))
  | inr t ↦ simp t (
      Shrinks-trans (spend p) (parse_args-Shrinks max_argc [] (record p { memory = p.memory - 1 })))
]

parse_target-Shrinks : (n : Node) (p : Parser) → Shrinks p (parse_target n p).1
unfolding parse_target
parse_target-Shrinks n p =
    with_word-Shrinks p (fail Result.syntax_error p) (λ w q. new_node (Node.redirect n w) q)
      (fail-Shrinks Result.syntax_error p (λ e. cc))
      (λ w q h. Shrinks-trans h (new_node-Shrinks (Node.redirect n w) q))

-- What follows a character of syntax, whether it is there or not.
abbrev with_char : Parsed → (List ℕ → Parsed) → Option (List ℕ) → Parsed
with_char other f none = other
with_char other f (some s) = f s

with_char-Shrinks :
    (p q : Parser) (c : ℕ) (other : Parsed) (f : List ℕ → Parsed)
    → Shrinks p q
    → Shrinks q other.1
    → ((s : List ℕ) → length s < length q.cursor → Shrinks (record q { cursor = s }) (f s).1)
    → Shrinks p (with_char other f (consume_if c q.cursor)).1
with_char-Shrinks p q c other f pq h k = Shrinks-trans pq (go (consume_if c q.cursor) refl)
  where
    go : (o : Option (List ℕ)) → consume_if c q.cursor ≡ o → Shrinks q (with_char other f o).1
    go none e = h
    go (some s) e =
        let l : length s < length q.cursor = consume_if-lt c q.cursor s e in
        Shrinks-trans (record { shorter = omega (arith, l); in_fuel = λ x. x }) (k s l)

after_execute-Shrinks : (n : Node) (p : Parser) → Shrinks p (after_execute n p).1
unfolding after_execute
after_execute-Shrinks n p =
    let q = skip_whitespaces p in
    with_char-Shrinks p q 0x3e (some n, q)
      (λ s. parse_target n (skip_whitespaces (record q { cursor = s })))
      (skip_whitespaces-Shrinks p) (Shrinks-refl q)
      (λ s l.
        let r : Parser = record q { cursor = s } in
        Shrinks-trans (skip_whitespaces-Shrinks r) (parse_target-Shrinks n (skip_whitespaces r)))

-- A parse, and what is done with its command.
and_then-Shrinks :
    (p : Parser) (r : Parsed) (f : Node → Parser → Parsed)
    → Shrinks p r.1
    → ((n : Node) (q : Parser) → Shrinks p q → Shrinks q (f n q).1)
    → Shrinks p (and_then r f).1
and_then-Shrinks p (none, q) f h k = h
and_then-Shrinks p (some n, q) f h k = Shrinks-trans h (k n q h)

parse_redirect-Shrinks : (p : Parser) → Shrinks p (parse_redirect p).1
unfolding parse_redirect
parse_redirect-Shrinks p =
    and_then-Shrinks p (parse_execute p) after_execute (parse_execute-Shrinks p)
      (λ n q _. after_execute-Shrinks n q)

-- A recursive call that has fuel enough for a line shorter than `n`.
abbrev Ends : ℕ → (Parser → Parsed) → Type 0
Ends n again = (q : Parser) → length q.cursor < n → Shrinks q (again q).1

empty_to-in_fuel :
    (other r : Result)
    → other ≢ Result.out_of_fuel
    → r ≢ Result.out_of_fuel
    → empty_to other r ≢ Result.out_of_fuel
empty_to-in_fuel other Result.success h k e = cc
empty_to-in_fuel other Result.empty h k e = h e
empty_to-in_fuel other Result.nomem_error h k e = cc
empty_to-in_fuel other Result.syntax_error h k e = cc
empty_to-in_fuel other Result.too_many_args_error h k e = cc
empty_to-in_fuel other Result.out_of_fuel h k e = k e

finish_pipe-Shrinks :
    (p : Parser) (n : Node) (r : Parsed) → Shrinks p r.1 → Shrinks p (finish_pipe n r).1
finish_pipe-Shrinks p n (none, q) h = record {
  shorter = h.shorter;
  in_fuel = λ x. empty_to-in_fuel Result.syntax_error q.result (λ e. cc) (h.in_fuel x);
}
finish_pipe-Shrinks p n (some m, q) h = Shrinks-trans h (new_node-Shrinks (Node.pipe n m) q)

finish_juxtaposition-Shrinks :
    (p : Parser) (n : Node) (r : Parsed) → Shrinks p r.1 → Shrinks p (finish_juxtaposition n r).1
finish_juxtaposition-Shrinks p n (none, q) h = record {
  shorter = h.shorter;
  in_fuel = λ x. empty_to-in_fuel Result.success q.result (λ e. cc) (h.in_fuel x);
}
finish_juxtaposition-Shrinks p n (some m, q) h =
    Shrinks-trans h (new_node-Shrinks (Node.juxtaposition n m) q)

-- White space, and then the recursive call.
again-Shrinks :
    (n : ℕ) (again : Parser → Parsed) (p : Parser)
    → Ends n again
    → length p.cursor < n
    → Shrinks p (again (skip_whitespaces p)).1
again-Shrinks n again p ends l =
    let s = skip_whitespaces-Shrinks p in
    Shrinks-trans s (ends (skip_whitespaces p) (omega (arith, s.shorter)))

after_redirect-Shrinks :
    (fuel : ℕ) (again : Parser → Parsed) (n : Node) (p : Parser)
    → Ends fuel again
    → length p.cursor ≤ fuel
    → Shrinks p (after_redirect again n p).1
unfolding after_redirect
after_redirect-Shrinks fuel again n p ends l =
    let q = skip_whitespaces p in
    let s = skip_whitespaces-Shrinks p in
    with_char-Shrinks p q 0x7c (some n, q)
      (λ t. finish_pipe n (again (skip_whitespaces (record q { cursor = t })))) s (Shrinks-refl q)
      (λ t m.
        finish_pipe-Shrinks (record q { cursor = t }) n _
          (again-Shrinks fuel again (record q { cursor = t }) ends (omega (arith, s.shorter))))

parse_pipe-Shrinks : (fuel : ℕ) → Ends fuel (parse_pipe fuel)
unfolding parse_pipe
parse_pipe-Shrinks zero p l = absurd (omega arith)
parse_pipe-Shrinks (suc fuel) p l =
    and_then-Shrinks p (parse_redirect p) (after_redirect (parse_pipe fuel))
      (parse_redirect-Shrinks p)
      (λ n q h.
        after_redirect-Shrinks fuel (parse_pipe fuel) n q (parse_pipe-Shrinks fuel)
          (omega (arith, h.shorter)))

after_separator-Shrinks :
    (fuel : ℕ) (again : Parser → Parsed) (n : Node) (p : Parser)
    → Ends fuel again
    → length p.cursor < fuel
    → Shrinks p (after_separator again n p).1
unfolding after_separator
after_separator-Shrinks fuel again n p ends l =
    finish_juxtaposition-Shrinks p n _ (again-Shrinks fuel again p ends l)

after_pipe-Shrinks :
    (fuel : ℕ) (again : Parser → Parsed) (n : Node) (p : Parser)
    → Ends fuel again
    → length p.cursor ≤ fuel
    → Shrinks p (after_pipe again n p).1
unfolding after_pipe
after_pipe-Shrinks fuel again n p ends l =
    let q = skip_whitespaces p in
    let s = skip_whitespaces-Shrinks p in
    with_char-Shrinks p q 0x26
      (with_char (some n, q) (λ t. after_separator again n (record q { cursor = t }))
        (consume_if 0x3b q.cursor))
      (λ t.
        and_then (new_node (Node.background n) (record q { cursor = t })) (after_separator again))
      s
      (with_char-Shrinks q q 0x3b (some n, q)
        (λ t. after_separator again n (record q { cursor = t })) (Shrinks-refl q) (Shrinks-refl q)
        (λ t m.
          after_separator-Shrinks fuel again n (record q { cursor = t }) ends
            (omega (arith, s.shorter))))
      (λ t m.
        and_then-Shrinks (record q { cursor = t }) _ (after_separator again)
          (new_node-Shrinks (Node.background n) (record q { cursor = t }))
          (λ b r h.
            after_separator-Shrinks fuel again b r ends (omega (arith, s.shorter, h.shorter))))

parse_juxtaposition-Shrinks : (fuel : ℕ) → Ends fuel (parse_juxtaposition fuel)
unfolding parse_juxtaposition
parse_juxtaposition-Shrinks zero p l = absurd (omega arith)
parse_juxtaposition-Shrinks (suc fuel) p l =
    and_then-Shrinks p (parse_pipe (suc fuel) p) (after_pipe (parse_juxtaposition fuel))
      (parse_pipe-Shrinks (suc fuel) p l)
      (λ n q h.
        after_pipe-Shrinks fuel (parse_juxtaposition fuel) n q (parse_juxtaposition-Shrinks fuel)
          (omega (arith, h.shorter)))

finish_parse-in_fuel :
    (r : Parsed) → r.1.result ≢ Result.out_of_fuel → (finish_parse r).1.result ≢ Result.out_of_fuel
unfolding finish_parse skip_whitespaces
finish_parse-in_fuel (n, p) h = elim (Bool-cases (at_end (skip_whitespaces p).cursor)) [
  | inl t ↦ simp t h
  | inr t ↦ simp t (λ e. cc)
]

-- The parser ends on every line, with any memory: a unit of fuel for each character and one more is
-- enough.
pub parse-ne-out_of_fuel :
    (memory : ℕ) (line : List ℕ) → (parse memory line).1.result ≢ Result.out_of_fuel
unfolding parse
parse-ne-out_of_fuel memory line =
    let p : Parser = record { cursor = line; result = Result.success; memory = memory } in
    finish_parse-in_fuel (parse_juxtaposition (suc (length line)) (skip_whitespaces p)) (
      (again-Shrinks (suc (length line)) (parse_juxtaposition (suc (length line))) p
          (parse_juxtaposition-Shrinks (suc (length line))) (omega arith)).in_fuel
        (λ e. cc))
