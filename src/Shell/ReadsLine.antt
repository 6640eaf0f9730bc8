-- ===== src/Shell/ReadsLine.antt =====
-- The parser of userland/sh.c reads the command lines of its grammar.
use chaotix.Base.{
  ℕ, zero, suc, ◌<◌, ◌≡◌, refl, ap, ◌∙◌, Bool, true, false, none, some, List, [], ◌∷◌, arith,
  length,
}
use chaotix.Shell.Parser.{
  Result, Node, Parser, Parsed, skip_whitespaces, consume_if, new_node, parse_execute, and_then,
  parse_redirect, parse_pipe, finish_juxtaposition, after_separator, after_pipe,
  parse_juxtaposition, finish_parse, parse,
}
use chaotix.Shell.Grammar.{
  Line, GoodLine, sign, print_line, node_of_pipeline, in_background, node_of_line, needs_sign,
  needs_line,
}
use chaotix.Shell.Reads.{
  before, Starts, skip-space, skip-none, with_char, new_node-some, suc-sub, suc-ne_zero,
}
use chaotix.Shell.ReadsPipe.{
  Follows, is_close, consume_if_self, consume_if_other, pipeline-Starts, length-print_pipeline,
  parse_pipe-pipeline,
}

sign-close : (b : Bool) (s : List ℕ) → Follows is_close (sign b ∷ s)
sign-close true s = refl
sign-close false s = refl

-- `after_pipe` behind the white space.
abbrev sign_at : (Parser → Parsed) → Node → Parser → Parsed
sign_at again left q =
    with_char
      (with_char (some left, q) (λ s. after_separator again left (record q { cursor = s }))
        (consume_if 0x3b q.cursor))
      (λ s.
        and_then (new_node (Node.background left) (record q { cursor = s }))
          (after_separator again))
      (consume_if 0x26 q.cursor)

after_pipe-sign :
    (again : Parser → Parsed) (n : Node) (b : Bool) (s : List ℕ) (m : ℕ)
    → after_pipe again n (before (sign b ∷ s) (needs_sign b m))
      ≡ after_separator again (in_background b n) (before s m)
unfolding after_pipe
after_pipe-sign again n true s m =
    ap (sign_at again n) (skip-none (0x26 ∷ s) (suc m) refl)
    ∙ ap
        (with_char
          (with_char (some n, before (0x26 ∷ s) (suc m))
            (λ r. after_separator again n (before r (suc m))) (consume_if 0x3b (0x26 ∷ s)))
          (λ r. and_then (new_node (Node.background n) (before r (suc m))) (after_separator again)))
        (consume_if_self 0x26 s)
    ∙ ap (λ r. and_then r (after_separator again)) (new_node-some (Node.background n) s m)
after_pipe-sign again n false s m =
    ap (sign_at again n) (skip-none (0x3b ∷ s) m refl)
    ∙ ap
        (with_char
          (with_char (some n, before (0x3b ∷ s) m) (λ r. after_separator again n (before r m))
            (consume_if 0x3b (0x3b ∷ s)))
          (λ r. and_then (new_node (Node.background n) (before r m)) (after_separator again)))
        (consume_if_other 0x26 (0x3b ∷ s) refl)
    ∙ ap (with_char (some n, before (0x3b ∷ s) m) (λ r. after_separator again n (before r m)))
        (consume_if_self 0x3b s)

after_pipe-end :
    (again : Parser → Parsed) (n : Node) (m : ℕ)
    → after_pipe again n (before [] m) ≡ (some n, before [] m)
unfolding after_pipe skip_whitespaces consume_if
after_pipe-end again n m = refl

-- Behind the last sign there is no command.
parse_juxtaposition-end :
    (fuel m : ℕ)
    → parse_juxtaposition (suc fuel) (before [] (suc m))
      ≡ (none, record { cursor = []; result = Result.empty; memory = m })
unfolding parse_juxtaposition parse_pipe parse_redirect parse_execute
parse_juxtaposition-end fuel m = simp (suc-ne_zero m, suc-sub m)

after_separator-end :
    (fuel : ℕ) (n : Node) (m : ℕ)
    → after_separator (parse_juxtaposition (suc fuel)) n (before [] (suc m)) ≡ (some n, before [] m)
unfolding after_separator
after_separator-end fuel n m =
    ap (λ q. finish_juxtaposition n (parse_juxtaposition (suc fuel) q)) (skip-none [] (suc m) tt)
    ∙ ap (finish_juxtaposition n) (parse_juxtaposition-end fuel m)

line-Starts : (l : Line) → GoodLine l → Starts (print_line l)
line-Starts (Line.single q) h = pipeline-Starts q [] h tt
line-Starts (Line.closed b q) h = pipeline-Starts q (sign b ∷ []) h (sign-close b [])
line-Starts (Line.join b q l) h =
    pipeline-Starts q (sign b ∷ 0x20 ∷ print_line l) (h.0) (sign-close b (0x20 ∷ print_line l))

parse_juxtaposition-line :
    (fuel : ℕ) (l : Line) (m : ℕ)
    → GoodLine l
    → length (print_line l) < fuel
    → parse_juxtaposition fuel (before (print_line l) (needs_line l m))
      ≡ (some (node_of_line l), before [] m)
unfolding parse_juxtaposition
parse_juxtaposition-line zero l m h k = absurd (omega (arith, k))
parse_juxtaposition-line (suc fuel) (Line.single q) m h k =
    ap (λ r. and_then r (after_pipe (parse_juxtaposition fuel)))
      (parse_pipe-pipeline (suc fuel) q [] m h tt k)
    ∙ after_pipe-end (parse_juxtaposition fuel) (node_of_pipeline q) m
parse_juxtaposition-line (suc zero) (Line.closed b q) m h k =
    absurd (omega (arith, k, length-print_pipeline q (sign b ∷ [])))
parse_juxtaposition-line (suc (suc fuel)) (Line.closed b q) m h k =
    let again = parse_juxtaposition (suc fuel) in
    ap (λ r. and_then r (after_pipe again))
      (parse_pipe-pipeline (suc (suc fuel)) q (sign b ∷ []) (needs_sign b (suc m)) h
        (sign-close b []) k)
    ∙ after_pipe-sign again (node_of_pipeline q) b [] (suc m)
    ∙ after_separator-end fuel (in_background b (node_of_pipeline q)) m
parse_juxtaposition-line (suc fuel) (Line.join b q l) m h k =
    let again = parse_juxtaposition fuel in
    let r : List ℕ = print_line l in
    let n : Node = in_background b (node_of_pipeline q) in
    ap (λ r. and_then r (after_pipe again))
      (parse_pipe-pipeline (suc fuel) q (sign b ∷ 0x20 ∷ r) (needs_sign b (needs_line l (suc m)))
        (h.0) (sign-close b (0x20 ∷ r)) k)
    ∙ after_pipe-sign again (node_of_pipeline q) b (0x20 ∷ r) (needs_line l (suc m))
    ∙ ap (λ q. finish_juxtaposition n (again q))
        (skip-space r (needs_line l (suc m)) (line-Starts l (h.1)))
    ∙ ap (finish_juxtaposition n) (
        parse_juxtaposition-line fuel l (suc m) (h.1)
          (omega (arith, k, length-print_pipeline q (sign b ∷ 0x20 ∷ r))))
    ∙ new_node-some (Node.juxtaposition n (node_of_line l)) [] m

finish_parse-end : (n : Node) (m : ℕ) → finish_parse (some n, before [] m) ≡ (some n, before [] m)
unfolding finish_parse skip_whitespaces
finish_parse-end n m = refl

-- The parser builds the tree of a line of the grammar from its text, where there is memory for the
-- nodes, and takes exactly the nodes that the line needs: words of valid characters with a space behind
-- each, 1 to 15 of them to a command, files behind `>`, and commands joined by `|`, `;` and `&`.
pub parse-print_line :
    (l : Line) (m : ℕ)
    → GoodLine l
    → parse (needs_line l m) (print_line l)
      ≡ (some (node_of_line l), record { cursor = []; result = Result.success; memory = m })
unfolding parse finish_parse
parse-print_line l m h =
    let fuel : ℕ = suc (length (print_line l)) in
    ap (λ p. finish_parse (parse_juxtaposition fuel p))
      (skip-none (print_line l) (needs_line l m) (line-Starts l h))
    ∙ ap finish_parse (parse_juxtaposition-line fuel l m h (omega arith))
    ∙ finish_parse-end (node_of_line l) m
