-- ===== src/Shell/ReadsPipe.antt =====
-- The parser of userland/sh.c reads the commands and pipelines of its grammar, with what may stand
-- behind each.
use chaotix.Base.{
  ℕ, zero, suc, ◌≤◌, ◌<◌, ◌≡◌, refl, ap, ◌∙◌, Bool, true, ◌||◌, Option, none, some, List, [], ◌∷◌,
  ◌++◌, arith, ◌==◌, ==_refl, length, length-append,
}
use chaotix.Shell.Parser.{
  Result, Node, Parser, Parsed, skip_whitespaces, consume_if, fail, new_node, parse_target,
  after_execute, and_then, parse_redirect, finish_pipe, after_redirect, parse_pipe,
}
use chaotix.Shell.Grammar.{
  Stage, Pipeline, GoodWord, GoodTarget, GoodStage, GoodPipeline, print_words, print_target,
  print_stage, print_pipeline, node_of_target, node_of_stage, node_of_pipeline, needs_target,
  needs_stage, needs_pipeline,
}
use chaotix.Shell.Reads.{
  before, Stops, Starts, Sign, skip-space, skip-none, parse_filename-word, word-Starts,
  words-Starts, with_word, with_char, new_node-some, parse_execute-words,
}

-- The text is empty or starts with such a character.
abbrev pub Follows : (ℕ → Bool) → List ℕ → Type 0
Follows t [] = Unit
Follows t (c ∷ s) = t c ≡ true

-- What stands behind a command, and behind a pipeline.
abbrev pub is_follow : ℕ → Bool
is_follow c = c == 0x7c || c == 0x26 || c == 0x3b

abbrev pub is_close : ℕ → Bool
is_close c = c == 0x26 || c == 0x3b

follow-Sign : (s : List ℕ) → Follows is_follow s → Sign s
follow-Sign [] h = (tt, tt)
follow-Sign (c ∷ s) h = (ground arith, ground arith)

pub close-follow : (s : List ℕ) → Follows is_close s → Follows is_follow s
close-follow [] h = tt
close-follow (c ∷ s) h = ground arith

pub consume_if_self : (c : ℕ) (s : List ℕ) → consume_if c (c ∷ s) ≡ some s
unfolding consume_if
consume_if_self c s = simp (==_refl c)

pub consume_if_other : (c : ℕ) (s : List ℕ) → Stops (λ d. d == c) s → consume_if c s ≡ none
unfolding consume_if
consume_if_other c [] h = refl
consume_if_other c (d ∷ s) h = simp h

follow-not_redirect : (s : List ℕ) → Follows is_follow s → Stops (λ d. d == 0x3e) s
follow-not_redirect [] h = tt
follow-not_redirect (c ∷ s) h = ground arith

close-not_pipe : (s : List ℕ) → Follows is_close s → Stops (λ d. d == 0x7c) s
close-not_pipe [] h = tt
close-not_pipe (c ∷ s) h = ground arith

-- The space behind the file of a `>` is left over.
abbrev trail : Option (List ℕ) → List ℕ → List ℕ
trail none s = s
trail (some w) s = 0x20 ∷ s

skip-trail :
    (t : Option (List ℕ)) (s : List ℕ) (m : ℕ)
    → Starts s
    → skip_whitespaces (before (trail t s) m) ≡ before s m
skip-trail none s m h = skip-none s m h
skip-trail (some w) s m h = skip-space s m h

target-Sign : (t : Option (List ℕ)) (s : List ℕ) → Follows is_follow s → Sign (print_target t s)
target-Sign none s h = follow-Sign s h
target-Sign (some w) s h = (refl, refl)

parse_target-word :
    (from : Node) (w s : List ℕ) (m : ℕ)
    → GoodWord w
    → parse_target from (before (w ++ (0x20 ∷ s)) (suc m))
      ≡ (some (Node.redirect from w), before (0x20 ∷ s) m)
unfolding parse_target
parse_target-word from w s m h =
    ap
      (with_word (fail Result.syntax_error (before (w ++ (0x20 ∷ s)) (suc m)))
        (λ to q. new_node (Node.redirect from to) q))
      (parse_filename-word w s (suc m) h)
    ∙ new_node-some (Node.redirect from w) (0x20 ∷ s) m

-- `after_execute` behind the white space.
abbrev redirect_at : Node → Parser → Parsed
redirect_at from q =
    with_char (some from, q) (λ s. parse_target from (skip_whitespaces (record q { cursor = s })))
      (consume_if 0x3e q.cursor)

after_execute-target :
    (from : Node) (t : Option (List ℕ)) (s : List ℕ) (m : ℕ)
    → GoodTarget t
    → Follows is_follow s
    → after_execute from (before (print_target t s) (needs_target t m))
      ≡ (some (node_of_target from t), before (trail t s) m)
unfolding after_execute
after_execute-target from none s m h k =
    ap (redirect_at from) (skip-none s m ((follow-Sign s k).1))
    ∙ ap
        (with_char (some from, before s m) (λ r. parse_target from (skip_whitespaces (before r m))))
        (consume_if_other 0x3e s (follow-not_redirect s k))
after_execute-target from (some w) s m h k =
    let r : List ℕ = 0x20 ∷ (w ++ (0x20 ∷ s)) in
    ap (redirect_at from) (skip-none (0x3e ∷ r) (suc m) refl)
    ∙ ap
        (with_char (some from, before (0x3e ∷ r) (suc m))
          (λ u. parse_target from (skip_whitespaces (before u (suc m)))))
        (consume_if_self 0x3e r)
    ∙ ap (parse_target from) (skip-space (w ++ (0x20 ∷ s)) (suc m) (word-Starts w (0x20 ∷ s) h))
    ∙ parse_target-word from w s m h

parse_redirect-stage :
    (st : Stage) (s : List ℕ) (m : ℕ)
    → GoodStage st
    → Follows is_follow s
    → parse_redirect (before (print_stage st s) (needs_stage st m))
      ≡ (some (node_of_stage st), before (trail st.target s) m)
unfolding parse_redirect
parse_redirect-stage st s m (l, b, h, t) k =
    ap (λ r. and_then r after_execute)
      (parse_execute-words st.words (print_target st.target s) (needs_target st.target m) l b h
        (target-Sign st.target s k))
    ∙ after_execute-target (Node.execute st.words) st.target s m t k

stage-Starts :
    (st : Stage) (s : List ℕ) → GoodStage st → Follows is_follow s → Starts (print_stage st s)
stage-Starts st s (l, b, h, t) k =
    words-Starts st.words (print_target st.target s) h ((target-Sign st.target s k).1)

pub pipeline-Starts :
    (q : Pipeline) (s : List ℕ) → GoodPipeline q → Follows is_close s → Starts (print_pipeline q s)
pipeline-Starts (Pipeline.only st) s h k = stage-Starts st s h (close-follow s k)
pipeline-Starts (Pipeline.into st q) s h k =
    stage-Starts st (0x7c ∷ 0x20 ∷ print_pipeline q s) (h.0) refl

length-print_words : (ws : List (List ℕ)) (s : List ℕ) → length s ≤ length (print_words ws s)
length-print_words [] s = omega arith
length-print_words (w ∷ ws) s =
    omega (arith, length-print_words ws s, length-append w (0x20 ∷ print_words ws s))

length-print_target : (t : Option (List ℕ)) (s : List ℕ) → length s ≤ length (print_target t s)
length-print_target none s = omega arith
length-print_target (some w) s = omega (arith, length-append w (0x20 ∷ s))

length-print_stage : (st : Stage) (s : List ℕ) → length s ≤ length (print_stage st s)
length-print_stage st s =
    omega (
      arith,
      length-print_target st.target s,
      length-print_words st.words (print_target st.target s),
    )

pub length-print_pipeline : (q : Pipeline) (s : List ℕ) → length s ≤ length (print_pipeline q s)
length-print_pipeline (Pipeline.only st) s = length-print_stage st s
length-print_pipeline (Pipeline.into st q) s =
    omega
      (arith, length-print_pipeline q s, length-print_stage st (0x7c ∷ 0x20 ∷ print_pipeline q s))

-- `after_redirect` behind the white space.
abbrev pipe_at : (Parser → Parsed) → Node → Parser → Parsed
pipe_at again left q =
    with_char (some left, q)
      (λ s. finish_pipe left (again (skip_whitespaces (record q { cursor = s }))))
      (consume_if 0x7c q.cursor)

after_redirect-end :
    (again : Parser → Parsed) (n : Node) (t : Option (List ℕ)) (s : List ℕ) (m : ℕ)
    → Follows is_close s
    → after_redirect again n (before (trail t s) m) ≡ (some n, before s m)
unfolding after_redirect
after_redirect-end again n t s m h =
    ap (pipe_at again n) (skip-trail t s m ((follow-Sign s (close-follow s h)).1))
    ∙ ap
        (with_char (some n, before s m)
          (λ r. finish_pipe n (again (skip_whitespaces (before r m)))))
        (consume_if_other 0x7c s (close-not_pipe s h))

after_redirect-pipe :
    (again : Parser → Parsed) (n : Node) (t : Option (List ℕ)) (s : List ℕ) (m : ℕ)
    → Starts s
    → after_redirect again n (before (trail t (0x7c ∷ 0x20 ∷ s)) m)
      ≡ finish_pipe n (again (before s m))
unfolding after_redirect
after_redirect-pipe again n t s m h =
    let r : List ℕ = 0x20 ∷ s in
    ap (pipe_at again n) (skip-trail t (0x7c ∷ r) m refl)
    ∙ ap
        (with_char (some n, before (0x7c ∷ r) m)
          (λ u. finish_pipe n (again (skip_whitespaces (before u m)))))
        (consume_if_self 0x7c r)
    ∙ ap (λ q. finish_pipe n (again q)) (skip-space s m h)

pub parse_pipe-pipeline :
    (fuel : ℕ) (q : Pipeline) (s : List ℕ) (m : ℕ)
    → GoodPipeline q
    → Follows is_close s
    → length (print_pipeline q s) < fuel
    → parse_pipe fuel (before (print_pipeline q s) (needs_pipeline q m))
      ≡ (some (node_of_pipeline q), before s m)
unfolding parse_pipe
parse_pipe-pipeline zero q s m h k l = absurd (omega (arith, l))
parse_pipe-pipeline (suc fuel) (Pipeline.only st) s m h k l =
    ap (λ r. and_then r (after_redirect (parse_pipe fuel)))
      (parse_redirect-stage st s m h (close-follow s k))
    ∙ after_redirect-end (parse_pipe fuel) (node_of_stage st) st.target s m k
parse_pipe-pipeline (suc fuel) (Pipeline.into st q) s m h k l =
    let r : List ℕ = print_pipeline q s in
    let n : Node = node_of_stage st in
    ap (λ r. and_then r (after_redirect (parse_pipe fuel)))
      (parse_redirect-stage st (0x7c ∷ 0x20 ∷ r) (needs_pipeline q (suc m)) (h.0) refl)
    ∙ after_redirect-pipe (parse_pipe fuel) n st.target r (needs_pipeline q (suc m))
        (pipeline-Starts q s (h.1) k)
    ∙ ap (finish_pipe n) (
        parse_pipe-pipeline fuel q s (suc m) (h.1) k
          (omega (arith, l, length-print_stage st (0x7c ∷ 0x20 ∷ r))))
    ∙ new_node-some (Node.pipe n (node_of_pipeline q)) s m
