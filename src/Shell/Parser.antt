-- ===== src/Shell/Parser.antt =====
-- The parser of a command line (`struct parser` and the functions parse_*). The line is the list of its
-- characters from the cursor on; behind its end lies the NUL. `memory` counts the calls of malloc that
-- succeed. A word is its text: null_terminate puts a NUL behind each, where the line has a character
-- that belongs to no word.
use chaotix.Base.{
  ℕ, zero, suc, ◌-◌, Bool, true, false, ◌&&◌, ◌||◌, Option, none, some, List, [], ◌∷◌, ◌++◌, leb,
  ◌==◌, if◌then◌else◌, length,
}
use chaotix.CString.{is_space}

-- `RESULT_*`, and the end of the model's fuel, which has no counterpart in the program.
pub data Result : Type 0 where
  success empty nomem_error syntax_error too_many_args_error out_of_fuel : Result

pub data Node : Type 0 where
  execute : List (List ℕ) → Node
  juxtaposition : Node → Node → Node
  pipe : Node → Node → Node
  redirect : Node → List ℕ → Node
  background : Node → Node

pub record Parser : Type 0 where
  pub cursor : List ℕ
  pub result : Result
  pub memory : ℕ

abbrev pub Parsed : Type 0
Parsed = Option Node × Parser

abbrev pub max_argc : ℕ
max_argc = 16

-- A space and the characters > | & and ; end a word.
abbrev pub is_valid_filename_character : ℕ → Bool
is_valid_filename_character c =
    if c == 0x3e || c == 0x20 || c == 0x7c || c == 0x26 || c == 0x3b
    then false
    else leb 0x20 c && leb c 0x7e

-- `consume_while`: the characters that meet the test, and the rest. The tests fail at the NUL.
unfoldable pub span : (ℕ → Bool) → List ℕ → List ℕ × List ℕ
span cond [] = ([], [])
span cond (c ∷ s) = let r = span cond s in if cond c then (c ∷ r.0, r.1) else ([], c ∷ s)

unfoldable pub skip_whitespaces : Parser → Parser
unfolding span
skip_whitespaces p = record p { cursor = (span is_space p.cursor).1 }

-- `parse_filename`: NULL where no character meets the test.
unfoldable pub parse_filename : Parser → Option (List ℕ × Parser)
unfolding span
parse_filename p =
    let r = span is_valid_filename_character p.cursor in
    elim r.0 [ [] ↦ none | c ∷ w ↦ some (c ∷ w, record p { cursor = r.1 }) ]

-- `consume_if`: the parser behind the character.
unfoldable pub consume_if : ℕ → List ℕ → Option (List ℕ)
consume_if c [] = none
consume_if c (d ∷ s) = if d == c then some s else none

abbrev pub fail : Result → Parser → Parsed
fail r p = (none, record p { result = r })

-- malloc, and the node in it.
unfoldable pub new_node : Node → Parser → Parsed
new_node n p =
    if p.memory == 0
    then fail Result.nomem_error p
    else (some n, record p { memory = p.memory - 1 })

abbrev pub finish_execute : List (List ℕ) → Parser → Parsed
finish_execute [] p = fail Result.empty p
finish_execute (w ∷ ws) p = (some (Node.execute (w ∷ ws)), p)

-- The loop of `parse_execute`: the number is `MAX_ARGC - i`.
unfoldable pub parse_args : ℕ → List (List ℕ) → Parser → Parsed
unfolding parse_filename skip_whitespaces
parse_args zero args p = fail Result.too_many_args_error p
parse_args (suc room) args p = elim (parse_filename p) [
  | none ↦ finish_execute args p
  | some (arg, q) ↦ parse_args room (args ++ (arg ∷ [])) (skip_whitespaces q)
]

unfoldable pub parse_execute : Parser → Parsed
unfolding parse_args
parse_execute p =
    if p.memory == 0
    then fail Result.nomem_error p
    else parse_args max_argc [] (record p { memory = p.memory - 1 })

-- Behind the `>`.
unfoldable pub parse_target : Node → Parser → Parsed
unfolding parse_filename new_node
parse_target from p = elim (parse_filename p) [
  | none ↦ fail Result.syntax_error p
  | some (to, q) ↦ new_node (Node.redirect from to) q
]

unfoldable pub after_execute : Node → Parser → Parsed
unfolding skip_whitespaces consume_if parse_target
after_execute from p =
    let q : Parser = skip_whitespaces p in
    elim (consume_if 0x3e q.cursor) [
      | none ↦ (some from, q)
      | some s ↦ parse_target from (skip_whitespaces (record q { cursor = s }))
    ]

-- A failure is passed on.
abbrev pub and_then : Parsed → (Node → Parser → Parsed) → Parsed
and_then (none, p) f = (none, p)
and_then (some n, p) f = f n p

unfoldable pub parse_redirect : Parser → Parsed
unfolding parse_execute after_execute
parse_redirect p = and_then (parse_execute p) after_execute

abbrev pub empty_to : Result → Result → Result
empty_to other Result.empty = other
empty_to other r = r

-- A pipe with nothing behind it is an error.
abbrev pub finish_pipe : Node → Parsed → Parsed
finish_pipe left (none, p) = (none, record p { result = empty_to Result.syntax_error p.result })
finish_pipe left (some right, p) = new_node (Node.pipe left right) p

-- `again` is the recursive call.
unfoldable pub after_redirect : (Parser → Parsed) → Node → Parser → Parsed
unfolding skip_whitespaces consume_if new_node
after_redirect again left p =
    let q : Parser = skip_whitespaces p in
    elim (consume_if 0x7c q.cursor) [
      | none ↦ (some left, q)
      | some s ↦ finish_pipe left (again (skip_whitespaces (record q { cursor = s })))
    ]

unfoldable pub parse_pipe : ℕ → Parser → Parsed
unfolding parse_redirect after_redirect
parse_pipe zero p = fail Result.out_of_fuel p
parse_pipe (suc fuel) p = and_then (parse_redirect p) (after_redirect (parse_pipe fuel))

-- Nothing behind the separator is no error; after any other the left command is returned all the same.
abbrev pub finish_juxtaposition : Node → Parsed → Parsed
finish_juxtaposition left (none, p) =
    (some left, record p { result = empty_to Result.success p.result })
finish_juxtaposition left (some right, p) = new_node (Node.juxtaposition left right) p

unfoldable pub after_separator : (Parser → Parsed) → Node → Parser → Parsed
unfolding skip_whitespaces new_node
after_separator again left p = finish_juxtaposition left (again (skip_whitespaces p))

unfoldable pub after_pipe : (Parser → Parsed) → Node → Parser → Parsed
unfolding skip_whitespaces consume_if new_node after_separator
after_pipe again left p =
    let q : Parser = skip_whitespaces p in
    elim (consume_if 0x26 q.cursor) [
      | some s ↦
          and_then (new_node (Node.background left) (record q { cursor = s }))
            (after_separator again)
      | none ↦ elim (consume_if 0x3b q.cursor) [
        | some s ↦ after_separator again left (record q { cursor = s })
        | none ↦ (some left, q)
      ]
    ]

unfoldable pub parse_juxtaposition : ℕ → Parser → Parsed
unfolding parse_pipe after_pipe
parse_juxtaposition zero p = fail Result.out_of_fuel p
parse_juxtaposition (suc fuel) p =
    and_then (parse_pipe (suc fuel) p) (after_pipe (parse_juxtaposition fuel))

-- `peek(parser) != 0`.
abbrev pub at_end : List ℕ → Bool
at_end [] = true
at_end (c ∷ s) = c == 0

unfoldable pub finish_parse : Parsed → Parsed
unfolding skip_whitespaces
finish_parse (n, p) =
    let q : Parser = skip_whitespaces p in
    if at_end q.cursor then (n, q) else fail Result.syntax_error q

unfoldable pub parse : ℕ → List ℕ → Parsed
unfolding parse_juxtaposition finish_parse skip_whitespaces
parse memory line = finish_parse (
    parse_juxtaposition (suc (length line))
      (skip_whitespaces (record { cursor = line; result = Result.success; memory = memory })))
