-- ===== src/Shell/ParserTests.antt =====
-- The parser of userland/sh.c on concrete command lines.
use chaotix.Base.{◌≡◌, refl, ◌≢◌, true, false, none, some, [], ◌∷◌, arith}
use chaotix.Base.Text.{codes}
use chaotix.Shell.Parser.{Result, parse}
use chaotix.Shell.Grammar.{Pipeline, Line, GoodLine, node_of_line, needs_line, print_line}
use chaotix.Shell.Fuel.{parse-ne-out_of_fuel}
use chaotix.Shell.ReadsLine.{parse-print_line}

-- `ls -l | wc > n & ps;`
abbrev two_commands : Line
two_commands =
    Line.join true
      (Pipeline.into (record { words = (codes "ls") ∷ (codes "-l") ∷ []; target = none })
        (Pipeline.only (record { words = (codes "wc") ∷ []; target = some (codes "n") })))
      (Line.closed false (Pipeline.only (record { words = (codes "ps") ∷ []; target = none })))

print_two_commands : print_line two_commands ≡ codes "ls -l | wc > n & ps ;"
print_two_commands = refl

two_commands-Good : GoodLine two_commands
two_commands-Good = (
  (
    (omega arith, omega arith, ((refl, (refl, tt)), ((refl, (refl, tt)), tt)), tt),
    (omega arith, omega arith, ((refl, (refl, tt)), tt), (refl, tt)),
  ),
  (omega arith, omega arith, ((refl, (refl, tt)), tt), tt),
)

parse-print_line_example : parse (needs_line two_commands 5) (print_line two_commands) ≡ (
  some (node_of_line two_commands),
  record { cursor = []; result = Result.success; memory = 5 },
)
parse-print_line_example = parse-print_line two_commands 5 two_commands-Good

parse-ne-out_of_fuel_example : (parse 3 (codes "a | b ; c >")).1.result ≢ Result.out_of_fuel
parse-ne-out_of_fuel_example = parse-ne-out_of_fuel 3 (codes "a | b ; c >")
