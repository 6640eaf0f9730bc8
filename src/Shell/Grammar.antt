-- ===== src/Shell/Grammar.antt =====
-- The command lines of the shell (userland/sh.c) as their grammar: what a line says, the text that says
-- it, and the tree that the parser is to build.
use chaotix.Base.{
  ℕ, suc, ◌<◌, ◌≡◌, Bool, true, false, Option, none, some, List, [], ◌∷◌, ◌++◌, length,
}
use chaotix.Base.All.{All}
use chaotix.Shell.Parser.{Node, is_valid_filename_character}

-- A command: its words, and the file behind a `>`.
pub record Stage : Type 0 where
  pub words : List (List ℕ)
  pub target : Option (List ℕ)

-- Commands with a `|` between them.
pub data Pipeline : Type 0 where
  only : Stage → Pipeline
  into : Stage → Pipeline → Pipeline

-- Pipelines behind each other: with true, an `&` is behind the first, and a `;` with false.
pub data Line : Type 0 where
  single : Pipeline → Line
  closed : Bool → Pipeline → Line
  join : Bool → Pipeline → Line → Line

-- A word that the parser reads as one.
abbrev pub GoodWord : List ℕ → Type 0
GoodWord [] = ⊥
GoodWord (c ∷ w) = All (λ d. is_valid_filename_character d ≡ true) (c ∷ w)

abbrev pub GoodTarget : Option (List ℕ) → Type 0
GoodTarget none = Unit
GoodTarget (some w) = GoodWord w

-- There is a place less than `MAX_ARGC` for the words.
abbrev pub GoodStage : Stage → Type 0
GoodStage st =
    (0 < length st.words) × (length st.words < 16) × All GoodWord st.words × GoodTarget st.target

abbrev pub GoodPipeline : Pipeline → Type 0
GoodPipeline (Pipeline.only st) = GoodStage st
GoodPipeline (Pipeline.into st q) = GoodStage st × GoodPipeline q

abbrev pub GoodLine : Line → Type 0
GoodLine (Line.single q) = GoodPipeline q
GoodLine (Line.closed b q) = GoodPipeline q
GoodLine (Line.join b q l) = GoodPipeline q × GoodLine l

-- The text, with `s` behind it. A space is behind each word and each sign.
abbrev pub print_words : List (List ℕ) → List ℕ → List ℕ
print_words [] s = s
print_words (w ∷ ws) s = w ++ (0x20 ∷ print_words ws s)

abbrev pub print_target : Option (List ℕ) → List ℕ → List ℕ
print_target none s = s
print_target (some w) s = 0x3e ∷ 0x20 ∷ (w ++ (0x20 ∷ s))

abbrev pub print_stage : Stage → List ℕ → List ℕ
print_stage st s = print_words st.words (print_target st.target s)

abbrev pub print_pipeline : Pipeline → List ℕ → List ℕ
print_pipeline (Pipeline.only st) s = print_stage st s
print_pipeline (Pipeline.into st q) s = print_stage st (0x7c ∷ 0x20 ∷ print_pipeline q s)

abbrev pub sign : Bool → ℕ
sign true = 0x26
sign false = 0x3b

abbrev pub print_line : Line → List ℕ
print_line (Line.single q) = print_pipeline q []
print_line (Line.closed b q) = print_pipeline q (sign b ∷ [])
print_line (Line.join b q l) = print_pipeline q (sign b ∷ 0x20 ∷ print_line l)

-- The tree.
abbrev pub node_of_target : Node → Option (List ℕ) → Node
node_of_target n none = n
node_of_target n (some w) = Node.redirect n w

abbrev pub node_of_stage : Stage → Node
node_of_stage st = node_of_target (Node.execute st.words) st.target

abbrev pub node_of_pipeline : Pipeline → Node
node_of_pipeline (Pipeline.only st) = node_of_stage st
node_of_pipeline (Pipeline.into st q) = Node.pipe (node_of_stage st) (node_of_pipeline q)

abbrev pub in_background : Bool → Node → Node
in_background true n = Node.background n
in_background false n = n

abbrev pub node_of_line : Line → Node
node_of_line (Line.single q) = node_of_pipeline q
node_of_line (Line.closed b q) = in_background b (node_of_pipeline q)
node_of_line (Line.join b q l) =
    Node.juxtaposition (in_background b (node_of_pipeline q)) (node_of_line l)

-- The nodes that must be free for `m` to be left: one for each node of the tree, and one behind a last
-- sign, where the parser looks for another command.
abbrev pub needs_target : Option (List ℕ) → ℕ → ℕ
needs_target none m = m
needs_target (some w) m = suc m

abbrev pub needs_stage : Stage → ℕ → ℕ
needs_stage st m = suc (needs_target st.target m)

abbrev pub needs_pipeline : Pipeline → ℕ → ℕ
needs_pipeline (Pipeline.only st) m = needs_stage st m
needs_pipeline (Pipeline.into st q) m = needs_stage st (needs_pipeline q (suc m))

abbrev pub needs_sign : Bool → ℕ → ℕ
needs_sign true m = suc m
needs_sign false m = m

abbrev pub needs_line : Line → ℕ → ℕ
needs_line (Line.single q) m = needs_pipeline q m
needs_line (Line.closed b q) m = needs_pipeline q (needs_sign b (suc m))
needs_line (Line.join b q l) m = needs_pipeline q (needs_sign b (needs_line l (suc m)))
