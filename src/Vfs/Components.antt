-- ===== src/Vfs/Components.antt =====
-- The component list of a path name (kernel/fs/vfs.c). A string is the list of its characters.
-- Nodes of the list hold one component each; the list is in the order of the links.
use chaotix.Base.{
  ℕ, suc, ◌+◌, ◌-◌, Bool, true, false, ◌&&◌, some, List, [], ◌∷◌, ◌++◌, ltb, ◌==◌, if◌then◌else◌,
  length,
}
use chaotix.Base.Outcome.{Outcome, ok, ◌>>=◌}
use chaotix.Base.Memory.{kmalloc}
use chaotix.CString.{same, strcmp, tokens, char_at, rest_of}

abbrev pub slash : ℕ
slash = b'/'

abbrev pub dot : ℕ
dot = b'.'

-- PATH_SEPARATOR_STR
abbrev pub separators : List ℕ
separators = slash ∷ []

unfoldable pub is_absolute_path : List ℕ → Bool
is_absolute_path path = char_at path == slash

-- `path[0] == PATH_SEPARATOR && path[1] == '\0'`
unfoldable pub is_root_path : List ℕ → Bool
is_root_path path = char_at path == slash && char_at (rest_of path) == 0

-- `list_push`: a node, then a copy of the value.
unfoldable pub list_push : ℕ → List (List ℕ) → List ℕ → Outcome (List (List ℕ) × ℕ)
unfolding kmalloc
list_push budget list value = do
  node ← kmalloc budget
  copy ← kmalloc node
  ok (list ++ value ∷ [], copy)

-- `list_pop`: the last node goes.
unfoldable pub list_pop : List (List ℕ) → List (List ℕ)
list_pop [] = []
list_pop (x ∷ []) = []
list_pop (x ∷ y ∷ list) = x ∷ list_pop (y ∷ list)

-- The list built so far, `num_components`, and the calls of `kmalloc` that still succeed.
pub record Build : Type 0 where
  pub list : List (List ℕ)
  pub num_components : ℕ
  pub budget : ℕ

abbrev pushed : Build → List (List ℕ) × ℕ → Build
pushed b (list, budget) = record {
  list = list;
  num_components = b.num_components + 1;
  budget = budget;
}

unfoldable pub push_component : Build → List ℕ → Outcome Build
unfolding list_push
push_component b c = do out ← list_push b.budget b.list c; ok (pushed b out)

-- The loop over the components of the working directory.
unfoldable pub push_cwd : Build → List (List ℕ) → Outcome Build
unfolding push_component
push_cwd b [] = ok b
push_cwd b (c ∷ cs) = push_component b c >>= λ b'. push_cwd b' cs

-- `component[0] == '.' && component[1] == '\0'`
unfoldable pub is_dot : List ℕ → Bool
is_dot c = char_at c == dot && char_at (rest_of c) == 0

unfoldable pub is_dot_dot : List ℕ → Bool
unfolding strcmp
is_dot_dot c = elim (strcmp c (dot ∷ dot ∷ [])) [ same ↦ true | _ ↦ false ]

-- "/.." becomes "/".
unfoldable pub go_up : Build → Build
unfolding list_pop
go_up b =
    if ltb 0 b.num_components
    then record b { list = list_pop b.list; num_components = b.num_components - 1 }
    else b

-- One round of the loop over the components of the path name.
unfoldable pub add_component : Build → List ℕ → Outcome Build
unfolding push_component is_dot is_dot_dot go_up
add_component b c =
    if is_dot c then ok b else if is_dot_dot c then ok (go_up b) else push_component b c

unfoldable pub add_components : Build → List (List ℕ) → Outcome Build
unfolding add_component
add_components b [] = ok b
add_components b (c ∷ cs) = add_component b c >>= λ b'. add_components b' cs

-- The tokens of a copy of the string, by `strtok_r`.
abbrev pub split_path : List ℕ → List (List ℕ)
split_path path = tokens (suc (length path)) (some path) separators

abbrev no_components : ℕ → Build
no_components budget = record { list = []; num_components = 0; budget = budget }

-- A relative path goes on from the working directory, whose text is copied first.
unfoldable pub start_list : ℕ → List ℕ → List ℕ → Outcome Build
unfolding push_cwd kmalloc is_absolute_path
start_list budget cwd path =
    if is_absolute_path path
    then ok (no_components budget)
    else kmalloc budget >>= λ left. push_cwd (no_components left) (split_path cwd)

unfoldable pub create_path_component_list : ℕ → List ℕ → List ℕ → Outcome Build
unfolding start_list add_components is_root_path
create_path_component_list budget cwd path =
    if is_root_path path then ok (no_components budget) else do
      start ← start_list budget cwd path
      left ← kmalloc start.budget
      add_components (record start { budget = left }) (split_path path)

-- The loop that writes the canonical text.
abbrev pub join : List (List ℕ) → List ℕ
join [] = []
join (c ∷ cs) = slash ∷ (c ++ join cs)

unfoldable pub vfs_canonicalize_path : ℕ → List ℕ → List ℕ → Outcome (List ℕ)
unfolding create_path_component_list
vfs_canonicalize_path budget cwd path = do
  built ← create_path_component_list budget cwd path
  left ← kmalloc built.budget
  ok (if built.num_components == 0 then slash ∷ [] else join built.list)
