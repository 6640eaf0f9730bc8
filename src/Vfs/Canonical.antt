-- ===== src/Vfs/Canonical.antt =====
-- What `vfs_canonicalize_path` computes, against a description of path resolution on lists.
use chaotix.Base.{
  ℕ, zero, suc, ◌+◌, ◌-◌, ◌*◌, ◌≤◌, ◌<◌, ◌≡◌, refl, ap, ◌⊎◌, inl, inr, true, false, List, [], ◌∷◌,
  ◌++◌, append-nil, append_assoc, arith, ltb, ◌==◌, if◌then◌else◌, Bool-cases, length,
  length-append,
}
use chaotix.Base.Outcome.{Errno, Outcome, ok, err, panic, ◌>>=◌}
use chaotix.Base.Memory.{kmalloc}
use chaotix.CString.{c_str, is_separator}
use chaotix.CString.Tokenize.{words, fields, tokens-words}
use chaotix.Vfs.Components.{
  Build, list_pop, push_component, push_cwd, go_up, add_component, add_components, start_list,
  create_path_component_list, vfs_canonicalize_path, join, is_dot, is_dot_dot, is_root_path,
  is_absolute_path, slash, separators, split_path,
}

-- The components of a text: its fields between slashes, less the empty ones.
abbrev pub components : List ℕ → List (List ℕ)
components path = words (is_separator separators) (c_str path)

-- "." stays, ".." goes up, and stays at the root; any other component goes down.
abbrev pub resolve_one : List (List ℕ) → List ℕ → List (List ℕ)
resolve_one dir c = if is_dot c then dir else if is_dot_dot c then list_pop dir else dir ++ c ∷ []

abbrev pub resolve : List (List ℕ) → List (List ℕ) → List (List ℕ)
resolve dir [] = dir
resolve dir (c ∷ cs) = resolve (resolve_one dir c) cs

-- The components that a path name stands for.
unfoldable pub target : List ℕ → List ℕ → List (List ℕ)
target cwd path = resolve (if is_absolute_path path then [] else components cwd) (components path)

-- The text of a list of components.
abbrev pub render : List (List ℕ) → List ℕ
render [] = slash ∷ []
render (c ∷ cs) = join (c ∷ cs)

-- What a step makes that needs at most `need` calls of `kmalloc`: a list whose components are `dir`,
-- or ENOMEM.
abbrev Builds : List (List ℕ) → ℕ → ℕ → Outcome Build → Type 0
Builds dir budget need (ok b) =
    (b.list ≡ dir) × (b.num_components ≡ length dir) × (budget ≤ b.budget + need)
Builds dir budget need (err e) = (e ≡ Errno.enomem) × (budget < need)
Builds dir budget need panic = ⊥

-- A step and what follows it.
Builds-then :
    (dir dir' : List (List ℕ)) (budget need more : ℕ) (out : Outcome Build)
    (f : Build → Outcome Build)
    → Builds dir budget need out
    → ((b : Build) → Builds dir b.budget 0 (ok b) → Builds dir' b.budget more (f b))
    → Builds dir' budget (need + more) (out >>= f)
Builds-then dir dir' budget need more (ok b) f h k = go (f b) (k b (h.0, h.1, omega arith))
  where
    go : (o : Outcome Build) → Builds dir' b.budget more o → Builds dir' budget (need + more) o
    go (ok c) g = (g.0, g.1, omega (arith, h.2, g.2))
    go (err e) g = (g.0, omega (arith, h.2, g.1))
    go panic g = g
Builds-then dir dir' budget need more (err e) f h k = (h.0, omega (arith, h.1))
Builds-then dir dir' budget need more panic f h k = h

-- One call of `kmalloc` and what follows it.
kmalloc-Builds :
    (dir : List (List ℕ)) (budget need : ℕ) (f : ℕ → Outcome Build)
    → ((left : ℕ) → Builds dir left need (f left))
    → Builds dir budget (1 + need) (kmalloc budget >>= f)
unfolding kmalloc
kmalloc-Builds dir zero need f k = (refl, omega arith)
kmalloc-Builds dir (suc left) need f k = one_more (f left) (k left)
  where
    one_more : (o : Outcome Build) → Builds dir left need o → Builds dir (suc left) (1 + need) o
    one_more (ok b) h = (h.0, h.1, omega (arith, h.2))
    one_more (err e) h = (h.0, omega (arith, h.1))
    one_more panic h = h

push_component-Builds :
    (dir : List (List ℕ)) (b : Build) (c : List ℕ)
    → Builds dir b.budget 0 (ok b)
    → Builds (dir ++ c ∷ []) b.budget 2 (push_component b c)
unfolding push_component
push_component-Builds dir b c h = go b.budget
  where
    go : (n : ℕ) → Builds (dir ++ c ∷ []) n 2 (push_component (record b { budget = n }) c)
    go zero = (refl, omega arith)
    go (suc zero) = (refl, omega arith)
    go (suc (suc n)) = (rw h.0, omega (arith, h.1, length-append dir (c ∷ [])), omega arith)

push_cwd-Builds :
    (dir : List (List ℕ)) (b : Build) (cs : List (List ℕ))
    → Builds dir b.budget 0 (ok b)
    → Builds (dir ++ cs) b.budget (2 * length cs) (push_cwd b cs)
unfolding push_cwd
push_cwd-Builds dir b [] h = (rw (append-nil dir) h.0, rw (append-nil dir) h.1, omega arith)
push_cwd-Builds dir b (c ∷ cs) h =
    let cost : 2 * suc (length cs) ≡ 2 + 2 * length cs = omega arith in
    rw (cost, ← append_assoc dir (c ∷ []) cs)
      (Builds-then (dir ++ c ∷ []) ((dir ++ c ∷ []) ++ cs) b.budget 2 (2 * length cs) _ _
        (push_component-Builds dir b c h) (λ b' h'. push_cwd-Builds (dir ++ c ∷ []) b' cs h'))

length-list_pop : (dir : List (List ℕ)) → length (list_pop dir) ≡ length dir - 1
unfolding list_pop
length-list_pop [] = omega arith
length-list_pop (x ∷ []) = omega arith
length-list_pop (x ∷ y ∷ dir) = omega (arith, length-list_pop (y ∷ dir))

list_pop-empty : (dir : List (List ℕ)) → length dir ≡ 0 → list_pop dir ≡ dir
unfolding list_pop
list_pop-empty [] e = refl
list_pop-empty (x ∷ dir) e = absurd (omega arith)

go_up-Builds :
    (dir : List (List ℕ)) (b : Build)
    → Builds dir b.budget 0 (ok b)
    → Builds (list_pop dir) b.budget 0 (ok (go_up b))
unfolding go_up
go_up-Builds dir b h = elim (Bool-cases (ltb 0 b.num_components)) [
  | inl some_left ↦ rw some_left (ap list_pop h.0, omega (arith, h.1, length-list_pop dir), h.2)
  | inr nothing ↦
      let none_there : length dir ≡ 0 = ground arith in
      rw (nothing, list_pop-empty dir none_there) h
]

add_component-Builds :
    (dir : List (List ℕ)) (b : Build) (c : List ℕ)
    → Builds dir b.budget 0 (ok b)
    → Builds (resolve_one dir c) b.budget 2 (add_component b c)
unfolding add_component
add_component-Builds dir b c h = elim (Bool-cases (is_dot c)) [
  | inl d ↦ simp d (h.0, h.1, omega arith)
  | inr n ↦ elim (Bool-cases (is_dot_dot c)) [
    | inl d ↦ let up = go_up-Builds dir b h in simp (n, d) (up.0, up.1, omega (arith, up.2))
    | inr m ↦ simp (n, m) (push_component-Builds dir b c h)
  ]
]

add_components-Builds :
    (dir : List (List ℕ)) (b : Build) (cs : List (List ℕ))
    → Builds dir b.budget 0 (ok b)
    → Builds (resolve dir cs) b.budget (2 * length cs) (add_components b cs)
unfolding add_components
add_components-Builds dir b [] h = (h.0, h.1, omega arith)
add_components-Builds dir b (c ∷ cs) h =
    let cost : 2 * suc (length cs) ≡ 2 + 2 * length cs = omega arith in
    rw cost (
      Builds-then (resolve_one dir c) (resolve (resolve_one dir c) cs) b.budget 2 (2 * length cs) _
        _ (add_component-Builds dir b c h)
        (λ b' h'. add_components-Builds (resolve_one dir c) b' cs h'))

split_path-components : (path : List ℕ) → split_path path ≡ components path
split_path-components path = tokens-words separators (suc (length path)) path (omega arith)

-- The number of calls of `kmalloc` that the working directory and the path name ask for.
abbrev pub calls_needed : List ℕ → List ℕ → ℕ
calls_needed cwd path = 3 + 2 * length (components cwd) + 2 * length (components path)

start_list-Builds :
    (budget : ℕ) (cwd path : List ℕ)
    → Builds
        (if is_absolute_path path then [] else components cwd)
        budget
        (1 + 2 * length (components cwd))
        (start_list budget cwd path)
unfolding start_list
start_list-Builds budget cwd path = elim (Bool-cases (is_absolute_path path)) [
  | inl a ↦ simp a (refl, refl, omega arith)
  | inr r ↦
      simp (r, split_path-components cwd)
        (kmalloc-Builds (components cwd) budget (2 * length (components cwd)) _ (λ left.
          push_cwd-Builds [] (record { list = []; num_components = 0; budget = left })
            (components cwd) (refl, refl, omega arith)))
]

root_path-c_str : (path : List ℕ) → is_root_path path ≡ true → c_str path ≡ slash ∷ []
unfolding is_root_path
root_path-c_str [] h = ground arith
root_path-c_str (c ∷ []) h = ground arith
root_path-c_str (c ∷ d ∷ path) h = ground arith

root_path-is_absolute : (path : List ℕ) → is_root_path path ≡ true → is_absolute_path path ≡ true
unfolding is_root_path is_absolute_path
root_path-is_absolute path h = ground arith

-- A path name that is "/" has no components.
root_path-target : (cwd path : List ℕ) → is_root_path path ≡ true → target cwd path ≡ []
unfolding target fields is_separator
root_path-target cwd path h = rw (root_path-is_absolute path h, root_path-c_str path h)

create_path_component_list-Builds :
    (budget : ℕ) (cwd path : List ℕ)
    → Builds
        (target cwd path)
        budget
        (2 + 2 * length (components cwd) + 2 * length (components path))
        (create_path_component_list budget cwd path)
unfolding create_path_component_list target
create_path_component_list-Builds budget cwd path = elim (Bool-cases (is_root_path path)) [
  | inl r ↦ simp (r, root_path-target cwd path r) (refl, refl, omega arith)
  | inr n ↦
      let dir : List (List ℕ) = if is_absolute_path path then [] else components cwd in
      let cost : 2 + 2 * length (components cwd) + 2 * length (components path)
          ≡ (1 + 2 * length (components cwd)) + (1 + 2 * length (components path)) =
        omega arith in
      rw cost (
        simp (n, split_path-components path)
          (Builds-then dir (resolve dir (components path)) budget (1 + 2 * length (components cwd))
            (1 + 2 * length (components path)) _ _ (start_list-Builds budget cwd path)
            (λ b h.
              kmalloc-Builds (resolve dir (components path)) b.budget (2 * length (components path))
                _
                (λ left.
                  add_components-Builds dir (record b { budget = left }) (components path)
                    (h.0, h.1, omega arith)))))
]

canonicalize-cases :
    (budget : ℕ) (cwd path : List ℕ) (out : Outcome Build)
    → Builds
        (target cwd path)
        budget
        (2 + 2 * length (components cwd) + 2 * length (components path))
        out
    → let result =
        (out >>= λ b. kmalloc b.budget >>= λ left.
        ok (if b.num_components == 0 then slash ∷ [] else join b.list)) in
      (result ≡ ok (render (target cwd path)))
      ⊎ ((budget < calls_needed cwd path) × (result ≡ err Errno.enomem))
unfolding kmalloc
canonicalize-cases budget cwd path (ok b) h = go b.budget h.2
  where
    text :
        (dir : List (List ℕ))
        → b.list ≡ dir
        → b.num_components ≡ length dir
        → (if b.num_components == 0 then slash ∷ [] else join b.list) ≡ render dir
    text [] e n = ground arith
    text (c ∷ dir) e n = let z : (b.num_components == 0) ≡ false = ground arith in rw z (ap join e)

    go :
        (n : ℕ)
        → budget ≤ n + (2 + 2 * length (components cwd) + 2 * length (components path))
        → let result =
            (kmalloc n >>= λ left.
            ok (if b.num_components == 0 then slash ∷ [] else join b.list)) in
          (result ≡ ok (render (target cwd path)))
          ⊎ ((budget < calls_needed cwd path) × (result ≡ err Errno.enomem))
    go zero k = inr (omega arith, refl)
    go (suc n) k = inl (ap ok (text (target cwd path) h.0 h.1))
canonicalize-cases budget cwd path (err e) h = inr (omega (arith, h.1), ap err h.0)
canonicalize-cases budget cwd path panic h = absurd h

-- `vfs_canonicalize_path` yields the text of the components that the path name stands for: those of
-- the working directory, unless it is absolute, and then its own, "." dropped and ".." taking the
-- last one away, if there is one. It fails only for want of memory, with ENOMEM, and does not fail
-- if one call of `kmalloc` for each text and two for each component succeed.
pub vfs_canonicalize_path_lem :
    (budget : ℕ) (cwd path : List ℕ)
    → (vfs_canonicalize_path budget cwd path ≡ ok (render (target cwd path)))
      ⊎ ((budget < calls_needed cwd path)
          × (vfs_canonicalize_path budget cwd path ≡ err Errno.enomem))
unfolding vfs_canonicalize_path
vfs_canonicalize_path_lem budget cwd path =
    canonicalize-cases budget cwd path _ (create_path_component_list-Builds budget cwd path)
