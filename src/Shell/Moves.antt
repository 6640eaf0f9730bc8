-- ===== src/Shell/Moves.antt =====
-- The keys that move the cursor or clear the line.
use chaotix.Base.{
  ℕ, ◌+◌, ◌-◌, ◌≤◌, ◌<◌, min, ◌≡◌, refl, sym, ap, ap₂, ◌∙◌, inl, inr, true, some, List, [], ◌++◌,
  append-nil, arith, ltb, ◌==◌, ltb→lt, ==_iff, Bool-cases, length, set, take, drop, replicate,
  length-append, length-set, length-drop, length-replicate,
}
use chaotix.Shell.Editor.{
  LineEditor, Mode, clear_line, end_of_file, on_home, on_end, on_right, on_left, put_exit,
}
use chaotix.Shell.Line.{Line, Key, edit, line_of, IsValid, front, final}
use chaotix.Shell.Buffer.{take_less, drop-take, drop-drop, take-cut, drop-take_more}
use chaotix.Shell.Edits.{Does, front-before, length-before}

-- An editor that differs from a valid one in its cursor only.
moved-IsValid :
    (ed : LineEditor) (c : ℕ)
    → IsValid ed
    → c ≤ ed.input_len
    → IsValid (record ed { cursor = c; dirty = true })
moved-IsValid ed c v l = record { buf = v.buf; cursor = l; len = v.len; params = v.params }

line-text :
    (ed : LineEditor)
    → IsValid ed
    → take ed.input_len ed.input_buf ≡ (line_of ed).0 ++ (line_of ed).1
line-text ed v =
    let e : ed.input_len ≡ ed.cursor + (ed.input_len - ed.cursor) = omega (arith, v.cursor) in
    ap (λ k. take k ed.input_buf) e ∙ take-cut ed.input_buf ed.cursor (ed.input_len - ed.cursor)

pub on_home-Does : (ed : LineEditor) → IsValid ed → Does (line_of ed) (some (on_home ed)) Key.home
unfolding on_home edit
on_home-Does ed v =
    let e : ed.input_len - 0 ≡ ed.input_len = omega arith in
    (
      on_home ed,
      refl,
      moved-IsValid ed 0 v (omega arith),
      ap (λ t. ([], t)) (ap (λ k. take k ed.input_buf) e ∙ line-text ed v),
    )

pub on_end-Does : (ed : LineEditor) → IsValid ed → Does (line_of ed) (some (on_end ed)) Key.end
unfolding on_end edit
on_end-Does ed v =
    let e : ed.input_len - ed.input_len ≡ 0 = omega arith in
    (
      on_end ed,
      refl,
      moved-IsValid ed ed.input_len v (omega arith),
      ap₂ (λ s t. (s, t)) (line-text ed v) (ap (λ k. take k (drop ed.input_len ed.input_buf)) e),
    )

pub on_right-Does :
    (ed : LineEditor) → IsValid ed → Does (line_of ed) (some (on_right ed)) Key.right
unfolding on_right edit
on_right-Does ed v = elim (Bool-cases (ltb ed.cursor ed.input_len)) [
  | inl t ↦
      let l : ed.cursor < ed.input_len = ltb→lt ed.cursor ed.input_len t in
      let c = ed.cursor in
      let b = ed.input_buf in
      let n : ed.input_len - (c + 1) ≡ ed.input_len - c - 1 = omega arith in
      (
        record ed { cursor = c + 1; dirty = true },
        simp t,
        moved-IsValid ed (c + 1) v (omega arith),
        ap₂ (λ s u. (s, u))
            (take-cut b c 1
              ∙ ap (λ u. take c b ++ u)
                  (sym (take_less (drop c b) 1 (ed.input_len - c) (omega arith))))
            (ap₂ (λ k xs. take k xs) n (sym (drop-drop b 1 c))
              ∙ sym (drop-take (drop c b) (ed.input_len - c))),
      )
  | inr t ↦
      let z : ed.input_len - ed.cursor ≡ 0 = ground arith in
      let y : (line_of ed).1 ≡ [] = ap (λ k. take k (drop ed.cursor ed.input_buf)) z in
      (
        ed,
        simp t,
        v,
        ap₂ (λ s u. (s, u))
            (sym (append-nil ((line_of ed).0)) ∙ ap (λ u. (line_of ed).0 ++ take 1 u) (sym y))
            (y ∙ ap (drop 1) (sym y)),
      )
]

pub on_left-Does : (ed : LineEditor) → IsValid ed → Does (line_of ed) (some (on_left ed)) Key.left
unfolding on_left edit
on_left-Does ed v = elim (Bool-cases (ltb 0 ed.cursor)) [
  | inl t ↦
      let l : 0 < ed.cursor = ltb→lt 0 ed.cursor t in
      let c = ed.cursor - 1 in
      let b = ed.input_buf in
      let up : c + 1 ≡ ed.cursor = omega arith in
      let n : ed.input_len - c ≡ 1 + (ed.input_len - ed.cursor) = omega (arith, v.cursor) in
      let last : final ((line_of ed).0) ≡ take 1 (drop c b) =
        ap (λ k. drop (k - 1) (take ed.cursor b)) (length-before ed v)
        ∙ ap (λ k. drop c (take k b)) (sym up)
        ∙ drop-take_more b c 1 in
      (
        record ed { cursor = c; dirty = true },
        simp t,
        moved-IsValid ed c v (omega (arith, v.cursor)),
        ap₂ (λ s u. (s, u)) (sym (front-before ed v))
            (ap (λ k. take k (drop c b)) n
              ∙ take-cut (drop c b) 1 (ed.input_len - ed.cursor)
              ∙ ap₂ (λ s u. s ++ take (ed.input_len - ed.cursor) u) (sym last)
                  (drop-drop b 1 c ∙ ap (λ k. drop k b) up)),
      )
  | inr t ↦
      let z : ed.cursor ≡ 0 = ground arith in
      let y : (line_of ed).0 ≡ [] = ap (λ k. take k ed.input_buf) z in
      (
        ed,
        simp t,
        v,
        ap₂ (λ s u. (s, u)) (y ∙ ap front (sym y)) (ap (λ u. final u ++ (line_of ed).1) (sym y)),
      )
]

pub clear_line-Does :
    (ed : LineEditor) → IsValid ed → Does (line_of ed) (some (clear_line ed)) Key.kill
unfolding clear_line edit
clear_line-Does ed v = (
  clear_line ed,
  refl,
  record {
    buf =
        length-append (replicate (min ed.input_len (length ed.input_buf)) 0)
          (drop ed.input_len ed.input_buf)
        ∙ omega (
          arith,
          length-replicate {A = ℕ} (min ed.input_len (length ed.input_buf)) 0,
          length-drop ed.input_len ed.input_buf,
          v.buf,
          v.len,
        );
    cursor = omega arith;
    len = omega arith;
    params = v.params;
  },
  refl,
)

length-put_exit : (buf : List ℕ) → length (put_exit buf) ≡ length buf
length-put_exit buf =
    length-set (set (set (set buf 0 101) 1 120) 2 105) 3 116
    ∙ length-set (set (set buf 0 101) 1 120) 2 105
    ∙ length-set (set buf 0 101) 1 120
    ∙ length-set buf 0 101

-- ^D leaves the line empty, or as it is.
pub end_of_file-Does :
    (ed : LineEditor) → IsValid ed → Does (line_of ed) (some (end_of_file ed)) Key.stay
unfolding end_of_file edit
end_of_file-Does ed v = elim (Bool-cases (ed.input_len == 0)) [
  | inl t ↦
      let z : ed.input_len ≡ 0 = (==_iff ed.input_len 0).0 t in
      let c : ed.cursor ≡ 0 = omega (arith, z, v.cursor) in
      let n : ed.input_len - ed.cursor ≡ 0 = omega (arith, z) in
      let empty : (buf : List ℕ)
          → ◌≡◌ {A = Line}
              (take ed.cursor buf, take (ed.input_len - ed.cursor) (drop ed.cursor buf)) ([], []) =
        λ buf.
          ap₂ (λ s u. (s, u)) (ap (λ k. take k buf) c) (ap (λ k. take k (drop ed.cursor buf)) n) in
      (
        record ed { input_buf = put_exit ed.input_buf; mode = Mode.accepted; dirty = true },
        simp t,
        record {
          buf = length-put_exit ed.input_buf ∙ v.buf;
          cursor = v.cursor;
          len = v.len;
          params = v.params;
        },
        empty (put_exit ed.input_buf) ∙ sym (empty ed.input_buf),
      )
  | inr t ↦ (ed, simp t, v, refl)
]
