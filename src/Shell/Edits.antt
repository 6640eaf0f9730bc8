-- ===== src/Shell/Edits.antt =====
-- The line editor does to the line what the keys mean.
use chaotix.Base.{
  ℕ, ◌+◌, ◌-◌, ◌≤◌, ◌<◌, ◌≡◌, refl, sym, ap, ap₂, ◌∙◌, inl, inr, true, Option, some, [], arith,
  add-one, ltb, ◌==◌, ltb→lt, ==_iff, Bool-cases, length, set, take, drop, length-set, length-take,
}
use chaotix.Shell.Editor.{
  LineEditor, buf_size, move, insert_char, remove_char, backspace, on_delete,
}
use chaotix.Shell.Line.{Line, Key, edit, line_of, IsValid, front}
use chaotix.Shell.Buffer.{
  take_less, drop-take, drop-drop, length-move, memmove-move, store-set, take-inserted,
  drop-inserted, take-removed, drop-removed,
}

-- The handler's answer is a valid editor that shows the line `l` with the key's edit done.
abbrev pub Does : Line → Option LineEditor → Key → Type 0
Does l answer k = (e : LineEditor) × (answer ≡ some e) × IsValid e × (line_of e ≡ edit k l)

pub insert_char-Does :
    (ed : LineEditor) (x : ℕ)
    → IsValid ed
    → ed.input_len < buf_size
    → Does (line_of ed) (insert_char ed x) (Key.insert x)
unfolding insert_char edit
insert_char-Does ed x v room =
    let c = ed.cursor in
    let n = ed.input_len - c in
    let b = ed.input_buf in
    let h : c + n < length b = omega (arith, v.buf, v.cursor) in
    let moved = memmove-move b (c + 1) c n (omega arith) (omega arith) in
    let len = length-move b (c + 1) c n (omega arith) (omega arith) in
    let stored = store-set (move b (c + 1) c n) c x (omega (arith, len)) in
    let p = add-one c in
    let left : ed.input_len + 1 - (c + 1) ≡ n = omega (arith, v.cursor) in
    (
      record ed {
        input_buf = set (move b (c + 1) c n) c x;
        cursor = c + 1;
        input_len = ed.input_len + 1;
        dirty = true;
      },
      simp (insert_char, moved, stored),
      record {
        buf = length-set (move b (c + 1) c n) c x ∙ len ∙ v.buf;
        cursor = omega (arith, v.cursor);
        len = omega arith;
        params = v.params;
      },
      ap₂ (λ s t. (s, t)) (ap (λ m. take m (set (move b m c n) c x)) p ∙ take-inserted b c n x h)
          (ap (λ k. take k (drop (c + 1) (set (move b (c + 1) c n) c x))) left
            ∙ ap (λ m. take n (drop m (set (move b m c n) c x))) p
            ∙ drop-inserted b c n x h),
    )

-- Taking away the character at `i` leaves the text before it and the text behind it.
pub record RemovedAt (ed : LineEditor) (i : ℕ) (e : LineEditor) : Type 0 where
  pub valid : (length e.input_buf ≡ buf_size) × (length e.param_buf ≡ buf_size)
  pub cursor : e.cursor ≡ ed.cursor
  pub len : e.input_len ≡ ed.input_len - 1
  pub before : take i e.input_buf ≡ take i ed.input_buf
  pub after :
      take (ed.input_len - (i + 1)) (drop i e.input_buf)
      ≡ take (ed.input_len - (i + 1)) (drop (i + 1) ed.input_buf)

remove_char-RemovedAt :
    (ed : LineEditor) (i : ℕ)
    → IsValid ed
    → i < ed.input_len
    → (e : LineEditor) × (remove_char ed i ≡ some e) × RemovedAt ed i e
unfolding remove_char
remove_char-RemovedAt ed i v l =
    let n = ed.input_len - (i + 1) in
    let b = ed.input_buf in
    let h : i + 1 + n ≤ length b = omega (arith, v.buf, v.len) in
    let moved = memmove-move b i (i + 1) n (omega arith) (omega arith) in
    let len = length-move b i (i + 1) n (omega arith) (omega arith) in
    let stored =
      store-set (move b i (i + 1) n) (ed.input_len - 1) 0 (omega (arith, len, v.len, v.buf)) in
    let p : ed.input_len - 1 ≡ i + n = omega arith in
    (
      record ed {
        input_buf = set (move b i (i + 1) n) (ed.input_len - 1) 0;
        input_len = ed.input_len - 1;
        dirty = true;
      },
      simp (remove_char, moved, stored),
      record {
        valid = (length-set (move b i (i + 1) n) (ed.input_len - 1) 0 ∙ len ∙ v.buf, v.params);
        cursor = refl;
        len = refl;
        before = ap (λ m. take i (set (move b i (i + 1) n) m 0)) p ∙ take-removed b i n h;
        after = ap (λ m. take n (drop i (set (move b i (i + 1) n) m 0))) p ∙ drop-removed b i n h;
      },
    )

-- The text before the cursor has the cursor's length, and the line has the editor's.
pub length-before : (ed : LineEditor) → IsValid ed → length ((line_of ed).0) ≡ ed.cursor
length-before ed v = length-take ed.cursor ed.input_buf ∙ omega (arith, v.cursor, v.len, v.buf)

pub front-before :
    (ed : LineEditor) → IsValid ed → front ((line_of ed).0) ≡ take (ed.cursor - 1) ed.input_buf
front-before ed v =
    ap (λ k. take (k - 1) (take ed.cursor ed.input_buf)) (length-before ed v)
    ∙ take_less ed.input_buf (ed.cursor - 1) ed.cursor (omega arith)

pub backspace-Does : (ed : LineEditor) → IsValid ed → Does (line_of ed) (backspace ed) Key.erase
unfolding backspace edit
backspace-Does ed v = elim (Bool-cases (ed.cursor == 0)) [
  | inl z ↦
      let c : ed.cursor ≡ 0 = (==_iff ed.cursor 0).0 z in
      (
        ed,
        simp (backspace, z),
        v,
        ap (λ s. (s, (line_of ed).1))
            (ap (λ k. take k ed.input_buf) (c ∙ omega (arith, c)) ∙ sym (front-before ed v)),
      )
  | inr s ↦
      let l : 0 < ed.cursor = ground arith in
      let i = ed.cursor - 1 in
      let up : i + 1 ≡ ed.cursor = omega arith in
      let r = remove_char-RemovedAt ed i v (omega (arith, v.cursor)) in
      let e : LineEditor = record r.0 { cursor = r.0.cursor - 1 } in
      let d = r.2 in
      let c : e.cursor ≡ i = ap (λ k. k - 1) d.cursor in
      let n : e.input_len - e.cursor ≡ ed.input_len - (i + 1) = omega (arith, d.len, c) in
      (
        e,
        simp (backspace, s, r.1),
        record {
          buf = d.valid.0;
          cursor = omega (arith, d.len, c, v.cursor);
          len = omega (arith, d.len, v.len);
          params = d.valid.1;
        },
        ap₂ (λ s t. (s, t)) (ap (λ k. take k e.input_buf) c ∙ d.before ∙ sym (front-before ed v))
            (ap₂ (λ k m. take k (drop m e.input_buf)) n c
              ∙ d.after
              ∙ ap (λ m. take (ed.input_len - m) (drop m ed.input_buf)) up),
      )
]

pub on_delete-Does : (ed : LineEditor) → IsValid ed → Does (line_of ed) (on_delete ed) Key.delete
unfolding on_delete edit
on_delete-Does ed v = elim (Bool-cases (ltb ed.cursor ed.input_len)) [
  | inl t ↦
      let r = remove_char-RemovedAt ed ed.cursor v (ltb→lt ed.cursor ed.input_len t) in
      let d = r.2 in
      let e = r.0 in
      let n : e.input_len - e.cursor ≡ ed.input_len - (ed.cursor + 1) =
        omega (arith, d.len, d.cursor) in
      let m : ed.input_len - (ed.cursor + 1) ≡ ed.input_len - ed.cursor - 1 = omega arith in
      (
        e,
        simp (on_delete, t) r.1,
        record {
          buf = d.valid.0;
          cursor = ground (arith, d.len, d.cursor, v.cursor);
          len = omega (arith, d.len, v.len);
          params = d.valid.1;
        },
        ap₂ (λ s t. (s, t)) (ap (λ k. take k e.input_buf) d.cursor ∙ d.before)
            (ap₂ (λ k m. take k (drop m e.input_buf)) n d.cursor
              ∙ d.after
              ∙ ap₂ (λ k xs. take k xs) m (sym (drop-drop ed.input_buf 1 ed.cursor))
              ∙ sym (drop-take (drop ed.cursor ed.input_buf) (ed.input_len - ed.cursor))),
      )
  | inr t ↦
      let z : ed.input_len - ed.cursor ≡ 0 = ground arith in
      let y : (line_of ed).1 ≡ [] = ap (λ k. take k (drop ed.cursor ed.input_buf)) z in
      (ed, simp (on_delete, t), v, ap (λ s. ((line_of ed).0, s)) (y ∙ sym (ap (drop 1) y)))
]
