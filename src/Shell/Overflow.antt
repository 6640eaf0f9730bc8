-- ===== src/Shell/Overflow.antt =====
-- Where the line editor writes outside its buffer.
use chaotix.Base.{
  ℕ, ◌+◌, ◌-◌, ◌≡◌, ◌↔◌, inl, inr, true, false, none, arith, ltb, leb, ltb→lt, Bool-cases, length,
}
use chaotix.Shell.Editor.{LineEditor, buf_size, isprint, memmove, insert_char, handle_ground}
use chaotix.Shell.Line.{IsValid}
use chaotix.Shell.Keys.{handle_ground-Does}

-- In a valid editor that waits for a plain character, a printable one is written outside the buffer
-- just if the line already fills the buffer.
pub handle_ground-overflow :
    (ed : LineEditor) (c : ℕ)
    → IsValid ed
    → isprint c ≡ true
    → (handle_ground ed c ≡ none) ↔ (ed.input_len ≡ buf_size)
unfolding handle_ground insert_char memmove
handle_ground-overflow ed c v p = (
  λ h. elim (Bool-cases (ltb ed.input_len buf_size)) [
    | inl t ↦
        let d = handle_ground-Does ed c v (ltb→lt ed.input_len buf_size t) in
        let e = d.1 in absurd (cc)
    | inr t ↦ let l = v.len in ground arith
  ],
  λ full.
      let out : leb (ed.cursor + 1 + (ed.input_len - ed.cursor)) (length ed.input_buf) ≡ false =
        ground (arith, v.buf, v.cursor, full) in
      simp (handle_ground, p, insert_char, memmove, out),
)
