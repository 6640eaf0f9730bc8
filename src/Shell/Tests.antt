-- ===== src/Shell/Tests.antt =====
-- Editing the line "ab".
use chaotix.Base.{ℕ, suc, ◌≡◌, ap, ◌≢◌, false, some, List, ◌∷◌, arith, replicate, length-replicate}
use chaotix.Shell.Editor.{LineEditor, Mode, on_char}
use chaotix.Shell.Line.{edit, line_of, key_of, IsValid}
use chaotix.Shell.Keys.{on_char-edit}

abbrev zeros : ℕ → List ℕ
zeros n = replicate n 0

-- "ab", the cursor on the b.
abbrev two_chars : LineEditor
two_chars = record {
  input_buf = 97 ∷ 98 ∷ zeros 1022;
  input_len = 2;
  cursor = 1;
  mode = Mode.ground;
  dirty = false;
  param_buf = zeros 1024;
  param_len = 0;
}

two_chars-IsValid : IsValid two_chars
two_chars-IsValid = record {
  buf = ap (λ n. suc (suc n)) (length-replicate {A = ℕ} 1022 0);
  cursor = omega arith;
  len = omega arith;
  params = length-replicate {A = ℕ} 1024 0;
}

ground_waits : Mode.ground ≢ Mode.accepted
ground_waits h = cc

-- "x" between them.
on_char-edit_example :
    (e : LineEditor) × (on_char two_chars 120 ≡ some e)
    × IsValid e
    × (line_of e ≡ edit (key_of two_chars 120) (line_of two_chars))
on_char-edit_example =
    on_char-edit two_chars 120 two_chars-IsValid ground_waits (omega arith) (omega arith)
