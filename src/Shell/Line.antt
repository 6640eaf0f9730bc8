-- ===== src/Shell/Line.antt =====
-- The line as its user sees it: the text before the cursor and the text from it on, and what each key
-- does to them.
use chaotix.Base.{
  ℕ, ◌-◌, ◌≤◌, ◌≡◌, ◌||◌, List, [], ◌∷◌, ◌++◌, ◌==◌, if◌then◌else◌, length, set, take, drop,
}
use chaotix.Stdlib.{atoi}
use chaotix.Shell.Editor.{LineEditor, Mode, buf_size, isprint, is_param}

abbrev pub Line : Type 0
Line = List ℕ × List ℕ

pub data Key : Type 0 where
  insert : ℕ → Key
  erase delete kill right left home end stay : Key

-- All but the last, and the last.
abbrev pub front : List ℕ → List ℕ
front xs = take (length xs - 1) xs

abbrev pub final : List ℕ → List ℕ
final xs = drop (length xs - 1) xs

unfoldable pub edit : Key → Line → Line
edit (Key.insert c) l = (l.0 ++ (c ∷ []), l.1)
edit Key.erase l = (front l.0, l.1)
edit Key.delete l = (l.0, drop 1 l.1)
edit Key.kill l = ([], [])
edit Key.right l = (l.0 ++ take 1 l.1, drop 1 l.1)
edit Key.left l = (front l.0, final l.0 ++ l.1)
edit Key.home l = ([], l.0 ++ l.1)
edit Key.end l = (l.0 ++ l.1, [])
edit Key.stay l = l

abbrev pub line_of : LineEditor → Line
line_of ed =
    (take ed.cursor ed.input_buf, take (ed.input_len - ed.cursor) (drop ed.cursor ed.input_buf))

-- Which key a character is: a printable character, backspace or ^U by itself, and the sequences that
-- start with ESC [.
unfoldable pub ground_key : ℕ → Key
ground_key c =
    if isprint c
    then Key.insert c
    else if c == 0x1b
    then Key.stay
    else if c == 13 || c == 10
    then Key.stay
    else if c == 8 || c == 0x7f
    then Key.erase
    else if c == 21
    then Key.kill
    else Key.stay

unfoldable pub vt_key : ℕ → Key
vt_key code =
    if code == 1 || code == 7
    then Key.home
    else if code == 4 || code == 8
    then Key.end
    else if code == 3
    then Key.delete
    else Key.stay

unfoldable pub csi_key : List ℕ → ℕ → Key
unfolding vt_key
csi_key params c =
    if c == 0x43
    then Key.right
    else if c == 0x44
    then Key.left
    else if c == 0x48
    then Key.home
    else if c == 0x46
    then Key.end
    else if c == 0x7e
    then vt_key (atoi params)
    else Key.stay

unfoldable pub key_of : LineEditor → ℕ → Key
unfolding ground_key csi_key
key_of ed c = elim ed.mode [
  | Mode.ground ↦ ground_key c
  | Mode.esc ↦ if c == 0x5b then Key.stay else ground_key c
  | Mode.csi ↦ if is_param c then Key.stay else csi_key (set ed.param_buf ed.param_len 0) c
  | Mode.accepted ↦ Key.stay
]

-- The cursor is in the text and the text in the buffer.
pub record IsValid (ed : LineEditor) : Type 0 where
  pub buf : length ed.input_buf ≡ buf_size
  pub cursor : ed.cursor ≤ ed.input_len
  pub len : ed.input_len ≤ buf_size
  pub params : length ed.param_buf ≡ buf_size
