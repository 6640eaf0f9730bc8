-- ===== src/Shell/Editor.antt =====
-- The line editor (`struct line_editor` and its handlers). A character is a byte; those from 128 on are
-- negative as `char`. A write outside the buffer is undefined, and the handlers answer `none` to it.
use chaotix.Base.{
  ℕ, ◌+◌, ◌-◌, min, Bool, true, ◌&&◌, ◌||◌, Option, none, some, List, ◌++◌, ltb, leb, ◌==◌,
  if◌then◌else◌, length, set, take, drop, replicate,
}
use chaotix.Stdlib.{atoi}

abbrev pub buf_size : ℕ
buf_size = 1024

pub data Mode : Type 0 where
  ground esc csi accepted : Mode

pub record LineEditor : Type 0 where
  pub input_buf : List ℕ
  pub input_len : ℕ
  pub cursor : ℕ
  pub mode : Mode
  pub dirty : Bool
  pub param_buf : List ℕ
  pub param_len : ℕ

-- `memmove(buf + dst, buf + src, n)`, where that stays in the buffer.
abbrev pub move : List ℕ → ℕ → ℕ → ℕ → List ℕ
move buf dst src n = take dst buf ++ (take n (drop src buf) ++ drop (dst + n) buf)

unfoldable pub memmove : List ℕ → ℕ → ℕ → ℕ → Option (List ℕ)
memmove buf dst src n =
    if leb (dst + n) (length buf) && leb (src + n) (length buf)
    then some (move buf dst src n)
    else none

-- `buf[i] = c`.
unfoldable pub store : List ℕ → ℕ → ℕ → Option (List ℕ)
store buf i c = if ltb i (length buf) then some (set buf i c) else none

abbrev pub isprint : ℕ → Bool
isprint c = leb 0x20 c && leb c 0x7e

-- `c < 0x40` for a signed `char`.
abbrev pub is_param : ℕ → Bool
is_param c = ltb c 0x40 || leb 0x80 c

-- A printable character is inserted at the cursor.
unfoldable pub insert_char : LineEditor → ℕ → Option LineEditor
insert_char ed c =
    elim (memmove ed.input_buf (ed.cursor + 1) ed.cursor (ed.input_len - ed.cursor)) [
      | none ↦ none
      | some moved ↦ elim (store moved ed.cursor c) [
        | none ↦ none
        | some buf ↦ some (record ed {
          input_buf = buf;
          cursor = ed.cursor + 1;
          input_len = ed.input_len + 1;
          dirty = true;
        })
      ]
    ]

-- The character at `i` goes: the rest moves down, and a NUL follows it.
unfoldable pub remove_char : LineEditor → ℕ → Option LineEditor
remove_char ed i = elim (memmove ed.input_buf i (i + 1) (ed.input_len - (i + 1))) [
  | none ↦ none
  | some moved ↦ elim (store moved (ed.input_len - 1) 0) [
    | none ↦ none
    | some buf ↦ some (record ed { input_buf = buf; input_len = ed.input_len - 1; dirty = true })
  ]
]

unfoldable pub backspace : LineEditor → Option LineEditor
unfolding remove_char
backspace ed = if ed.cursor == 0 then some ed else elim (remove_char ed (ed.cursor - 1)) [
  | none ↦ none
  | some e ↦ some (record e { cursor = e.cursor - 1 })
]

-- `memset(ed->input_buf, 0, ed->input_len)`.
unfoldable pub clear_line : LineEditor → LineEditor
clear_line ed = record ed {
  input_buf =
      replicate (min ed.input_len (length ed.input_buf)) 0 ++ drop ed.input_len ed.input_buf;
  input_len = 0;
  cursor = 0;
  dirty = true;
}

-- `strcpy(ed->input_buf, "exit")`, the four characters.
abbrev pub put_exit : List ℕ → List ℕ
put_exit buf = set (set (set (set buf 0 101) 1 120) 2 105) 3 116

unfoldable pub end_of_file : LineEditor → LineEditor
end_of_file ed =
    if ed.input_len == 0
    then record ed { input_buf = put_exit ed.input_buf; mode = Mode.accepted; dirty = true }
    else ed

unfoldable pub handle_ground : LineEditor → ℕ → Option LineEditor
unfolding insert_char backspace clear_line end_of_file
handle_ground ed c =
    if isprint c
    then insert_char ed c
    else if c == 0x1b
    then some (record ed { mode = Mode.esc })
    else if c == 13 || c == 10
    then some (record ed { mode = Mode.accepted })
    else if c == 8 || c == 0x7f
    then backspace ed
    else if c == 21
    then some (clear_line ed)
    else if c == 4
    then some (end_of_file ed)
    else if c == 12
    then some (record ed { dirty = true })
    else some ed

unfoldable pub handle_state_esc : LineEditor → ℕ → Option LineEditor
unfolding handle_ground
handle_state_esc ed c =
    if c == 0x5b
    then some (record ed { param_len = 0; mode = Mode.csi })
    else handle_ground (record ed { mode = Mode.ground }) c

unfoldable pub on_home : LineEditor → LineEditor
on_home ed = record ed { cursor = 0; dirty = true }

unfoldable pub on_end : LineEditor → LineEditor
on_end ed = record ed { cursor = ed.input_len; dirty = true }

unfoldable pub on_right : LineEditor → LineEditor
on_right ed =
    if ltb ed.cursor ed.input_len then record ed { cursor = ed.cursor + 1; dirty = true } else ed

unfoldable pub on_left : LineEditor → LineEditor
on_left ed = if ltb 0 ed.cursor then record ed { cursor = ed.cursor - 1; dirty = true } else ed

unfoldable pub on_delete : LineEditor → Option LineEditor
unfolding remove_char
on_delete ed = if ltb ed.cursor ed.input_len then remove_char ed ed.cursor else some ed

unfoldable pub handle_csi_vt : LineEditor → Option LineEditor
unfolding on_home on_end on_delete atoi
handle_csi_vt ed =
    let code = atoi ed.param_buf in
    if code == 1 || code == 7
    then some (on_home ed)
    else if code == 4 || code == 8
    then some (on_end ed)
    else if code == 3
    then on_delete ed
    else some ed

-- The final character of a control sequence.
unfoldable pub run_csi : LineEditor → ℕ → Option LineEditor
unfolding handle_csi_vt on_right on_left
run_csi ed c =
    if c == 0x43
    then some (on_right ed)
    else if c == 0x44
    then some (on_left ed)
    else if c == 0x48
    then some (on_home ed)
    else if c == 0x46
    then some (on_end ed)
    else if c == 0x7e
    then handle_csi_vt ed
    else some ed

abbrev pub to_ground : LineEditor → LineEditor
to_ground ed = record ed { mode = Mode.ground }

unfoldable pub handle_state_csi : LineEditor → ℕ → Option LineEditor
unfolding run_csi
handle_state_csi ed c = elim (store ed.param_buf ed.param_len (if is_param c then c else 0)) [
  | none ↦ none
  | some params ↦
      let e : LineEditor = record ed { param_buf = params } in
      if is_param c
      then some (record e { param_len = e.param_len + 1 })
      else elim (run_csi e c) [ none ↦ none | some r ↦ some (to_ground r) ]
]

-- UNREACHABLE is `none`: the editor that has accepted a line gets no further character.
unfoldable pub on_char : LineEditor → ℕ → Option LineEditor
unfolding handle_ground handle_state_esc handle_state_csi
on_char ed c = elim ed.mode [
  | Mode.ground ↦ handle_ground ed c
  | Mode.esc ↦ handle_state_esc ed c
  | Mode.csi ↦ handle_state_csi ed c
  | Mode.accepted ↦ none
]
