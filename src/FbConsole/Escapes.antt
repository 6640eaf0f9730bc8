-- ===== src/FbConsole/Escapes.antt =====
-- The control sequences.
use chaotix.Base.{
  ℕ, suc, ◌+◌, ◌-◌, Bool, true, false, ◌&&◌, ◌||◌, some, List, [], ◌∷◌, ltb, leb, ◌==◌,
  if◌then◌else◌, length, set,
}
use chaotix.Base.Word.{add32, sub32}
use chaotix.CString.{same, strcmp, char_at, tokens}
use chaotix.Stdlib.{atoi}
use chaotix.FbConsole.Screen.{
  Console, Phase, default_fg_color, default_bg_color, mark_dirty, outside, set_cursor,
  clear_line_at, clear_lines, clear_screen, handle_ground,
}

unfoldable pub handle_state_esc : ℕ → Console → Console
unfolding handle_ground
handle_state_esc ch c =
    if ch == 0x5b
    then record c { param_buf_idx = 0; state = Phase.csi }
    else handle_ground ch (record c { state = Phase.ground })

-- A parameter of 0 or none is 1.
unfoldable pub count_param : Console → ℕ
unfolding atoi
count_param c = if atoi c.param_buf == 0 then 1 else atoi c.param_buf

unfoldable pub handle_csi_cuu : Console → Console
unfolding count_param set_cursor
handle_csi_cuu c =
    let dy = count_param c in
    if ltb c.cursor_y dy
    then set_cursor c.cursor_x 0 c
    else set_cursor c.cursor_x (c.cursor_y - dy) c

unfoldable pub handle_csi_cud : Console → Console
unfolding count_param set_cursor
handle_csi_cud c =
    let dy = count_param c in
    if leb c.console_height (add32 dy c.cursor_y)
    then set_cursor c.cursor_x (c.console_height - 1) c
    else set_cursor c.cursor_x (add32 c.cursor_y dy) c

unfoldable pub handle_csi_cuf : Console → Console
unfolding count_param set_cursor
handle_csi_cuf c =
    let dx = count_param c in
    if leb c.console_width (add32 dx c.cursor_x)
    then set_cursor (c.console_width - 1) c.cursor_y c
    else set_cursor (add32 c.cursor_x dx) c.cursor_y c

unfoldable pub handle_csi_cub : Console → Console
unfolding count_param set_cursor
handle_csi_cub c =
    let dx = count_param c in
    if ltb c.cursor_x dx
    then set_cursor 0 c.cursor_y c
    else set_cursor (c.cursor_x - dx) c.cursor_y c

-- `if (x > 0) --x; if (x >= limit) x = limit - 1`.
unfoldable pub clamp_param : ℕ → ℕ → ℕ
clamp_param limit x = if leb limit (x - 1) then limit - 1 else x - 1

unfoldable pub handle_csi_cha : Console → Console
unfolding atoi clamp_param set_cursor
handle_csi_cha c = set_cursor (clamp_param c.console_width (atoi c.param_buf)) c.cursor_y c

abbrev pub semicolon : List ℕ
semicolon = 0x3b ∷ []

-- The loop over `strtok_r`; what it writes into `param_buf` is read no more.
unfoldable pub params_of : Console → List (List ℕ)
unfolding tokens
params_of c = tokens (suc (length c.param_buf)) (some c.param_buf) semicolon

-- The first parameter and the second, or 0.
unfoldable pub first_param : List (List ℕ) → ℕ
unfolding atoi
first_param [] = 0
first_param (p ∷ ps) = atoi p

unfoldable pub second_param : List (List ℕ) → ℕ
unfolding first_param
second_param [] = 0
second_param (p ∷ ps) = first_param ps

unfoldable pub handle_csi_cup : Console → Console
unfolding params_of first_param second_param clamp_param set_cursor
handle_csi_cup c =
    set_cursor (clamp_param c.console_width (second_param (params_of c)))
      (clamp_param c.console_height (first_param (params_of c))) c

unfoldable pub handle_csi_ed : Console → Console
unfolding atoi clear_line_at clear_lines clear_screen
handle_csi_ed c =
    let code = atoi c.param_buf in
    if code == 0
    then clear_lines (add32 c.cursor_y 1) (c.console_height - add32 c.cursor_y 1)
        (clear_line_at c.cursor_x c.cursor_y (sub32 c.console_width c.cursor_x) c)
    else if code == 1
    then clear_line_at 0 c.cursor_y (add32 c.cursor_x 1) (clear_lines 0 c.cursor_y c)
    else if code == 2
    then clear_screen c
    else c

unfoldable pub handle_csi_el : Console → Console
unfolding atoi clear_line_at
handle_csi_el c =
    let code = atoi c.param_buf in
    if code == 0
    then clear_line_at c.cursor_x c.cursor_y (sub32 c.console_width c.cursor_x) c
    else if code == 1
    then clear_line_at 0 c.cursor_y (add32 c.cursor_x 1) c
    else if code == 2
    then clear_line_at 0 c.cursor_y c.console_width c
    else c

-- The colours while the parameters are read, and `bold`.
pub record Rendition : Type 0 where
  pub fg : ℕ
  pub bg : ℕ
  pub bold : Bool

abbrev pub between : ℕ → ℕ → ℕ → Bool
between lo hi n = leb lo n && leb n hi

abbrev pub bright : Bool → ℕ
bright true = 8
bright false = 0

-- One parameter of `handle_csi_sgr`.
unfoldable pub render : ℕ → Rendition → Rendition
render num r =
    if num == 0
    then record { fg = default_fg_color; bg = default_bg_color; bold = false }
    else if num == 1
    then record r { bold = true }
    else if num == 7
    then record r { fg = r.bg; bg = r.fg }
    else if num == 22
    then record r { fg = default_fg_color; bold = false }
    else if between 30 37 num
    then record r { fg = num - 30 + bright r.bold }
    else if num == 38
    then record r { fg = default_fg_color }
    else if between 40 47 num
    then record r { bg = num - 40 + bright r.bold }
    else if num == 48
    then record r { bg = default_bg_color }
    else if between 90 97 num
    then record r { fg = num - 90 + 8 }
    else if between 100 107 num
    then record r { bg = num - 100 + 8 }
    else r

unfoldable pub render_each : List (List ℕ) → Rendition → Rendition
unfolding render atoi
render_each [] r = r
render_each (p ∷ ps) r = render_each ps (render (atoi p) r)

unfoldable pub handle_csi_sgr : Console → Console
unfolding render_each params_of
handle_csi_sgr c =
    if char_at c.param_buf == 0
    then record c { fg_color = default_fg_color; bg_color = default_bg_color }
    else (let r =
          render_each (params_of c) (record { fg = c.fg_color; bg = c.bg_color; bold = false }) in
        record c { fg_color = r.fg; bg_color = r.bg })

-- "?25".
abbrev pub cursor_mode : List ℕ
cursor_mode = 0x3f ∷ 0x32 ∷ 0x35 ∷ []

unfoldable pub handle_csi_dectcem : ℕ → Console → Console
unfolding strcmp mark_dirty
handle_csi_dectcem ch c = elim (strcmp c.param_buf cursor_mode) [
  | same ↦ mark_dirty c.cursor_y 1 (record c { is_cursor_visible = ch == 0x68 })
  | _ ↦ c
]

-- The final character of a sequence.
unfoldable pub run_csi : ℕ → Console → Console
unfolding handle_csi_cuu handle_csi_cud handle_csi_cuf handle_csi_cub handle_csi_cha handle_csi_cup
    handle_csi_ed handle_csi_el handle_csi_sgr handle_csi_dectcem
run_csi ch c =
    if ch == 0x41
    then handle_csi_cuu c
    else if ch == 0x42
    then handle_csi_cud c
    else if ch == 0x43
    then handle_csi_cuf c
    else if ch == 0x44
    then handle_csi_cub c
    else if ch == 0x47
    then handle_csi_cha c
    else if ch == 0x48
    then handle_csi_cup c
    else if ch == 0x4a
    then handle_csi_ed c
    else if ch == 0x4b
    then handle_csi_el c
    else if ch == 0x6d
    then handle_csi_sgr c
    else if ch == 0x68 || ch == 0x6c
    then handle_csi_dectcem ch c
    else c

-- `param_buf[param_buf_idx] = ch`.
unfoldable pub put_param : ℕ → Console → Console
put_param ch c = record c {
  param_buf = set c.param_buf c.param_buf_idx ch;
  overrun = c.overrun || outside c.param_buf c.param_buf_idx 1;
}

-- `c < 0x40` for a signed `char`.
abbrev pub is_param : ℕ → Bool
is_param ch = ltb ch 0x40 || leb 0x80 ch

abbrev pub to_ground : Console → Console
to_ground c = record c { state = Phase.ground }

unfoldable pub handle_state_csi : ℕ → Console → Console
unfolding put_param run_csi
handle_state_csi ch c =
    if is_param ch
    then (let d : Console = put_param ch c in record d { param_buf_idx = add32 d.param_buf_idx 1 })
    else to_ground (run_csi ch (put_param 0 c))

unfoldable pub on_char : ℕ → Console → Console
unfolding handle_ground handle_state_esc handle_state_csi
on_char ch c = elim c.state [
  | Phase.ground ↦ handle_ground ch c
  | Phase.esc ↦ handle_state_esc ch c
  | Phase.csi ↦ handle_state_csi ch c
]

-- The loop of `fb_console_device_write`.
unfoldable pub write_chars : List ℕ → Console → Console
unfolding on_char
write_chars [] c = c
write_chars (ch ∷ chars) c = write_chars chars (on_char ch c)
