-- ===== src/FbConsole/Screen.antt =====
-- The screen: its cells, the cursor, and the characters that are no control sequences.
use chaotix.Base.{
  ℕ, zero, suc, ◌+◌, ◌-◌, ◌*◌, ◌/◌, Bool, true, false, not, ◌&&◌, ◌||◌, List, ◌++◌, ltb, leb, ◌==◌,
  if◌then◌else◌, length, set, take, drop,
}
use chaotix.Base.Word.{add32}

pub record Cell : Type 0 where
  pub ch : ℕ
  pub fg_color : ℕ
  pub bg_color : ℕ

pub data Phase : Type 0 where
  ground esc csi : Phase

-- The file's static variables. `overrun` is none of them: it tells whether a write has fallen outside
-- `cells`, `line_is_dirty` or `param_buf`. What such a write overwrites is not modelled: the other fields
-- are those of the program only as long as `overrun` is false.
pub record Console : Type 0 where
  pub console_width : ℕ
  pub console_height : ℕ
  pub cursor_x : ℕ
  pub cursor_y : ℕ
  pub is_cursor_visible : Bool
  pub state : Phase
  pub fg_color : ℕ
  pub bg_color : ℕ
  pub cells : List Cell
  pub line_is_dirty : List Bool
  pub whole_screen_should_be_cleared : Bool
  pub stomp : Bool
  pub param_buf : List ℕ
  pub param_buf_idx : ℕ
  pub overrun : Bool

abbrev pub default_fg_color : ℕ
default_fg_color = 7

abbrev pub default_bg_color : ℕ
default_bg_color = 0

-- `for (i = 0; i < n; ++i) a[start + i] = v`.
abbrev pub fill {ℓ} : {A : Type ℓ} → List A → ℕ → ℕ → A → List A
fill xs i zero v = xs
fill xs i (suc n) v = fill (set xs i v) (suc i) n v

abbrev pub outside {ℓ} : {A : Type ℓ} → List A → ℕ → ℕ → Bool
outside xs i n = not (n == 0) && ltb (length xs) (i + n)

unfoldable pub fill_cells : ℕ → ℕ → Cell → Console → Console
fill_cells i n v c = record c {
  cells = fill c.cells i n v;
  overrun = c.overrun || outside c.cells i n;
}

-- `line_is_dirty[y] = true`, for `n` lines.
unfoldable pub mark_dirty : ℕ → ℕ → Console → Console
mark_dirty y n c = record c {
  line_is_dirty = fill c.line_is_dirty y n true;
  overrun = c.overrun || outside c.line_is_dirty y n;
}

unfoldable pub set_cursor : ℕ → ℕ → Console → Console
unfolding mark_dirty
set_cursor x y c =
    let old : Console = mark_dirty c.cursor_y 1 (record c { stomp = false }) in
    let new : Console = mark_dirty y 1 old in record new { cursor_x = x; cursor_y = y }

-- The character with the current colours.
abbrev pub cell_of : ℕ → Console → Cell
cell_of ch c = record { ch = ch; fg_color = c.fg_color; bg_color = c.bg_color }

unfoldable pub clear_line_at : ℕ → ℕ → ℕ → Console → Console
unfolding fill_cells mark_dirty
clear_line_at x y n c = mark_dirty y 1 (fill_cells (x + y * c.console_width) n (cell_of 32 c) c)

-- `clear_line_at(0, y, console_width)` for `n` lines from `y` on.
unfoldable pub clear_lines : ℕ → ℕ → Console → Console
unfolding clear_line_at
clear_lines y zero c = c
clear_lines y (suc n) c = clear_lines (suc y) n (clear_line_at 0 y c.console_width c)

unfoldable pub clear_screen : Console → Console
unfolding clear_lines
clear_screen c =
    let d : Console = clear_lines 0 c.console_height c in
    record d { whole_screen_should_be_cleared = true }

unfoldable pub write_char_at : ℕ → ℕ → ℕ → Console → Console
unfolding fill_cells mark_dirty
write_char_at x y ch c = mark_dirty y 1 (fill_cells (x + y * c.console_width) 1 (cell_of ch c) c)

-- The lines but the first move up by one, and the last is cleared.
unfoldable pub scroll_up : Console → Console
unfolding mark_dirty clear_line_at
scroll_up c =
    let n = c.console_width * (c.console_height - 1) in
    let moved : Console = record c {
      cells = take n (drop c.console_width c.cells) ++ drop n c.cells;
      overrun = c.overrun || outside c.cells c.console_width n;
    } in
    clear_line_at 0 (c.console_height - 1) c.console_width
      (mark_dirty 0 (c.console_height - 1) moved)

-- At the right end the cursor waits there for the next character.
unfoldable pub check_right_end : Console → Console
unfolding set_cursor
check_right_end c =
    if leb c.console_width c.cursor_x
    then (let d : Console = set_cursor (c.console_width - 1) c.cursor_y c in
        record d { stomp = true })
    else c

unfoldable pub start_line : Console → Console
unfolding set_cursor
start_line c = if c.stomp then set_cursor 0 (add32 c.cursor_y 1) c else c

unfoldable pub scroll_if_below : Console → Console
unfolding scroll_up set_cursor
scroll_if_below c =
    if leb c.console_height c.cursor_y
    then (let d : Console = scroll_up c in set_cursor d.cursor_x (d.console_height - 1) d)
    else c

-- The default case of `handle_ground`, for a character up to 127.
unfoldable pub print_char : ℕ → Console → Console
unfolding start_line scroll_if_below write_char_at set_cursor
print_char ch c =
    let d : Console = scroll_if_below (start_line c) in
    let e : Console = write_char_at d.cursor_x d.cursor_y ch d in
    set_cursor (e.cursor_x + 1) e.cursor_y e

-- `round_up(cursor_x + 1, TAB_STOP)`.
abbrev pub next_tab : ℕ → ℕ
next_tab x = add32 (add32 x 1) 7 / 8 * 8

unfoldable pub handle_ground : ℕ → Console → Console
unfolding set_cursor print_char check_right_end
handle_ground ch c =
    if ch == 0x1b
    then record c { state = Phase.esc }
    else if ch == 13
    then check_right_end (set_cursor 0 c.cursor_y c)
    else if ch == 10
    then check_right_end (set_cursor 0 (add32 c.cursor_y 1) c)
    else if ch == 8
    then check_right_end (if ltb 0 c.cursor_x then set_cursor (c.cursor_x - 1) c.cursor_y c else c)
    else if ch == 9
    then check_right_end (set_cursor (next_tab c.cursor_x) c.cursor_y c)
    else if ltb 127 ch
    then c
    else check_right_end (print_char ch c)
