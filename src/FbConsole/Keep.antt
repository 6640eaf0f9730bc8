-- ===== src/FbConsole/Keep.antt =====
-- Every character keeps the console valid.
use chaotix.Base.{
  ℕ, zero, suc, ◌+◌, ◌-◌, ◌*◌, ◌<◌, ◌≡◌, refl, sym, ◌∙◌, inl, inr, Bool, true, false, ◌||◌, List,
  ◌++◌, arith, ltb, leb, ◌==◌, if◌then◌else◌, Bool-cases, length, take, drop, length-append,
  length-take, length-drop,
}
use chaotix.Base.All.{All-append, All-take, All-drop}
use chaotix.Base.Word.{add32}
use chaotix.FbConsole.Screen.{
  Cell, Console, Phase, outside, set_cursor, clear_line_at, clear_lines, clear_screen,
  write_char_at, scroll_up, cell_of, check_right_end, start_line, scroll_if_below, print_char,
  handle_ground, next_tab,
}
use chaotix.FbConsole.Inv.{
  HasGlyph, Fits, cell_of-HasGlyph, fill_cells-Fits, mark_dirty-Fits, with_cursor-Fits,
  set_cursor-Fits, clear_line_at-Fits,
}

pub clear_lines-Fits : (y n : ℕ) (c : Console) → Fits c → Fits (clear_lines y n c)
unfolding clear_lines
clear_lines-Fits y zero c v = v
clear_lines-Fits y (suc n) c v =
    clear_lines-Fits (suc y) n (clear_line_at 0 y c.console_width c)
      (clear_line_at-Fits 0 y c.console_width c v)

-- What no field of the invariant reads.
pub same_fields :
    (c : Console) (p : Phase) (whole visible over : Bool) (n : ℕ)
    → Fits c
    → Fits (record c {
      state = p;
      whole_screen_should_be_cleared = whole;
      is_cursor_visible = visible;
      overrun = over;
      param_buf_idx = n;
    })
same_fields c p whole visible over n v = record {
  area = v.area;
  lines = v.lines;
  broad = v.broad;
  width = v.width;
  height = v.height;
  short = v.short;
  colors = v.colors;
  glyphs = v.glyphs;
  params = v.params;
}

pub clear_screen-Fits : (c : Console) → Fits c → Fits (clear_screen c)
unfolding clear_screen
clear_screen-Fits c v =
    let d = clear_lines 0 c.console_height c in
    same_fields d d.state true d.is_cursor_visible d.overrun d.param_buf_idx
      (clear_lines-Fits 0 c.console_height c v)

pub write_char_at-Fits :
    (x y ch : ℕ) (c : Console) → Fits c → ch < 128 → Fits (write_char_at x y ch c)
unfolding write_char_at
write_char_at-Fits x y ch c v h =
    mark_dirty-Fits y 1 _
      (fill_cells-Fits (x + y * c.console_width) 1 (cell_of ch c) c v (cell_of-HasGlyph ch c v h))

-- All lines but one, and one more.
pub rows_less : (w h : ℕ) → 0 < h → w * (h - 1) + w ≡ w * h
rows_less w zero p = absurd (omega arith)
rows_less w (suc h) p = let e : suc h - 1 ≡ h = omega arith in rw e (grind arith)

length-moved :
    (cells : List Cell) (n w : ℕ)
    → n + w ≡ length cells
    → length (take n (drop w cells) ++ drop n cells) ≡ length cells
length-moved cells n w e =
    length-append (take n (drop w cells)) (drop n cells)
    ∙ omega (arith, length-take n (drop w cells), length-drop w cells, length-drop n cells, e)

pub scroll_up-Fits : (c : Console) → Fits c → Fits (scroll_up c)
unfolding scroll_up
scroll_up-Fits c v =
    let w = c.console_width in
    let n = w * (c.console_height - 1) in
    let moved : Console = record c {
      cells = take n (drop w c.cells) ++ drop n c.cells;
      overrun = c.overrun || outside c.cells w n;
    } in
    let u : Fits moved = record {
      area = length-moved c.cells n w (rows_less w c.console_height v.height ∙ sym v.area) ∙ v.area;
      lines = v.lines;
      broad = v.broad;
      width = v.width;
      height = v.height;
      short = v.short;
      colors = v.colors;
      glyphs =
          All-append HasGlyph (take n (drop w c.cells)) (drop n c.cells)
            (All-take HasGlyph n (drop w c.cells) (All-drop HasGlyph w c.cells v.glyphs))
            (All-drop HasGlyph n c.cells v.glyphs);
      params = v.params;
    } in
    clear_line_at-Fits 0 (c.console_height - 1) w _
      (mark_dirty-Fits 0 (c.console_height - 1) moved u)

pub check_right_end-Fits : (c : Console) → Fits c → Fits (check_right_end c)
unfolding check_right_end
check_right_end-Fits c v = elim (Bool-cases (leb c.console_width c.cursor_x)) [
  | inl t ↦
      let d : Console = set_cursor (c.console_width - 1) c.cursor_y c in
      simp t (
        with_cursor-Fits d.cursor_x d.cursor_y true d
          (set_cursor-Fits (c.console_width - 1) c.cursor_y c v))
  | inr t ↦ simp t v
]

start_line-Fits : (c : Console) → Fits c → Fits (start_line c)
unfolding start_line
start_line-Fits c v = elim (Bool-cases c.stomp) [
  | inl t ↦ simp t (set_cursor-Fits 0 (add32 c.cursor_y 1) c v)
  | inr t ↦ simp t v
]

scroll_if_below-Fits : (c : Console) → Fits c → Fits (scroll_if_below c)
unfolding scroll_if_below
scroll_if_below-Fits c v = elim (Bool-cases (leb c.console_height c.cursor_y)) [
  | inl t ↦
      let d = scroll_up c in
      simp t (set_cursor-Fits d.cursor_x (d.console_height - 1) d (scroll_up-Fits c v))
  | inr t ↦ simp t v
]

pub print_char-Fits : (ch : ℕ) (c : Console) → Fits c → ch < 128 → Fits (print_char ch c)
unfolding print_char
print_char-Fits ch c v h =
    let d = scroll_if_below (start_line c) in
    let e = write_char_at d.cursor_x d.cursor_y ch d in
    set_cursor-Fits (e.cursor_x + 1) e.cursor_y e (
      write_char_at-Fits d.cursor_x d.cursor_y ch d
        (scroll_if_below-Fits (start_line c) (start_line-Fits c v)) h)

-- One test of a handler.
pub branch {ℓ} :
    (P : Console → Type ℓ) (b : Bool) (x y : Console)
    → P x
    → (b ≡ false → P y)
    → P (if b then x else y)
branch P true x y p q = p
branch P false x y p q = q refl

handle_ground-Fits : (ch : ℕ) (c : Console) → Fits c → Fits (handle_ground ch c)
unfolding handle_ground
handle_ground-Fits ch c v =
    branch Fits (ch == 0x1b) _ _
      (same_fields c Phase.esc c.whole_screen_should_be_cleared c.is_cursor_visible c.overrun
        c.param_buf_idx v)
      λ _.
        branch Fits (ch == 13) _ _ (check_right_end-Fits _ (set_cursor-Fits 0 c.cursor_y c v)) λ _.
          branch Fits (ch == 10) _ _
            (check_right_end-Fits _ (set_cursor-Fits 0 (add32 c.cursor_y 1) c v))
            λ _.
              branch Fits (ch == 8) _ _
                (check_right_end-Fits _ (
                  branch Fits (ltb 0 c.cursor_x) _ _
                    (set_cursor-Fits (c.cursor_x - 1) c.cursor_y c v) λ _. v))
                λ _.
                  branch Fits (ch == 9) _ _
                    (check_right_end-Fits _ (set_cursor-Fits (next_tab c.cursor_x) c.cursor_y c v))
                    λ _.
                      branch Fits (ltb 127 ch) _ _ v
                        λ small. check_right_end-Fits _ (print_char-Fits ch c v (ground arith))
