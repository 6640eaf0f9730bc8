-- ===== src/FbConsole/Column.antt =====
-- Every character keeps the cursor's column on the screen, and the colours in the palette.
use chaotix.Base.{
  ℕ, zero, suc, ◌-◌, ◌≤◌, ◌<◌, ◌≡◌, refl, ◌∙◌, inl, inr, Bool, true, false, ◌||◌, List, [], ◌∷◌,
  arith, ltb, leb, ◌==◌, if◌then◌else◌, Bool-cases, length-set,
}
use chaotix.Base.Word.{add32, sub32}
use chaotix.Stdlib.{atoi}
use chaotix.CString.{Cmp, same, strcmp, char_at}
use chaotix.FbConsole.Screen.{
  Console, Phase, fill_cells, mark_dirty, set_cursor, clear_line_at, clear_lines, clear_screen,
  check_right_end, handle_ground, next_tab, default_fg_color, default_bg_color,
}
use chaotix.FbConsole.Escapes.{
  handle_state_esc, count_param, handle_csi_cuu, handle_csi_cud, handle_csi_cuf, handle_csi_cub,
  clamp_param, handle_csi_cha, params_of, first_param, second_param, handle_csi_cup, handle_csi_ed,
  handle_csi_el, Rendition, between, bright, render, render_each, handle_csi_sgr, cursor_mode,
  handle_csi_dectcem, run_csi, put_param, is_param, handle_state_csi, on_char,
}
use chaotix.FbConsole.Inv.{Fits, IsValid, mark_dirty-Fits, set_cursor-Fits, clear_line_at-Fits}
use chaotix.FbConsole.Keep.{same_fields, check_right_end-Fits, print_char-Fits, branch}

set_cursor-IsValid :
    (x y : ℕ) (c : Console) → Fits c → x < c.console_width → IsValid (set_cursor x y c)
unfolding set_cursor mark_dirty
set_cursor-IsValid x y c v h = record { fits = set_cursor-Fits x y c v; column = h }

check_right_end-IsValid : (c : Console) → Fits c → IsValid (check_right_end c)
unfolding check_right_end set_cursor mark_dirty
check_right_end-IsValid c v = record {
  fits = check_right_end-Fits c v;
  column = elim (Bool-cases (leb c.console_width c.cursor_x)) [
    | inl t ↦ simp t (omega (arith, v.broad))
    | inr t ↦ simp t (ground arith)
  ];
}

-- The phase and the flags do not matter.
same_phase :
    (c : Console) (p : Phase) (whole visible over : Bool) (n : ℕ)
    → IsValid c
    → IsValid (record c {
      state = p;
      whole_screen_should_be_cleared = whole;
      is_cursor_visible = visible;
      overrun = over;
      param_buf_idx = n;
    })
same_phase c p whole visible over n v = record {
  fits = same_fields c p whole visible over n v.fits;
  column = v.column;
}

handle_ground-IsValid : (ch : ℕ) (c : Console) → IsValid c → IsValid (handle_ground ch c)
unfolding handle_ground
handle_ground-IsValid ch c w =
    let v = w.fits in
    branch IsValid (ch == 0x1b) _ _
      (same_phase c Phase.esc c.whole_screen_should_be_cleared c.is_cursor_visible c.overrun
        c.param_buf_idx w)
      λ _.
        branch IsValid (ch == 13) _ _ (check_right_end-IsValid _ (set_cursor-Fits 0 c.cursor_y c v))
          λ _.
            branch IsValid (ch == 10) _ _
              (check_right_end-IsValid _ (set_cursor-Fits 0 (add32 c.cursor_y 1) c v))
              λ _.
                branch IsValid (ch == 8) _ _
                  (check_right_end-IsValid _ (
                    branch Fits (ltb 0 c.cursor_x) _ _
                      (set_cursor-Fits (c.cursor_x - 1) c.cursor_y c v) λ _. v))
                  λ _.
                    branch IsValid (ch == 9) _ _
                      (check_right_end-IsValid _
                        (set_cursor-Fits (next_tab c.cursor_x) c.cursor_y c v))
                      λ _.
                        branch IsValid (ltb 127 ch) _ _ w
                          λ small. check_right_end-IsValid _ (print_char-Fits ch c v (ground arith))

handle_state_esc-IsValid : (ch : ℕ) (c : Console) → IsValid c → IsValid (handle_state_esc ch c)
unfolding handle_state_esc
handle_state_esc-IsValid ch c v =
    branch IsValid (ch == 0x5b) _ _
      (same_phase c Phase.csi c.whole_screen_should_be_cleared c.is_cursor_visible c.overrun 0 v)
      λ _. handle_ground-IsValid ch _ (
        same_phase c Phase.ground c.whole_screen_should_be_cleared c.is_cursor_visible c.overrun
          c.param_buf_idx v)

clear_line_at-IsValid : (x y n : ℕ) (c : Console) → IsValid c → IsValid (clear_line_at x y n c)
unfolding clear_line_at fill_cells mark_dirty
clear_line_at-IsValid x y n c v = record {
  fits = clear_line_at-Fits x y n c v.fits;
  column = v.column;
}

clear_lines-IsValid : (y n : ℕ) (c : Console) → IsValid c → IsValid (clear_lines y n c)
unfolding clear_lines
clear_lines-IsValid y zero c v = v
clear_lines-IsValid y (suc n) c v =
    clear_lines-IsValid (suc y) n (clear_line_at 0 y c.console_width c)
      (clear_line_at-IsValid 0 y c.console_width c v)

clear_screen-IsValid : (c : Console) → IsValid c → IsValid (clear_screen c)
unfolding clear_screen
clear_screen-IsValid c v =
    let d = clear_lines 0 c.console_height c in
    same_phase d d.state true d.is_cursor_visible d.overrun d.param_buf_idx
      (clear_lines-IsValid 0 c.console_height c v)

pub clamp_param-lt : (limit x : ℕ) → 0 < limit → clamp_param limit x < limit
unfolding clamp_param
clamp_param-lt limit x h = ground arith

handle_csi_cuu-IsValid : (c : Console) → IsValid c → IsValid (handle_csi_cuu c)
unfolding handle_csi_cuu
handle_csi_cuu-IsValid c v =
    branch IsValid (ltb c.cursor_y (count_param c)) _ _
      (set_cursor-IsValid c.cursor_x 0 c v.fits v.column)
      λ _. set_cursor-IsValid c.cursor_x (c.cursor_y - count_param c) c v.fits v.column

handle_csi_cud-IsValid : (c : Console) → IsValid c → IsValid (handle_csi_cud c)
unfolding handle_csi_cud
handle_csi_cud-IsValid c v =
    branch IsValid (leb c.console_height (add32 (count_param c) c.cursor_y)) _ _
      (set_cursor-IsValid c.cursor_x (c.console_height - 1) c v.fits v.column)
      λ _. set_cursor-IsValid c.cursor_x (add32 c.cursor_y (count_param c)) c v.fits v.column

handle_csi_cuf-IsValid : (c : Console) → IsValid c → IsValid (handle_csi_cuf c)
unfolding handle_csi_cuf
handle_csi_cuf-IsValid c v =
    branch IsValid (leb c.console_width (add32 (count_param c) c.cursor_x)) _ _
      (set_cursor-IsValid (c.console_width - 1) c.cursor_y c v.fits (omega (arith, v.column)))
      λ small.
        set_cursor-IsValid (add32 c.cursor_x (count_param c)) c.cursor_y c v.fits (ground arith)

handle_csi_cub-IsValid : (c : Console) → IsValid c → IsValid (handle_csi_cub c)
unfolding handle_csi_cub
handle_csi_cub-IsValid c v =
    branch IsValid (ltb c.cursor_x (count_param c)) _ _
      (set_cursor-IsValid 0 c.cursor_y c v.fits (omega (arith, v.column)))
      λ _.
        set_cursor-IsValid (c.cursor_x - count_param c) c.cursor_y c v.fits
          (omega (arith, v.column))

handle_csi_cha-IsValid : (c : Console) → IsValid c → IsValid (handle_csi_cha c)
unfolding handle_csi_cha
handle_csi_cha-IsValid c v =
    set_cursor-IsValid (clamp_param c.console_width (atoi c.param_buf)) c.cursor_y c v.fits
      (clamp_param-lt c.console_width (atoi c.param_buf) v.fits.broad)

handle_csi_cup-IsValid : (c : Console) → IsValid c → IsValid (handle_csi_cup c)
unfolding handle_csi_cup
handle_csi_cup-IsValid c v =
    set_cursor-IsValid (clamp_param c.console_width (second_param (params_of c)))
      (clamp_param c.console_height (first_param (params_of c))) c v.fits
      (clamp_param-lt c.console_width (second_param (params_of c)) v.fits.broad)

handle_csi_ed-IsValid : (c : Console) → IsValid c → IsValid (handle_csi_ed c)
unfolding handle_csi_ed
handle_csi_ed-IsValid c v =
    branch IsValid (atoi c.param_buf == 0) _ _
      (clear_lines-IsValid (add32 c.cursor_y 1) (c.console_height - add32 c.cursor_y 1) _
        (clear_line_at-IsValid c.cursor_x c.cursor_y (sub32 c.console_width c.cursor_x) c v))
      λ _.
        branch IsValid (atoi c.param_buf == 1) _ _
          (clear_line_at-IsValid 0 c.cursor_y (add32 c.cursor_x 1) _
            (clear_lines-IsValid 0 c.cursor_y c v))
          λ _. branch IsValid (atoi c.param_buf == 2) _ _ (clear_screen-IsValid c v) λ _. v

handle_csi_el-IsValid : (c : Console) → IsValid c → IsValid (handle_csi_el c)
unfolding handle_csi_el
handle_csi_el-IsValid c v =
    branch IsValid (atoi c.param_buf == 0) _ _
      (clear_line_at-IsValid c.cursor_x c.cursor_y (sub32 c.console_width c.cursor_x) c v)
      λ _.
        branch IsValid (atoi c.param_buf == 1) _ _
          (clear_line_at-IsValid 0 c.cursor_y (add32 c.cursor_x 1) c v)
          λ _.
            branch IsValid (atoi c.param_buf == 2) _ _
              (clear_line_at-IsValid 0 c.cursor_y c.console_width c v) λ _. v

-- Both colours are in the palette.
abbrev pub InPalette : Rendition → Type 0
InPalette r = (r.fg < 16) × (r.bg < 16)

bright-le : (b : Bool) → bright b ≤ 8
bright-le true = omega arith
bright-le false = omega arith

pick :
    (b : Bool) (x y : Rendition)
    → (b ≡ true → InPalette x)
    → InPalette y
    → InPalette (if b then x else y)
pick true x y p q = p refl
pick false x y p q = q

render-InPalette : (num : ℕ) (r : Rendition) → InPalette r → InPalette (render num r)
unfolding render
render-InPalette num r h =
    let b = bright-le r.bold in
    pick (num == 0) _ _ (λ _. (omega arith, omega arith))
      (pick (num == 1) _ _ (λ _. h)
        (pick (num == 7) _ _ (λ _. (h.1, h.0))
          (pick (num == 22) _ _ (λ _. (omega arith, h.1))
            (pick (between 30 37 num) _ _ (λ t. (ground arith, h.1))
              (pick (num == 38) _ _ (λ _. (omega arith, h.1))
                (pick (between 40 47 num) _ _ (λ t. (h.0, ground arith))
                  (pick (num == 48) _ _ (λ _. (h.0, omega arith))
                    (pick (between 90 97 num) _ _ (λ t. (ground arith, h.1))
                      (pick (between 100 107 num) _ _ (λ t. (h.0, ground arith)) h)))))))))

pub render_each-InPalette :
    (ps : List (List ℕ)) (r : Rendition) → InPalette r → InPalette (render_each ps r)
unfolding render_each
render_each-InPalette [] r h = h
render_each-InPalette (p ∷ ps) r h =
    render_each-InPalette ps (render (atoi p) r) (render-InPalette (atoi p) r h)

pub colored :
    (c : Console) (f b : ℕ)
    → IsValid c
    → (f < 16) × (b < 16)
    → IsValid (record c { fg_color = f; bg_color = b })
colored c f b v h = record {
  fits = record {
    area = v.fits.area;
    lines = v.fits.lines;
    broad = v.fits.broad;
    width = v.fits.width;
    height = v.fits.height;
    short = v.fits.short;
    colors = h;
    glyphs = v.fits.glyphs;
    params = v.fits.params;
  };
  column = v.column;
}

handle_csi_sgr-IsValid : (c : Console) → IsValid c → IsValid (handle_csi_sgr c)
unfolding handle_csi_sgr
handle_csi_sgr-IsValid c v =
    let r = render_each (params_of c) (record { fg = c.fg_color; bg = c.bg_color; bold = false }) in
    branch IsValid (char_at c.param_buf == 0) _ _
      (colored c default_fg_color default_bg_color v (omega arith, omega arith))
      λ _. colored c r.fg r.bg v (
        render_each-InPalette (params_of c)
          (record { fg = c.fg_color; bg = c.bg_color; bold = false }) v.fits.colors)

mark_dirty-IsValid : (y n : ℕ) (c : Console) → IsValid c → IsValid (mark_dirty y n c)
unfolding mark_dirty
mark_dirty-IsValid y n c v = record { fits = mark_dirty-Fits y n c v.fits; column = v.column }

handle_csi_dectcem-IsValid : (ch : ℕ) (c : Console) → IsValid c → IsValid (handle_csi_dectcem ch c)
unfolding handle_csi_dectcem
handle_csi_dectcem-IsValid ch c v = go (strcmp c.param_buf cursor_mode)
  where
    go :
        (o : Cmp)
        → IsValid (elim o [
          | same ↦ mark_dirty c.cursor_y 1 (record c { is_cursor_visible = ch == 0x68 })
          | _ ↦ c
        ])
    go Cmp.same = mark_dirty-IsValid c.cursor_y 1 _ (
        same_phase c c.state c.whole_screen_should_be_cleared (ch == 0x68) c.overrun c.param_buf_idx
          v)
    go Cmp.below = v
    go Cmp.above = v

run_csi-IsValid : (ch : ℕ) (c : Console) → IsValid c → IsValid (run_csi ch c)
unfolding run_csi
run_csi-IsValid ch c v = branch IsValid (ch == 0x41) _ _ (handle_csi_cuu-IsValid c v) λ _.
    branch IsValid (ch == 0x42) _ _ (handle_csi_cud-IsValid c v) λ _.
      branch IsValid (ch == 0x43) _ _ (handle_csi_cuf-IsValid c v) λ _.
        branch IsValid (ch == 0x44) _ _ (handle_csi_cub-IsValid c v) λ _.
          branch IsValid (ch == 0x47) _ _ (handle_csi_cha-IsValid c v) λ _.
            branch IsValid (ch == 0x48) _ _ (handle_csi_cup-IsValid c v) λ _.
              branch IsValid (ch == 0x4a) _ _ (handle_csi_ed-IsValid c v) λ _.
                branch IsValid (ch == 0x4b) _ _ (handle_csi_el-IsValid c v) λ _.
                  branch IsValid (ch == 0x6d) _ _ (handle_csi_sgr-IsValid c v) λ _.
                    branch IsValid (ch == 0x68 || ch == 0x6c) _ _
                      (handle_csi_dectcem-IsValid ch c v) λ _. v

pub put_param-IsValid : (ch : ℕ) (c : Console) → IsValid c → IsValid (put_param ch c)
unfolding put_param
put_param-IsValid ch c v = record {
  fits = record {
    area = v.fits.area;
    lines = v.fits.lines;
    broad = v.fits.broad;
    width = v.fits.width;
    height = v.fits.height;
    short = v.fits.short;
    colors = v.fits.colors;
    glyphs = v.fits.glyphs;
    params = length-set c.param_buf c.param_buf_idx ch ∙ v.fits.params;
  };
  column = v.column;
}

handle_state_csi-IsValid : (ch : ℕ) (c : Console) → IsValid c → IsValid (handle_state_csi ch c)
unfolding handle_state_csi
handle_state_csi-IsValid ch c v =
    let d = put_param ch c in
    let e = run_csi ch (put_param 0 c) in
    branch IsValid (is_param ch) _ _
      (same_phase d d.state d.whole_screen_should_be_cleared d.is_cursor_visible d.overrun
        (add32 d.param_buf_idx 1) (put_param-IsValid ch c v))
      λ _.
        same_phase e Phase.ground e.whole_screen_should_be_cleared e.is_cursor_visible e.overrun
          e.param_buf_idx (run_csi-IsValid ch (put_param 0 c) (put_param-IsValid 0 c v))

pub on_char-IsValid : (ch : ℕ) (c : Console) → IsValid c → IsValid (on_char ch c)
unfolding on_char
on_char-IsValid ch c v = go c.state
  where
    go :
        (p : Phase)
        → IsValid (elim p [
          | Phase.ground ↦ handle_ground ch c
          | Phase.esc ↦ handle_state_esc ch c
          | Phase.csi ↦ handle_state_csi ch c
        ])
    go Phase.ground = handle_ground-IsValid ch c v
    go Phase.esc = handle_state_esc-IsValid ch c v
    go Phase.csi = handle_state_csi-IsValid ch c v
