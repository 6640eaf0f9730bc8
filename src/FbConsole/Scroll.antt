-- ===== src/FbConsole/Scroll.antt =====
-- Which characters are safe, and what a new line on the last line does.
use chaotix.Base.{
  ℕ, ◌+◌, ◌≤◌, ◌<◌, ◌≡◌, refl, ap, ap₂, ◌∙◌, Bool, true, false, ◌||◌, List, [], ◌∷◌, arith, ltb,
  leb, ◌==◌, length,
}
use chaotix.Base.Word.{add32}
use chaotix.Stdlib.{atoi}
use chaotix.CString.{Cmp, same, strcmp, char_at}
use chaotix.FbConsole.Screen.{
  Console, Phase, fill, outside, mark_dirty, set_cursor, check_right_end, handle_ground,
  default_fg_color, default_bg_color,
}
use chaotix.FbConsole.Escapes.{
  handle_state_esc, clamp_param, handle_csi_cha, params_of, render_each, handle_csi_sgr,
  cursor_mode, handle_csi_dectcem, run_csi, put_param, is_param, handle_state_csi, on_char,
}
use chaotix.FbConsole.Inv.{
  IsValid, Inside, mark_dirty-Inside, set_cursor-Inside, inside_list, length-fill,
}
use chaotix.FbConsole.Keep.{same_fields, branch}
use chaotix.FbConsole.Column.{colored, put_param-IsValid, on_char-IsValid, render_each-InPalette}
use chaotix.FbConsole.Bounds.{
  HasRoom, same_phase, handle_ground-Inside, handle_csi_cuu-Inside, handle_csi_cud-Inside,
  handle_csi_cuf-Inside, handle_csi_cub-Inside, handle_csi_cup-Inside, handle_csi_ed-Inside,
  handle_csi_el-Inside,
}

handle_csi_cha-Inside : (c : Console) → Inside c → Inside (handle_csi_cha c)
unfolding handle_csi_cha
handle_csi_cha-Inside c s =
    set_cursor-Inside (clamp_param c.console_width (atoi c.param_buf)) c.cursor_y c s s.row

colored-Inside :
    (c : Console) (f b : ℕ)
    → Inside c
    → IsValid c
    → (f < 16) × (b < 16)
    → Inside (record c { fg_color = f; bg_color = b })
colored-Inside c f b s v h = record {
  fits = (colored c f b v h).fits;
  row = s.row;
  intact = s.intact;
}

handle_csi_sgr-Inside : (c : Console) → Inside c → IsValid c → Inside (handle_csi_sgr c)
unfolding handle_csi_sgr
handle_csi_sgr-Inside c s v =
    let r = render_each (params_of c) (record { fg = c.fg_color; bg = c.bg_color; bold = false }) in
    branch Inside (char_at c.param_buf == 0) _ _
      (colored-Inside c default_fg_color default_bg_color s v (omega arith, omega arith))
      λ _. colored-Inside c r.fg r.bg s v (
        render_each-InPalette (params_of c)
          (record { fg = c.fg_color; bg = c.bg_color; bold = false }) v.fits.colors)

handle_csi_dectcem-Inside : (ch : ℕ) (c : Console) → Inside c → Inside (handle_csi_dectcem ch c)
unfolding handle_csi_dectcem
handle_csi_dectcem-Inside ch c s = go (strcmp c.param_buf cursor_mode)
  where
    go :
        (o : Cmp)
        → Inside (elim o [
          | same ↦ mark_dirty c.cursor_y 1 (record c { is_cursor_visible = ch == 0x68 })
          | _ ↦ c
        ])
    go Cmp.same =
        mark_dirty-Inside c.cursor_y 1 _
          (same_phase c c.state c.whole_screen_should_be_cleared (ch == 0x68) c.param_buf_idx s)
          (omega (arith, s.row))
    go Cmp.below = s
    go Cmp.above = s

run_csi-Inside : (ch : ℕ) (c : Console) → Inside c → IsValid c → Inside (run_csi ch c)
unfolding run_csi
run_csi-Inside ch c s v = branch Inside (ch == 0x41) _ _ (handle_csi_cuu-Inside c s) λ _.
    branch Inside (ch == 0x42) _ _ (handle_csi_cud-Inside c s) λ _.
      branch Inside (ch == 0x43) _ _ (handle_csi_cuf-Inside c s) λ _.
        branch Inside (ch == 0x44) _ _ (handle_csi_cub-Inside c s) λ _.
          branch Inside (ch == 0x47) _ _ (handle_csi_cha-Inside c s) λ _.
            branch Inside (ch == 0x48) _ _ (handle_csi_cup-Inside c s) λ _.
              branch Inside (ch == 0x4a) _ _ (handle_csi_ed-Inside c s v) λ _.
                branch Inside (ch == 0x4b) _ _ (handle_csi_el-Inside c s v) λ _.
                  branch Inside (ch == 0x6d) _ _ (handle_csi_sgr-Inside c s v) λ _.
                    branch Inside (ch == 0x68 || ch == 0x6c) _ _ (handle_csi_dectcem-Inside ch c s)
                      λ _. s

put_param-Inside :
    (ch : ℕ) (c : Console) → Inside c → IsValid c → c.param_buf_idx < 1024 → Inside (put_param ch c)
unfolding put_param
put_param-Inside ch c s v h =
    let z = inside_list c.param_buf c.param_buf_idx 1 (rw (v.fits.params) (omega arith)) in
    record {
      fits = (put_param-IsValid ch c v).fits;
      row = s.row;
      intact = ap₂ (λ a b. a || b) s.intact z;
    }

handle_state_csi-Inside :
    (ch : ℕ) (c : Console)
    → Inside c
    → IsValid c
    → c.param_buf_idx < 1024
    → Inside (handle_state_csi ch c)
unfolding handle_state_csi
handle_state_csi-Inside ch c s v h =
    let d = put_param ch c in
    let e = run_csi ch (put_param 0 c) in
    branch Inside (is_param ch) _ _
      (same_phase d d.state d.whole_screen_should_be_cleared d.is_cursor_visible
        (add32 d.param_buf_idx 1) (put_param-Inside ch c s v h))
      λ _.
        same_phase e Phase.ground e.whole_screen_should_be_cleared e.is_cursor_visible
          e.param_buf_idx
          (run_csi-Inside ch (put_param 0 c) (put_param-Inside 0 c s v h) (put_param-IsValid 0 c v))

handle_state_esc-Inside :
    (ch : ℕ) (c : Console) → Inside c → IsValid c → HasRoom ch c → Inside (handle_state_esc ch c)
unfolding handle_state_esc
handle_state_esc-Inside ch c s v room =
    branch Inside (ch == 0x5b) _ _
      (same_phase c Phase.csi c.whole_screen_should_be_cleared c.is_cursor_visible 0 s)
      λ _.
        handle_ground-Inside ch (record c { state = Phase.ground })
          (same_phase c Phase.ground c.whole_screen_should_be_cleared c.is_cursor_visible
            c.param_buf_idx s)
          (record {
            fits =
                same_fields c Phase.ground c.whole_screen_should_be_cleared c.is_cursor_visible
                  c.overrun c.param_buf_idx v.fits;
            column = v.column;
          })
          room

-- A valid console in its bounds, with room for another parameter: a character writes inside the arrays and
-- leaves the console valid and the cursor on the screen, its row and its column, if there is a line below
-- the cursor's, or if the character is no new line and the cursor does not wait at the right end.
pub on_char-Inside :
    (ch : ℕ) (c : Console)
    → IsValid c
    → Inside c
    → c.param_buf_idx < 1024
    → HasRoom ch c
    → Inside (on_char ch c) × IsValid (on_char ch c)
unfolding on_char
on_char-Inside ch c v s h room = (go c.state, on_char-IsValid ch c v)
  where
    go :
        (p : Phase)
        → Inside (elim p [
          | Phase.ground ↦ handle_ground ch c
          | Phase.esc ↦ handle_state_esc ch c
          | Phase.csi ↦ handle_state_csi ch c
        ])
    go Phase.ground = handle_ground-Inside ch c s v room
    go Phase.esc = handle_state_esc-Inside ch c s v room
    go Phase.csi = handle_state_csi-Inside ch c s v h

-- Each character finds room: for a parameter, and for the line that it starts, if it starts one.
abbrev pub AllHaveRoom : List ℕ → Console → Type 0
AllHaveRoom [] c = Unit {0}
AllHaveRoom (ch ∷ chars) c =
    (c.param_buf_idx < 1024) × HasRoom ch c × AllHaveRoom chars (on_char ch c)

on_char-handle_ground :
    (ch : ℕ) (c : Console) → c.state ≡ Phase.ground → on_char ch c ≡ handle_ground ch c
unfolding on_char
on_char-handle_ground ch c g =
    ap
      (λ p. elim p [
        | Phase.ground ↦ handle_ground ch c
        | Phase.esc ↦ handle_state_esc ch c
        | Phase.csi ↦ handle_state_csi ch c
      ])
      g

check_right_end-same : (c : Console) → c.cursor_x < c.console_width → check_right_end c ≡ c
unfolding check_right_end
check_right_end-same c h = let t : leb c.console_width c.cursor_x ≡ false = ground arith in simp t

set_cursor-overrun :
    (x y : ℕ) (c : Console) → length c.line_is_dirty ≤ y → (set_cursor x y c).overrun ≡ true
unfolding set_cursor mark_dirty
set_cursor-overrun x y c h =
    let n = length-fill c.line_is_dirty c.cursor_y 1 true in
    let far : ltb (length (fill c.line_is_dirty c.cursor_y 1 true)) (y + 1) ≡ true =
      ground (arith, n) in
    simp far (||-true (c.overrun || outside c.line_is_dirty c.cursor_y 1))
  where
    ||-true : (b : Bool) → (b || true) ≡ true
    ||-true true = refl
    ||-true false = refl

handle_ground-newline :
    (c : Console) → 0 < c.console_width → handle_ground 10 c ≡ set_cursor 0 (add32 c.cursor_y 1) c
unfolding handle_ground set_cursor mark_dirty
handle_ground-newline c h = check_right_end-same (set_cursor 0 (add32 c.cursor_y 1) c) h

set_cursor-same_cells : (x y : ℕ) (c : Console) → (set_cursor x y c).cells ≡ c.cells
unfolding set_cursor mark_dirty
set_cursor-same_cells x y c = refl

-- What a new line does to a console in its bounds whose cursor is on the last line: nothing but to set
-- the cursor to the line below the screen. For that it marks the cursor's own line, and the line below,
-- whose mark is outside `line_is_dirty`: the first write outside the arrays. No cell is changed, so
-- nothing has scrolled.
pub record MarksBelow (c after : Console) : Type 0 where
  pub result : after ≡ set_cursor 0 c.console_height c
  pub own_mark : outside c.line_is_dirty c.cursor_y 1 ≡ false
  pub mark_below : outside c.line_is_dirty c.console_height 1 ≡ true
  pub before : c.overrun ≡ false
  pub overrun : after.overrun ≡ true
  pub same_cells : after.cells ≡ c.cells

-- A new line outside of an escape sequence, on the last line of a valid console in its bounds, only sets
-- the cursor, to the line below the screen, with no cell changed: the mark of that line is written outside `line_is_dirty`, the first
-- write outside the arrays.
pub on_char-newline :
    (c : Console)
    → IsValid c
    → Inside c
    → c.state ≡ Phase.ground
    → c.cursor_y + 1 ≡ c.console_height
    → MarksBelow c (on_char 10 c)
on_char-newline c v s g low =
    let short = v.fits.short in
    let y : add32 c.cursor_y 1 ≡ c.console_height = omega (arith, low, short) in
    let e : on_char 10 c ≡ set_cursor 0 c.console_height c =
      on_char-handle_ground 10 c g
      ∙ handle_ground-newline c (v.fits.broad)
      ∙ ap (λ n. set_cursor 0 n c) y in
    let far : ltb (length c.line_is_dirty) (c.console_height + 1) ≡ true =
      ground (arith, v.fits.lines) in
    record {
      result = e;
      own_mark = inside_list c.line_is_dirty c.cursor_y 1 (omega (arith, v.fits.lines, low));
      mark_below = far;
      before = s.intact;
      overrun =
          ap (λ d. d.overrun) e
          ∙ set_cursor-overrun 0 c.console_height c (omega (arith, v.fits.lines));
      same_cells = ap (λ d. d.cells) e ∙ set_cursor-same_cells 0 c.console_height c;
    }
