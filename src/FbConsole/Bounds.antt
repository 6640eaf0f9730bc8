-- ===== src/FbConsole/Bounds.antt =====
-- Where no write falls outside the arrays.
use chaotix.Base.{
  ℕ, zero, suc, ◌+◌, ◌-◌, ◌*◌, ◌≤◌, ◌<◌, ◌≡◌, refl, ◌≢◌, ◌⊎◌, inl, inr, Bool, true, false, arith,
  ltb, leb, ◌==◌, if◌then◌else◌, ==_iff, Bool-cases,
}
use chaotix.Base.Word.{add32, sub32}
use chaotix.Stdlib.{atoi}
use chaotix.FbConsole.Screen.{
  Console, Phase, fill_cells, mark_dirty, set_cursor, clear_line_at, clear_lines, clear_screen,
  write_char_at, cell_of, check_right_end, start_line, scroll_if_below, print_char, handle_ground,
  next_tab,
}
use chaotix.FbConsole.Escapes.{
  count_param, handle_csi_cuu, handle_csi_cud, handle_csi_cuf, handle_csi_cub, clamp_param,
  params_of, first_param, second_param, handle_csi_cup, handle_csi_ed, handle_csi_el,
}
use chaotix.FbConsole.Inv.{
  IsValid, Inside, fill_cells-Inside, mark_dirty-Inside, set_cursor-Inside, clear_line_at-Inside,
  index_in_area, cell_of-HasGlyph, with_cursor-Fits,
}
use chaotix.FbConsole.Keep.{same_fields, branch}
use chaotix.FbConsole.Column.{clamp_param-lt}

write_char_at-Inside :
    (x y ch : ℕ) (c : Console)
    → Inside c
    → x < c.console_width
    → y < c.console_height
    → ch < 128
    → Inside (write_char_at x y ch c)
unfolding write_char_at fill_cells
write_char_at-Inside x y ch c s p q h =
    mark_dirty-Inside y 1 _
      (fill_cells-Inside (x + y * c.console_width) 1 (cell_of ch c) c s
        (cell_of-HasGlyph ch c s.fits h)
        (index_in_area x y 1 c.console_width c.console_height (omega arith) q))
      (omega arith)

clear_lines-Inside :
    (y n : ℕ) (c : Console) → Inside c → y + n ≤ c.console_height → Inside (clear_lines y n c)
unfolding clear_lines clear_line_at fill_cells mark_dirty
clear_lines-Inside y zero c s h = s
clear_lines-Inside y (suc n) c s h =
    clear_lines-Inside (suc y) n (clear_line_at 0 y c.console_width c)
      (clear_line_at-Inside 0 y c.console_width c s (omega arith) (omega arith)) (omega arith)

pub same_phase :
    (c : Console) (p : Phase) (whole visible : Bool) (n : ℕ)
    → Inside c
    → Inside (record c {
      state = p;
      whole_screen_should_be_cleared = whole;
      is_cursor_visible = visible;
      param_buf_idx = n;
    })
same_phase c p whole visible n s = record {
  fits = same_fields c p whole visible c.overrun n s.fits;
  row = s.row;
  intact = s.intact;
}

clear_screen-Inside : (c : Console) → Inside c → Inside (clear_screen c)
unfolding clear_screen
clear_screen-Inside c s =
    let d = clear_lines 0 c.console_height c in
    same_phase d d.state true d.is_cursor_visible d.param_buf_idx
      (clear_lines-Inside 0 c.console_height c s (omega arith))

check_right_end-Inside : (c : Console) → Inside c → Inside (check_right_end c)
unfolding check_right_end
check_right_end-Inside c s = elim (Bool-cases (leb c.console_width c.cursor_x)) [
  | inl t ↦
      let d = set_cursor-Inside (c.console_width - 1) c.cursor_y c s s.row in
      simp t (record { fits = with_cursor-Fits _ _ true _ d.fits; row = d.row; intact = d.intact })
  | inr t ↦ simp t s
]

-- The next line is on the screen, or the character does not start one.
abbrev pub HasRoom : ℕ → Console → Type 0
HasRoom ch c = (c.cursor_y + 1 < c.console_height) ⊎ ((ch ≢ 10) × (c.stomp ≡ false))

-- The row below, where it is on the screen.
next_row :
    (c : Console)
    → Inside c
    → c.cursor_y + 1 < c.console_height
    → add32 c.cursor_y 1 < c.console_height
next_row c s h = let short = s.fits.short in omega arith

start_line-Inside :
    (ch : ℕ) (c : Console)
    → Inside c
    → IsValid c
    → HasRoom ch c
    → Inside (start_line c) × ((start_line c).cursor_x < (start_line c).console_width)
unfolding start_line set_cursor mark_dirty
start_line-Inside ch c s v room = elim (Bool-cases c.stomp) [
  | inl t ↦ elim room [
    | inl below ↦
        simp t (
          set_cursor-Inside 0 (add32 c.cursor_y 1) c s (next_row c s below),
          omega (arith, v.column),
        )
    | inr (d, steady) ↦ absurd (cc)
  ]
  | inr t ↦ simp t (s, v.column)
]

scroll_if_below-same : (c : Console) → Inside c → scroll_if_below c ≡ c
unfolding scroll_if_below
scroll_if_below-same c s =
    let t : leb c.console_height c.cursor_y ≡ false = ground (arith, s.row) in simp t

print_char-Inside :
    (ch : ℕ) (c : Console)
    → Inside c
    → IsValid c
    → HasRoom ch c
    → ch < 128
    → Inside (print_char ch c)
unfolding print_char write_char_at fill_cells mark_dirty
print_char-Inside ch c s v room h =
    let d = start_line c in
    let i = start_line-Inside ch c s v room in
    let e = write_char_at d.cursor_x d.cursor_y ch d in
    let w = write_char_at-Inside d.cursor_x d.cursor_y ch d i.0 i.1 i.0.row h in
    simp (scroll_if_below-same d i.0) (set_cursor-Inside (e.cursor_x + 1) e.cursor_y e w w.row)

pub handle_ground-Inside :
    (ch : ℕ) (c : Console) → Inside c → IsValid c → HasRoom ch c → Inside (handle_ground ch c)
unfolding handle_ground
handle_ground-Inside ch c s v room =
    branch Inside (ch == 0x1b) _ _
      (same_phase c Phase.esc c.whole_screen_should_be_cleared c.is_cursor_visible c.param_buf_idx
        s)
      λ _.
        branch Inside (ch == 13) _ _
          (check_right_end-Inside _ (set_cursor-Inside 0 c.cursor_y c s s.row))
          λ _.
            newline (ch == 10) _ _
              (λ t. elim room [
                | inl below ↦
                    check_right_end-Inside _
                      (set_cursor-Inside 0 (add32 c.cursor_y 1) c s (next_row c s below))
                | inr (d, steady) ↦ absurd (d ((==_iff ch 10).0 t))
              ])
              (branch Inside (ch == 8) _ _
                (check_right_end-Inside _ (
                  branch Inside (ltb 0 c.cursor_x) _ _
                    (set_cursor-Inside (c.cursor_x - 1) c.cursor_y c s s.row) λ _. s))
                λ _.
                  branch Inside (ch == 9) _ _
                    (check_right_end-Inside _
                      (set_cursor-Inside (next_tab c.cursor_x) c.cursor_y c s s.row))
                    λ _. branch Inside (ltb 127 ch) _ _ s λ small.
                      check_right_end-Inside _ (print_char-Inside ch c s v room (ground arith)))
  where
    newline :
        (b : Bool) (x y : Console) → (b ≡ true → Inside x) → Inside y → Inside (if b then x else y)
    newline true x y p q = p refl
    newline false x y p q = q

pub handle_csi_cuu-Inside : (c : Console) → Inside c → Inside (handle_csi_cuu c)
unfolding handle_csi_cuu
handle_csi_cuu-Inside c s =
    branch Inside (ltb c.cursor_y (count_param c)) _ _
      (set_cursor-Inside c.cursor_x 0 c s (s.fits.height))
      λ _. set_cursor-Inside c.cursor_x (c.cursor_y - count_param c) c s (omega (arith, s.row))

pub handle_csi_cud-Inside : (c : Console) → Inside c → Inside (handle_csi_cud c)
unfolding handle_csi_cud
handle_csi_cud-Inside c s =
    branch Inside (leb c.console_height (add32 (count_param c) c.cursor_y)) _ _
      (set_cursor-Inside c.cursor_x (c.console_height - 1) c s (omega (arith, s.row)))
      λ small. set_cursor-Inside c.cursor_x (add32 c.cursor_y (count_param c)) c s (ground arith)

pub handle_csi_cuf-Inside : (c : Console) → Inside c → Inside (handle_csi_cuf c)
unfolding handle_csi_cuf
handle_csi_cuf-Inside c s =
    branch Inside (leb c.console_width (add32 (count_param c) c.cursor_x)) _ _
      (set_cursor-Inside (c.console_width - 1) c.cursor_y c s s.row)
      λ _. set_cursor-Inside (add32 c.cursor_x (count_param c)) c.cursor_y c s s.row

pub handle_csi_cub-Inside : (c : Console) → Inside c → Inside (handle_csi_cub c)
unfolding handle_csi_cub
handle_csi_cub-Inside c s =
    branch Inside (ltb c.cursor_x (count_param c)) _ _ (set_cursor-Inside 0 c.cursor_y c s s.row)
      λ _. set_cursor-Inside (c.cursor_x - count_param c) c.cursor_y c s s.row

pub handle_csi_cup-Inside : (c : Console) → Inside c → Inside (handle_csi_cup c)
unfolding handle_csi_cup
handle_csi_cup-Inside c s =
    set_cursor-Inside (clamp_param c.console_width (second_param (params_of c)))
      (clamp_param c.console_height (first_param (params_of c))) c s
      (clamp_param-lt c.console_height (first_param (params_of c)) s.fits.height)

-- The rest of the line from the cursor on, and the line up to it.
rest_of_line :
    (c : Console) → IsValid c → c.cursor_x + sub32 c.console_width c.cursor_x ≤ c.console_width
rest_of_line c v = let w = v.fits.width in omega (arith, v.column)

start_of_line : (c : Console) → IsValid c → 0 + add32 c.cursor_x 1 ≤ c.console_width
start_of_line c v = omega (arith, v.column)

clear_lines-column :
    (y n : ℕ) (c : Console)
    → ((clear_lines y n c).cursor_x ≡ c.cursor_x)
      × ((clear_lines y n c).console_width ≡ c.console_width)
      × ((clear_lines y n c).console_height ≡ c.console_height)
unfolding clear_lines clear_line_at fill_cells mark_dirty
clear_lines-column y zero c = (refl, refl, refl)
clear_lines-column y (suc n) c = clear_lines-column (suc y) n (clear_line_at 0 y c.console_width c)

pub handle_csi_ed-Inside : (c : Console) → Inside c → IsValid c → Inside (handle_csi_ed c)
unfolding handle_csi_ed clear_line_at fill_cells mark_dirty
handle_csi_ed-Inside c s v =
    let k = clear_lines-column 0 c.cursor_y c in
    branch Inside (atoi c.param_buf == 0) _ _
      (clear_lines-Inside (add32 c.cursor_y 1) (c.console_height - add32 c.cursor_y 1) _
        (clear_line_at-Inside c.cursor_x c.cursor_y (sub32 c.console_width c.cursor_x) c s
          (rest_of_line c v) s.row)
        (let short = s.fits.short in omega (arith, s.row)))
      λ _.
        branch Inside (atoi c.param_buf == 1) _ _
          (clear_line_at-Inside 0 c.cursor_y (add32 c.cursor_x 1) (clear_lines 0 c.cursor_y c)
            (clear_lines-Inside 0 c.cursor_y c s (omega (arith, s.row)))
            (omega (arith, start_of_line c v, k.1)) (omega (arith, s.row, k.2)))
          λ _. branch Inside (atoi c.param_buf == 2) _ _ (clear_screen-Inside c s) λ _. s

pub handle_csi_el-Inside : (c : Console) → Inside c → IsValid c → Inside (handle_csi_el c)
unfolding handle_csi_el
handle_csi_el-Inside c s v =
    branch Inside (atoi c.param_buf == 0) _ _
      (clear_line_at-Inside c.cursor_x c.cursor_y (sub32 c.console_width c.cursor_x) c s
        (rest_of_line c v) s.row)
      λ _.
        branch Inside (atoi c.param_buf == 1) _ _
          (clear_line_at-Inside 0 c.cursor_y (add32 c.cursor_x 1) c s (start_of_line c v) s.row)
          λ _.
            branch Inside (atoi c.param_buf == 2) _ _
              (clear_line_at-Inside 0 c.cursor_y c.console_width c s (omega arith) s.row) λ _. s
