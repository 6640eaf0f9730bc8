-- ===== src/FbConsole/Tests.antt =====
-- A console of two lines of three characters.
use chaotix.Base.{ℕ, ◌<◌, refl, inr, true, false, List, [], ◌∷◌, arith, replicate, length-replicate}
use chaotix.FbConsole.Screen.{Cell, Console, Phase}
use chaotix.FbConsole.Escapes.{on_char}
use chaotix.FbConsole.Inv.{HasGlyph, IsValid, Inside}
use chaotix.FbConsole.Scroll.{MarksBelow, on_char-Inside, on_char-newline}

abbrev blank : Cell
blank = record { ch = 32; fg_color = 7; bg_color = 0 }

abbrev small_at : ℕ → Console
small_at y = record {
  console_width = 3;
  console_height = 2;
  cursor_x = 1;
  cursor_y = y;
  is_cursor_visible = true;
  state = Phase.ground;
  fg_color = 7;
  bg_color = 0;
  cells = replicate 6 blank;
  line_is_dirty = false ∷ false ∷ [];
  whole_screen_should_be_cleared = false;
  stomp = false;
  param_buf = replicate 1024 0;
  param_buf_idx = 0;
  overrun = false;
}

small_at-IsValid : (y : ℕ) → IsValid (small_at y)
small_at-IsValid y = record {
  fits = record {
    area = refl;
    lines = refl;
    broad = omega arith;
    width = omega arith;
    height = omega arith;
    short = omega arith;
    colors = (omega arith, omega arith);
    glyphs = (good, (good, (good, (good, (good, (good, tt))))));
    params = length-replicate {A = ℕ} 1024 0;
  };
  column = omega arith;
}
  where
    good : HasGlyph blank
    good = (omega arith, omega arith, omega arith)

small_at-Inside : (y : ℕ) → y < 2 → Inside (small_at y)
small_at-Inside y h = record { fits = (small_at-IsValid y).fits; row = h; intact = refl }

abbrev text : List ℕ
text = 65 ∷ 10 ∷ 0x1b ∷ 0x5b ∷ 0x48 ∷ []

on_char-Inside_example : Inside (on_char 65 (small_at 1)) × IsValid (on_char 65 (small_at 1))
on_char-Inside_example =
    on_char-Inside 65 (small_at 1) (small_at-IsValid 1) (small_at-Inside 1 (omega arith))
      (omega arith) (inr (omega arith, refl))

on_char-newline_example : MarksBelow (small_at 1) (on_char 10 (small_at 1))
on_char-newline_example =
    on_char-newline (small_at 1) (small_at-IsValid 1) (small_at-Inside 1 (omega arith)) refl
      (omega arith)
