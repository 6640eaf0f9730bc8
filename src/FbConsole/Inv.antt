-- ===== src/FbConsole/Inv.antt =====
-- The invariant of the console, and what keeps every write inside its arrays.
use chaotix.Base.{
  ℕ, zero, suc, ◌+◌, ◌*◌, ◌^◌, ◌≤◌, ◌<◌, ◌≡◌, refl, ap₂, ◌∙◌, inl, inr, Bool, true, false, ◌||◌,
  List, arith, ltb, ◌==◌, Bool-cases, length, set, length-set,
}
use chaotix.Base.All.{All, All-set}
use chaotix.FbConsole.Screen.{
  Cell, Console, fill, outside, fill_cells, mark_dirty, set_cursor, clear_line_at, cell_of,
}

-- Its character has a glyph, and its colours are in the palette.
abbrev pub HasGlyph : Cell → Type 0
HasGlyph k = (k.ch < 128) × (k.fg_color < 16) × (k.bg_color < 16)

-- The arrays have their sizes, and what is drawn can be drawn.
pub record Fits (c : Console) : Type 0 where
  pub area : length c.cells ≡ c.console_width * c.console_height
  pub lines : length c.line_is_dirty ≡ c.console_height
  pub broad : 0 < c.console_width
  pub width : c.console_width < 2 ^ 16
  pub height : 0 < c.console_height
  pub short : c.console_height < 2 ^ 16
  pub colors : (c.fg_color < 16) × (c.bg_color < 16)
  pub glyphs : All HasGlyph c.cells
  pub params : length c.param_buf ≡ 1024

-- The cursor's column is on the screen too.
pub record IsValid (c : Console) : Type 0 where
  pub fits : Fits c
  pub column : c.cursor_x < c.console_width

-- The arrays fit, the cursor's row is on the screen, and no write has fallen outside the arrays.
pub record Inside (c : Console) : Type 0 where
  pub fits : Fits c
  pub row : c.cursor_y < c.console_height
  pub intact : c.overrun ≡ false

pub length-fill {ℓ} :
    {A : Type ℓ} (xs : List A) (i n : ℕ) (v : A) → length (fill xs i n v) ≡ length xs
length-fill xs i zero v = refl
length-fill xs i (suc n) v = length-fill (set xs i v) (suc i) n v ∙ length-set xs i v

pub All-fill {ℓ κ} :
    {A : Type ℓ} (P : A → Type κ) (xs : List A) (i n : ℕ) (v : A)
    → All P xs
    → P v
    → All P (fill xs i n v)
All-fill P xs i zero v h p = h
All-fill P xs i (suc n) v h p = All-fill P (set xs i v) (suc i) n v (All-set P xs i v h p) p

pub inside_list {ℓ} :
    {A : Type ℓ} (xs : List A) (i n : ℕ) → i + n ≤ length xs → outside xs i n ≡ false
inside_list xs i n h = elim (Bool-cases (n == 0)) [
  | inl z ↦ simp z
  | inr z ↦ let s : ltb (length xs) (i + n) ≡ false = ground arith in simp (z, s)
]

pub cell_of-HasGlyph : (ch : ℕ) (c : Console) → Fits c → ch < 128 → HasGlyph (cell_of ch c)
cell_of-HasGlyph ch c v h = (h, v.colors.0, v.colors.1)

pub fill_cells-Fits :
    (i n : ℕ) (k : Cell) (c : Console) → Fits c → HasGlyph k → Fits (fill_cells i n k c)
unfolding fill_cells
fill_cells-Fits i n k c v h = record {
  area = length-fill c.cells i n k ∙ v.area;
  lines = v.lines;
  broad = v.broad;
  width = v.width;
  height = v.height;
  short = v.short;
  colors = v.colors;
  glyphs = All-fill HasGlyph c.cells i n k v.glyphs h;
  params = v.params;
}

pub mark_dirty-Fits : (y n : ℕ) (c : Console) → Fits c → Fits (mark_dirty y n c)
unfolding mark_dirty
mark_dirty-Fits y n c v = record {
  area = v.area;
  lines = length-fill c.line_is_dirty y n true ∙ v.lines;
  broad = v.broad;
  width = v.width;
  height = v.height;
  short = v.short;
  colors = v.colors;
  glyphs = v.glyphs;
  params = v.params;
}

pub fill_cells-Inside :
    (i n : ℕ) (k : Cell) (c : Console)
    → Inside c
    → HasGlyph k
    → i + n ≤ c.console_width * c.console_height
    → Inside (fill_cells i n k c)
unfolding fill_cells
fill_cells-Inside i n k c s h b =
    let v = s.fits in
    let z = inside_list c.cells i n (rw (v.area) b) in
    record {
      fits = fill_cells-Fits i n k c v h;
      row = s.row;
      intact = ap₂ (λ a b. a || b) s.intact z;
    }

pub mark_dirty-Inside :
    (y n : ℕ) (c : Console) → Inside c → y + n ≤ c.console_height → Inside (mark_dirty y n c)
unfolding mark_dirty
mark_dirty-Inside y n c s b =
    let v = s.fits in
    let z = inside_list c.line_is_dirty y n (rw (v.lines) b) in
    record { fits = mark_dirty-Fits y n c v; row = s.row; intact = ap₂ (λ a b. a || b) s.intact z }

-- A console that differs only in what does not matter to the invariant, and in the cursor.
abbrev pub with_cursor : ℕ → ℕ → Bool → Console → Console
with_cursor x y stomp c = record c { cursor_x = x; cursor_y = y; stomp = stomp }

pub with_cursor-Fits : (x y : ℕ) (b : Bool) (c : Console) → Fits c → Fits (with_cursor x y b c)
with_cursor-Fits x y b c v = record {
  area = v.area;
  lines = v.lines;
  broad = v.broad;
  width = v.width;
  height = v.height;
  short = v.short;
  colors = v.colors;
  glyphs = v.glyphs;
  params = v.params;
}

pub set_cursor-Fits : (x y : ℕ) (c : Console) → Fits c → Fits (set_cursor x y c)
unfolding set_cursor mark_dirty
set_cursor-Fits x y c v = with_cursor-Fits x y false _ (
    mark_dirty-Fits y 1 _
      (mark_dirty-Fits c.cursor_y 1 _ (with_cursor-Fits c.cursor_x c.cursor_y false c v)))

pub set_cursor-Inside :
    (x y : ℕ) (c : Console) → Inside c → y < c.console_height → Inside (set_cursor x y c)
unfolding set_cursor mark_dirty
set_cursor-Inside x y c s b =
    let z : Console = record c { stomp = false } in
    let t : Inside z = record {
      fits = with_cursor-Fits c.cursor_x c.cursor_y false c s.fits;
      row = s.row;
      intact = s.intact;
    } in
    let m =
      mark_dirty-Inside y 1 (mark_dirty c.cursor_y 1 z)
        (mark_dirty-Inside c.cursor_y 1 z t (omega (arith, s.row))) (omega arith) in
    record { fits = with_cursor-Fits x y false _ m.fits; row = b; intact = m.intact }

pub clear_line_at-Fits : (x y n : ℕ) (c : Console) → Fits c → Fits (clear_line_at x y n c)
unfolding clear_line_at
clear_line_at-Fits x y n c v = mark_dirty-Fits y 1 _ (
    fill_cells-Fits (x + y * c.console_width) n (cell_of 32 c) c v
      (cell_of-HasGlyph 32 c v (omega arith)))

-- A stretch of a line lies in the area.
pub index_in_area : (x y n w h : ℕ) → x + n ≤ w → y < h → x + y * w + n ≤ w * h
index_in_area x y n w h p q = grind arith

pub clear_line_at-Inside :
    (x y n : ℕ) (c : Console)
    → Inside c
    → x + n ≤ c.console_width
    → y < c.console_height
    → Inside (clear_line_at x y n c)
unfolding clear_line_at fill_cells
clear_line_at-Inside x y n c s p q =
    mark_dirty-Inside y 1 _
      (fill_cells-Inside (x + y * c.console_width) n (cell_of 32 c) c s
        (cell_of-HasGlyph 32 c s.fits (omega arith))
        (index_in_area x y n c.console_width c.console_height p q))
      (omega arith)
