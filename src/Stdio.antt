-- ===== src/Stdio.antt =====
-- common/stdio.c: formatted output into a buffer.
-- A conversion is taken apart into the characters that it writes; only "0x" is written without a check
-- between its characters. `args` are the words that va_arg reads, one after the other, and `memory` is
-- the string at a pointer. The format is the list of its characters, behind whose end the NUL lies.
pub mod Tracks
pub mod Written
pub mod Number
pub mod Bounds
mod Tests
use chaotix.Base.{
  ℕ, zero, suc, ◌+◌, ◌-◌, ◌*◌, ◌/◌, ◌%◌, ◌^◌, ◌≤◌, ◌<◌, min, max, ◌≡◌, refl, sym, ap, ap₂, ◌∙◌, ◌≢◌,
  ◌↔◌, ◌⊎◌, inl, inr, Bool, true, false, not, ◌&&◌, ◌||◌, Option, none, some, List, [], ◌∷◌, ◌++◌,
  map, append-nil, append_assoc, arith, add-one, ltb, leb, ◌==◌, if◌then◌else◌, ltb→lt, leb→le,
  ==_iff, ==_refl, Bool-cases, Option-cases, all_less, all_less-holds, same, same-true, length,
  get_or, set, take, drop, replicate, length-append, length-set, get_or-set_self, get_or-set_ne,
  set_twice, set-get_or, take-nil, drop-nil, length-take, length-drop, take_all, take-append-drop,
  length-replicate, take-min,
}

-- A digit of `itoa`.
abbrev pub digit : ℕ → ℕ
digit m = if ltb m 10 then m + 48 else m - 10 + 97

-- The first loop of `itoa`, for a radix of 2 or more: the least digit comes first, and the second loop
-- turns them around. A word has at most 32 digits; the loop ends before the fuel does.
unfoldable pub digits_of : ℕ → ℕ → ℕ → List ℕ
digits_of zero radix value = []
digits_of (suc fuel) radix value =
    let rest = digits_of fuel radix (value / radix) in
    if value / radix == 0 then digit (value % radix) ∷ [] else rest ++ (digit (value % radix) ∷ [])

-- `value` is a word; it is negative from 2 ^ 31 on.
unfoldable pub itoa : ℕ → ℕ → List ℕ
unfolding digits_of
itoa value radix =
    if radix == 10 && leb (2 ^ 31) value
    then 45 ∷ digits_of 32 radix (2 ^ 32 - value)
    else digits_of 32 radix value

-- What is written between two checks of the bound is one character, or "0x".
pub data Piece : Type 0 where
  chars : List ℕ → Piece
  zero_x : Piece

-- What a conversion writes, what is left of the format, and how many arguments are used up.
pub record Conversion : Type 0 where
  pub pieces : List Piece
  pub rest : List ℕ
  pub next : ℕ

abbrev pub is_number : ℕ → Bool
is_number ch = ch == 0x64 || ch == 0x69 || ch == 0x75 || ch == 0x78 || ch == 0x23

abbrev pub pad : Bool → ℕ → List ℕ → List ℕ
pad pad0 pad_len num_buf = replicate (pad_len - length num_buf) (if pad0 then 48 else 32) ++ num_buf

-- The numbers: an `x` behind the letter is taken too.
unfoldable pub convert_number : (ℕ → ℕ) → Bool → ℕ → ℕ → List ℕ → ℕ → Conversion
unfolding itoa
convert_number args pad0 pad_len ch [] n = record {
  pieces = Piece.chars (pad pad0 pad_len (itoa (args n) (if ch == 0x78 then 16 else 10))) ∷ [];
  rest = [];
  next = suc n;
}
convert_number args pad0 pad_len ch (d ∷ s) n =
    if d == 0x78
    then record {
      pieces = Piece.zero_x ∷ Piece.chars (pad pad0 pad_len (itoa (args n) 16)) ∷ [];
      rest = s;
      next = suc n;
    }
    else record {
      pieces = Piece.chars (pad pad0 pad_len (itoa (args n) (if ch == 0x78 then 16 else 10))) ∷ [];
      rest = d ∷ s;
      next = suc n;
    }

-- "(null)".
abbrev null_text : List ℕ
null_text = 0x28 ∷ 0x6e ∷ 0x75 ∷ 0x6c ∷ 0x6c ∷ 0x29 ∷ []

abbrev pub text_at : (ℕ → List ℕ) → ℕ → List ℕ
text_at memory p = if p == 0 then null_text else memory p

-- The `switch` on the character of the conversion. Behind the NUL the program reads on in memory that
-- is not the format's; here it ends.
unfoldable pub convert : (ℕ → ℕ) → (ℕ → List ℕ) → Bool → ℕ → List ℕ → ℕ → Conversion
unfolding convert_number
convert args memory pad0 pad_len [] n = record {
  pieces = Piece.chars (0x3f ∷ []) ∷ [];
  rest = [];
  next = n;
}
convert args memory pad0 pad_len (ch ∷ s) n =
    if ch == 0x63
    then record { pieces = Piece.chars (args n % 256 ∷ []) ∷ []; rest = s; next = suc n }
    else if is_number ch
    then convert_number args pad0 pad_len ch s n
    else if ch == 0x73
    then record { pieces = Piece.chars (text_at memory (args n)) ∷ []; rest = s; next = suc n }
    else record { pieces = Piece.chars (0x3f ∷ []) ∷ []; rest = s; next = n }

-- The digit of the width.
unfoldable pub convert_padded : (ℕ → ℕ) → (ℕ → List ℕ) → Bool → List ℕ → ℕ → Conversion
unfolding convert
convert_padded args memory pad0 [] n = convert args memory pad0 0 [] n
convert_padded args memory pad0 (ch ∷ s) n =
    if leb 48 ch && leb ch 57
    then convert args memory pad0 (ch - 48) s n
    else convert args memory pad0 0 (ch ∷ s) n

-- Behind the `%`.
unfoldable pub directive : (ℕ → ℕ) → (ℕ → List ℕ) → List ℕ → ℕ → Conversion
unfolding convert_padded
directive args memory [] n = convert_padded args memory false [] n
directive args memory (ch ∷ s) n =
    if ch == 0x25
    then record { pieces = Piece.chars (0x25 ∷ []) ∷ []; rest = s; next = n }
    else if ch == 48
    then convert_padded args memory true s n
    else convert_padded args memory false (ch ∷ s) n

-- What has been written, and whether some of it lies behind the buffer. `stopped`: `goto too_long`.
pub record Output : Type 0 where
  pub buffer : List ℕ
  pub stopped : Bool
  pub overrun : Bool

unfoldable pub write_char : ℕ → ℕ → Output → Output
write_char size c o = if o.stopped then o else record {
  buffer = o.buffer ++ (c ∷ []);
  stopped = leb size (length o.buffer + 1);
  overrun = o.overrun || leb size (length o.buffer);
}

unfoldable pub write_text : ℕ → List ℕ → Output → Output
unfolding write_char
write_text size [] o = o
write_text size (c ∷ cs) o = write_text size cs (write_char size c o)

unfoldable pub write_zero_x : ℕ → Output → Output
write_zero_x size o = if o.stopped then o else record {
  buffer = o.buffer ++ (48 ∷ 0x78 ∷ []);
  stopped = leb size (length o.buffer + 2);
  overrun = o.overrun || leb size (length o.buffer + 1);
}

unfoldable pub write_piece : ℕ → Piece → Output → Output
unfolding write_text write_zero_x
write_piece size (Piece.chars cs) o = write_text size cs o
write_piece size Piece.zero_x o = write_zero_x size o

unfoldable pub write_pieces : ℕ → List Piece → Output → Output
unfolding write_piece
write_pieces size [] o = o
write_pieces size (p ∷ ps) o = write_pieces size ps (write_piece size p o)

-- The loop over the format; a unit of fuel for each of its characters is enough.
unfoldable pub pieces_of : (ℕ → ℕ) → (ℕ → List ℕ) → ℕ → List ℕ → ℕ → List Piece
unfolding directive
pieces_of args memory zero format n = []
pieces_of args memory (suc fuel) [] n = []
pieces_of args memory (suc fuel) (ch ∷ s) n =
    let d : Conversion = directive args memory s n in
    let plain = pieces_of args memory fuel s n in
    let converted = pieces_of args memory fuel d.rest d.next in
    if ch == 0x25 then d.pieces ++ converted else Piece.chars (ch ∷ []) ∷ plain

-- What a call leaves in memory from the buffer's start on, the value that it returns, and whether it
-- has written behind the buffer.
pub record Printed : Type 0 where
  pub memory : List ℕ
  pub returned : ℕ
  pub overrun : Bool

-- Behind `too_long`: the NUL replaces the last character of a buffer that is full.
unfoldable pub terminate : ℕ → Output → Printed
terminate size o =
    let idx = length o.buffer in
    let k = if ltb idx size then idx else size - 1 in
    record {
      memory = take k o.buffer ++ (0 ∷ drop (k + 1) o.buffer);
      returned = idx;
      overrun = o.overrun || leb size k;
    }

-- `none` where the buffer has no room at all: nothing is written, and the value that is returned is 0.
unfoldable pub vsnprintf : ℕ → (ℕ → ℕ) → (ℕ → List ℕ) → List ℕ → Option Printed
unfolding pieces_of write_pieces terminate
vsnprintf size args memory format =
    if size == 0
    then none
    else some (
        terminate size (
          write_pieces size (pieces_of args memory (length format) format 0)
            (record { buffer = []; stopped = false; overrun = false })))
