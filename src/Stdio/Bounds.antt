-- ===== src/Stdio/Bounds.antt =====
-- When vsnprintf (common/stdio.c) stays inside of its buffer.
use chaotix.Base.{ℕ, ◌-◌, ◌≤◌, ◌<◌, min, ◌≡◌, false, List, ◌==◌, length, get_or}
use chaotix.Base.All.{All}
use chaotix.Stdio.{Piece, Conversion, Output, Printed}

abbrev pub NoX : List ℕ → Type 0
NoX s = All (λ c. (c == 0x78) ≡ false) s

abbrev IsChars : Piece → Type 0
IsChars (Piece.chars cs) = Unit
IsChars Piece.zero_x = ⊥

-- A conversion that writes no "0x", in front of a format without an `x`.
record Plain (d : Conversion) : Type 0 where
  only : All IsChars d.pieces
  behind : NoX d.rest

-- What is written lies in the buffer, and there is room for a character while it goes on.
record HasRoom (size : ℕ) (o : Output) : Type 0 where
  inside : o.overrun ≡ false
  fits : length o.buffer ≤ size
  room : o.stopped ≡ false → length o.buffer < size

-- What a call leaves lies in its buffer of `size` places, the NUL included, which stands at the value
-- that is returned, or in the last place if that value is the size.
pub record InBounds (size : ℕ) (o : Printed) : Type 0 where
  pub inside : o.overrun ≡ false
  pub fits : length o.memory ≤ size
  pub value : o.returned ≤ size
  pub ended : get_or o.memory (min o.returned (size - 1)) 1 ≡ 0
