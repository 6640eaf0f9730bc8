-- ===== src/Stdio/Tracks.antt =====
-- How the output of vsnprintf (common/stdio.c) follows the text of the format, up to the final NUL.
use mathlib.Core.Path.{subst}
use chaotix.Base.{
  ℕ, zero, suc, ◌+◌, ◌-◌, ◌≤◌, ◌<◌, ◌≡◌, refl, sym, ap, ◌∙◌, inl, inr, true, false, none, some,
  List, [], ◌∷◌, ◌++◌, append-nil, append_assoc, arith, ltb, leb, ◌==◌, leb→le, Bool-cases, length,
  take, drop, length-append, length-take, take_all,
}
use chaotix.Stdio.{
  Piece, Output, write_char, write_text, write_zero_x, write_piece, write_pieces, pieces_of,
  Printed, terminate, vsnprintf,
}

-- The characters of the pieces.
abbrev text_of_piece : Piece → List ℕ
text_of_piece (Piece.chars cs) = cs
text_of_piece Piece.zero_x = 48 ∷ 0x78 ∷ []

abbrev pub text_of : List Piece → List ℕ
text_of [] = []
text_of (p ∷ ps) = text_of_piece p ++ text_of ps

-- The output of the text `t`: all of it while there is room, and its first characters from then on.
pub data Tracks (size : ℕ) (t : List ℕ) (o : Output) : Type 0 where
  going : o.stopped ≡ false → o.buffer ≡ t → length t < size → Tracks size t o
  full : o.stopped ≡ true → take size o.buffer ≡ take size t → size ≤ length t → Tracks size t o

take-append_long : (n : ℕ) (xs ys : List ℕ) → n ≤ length xs → take n (xs ++ ys) ≡ take n xs
take-append_long zero xs ys h = refl
take-append_long (suc n) [] ys h = absurd (omega (arith, h))
take-append_long (suc n) (x ∷ xs) ys h =
    ap (λ zs. x ∷ zs) (take-append_long n xs ys (omega (arith, h)))

-- Once it has stopped, nothing changes.
full-append :
    (size : ℕ) (t s : List ℕ) (o : Output)
    → o.stopped ≡ true
    → take size o.buffer ≡ take size t
    → size ≤ length t
    → Tracks size (t ++ s) o
full-append size t s o e h l =
    Tracks.full e (h ∙ sym (take-append_long size t s l)) (omega (arith, l, length-append t s))

-- A stretch of characters is written, and then the bound is looked at.
stretch-Tracks :
    (size : ℕ) (t s : List ℕ) (o : Output)
    → o.stopped ≡ leb size (length (t ++ s))
    → o.buffer ≡ t ++ s
    → Tracks size (t ++ s) o
stretch-Tracks size t s o e h = elim (Bool-cases (leb size (length (t ++ s)))) [
  | inl b ↦ Tracks.full (e ∙ b) (ap (take size) h) (leb→le size (length (t ++ s)) b)
  | inr b ↦ Tracks.going (e ∙ b) h (ground arith)
]

write_char-Tracks :
    (size c : ℕ) (t : List ℕ) (o : Output)
    → Tracks size t o
    → Tracks size (t ++ (c ∷ [])) (write_char size c o)
unfolding write_char
write_char-Tracks size c t o (Tracks.going e h l) =
    let n : length o.buffer + 1 ≡ length (t ++ (c ∷ [])) =
      omega (arith, ap length h, length-append t (c ∷ [])) in
    simp e (stretch-Tracks size t (c ∷ []) _ (ap (leb size) n) (ap (λ b. b ++ (c ∷ [])) h))
write_char-Tracks size c t o (Tracks.full e h l) = simp e (full-append size t (c ∷ []) o e h l)

write_zero_x-Tracks :
    (size : ℕ) (t : List ℕ) (o : Output)
    → Tracks size t o
    → Tracks size (t ++ (48 ∷ 0x78 ∷ [])) (write_zero_x size o)
unfolding write_zero_x
write_zero_x-Tracks size t o (Tracks.going e h l) =
    let x : List ℕ = 48 ∷ 0x78 ∷ [] in
    let n : length o.buffer + 2 ≡ length (t ++ x) = omega (arith, ap length h, length-append t x) in
    simp e (stretch-Tracks size t x _ (ap (leb size) n) (ap (λ b. b ++ x) h))
write_zero_x-Tracks size t o (Tracks.full e h l) =
    simp e (full-append size t (48 ∷ 0x78 ∷ []) o e h l)

write_text-Tracks :
    (size : ℕ) (cs t : List ℕ) (o : Output)
    → Tracks size t o
    → Tracks size (t ++ cs) (write_text size cs o)
unfolding write_text
write_text-Tracks size [] t o h = subst (λ s. Tracks size s o) (sym (append-nil t)) h
write_text-Tracks size (c ∷ cs) t o h =
    subst (λ s. Tracks size s (write_text size cs (write_char size c o)))
      (append_assoc t (c ∷ []) cs)
      (write_text-Tracks size cs (t ++ (c ∷ [])) (write_char size c o)
        (write_char-Tracks size c t o h))

write_piece-Tracks :
    (size : ℕ) (p : Piece) (t : List ℕ) (o : Output)
    → Tracks size t o
    → Tracks size (t ++ text_of_piece p) (write_piece size p o)
unfolding write_piece
write_piece-Tracks size (Piece.chars cs) t o h = write_text-Tracks size cs t o h
write_piece-Tracks size Piece.zero_x t o h = write_zero_x-Tracks size t o h

write_pieces-Tracks :
    (size : ℕ) (ps : List Piece) (t : List ℕ) (o : Output)
    → Tracks size t o
    → Tracks size (t ++ text_of ps) (write_pieces size ps o)
unfolding write_pieces
write_pieces-Tracks size [] t o h = subst (λ s. Tracks size s o) (sym (append-nil t)) h
write_pieces-Tracks size (p ∷ ps) t o h =
    subst (λ s. Tracks size s (write_pieces size ps (write_piece size p o)))
      (append_assoc t (text_of_piece p) (text_of ps))
      (write_pieces-Tracks size ps (t ++ text_of_piece p) (write_piece size p o)
        (write_piece-Tracks size p t o h))

take-take : (n m : ℕ) (xs : List ℕ) → n ≤ m → take n (take m xs) ≡ take n xs
take-take zero m xs h = refl
take-take (suc n) zero xs h = absurd (omega (arith, h))
take-take (suc n) (suc m) [] h = refl
take-take (suc n) (suc m) (x ∷ xs) h = ap (λ ys. x ∷ ys) (take-take n m xs (omega (arith, h)))

take-cut :
    (n : ℕ) (xs ys : List ℕ)
    → n ≤ length xs
    → take (suc n) (take n xs ++ (0 ∷ ys)) ≡ take n xs ++ (0 ∷ [])
take-cut zero xs ys h = refl
take-cut (suc n) [] ys h = absurd (omega (arith, h))
take-cut (suc n) (x ∷ xs) ys h = ap (λ zs. x ∷ zs) (take-cut n xs ys (omega (arith, h)))

drop_past : (n : ℕ) (xs : List ℕ) → length xs ≤ n → drop n xs ≡ []
drop_past zero [] h = refl
drop_past zero (x ∷ xs) h = absurd (omega (arith, h))
drop_past (suc n) [] h = refl
drop_past (suc n) (x ∷ xs) h = drop_past n xs (omega (arith, h))

-- A buffer is full exactly if the text has no room.
pub returned-length :
    (size : ℕ) (t : List ℕ) (o : Output)
    → Tracks size t o
    → ((terminate size o).returned < size → length t < size)
      × (size ≤ (terminate size o).returned → size ≤ length t)
unfolding terminate
returned-length size t o (Tracks.going e h l) = (λ r. l, λ r. omega (arith, r, ap length h))
returned-length size t o (Tracks.full e h l) = (
  λ r. absurd (omega (arith, r, l, length-take size o.buffer, length-take size t, ap length h)),
  λ r. l,
)

-- The text has room, with the NUL behind it.
pub terminate-whole :
    (size : ℕ) (t : List ℕ) (o : Output)
    → Tracks size t o
    → length t < size
    → ((terminate size o).memory ≡ t ++ (0 ∷ [])) × ((terminate size o).returned ≡ length t)
unfolding terminate
terminate-whole size t o (Tracks.going e h l) r =
    let u : ltb (length o.buffer) size ≡ true = ground (arith, ap length h, l) in
    let k = take_all (length o.buffer) o.buffer (omega arith) in
    let d = drop_past (length o.buffer + 1) o.buffer (omega arith) in
    (simp (u, k, d) (ap (λ b. b ++ (0 ∷ [])) h), ap length h)
terminate-whole size t o (Tracks.full e h l) r = absurd (omega (arith, r, l))

-- Where the text has no room, the buffer holds its first characters and the NUL.
pub terminate-cut :
    (m : ℕ) (t : List ℕ) (o : Output)
    → Tracks (suc m) t o
    → suc m ≤ length t
    → take (suc m) (terminate (suc m) o).memory ≡ take m t ++ (0 ∷ [])
unfolding terminate
terminate-cut m t o (Tracks.going e h l) r = absurd (omega (arith, r, l))
terminate-cut m t o (Tracks.full e h l) r =
    let b : suc m ≤ length o.buffer =
      omega (arith, l, length-take (suc m) o.buffer, length-take (suc m) t, ap length h) in
    let u : ltb (length o.buffer) (suc m) ≡ false = ground (arith, b) in
    let n : suc m - 1 ≡ m = omega arith in
    let k : take m o.buffer ≡ take m t =
      sym (take-take m (suc m) o.buffer (omega arith))
      ∙ ap (take m) h
      ∙ take-take m (suc m) t (omega arith) in
    simp (u, n)
      (take-cut m o.buffer (drop (m + 1) o.buffer) (omega (arith, b)) ∙ ap (λ b. b ++ (0 ∷ [])) k)

-- In front of the NUL are the first characters of the text.
pub terminate-front :
    (size n : ℕ) (t : List ℕ) (o : Output)
    → Tracks size t o
    → n < size
    → n ≤ length t
    → take n (terminate size o).memory ≡ take n t
terminate-front zero n t o h s l = absurd (omega (arith, s))
terminate-front (suc m) n t o h s l = elim (Bool-cases (leb (suc m) (length t))) [
  | inl b ↦
      let r = leb→le (suc m) (length t) b in
      sym (take-take n (suc m) (terminate (suc m) o).memory (omega (arith, s)))
      ∙ ap (take n) (terminate-cut m t o h r)
      ∙ take-append_long n (take m t) (0 ∷ []) (omega (arith, s, r, length-take m t))
      ∙ take-take n m t (omega (arith, s))
  | inr b ↦
      ap (take n) ((terminate-whole (suc m) t o h (ground arith)).0)
      ∙ take-append_long n t (0 ∷ []) l
]

abbrev pub empty : Output
empty = record { buffer = []; stopped = false; overrun = false }

-- What vsnprintf writes, before the NUL.
abbrev pub written : ℕ → (ℕ → ℕ) → (ℕ → List ℕ) → List ℕ → Output
written size args memory format =
    write_pieces size (pieces_of args memory (length format) format 0) empty

pub vsnprintf-terminate :
    (size : ℕ) (args : ℕ → ℕ) (memory : ℕ → List ℕ) (format : List ℕ) (o : Printed)
    → vsnprintf size args memory format ≡ some o
    → (0 < size) × (terminate size (written size args memory format) ≡ o)
unfolding vsnprintf
vsnprintf-terminate size args memory format o h = elim (Bool-cases (size == 0)) [
  | inl t ↦ let e : vsnprintf size args memory format ≡ none = simp t in absurd (cc)
  | inr t ↦
      let e : vsnprintf size args memory format
          ≡ some (terminate size (written size args memory format)) =
        simp t in
      (ground arith, let q = sym e ∙ h in cc)
]

pub written-Tracks :
    (size : ℕ) (args : ℕ → ℕ) (memory : ℕ → List ℕ) (format : List ℕ)
    → 0 < size
    → Tracks size
        (text_of (pieces_of args memory (length format) format 0))
        (written size args memory format)
written-Tracks size args memory format h =
    write_pieces-Tracks size (pieces_of args memory (length format) format 0) [] empty
      (Tracks.going refl refl h)
