-- ===== src/Stdio/Written.antt =====
-- What vsnprintf (common/stdio.c) leaves in a buffer that is too short.
use mathlib.Core.Path.{subst}
use chaotix.Base.{
  ℕ, zero, suc, ◌-◌, ◌≤◌, ◌<◌, ◌≡◌, sym, ap, ◌∙◌, some, List, [], ◌∷◌, ◌++◌, arith, length, take,
}
use chaotix.Stdio.{Output, pieces_of, Printed, terminate, vsnprintf}
use chaotix.Stdio.Tracks.{
  Tracks, text_of, returned-length, terminate-whole, terminate-cut, terminate-front, written-Tracks,
  written, vsnprintf-terminate,
}

-- What a call with a buffer of `size` places leaves, beside what a call with a larger one leaves: the
-- same, if the value that it returns is less than `size`; and otherwise the first characters of the
-- other, as many as leave a place, and the NUL there.
pub record Shortened (size : ℕ) (o u : Printed) : Type 0 where
  pub whole : o.returned < size → (o.memory ≡ u.memory) × (o.returned ≡ u.returned)
  pub cut : size ≤ o.returned → take size o.memory ≡ take (size - 1) u.memory ++ (0 ∷ [])

terminate-Shortened :
    (size big : ℕ) (t : List ℕ) (o u : Output)
    → 0 < size
    → size ≤ big
    → Tracks size t o
    → Tracks big t u
    → Shortened size (terminate size o) (terminate big u)
terminate-Shortened zero big t o u p l h k = absurd (omega (arith, p))
terminate-Shortened (suc m) big t o u p l h k = record {
  whole = λ r.
      let s = (returned-length (suc m) t o h).0 r in
      let a = terminate-whole (suc m) t o h s in
      let b = terminate-whole big t u k (omega (arith, s, l)) in (a.0 ∙ sym (b.0), a.1 ∙ sym (b.1));
  cut = λ r.
      let s = (returned-length (suc m) t o h).1 r in
      let n : suc m - 1 ≡ m = omega arith in
      terminate-cut m t o h s
      ∙ ap (λ xs. xs ++ (0 ∷ []))
          (sym (terminate-front big m t u k (omega (arith, l)) (omega (arith, s)))
            ∙ ap (λ i. take i (terminate big u).memory) (sym n));
}

-- Of two calls with the same format and arguments, and buffers with a place at least, the one with the
-- smaller buffer leaves the same as the
-- other if the value that it returns is less than the size of its buffer. Otherwise its buffer holds the
-- first characters of what the other leaves, one less than it has places, and the NUL behind them.
pub vsnprintf_prefix :
    (size big : ℕ) (args : ℕ → ℕ) (memory : ℕ → List ℕ) (format : List ℕ) (o u : Printed)
    → size ≤ big
    → vsnprintf size args memory format ≡ some o
    → vsnprintf big args memory format ≡ some u
    → Shortened size o u
vsnprintf_prefix size big args memory format o u l h k =
    let a = vsnprintf-terminate size args memory format o h in
    let b = vsnprintf-terminate big args memory format u k in
    subst (λ x. Shortened size x u) (a.1)
      (subst (Shortened size (terminate size (written size args memory format))) (b.1) (
        terminate-Shortened size big (text_of (pieces_of args memory (length format) format 0))
          (written size args memory format) (written big args memory format) (a.0) l
          (written-Tracks size args memory format (a.0))
          (written-Tracks big args memory format (b.0))))
