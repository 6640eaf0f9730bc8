-- ===== src/Shell/Buffer.antt =====
-- What moving and storing characters does to the text of the buffer.
use chaotix.Base.{
  ℕ, zero, suc, ◌+◌, ◌-◌, ◌≤◌, ◌<◌, ◌≡◌, refl, sym, ap, ◌∙◌, true, some, List, [], ◌∷◌, ◌++◌, arith,
  ltb, leb, length, set, take, drop, length-append, take-nil, drop-nil, length-take, length-drop,
}
use chaotix.Shell.Editor.{move, memmove, store}

module _ {ℓ} {A : Type ℓ} where
  pub take-append : (n : ℕ) (xs ys : List A) → length xs ≡ n → take n (xs ++ ys) ≡ xs
  take-append zero [] ys h = refl
  take-append zero (x ∷ xs) ys h = absurd (omega arith)
  take-append (suc n) [] ys h = absurd (omega arith)
  take-append (suc n) (x ∷ xs) ys h = ap (λ l. x ∷ l) (take-append n xs ys (omega arith))

  pub drop-append : (n : ℕ) (xs ys : List A) → length xs ≡ n → drop n (xs ++ ys) ≡ ys
  drop-append zero [] ys h = refl
  drop-append zero (x ∷ xs) ys h = absurd (omega arith)
  drop-append (suc n) [] ys h = absurd (omega arith)
  drop-append (suc n) (x ∷ xs) ys h = drop-append n xs ys (omega arith)

  pub take-set : (n : ℕ) (xs : List A) (i : ℕ) (v : A) → n ≤ i → take n (set xs i v) ≡ take n xs
  take-set zero xs i v h = refl
  take-set (suc n) [] i v h = refl
  take-set (suc n) (x ∷ xs) zero v h = absurd (omega arith)
  take-set (suc n) (x ∷ xs) (suc i) v h = ap (λ l. x ∷ l) (take-set n xs i v (omega arith))

  pub drop-set : (n : ℕ) (xs : List A) (i : ℕ) (v : A) → i < n → drop n (set xs i v) ≡ drop n xs
  drop-set zero xs i v h = absurd (omega arith)
  drop-set (suc n) [] i v h = refl
  drop-set (suc n) (x ∷ xs) zero v h = refl
  drop-set (suc n) (x ∷ xs) (suc i) v h = drop-set n xs i v (omega arith)

  pub drop-set_behind :
      (n : ℕ) (xs : List A) (i : ℕ) (v : A)
      → n ≤ i
      → drop n (set xs i v) ≡ set (drop n xs) (i - n) v
  drop-set_behind zero xs i v h = let e : i - 0 ≡ i = omega arith in rw e refl
  drop-set_behind (suc n) [] i v h = refl
  drop-set_behind (suc n) (x ∷ xs) zero v h = absurd (omega arith)
  drop-set_behind (suc n) (x ∷ xs) (suc i) v h =
      let e : suc i - suc n ≡ i - n = omega arith in rw e (drop-set_behind n xs i v (omega arith))

  take-set_last :
      (c : ℕ) (xs ys : List A) (v : A)
      → c < length xs
      → take (suc c) (set (take (suc c) xs ++ ys) c v) ≡ take c xs ++ (v ∷ [])
  take-set_last zero [] ys v h = absurd (omega arith)
  take-set_last zero (x ∷ xs) ys v h = refl
  take-set_last (suc c) [] ys v h = absurd (omega arith)
  take-set_last (suc c) (x ∷ xs) ys v h = ap (λ l. x ∷ l) (take-set_last c xs ys v (omega arith))

pub length-move :
    (buf : List ℕ) (dst src n : ℕ)
    → dst + n ≤ length buf
    → src + n ≤ length buf
    → length (move buf dst src n) ≡ length buf
length-move buf dst src n d s =
    length-append (take dst buf) (take n (drop src buf) ++ drop (dst + n) buf)
    ∙ ap (λ k. length (take dst buf) + k)
        (length-append (take n (drop src buf)) (drop (dst + n) buf))
    ∙ omega (
      arith,
      length-take dst buf,
      length-take n (drop src buf),
      length-drop src buf,
      length-drop (dst + n) buf,
    )

-- The buffer after `n` characters from `c` on have moved up by one and `x` is stored at `c`.
module _ (buf : List ℕ) (c n x : ℕ) (room : c + n < length buf) where
  abbrev pub inserted : List ℕ
  inserted = set (move buf (suc c) c n) c x

  pub take-inserted : take (suc c) inserted ≡ take c buf ++ (x ∷ [])
  take-inserted = take-set_last c buf (take n (drop c buf) ++ drop (suc c + n) buf) x (omega arith)

  pub drop-inserted : take n (drop (suc c) inserted) ≡ take n (drop c buf)
  drop-inserted =
      ap (take n) (drop-set (suc c) (move buf (suc c) c n) c x (omega arith))
      ∙ ap (take n) (
          drop-append (suc c) (take (suc c) buf) (take n (drop c buf) ++ drop (suc c + n) buf)
            (length-take (suc c) buf ∙ omega arith))
      ∙ take-append n (take n (drop c buf)) (drop (suc c + n) buf)
          (length-take n (drop c buf) ∙ omega (arith, length-drop c buf))

-- The buffer after the character at `i` has gone, with `n` characters behind it, and a NUL is stored.
module _ (buf : List ℕ) (i n : ℕ) (room : i + 1 + n ≤ length buf) where
  abbrev pub removed : List ℕ
  removed = set (move buf i (i + 1) n) (i + n) 0

  pub take-removed : take i removed ≡ take i buf
  take-removed =
      take-set i (move buf i (i + 1) n) (i + n) 0 (omega arith)
      ∙ take-append i (take i buf) (take n (drop (i + 1) buf) ++ drop (i + n) buf)
          (length-take i buf ∙ omega arith)

  pub drop-removed : take n (drop i removed) ≡ take n (drop (i + 1) buf)
  drop-removed =
      ap (take n) (drop-set_behind i (move buf i (i + 1) n) (i + n) 0 (omega arith))
      ∙ take-set n (drop i (move buf i (i + 1) n)) (i + n - i) 0 (omega arith)
      ∙ ap (take n) (
          drop-append i (take i buf) (take n (drop (i + 1) buf) ++ drop (i + n) buf)
            (length-take i buf ∙ omega arith))
      ∙ take-append n (take n (drop (i + 1) buf)) (drop (i + n) buf)
          (length-take n (drop (i + 1) buf) ∙ omega (arith, length-drop (i + 1) buf))

pub memmove-move :
    (buf : List ℕ) (dst src n : ℕ)
    → dst + n ≤ length buf
    → src + n ≤ length buf
    → memmove buf dst src n ≡ some (move buf dst src n)
unfolding memmove
memmove-move buf dst src n d s =
    let to : leb (dst + n) (length buf) ≡ true = ground arith in
    let from : leb (src + n) (length buf) ≡ true = ground arith in simp (memmove, to, from)

pub store-set : (buf : List ℕ) (i c : ℕ) → i < length buf → store buf i c ≡ some (set buf i c)
unfolding store
store-set buf i c h = let t : ltb i (length buf) ≡ true = ground arith in simp t

pub take_less : (xs : List ℕ) (m n : ℕ) → m ≤ n → take m (take n xs) ≡ take m xs
take_less xs zero n l = refl
take_less xs (suc m) zero l = absurd (omega arith)
take_less [] (suc m) (suc n) l = refl
take_less (x ∷ xs) (suc m) (suc n) l = ap (λ t. x ∷ t) (take_less xs m n (omega arith))

pub drop-take : (xs : List ℕ) (n : ℕ) → drop 1 (take n xs) ≡ take (n - 1) (drop 1 xs)
drop-take xs zero = refl
drop-take [] (suc n) = sym (take-nil (suc n - 1))
drop-take (x ∷ xs) (suc n) = let e : suc n - 1 ≡ n = omega arith in rw e refl

pub drop-drop : (xs : List ℕ) (m n : ℕ) → drop m (drop n xs) ≡ drop (n + m) xs
drop-drop xs m zero = let e : zero + m ≡ m = omega arith in rw e refl
drop-drop [] m (suc n) = drop-nil m ∙ sym (drop-nil (suc n + m))
drop-drop (x ∷ xs) m (suc n) =
    let e : suc n + m ≡ suc (n + m) = omega arith in rw e (drop-drop xs m n)

-- The text in two parts, wherever it is cut.
pub take-cut : (xs : List ℕ) (c m : ℕ) → take (c + m) xs ≡ take c xs ++ take m (drop c xs)
take-cut xs zero m = let e : zero + m ≡ m = omega arith in rw e refl
take-cut [] (suc c) m = take-nil (suc c + m) ∙ sym (take-nil m)
take-cut (x ∷ xs) (suc c) m =
    let e : suc c + m ≡ suc (c + m) = omega arith in rw e (ap (λ t. x ∷ t) (take-cut xs c m))

pub drop-take_more : (xs : List ℕ) (m n : ℕ) → drop m (take (m + n) xs) ≡ take n (drop m xs)
drop-take_more xs zero n = let e : zero + n ≡ n = omega arith in rw e refl
drop-take_more [] (suc m) n =
    let e : suc m + n ≡ suc (m + n) = omega arith in rw e (sym (take-nil n))
drop-take_more (x ∷ xs) (suc m) n =
    let e : suc m + n ≡ suc (m + n) = omega arith in rw e (drop-take_more xs m n)
