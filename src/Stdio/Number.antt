-- ===== src/Stdio/Number.antt =====
-- The numbers that itoa (common/stdio.c) writes are read back by atoi (common/stdlib.c).
use chaotix.Base.{
  ℕ, zero, suc, ◌+◌, ◌-◌, ◌*◌, ◌/◌, ◌%◌, ◌^◌, ◌≤◌, ◌<◌, ◌≡◌, refl, sym, ap, ◌∙◌, inl, inr, true,
  false, ◌&&◌, List, [], ◌∷◌, ◌++◌, arith, ltb, leb, ◌==◌, ==_iff, Bool-cases,
}
use chaotix.CString.{is_space}
use chaotix.Base.All.{All, All-append}
use chaotix.Stdlib.{skip_space, digits, atoi}
use chaotix.Stdio.{digit, digits_of, itoa}

-- A character of a decimal number.
abbrev Decimal : ℕ → Type 0
Decimal c = (48 ≤ c) × (c ≤ 57)

digits-append :
    (res : ℕ) (xs ys : List ℕ) → All Decimal xs → digits res (xs ++ ys) ≡ digits (digits res xs) ys
unfolding digits
digits-append res [] ys h = refl
digits-append res (c ∷ xs) ys h =
    let t : (leb 48 c && leb c 57) ≡ true = ground (arith, h.0) in
    simp t (digits-append ((res * 10 + (c - 48)) % 2 ^ 32) xs ys (h.1))

digit-Decimal : (m : ℕ) → m < 10 → digit m ≡ m + 48
digit-Decimal m l = let t : ltb m 10 ≡ true = ground arith in simp t

digits_of-Decimal : (fuel value : ℕ) → All Decimal (digits_of fuel 10 value)
unfolding digits_of
digits_of-Decimal zero value = tt
digits_of-Decimal (suc fuel) value =
    let e = digit-Decimal (value % 10) (omega arith) in
    let last : All Decimal (digit (value % 10) ∷ []) = ((omega (arith, e), omega (arith, e)), tt) in
    elim (Bool-cases (value / 10 == 0)) [
      | inl t ↦ simp t last
      | inr t ↦ simp t (
          All-append Decimal (digits_of fuel 10 (value / 10)) (digit (value % 10) ∷ [])
            (digits_of-Decimal fuel (value / 10)) last)
    ]

-- One more digit.
digits-digit :
    (res value : ℕ)
    → value < 2 ^ 32
    → res ≡ value / 10
    → digits res (digit (value % 10) ∷ []) ≡ value
unfolding digits
digits-digit res value l h =
    let e = digit-Decimal (value % 10) (omega arith) in
    let t : (leb 48 (digit (value % 10)) && leb (digit (value % 10)) 57) ≡ true =
      ground (arith, e) in
    simp t (omega (arith, e, h, l))

-- As many divisions as the number has bits are enough.
abbrev doubles : ℕ → ℕ
doubles zero = 1
doubles (suc n) = 2 * doubles n

digits-digits_of :
    (fuel value : ℕ)
    → value < doubles fuel
    → 0 < fuel
    → value < 2 ^ 32
    → digits 0 (digits_of fuel 10 value) ≡ value
unfolding digits_of
digits-digits_of zero value h p l = absurd (omega (arith, p))
digits-digits_of (suc fuel) value h p l = elim (Bool-cases (value / 10 == 0)) [
  | inl t ↦
      let z : 0 ≡ value / 10 = sym ((==_iff (value / 10) 0).0 t) in
      simp t (digits-digit 0 value l z)
  | inr t ↦
      let q : value / 10 < doubles fuel = omega (arith, h) in
      simp t (
        digits-append 0 (digits_of fuel 10 (value / 10)) (digit (value % 10) ∷ [])
          (digits_of-Decimal fuel (value / 10))
        ∙ digits-digit (digits 0 (digits_of fuel 10 (value / 10))) value l (
            digits-digits_of fuel (value / 10) q (positive fuel (value / 10) q t)
              (omega (arith, l))))
]
  where
    positive : (n v : ℕ) → v < doubles n → (v == 0) ≡ false → 0 < n
    positive zero v k t = absurd (let z : 0 < v = ground arith in omega (arith, k, z))
    positive (suc n) v k t = omega arith

-- No white space stands in front of a number.
skip_space-Decimal : (xs : List ℕ) → All Decimal xs → skip_space xs ≡ xs
unfolding skip_space
skip_space-Decimal [] h = refl
skip_space-Decimal (c ∷ xs) h = let t : is_space c ≡ false = ground (arith, h.0) in simp t

-- The decimal number that itoa writes for a value below 2 ^ 31 is read back by atoi as the value.
pub atoi-itoa : (value : ℕ) → value < 2 ^ 31 → atoi (itoa value 10) ≡ value
unfolding atoi itoa
atoi-itoa value l =
    let t : leb (2 ^ 31) value ≡ false = ground arith in
    simp t (
      ap (digits 0) (skip_space-Decimal (digits_of 32 10 value) (digits_of-Decimal 32 value))
      ∙ digits-digits_of 32 value (omega (arith, l)) (omega arith) (omega (arith, l)))
