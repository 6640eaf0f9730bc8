-- ===== src/CString/Bounded.antt =====
-- What the copying functions of common/string.c write, and where they stop.
use chaotix.Base.{
  ℕ, zero, suc, ◌+◌, ◌≤◌, ◌<◌, ◌≡◌, refl, ap, ap₂, ◌∙◌, inl, inr, List, [], ◌∷◌, ◌++◌, arith, ◌==◌,
  ==_iff, Bool-cases, length, take, drop, replicate,
}
use chaotix.CString.Defs.{c_str, strlen}
use chaotix.CString.Compare.{strlen_lem}
use chaotix.CString.Copy.{strcpy, strncpy, strlcpy, strlcpy_loop, strcat, strncat, append_at}

-- What `strlcpy` leaves in the memory at `dest`, given `room + 1` bytes of it.
pub record Copied (dest src : List ℕ) (room : ℕ) (out : List ℕ × ℕ) : Type 0 where
  pub string : c_str out.0 ≡ take room (c_str src)
  pub total : out.1 ≡ strlen src
  pub beyond : drop (suc room) out.0 ≡ drop (suc room) dest
  pub same_length : length out.0 ≡ length dest

strlcpy_loop-Copied :
    (dest src : List ℕ) (room : ℕ)
    → room < length dest
    → let out = strlcpy_loop dest src room in Copied dest src room (out.0, out.2 + strlen out.1)
unfolding strlcpy_loop strlen
strlcpy_loop-Copied [] src zero h = absurd (omega arith)
strlcpy_loop-Copied [] src (suc room) h = absurd (omega arith)
strlcpy_loop-Copied (d ∷ dest) src zero h = record {
  string = refl;
  total = omega arith;
  beyond = refl;
  same_length = refl;
}
strlcpy_loop-Copied (d ∷ dest) [] (suc room) h = record {
  string = refl;
  total = omega arith;
  beyond = refl;
  same_length = refl;
}
strlcpy_loop-Copied (d ∷ dest) (c ∷ src) (suc room) h =
    let r = strlcpy_loop-Copied dest src room (omega arith) in
    elim (Bool-cases (c == 0)) [
      | inl stop ↦ rw stop (record {
        string = rw stop;
        total = rw stop (omega arith);
        beyond = refl;
        same_length = refl;
      })
      | inr on ↦ rw on (record {
        string = rw (on, r.string);
        total = rw on (omega (arith, r.total));
        beyond = r.beyond;
        same_length = ap suc r.same_length;
      })
    ]

-- With a size that `dest` has room for and that is not 0, `strlcpy` leaves a string there: the
-- first `size - 1` characters of `src`, or all. It returns the length of `src`, and writes nothing
-- beyond `size` bytes.
pub strlcpy-Copied :
    (dest src : List ℕ) (room : ℕ)
    → suc room ≤ length dest
    → Copied dest src room (strlcpy dest src (suc room))
unfolding strlcpy
strlcpy-Copied dest src room h = strlcpy_loop-Copied dest src room h

-- `strcpy` writes the characters of `src` and no NUL: behind them the old string at `dest` shows,
-- if it was the longer one.
pub strcpy_unterminated :
    (dest src : List ℕ)
    → length (c_str src) ≤ length dest
    → c_str (strcpy dest src) ≡ c_str src ++ c_str (drop (length (c_str src)) dest)
unfolding strcpy
strcpy_unterminated dest [] h = refl
strcpy_unterminated [] (c ∷ src) h = elim (Bool-cases (c == 0)) [
  | inl stop ↦ rw stop
  | inr on ↦ absurd (omega (arith, rw on at h))
]
strcpy_unterminated (d ∷ dest) (c ∷ src) h = elim (Bool-cases (c == 0)) [
  | inl stop ↦ rw stop
  | inr on ↦
      rw (on, on) (ap (λ l. c ∷ l) (strcpy_unterminated dest src (omega (arith, rw on at h))))
]

append_at-c_str :
    (dest src : List ℕ) (n : ℕ)
    → length (c_str src) < length dest
    → length (c_str src) ≤ n
    → c_str (append_at dest src n) ≡ c_str src
unfolding append_at
append_at-c_str [] src n h k = absurd (omega arith)
append_at-c_str (d ∷ dest) [] zero h k = refl
append_at-c_str (d ∷ dest) [] (suc n) h k = refl
append_at-c_str (d ∷ dest) (c ∷ src) zero h k = ground arith
append_at-c_str (d ∷ dest) (c ∷ src) (suc n) h k = ground (arith, append_at-c_str dest src n)

strncat-c_str :
    (dest src : List ℕ) (n : ℕ)
    → length (c_str dest) + length (c_str src) < length dest
    → length (c_str src) ≤ n
    → c_str (strncat dest src n) ≡ c_str dest ++ c_str src
unfolding strncat
strncat-c_str [] src n h k = absurd (omega arith)
strncat-c_str (d ∷ dest) src n h k = elim (Bool-cases (d == 0)) [
  | inl stop ↦ rw (stop, append_at-c_str (d ∷ dest) src n (omega (arith, rw stop at h)) k)
  | inr on ↦ rw (on, on) (ap (λ l. d ∷ l) (strncat-c_str dest src n (omega (arith, rw on at h)) k))
]

-- `strcat` appends the string at `src` to the one at `dest`, if there is room for both and a NUL.
pub strcat-c_str :
    (dest src : List ℕ)
    → length (c_str dest) + length (c_str src) < length dest
    → c_str (strcat dest src) ≡ c_str dest ++ c_str src
unfolding strcat
strcat-c_str dest src h = strncat-c_str dest src (strlen src) h (omega (arith, strlen_lem src))

take-padding :
    (xs : List ℕ) (n m k : ℕ)
    → n ≤ m
    → n ≤ k
    → take n (xs ++ replicate m 0) ≡ take n (xs ++ replicate k 0)
take-padding xs zero m k h l = refl
take-padding [] (suc n) zero k h l = absurd (omega arith)
take-padding [] (suc n) (suc m) zero h l = absurd (omega arith)
take-padding [] (suc n) (suc m) (suc k) h l =
    ap (λ l. 0 ∷ l) (take-padding [] n m k (omega arith) (omega arith))
take-padding (x ∷ xs) (suc n) m k h l =
    ap (λ l. x ∷ l) (take-padding xs n m k (omega arith) (omega arith))

-- What `strncpy` leaves in the memory at `dest`.
pub record Filled (dest src : List ℕ) (n : ℕ) (out : List ℕ) : Type 0 where
  pub characters : take n out ≡ take n (c_str src ++ replicate n 0)
  pub beyond : drop n out ≡ drop n dest

-- `strncpy` writes exactly `n` bytes: the characters of `src`, as far as they fit, and NULs for the
-- rest. There is no NUL if `src` has `n` characters or more.
pub strncpy-Filled :
    (dest src : List ℕ) (n : ℕ) → n ≤ length dest → Filled dest src n (strncpy dest src n)
unfolding strncpy
strncpy-Filled dest src zero h = record { characters = refl; beyond = refl }
strncpy-Filled [] src (suc n) h = absurd (omega arith)
strncpy-Filled (d ∷ dest) [] (suc n) h =
    let r = strncpy-Filled dest [] n (omega arith) in
    record { characters = ap (λ l. 0 ∷ l) r.characters; beyond = r.beyond }
strncpy-Filled (d ∷ dest) (c ∷ src) (suc n) h = elim (Bool-cases (c == 0)) [
  | inl stop ↦
      let r = strncpy-Filled dest (c ∷ src) n (omega arith) in
      let z : c ≡ 0 = (==_iff c 0).0 stop in
      rw stop
        (record { characters = rw stop (ap₂ ◌∷◌ z (rw stop at r.characters)); beyond = r.beyond })
  | inr on ↦
      let r = strncpy-Filled dest src n (omega arith) in
      rw on (record {
        characters = rw on (
            ap (λ l. c ∷ l)
              (r.characters ∙ take-padding (c_str src) n n (suc n) (omega arith) (omega arith)));
        beyond = r.beyond;
      })
]
