-- ===== src/Base/Bits.antt =====
-- The bits of a machine word, by halving: `w & (1 << k)`, `w |= 1 << k`, `w &= ~(1 << k)` and
-- `__builtin_ffs(w)`.
use chaotix.Base.{
  ℕ, zero, suc, ◌+◌, ◌*◌, ◌/◌, ◌%◌, ◌≤◌, ◌<◌, ◌≡◌, refl, Bool, true, false, Option, none, some,
  arith, ◌==◌, if◌then◌else◌,
}

unfoldable pub test_bit : ℕ → ℕ → Bool
test_bit w zero = w % 2 == 1
test_bit w (suc k) = test_bit (w / 2) k

unfoldable pub set_bit : ℕ → ℕ → ℕ
set_bit w zero = w / 2 * 2 + 1
set_bit w (suc k) = set_bit (w / 2) k * 2 + w % 2

unfoldable pub clear_bit : ℕ → ℕ → ℕ
clear_bit w zero = w / 2 * 2
clear_bit w (suc k) = clear_bit (w / 2) k * 2 + w % 2

-- The lowest bit that is set, among the first `n`; `__builtin_ffs` returns its number plus one, and 0
-- if there is none.
unfoldable pub lowest_bit : ℕ → ℕ → Option ℕ
lowest_bit zero w = none
lowest_bit (suc n) w =
    let higher = lowest_bit n (w / 2) in
    if w % 2 == 1 then some 0 else elim higher [ none ↦ none | some k ↦ some (suc k) ]

pub test_bit-set_bit :
    (w k j : ℕ) → test_bit (set_bit w k) j ≡ (if k == j then true else test_bit w j)
unfolding test_bit set_bit
test_bit-set_bit w zero zero = ground arith
test_bit-set_bit w zero (suc j) =
    let e : (w / 2 * 2 + 1) / 2 ≡ w / 2 = omega arith in
    let n : (0 == suc j) ≡ false = ground arith in rw (e, n)
test_bit-set_bit w (suc k) zero =
    let e : (set_bit (w / 2) k * 2 + w % 2) % 2 ≡ w % 2 = omega arith in
    let n : (suc k == 0) ≡ false = ground arith in rw (e, n)
test_bit-set_bit w (suc k) (suc j) =
    let e : (set_bit (w / 2) k * 2 + w % 2) / 2 ≡ set_bit (w / 2) k = omega arith in
    let n : (suc k == suc j) ≡ (k == j) = ground arith in rw (e, n) (test_bit-set_bit (w / 2) k j)

pub test_bit-clear_bit :
    (w k j : ℕ) → test_bit (clear_bit w k) j ≡ (if k == j then false else test_bit w j)
unfolding test_bit clear_bit
test_bit-clear_bit w zero zero = ground arith
test_bit-clear_bit w zero (suc j) =
    let e : (w / 2 * 2) / 2 ≡ w / 2 = omega arith in
    let n : (0 == suc j) ≡ false = ground arith in rw (e, n)
test_bit-clear_bit w (suc k) zero =
    let e : (clear_bit (w / 2) k * 2 + w % 2) % 2 ≡ w % 2 = omega arith in
    let n : (suc k == 0) ≡ false = ground arith in rw (e, n)
test_bit-clear_bit w (suc k) (suc j) =
    let e : (clear_bit (w / 2) k * 2 + w % 2) / 2 ≡ clear_bit (w / 2) k = omega arith in
    let n : (suc k == suc j) ≡ (k == j) = ground arith in rw (e, n) (test_bit-clear_bit (w / 2) k j)

pub test_bit-zero : (k : ℕ) → test_bit 0 k ≡ false
unfolding test_bit
test_bit-zero zero = refl
test_bit-zero (suc k) = test_bit-zero k

pub clear_bit-le : (w k : ℕ) → clear_bit w k ≤ w
unfolding clear_bit
clear_bit-le w zero = omega arith
clear_bit-le w (suc k) = omega (arith, clear_bit-le (w / 2) k)

-- Taking away a bit that was set makes the word smaller.
pub clear_bit-lt : (w k : ℕ) → test_bit w k ≡ true → clear_bit w k < w
unfolding clear_bit test_bit
clear_bit-lt w zero h = ground arith
clear_bit-lt w (suc k) h = omega (arith, clear_bit-lt (w / 2) k h)

pub lowest_bit-set : (n w k : ℕ) → lowest_bit n w ≡ some k → (test_bit w k ≡ true) × (k < n)
unfolding lowest_bit test_bit
lowest_bit-set zero w k h = cc
lowest_bit-set (suc n) w zero h = ground arith
lowest_bit-set (suc n) w (suc k) h = ground (arith, lowest_bit-set n (w / 2) k)

pub lowest_bit-least : (n w k j : ℕ) → lowest_bit n w ≡ some k → j < k → test_bit w j ≡ false
unfolding lowest_bit test_bit
lowest_bit-least zero w k j h l = cc
lowest_bit-least (suc n) w zero j h l = absurd (omega arith)
lowest_bit-least (suc n) w (suc k) zero h l = ground arith
lowest_bit-least (suc n) w (suc k) (suc j) h l = ground (arith, lowest_bit-least n (w / 2) k j)

pub lowest_bit-none : (n w j : ℕ) → lowest_bit n w ≡ none → j < n → test_bit w j ≡ false
unfolding lowest_bit test_bit
lowest_bit-none zero w j h l = absurd (omega arith)
lowest_bit-none (suc n) w zero h l = ground arith
lowest_bit-none (suc n) w (suc j) h l = ground (arith, lowest_bit-none n (w / 2) j)

-- Setting a bit that was set and cleared gives the word back.
pub set_bit-clear_bit : (w k : ℕ) → test_bit w k ≡ true → set_bit (clear_bit w k) k ≡ w
unfolding set_bit clear_bit test_bit
set_bit-clear_bit w zero h = ground arith
set_bit-clear_bit w (suc k) h =
    let e : (clear_bit (w / 2) k * 2 + w % 2) / 2 ≡ clear_bit (w / 2) k = omega arith in
    let o : (clear_bit (w / 2) k * 2 + w % 2) % 2 ≡ w % 2 = omega arith in
    let s = set_bit-clear_bit (w / 2) k h in rw (e, o, s) (omega arith)
