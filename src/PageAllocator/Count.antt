-- ===== src/PageAllocator/Count.antt =====
-- How many pages a bitmap has, and what setting and clearing a bit does to its pages.
use chaotix.Base.{
  ℕ, zero, suc, ◌+◌, ◌*◌, ◌/◌, ◌%◌, ◌<◌, ◌≡◌, refl, sym, ap, ◌∙◌, inl, inr, true, false, List, [],
  ◌∷◌, arith, ◌==◌, if◌then◌else◌, ==_iff, Bool-cases, length, get_or, set, take, get_or-set_self,
  get_or-set_ne,
}
use chaotix.Base.Bits.{test_bit, set_bit, clear_bit, test_bit-set_bit, test_bit-clear_bit}
use chaotix.PageAllocator.{is_free}

-- The bits set among the first `n` of a word.
unfoldable pub count_bits : ℕ → ℕ → ℕ
count_bits zero w = 0
count_bits (suc n) w = w % 2 + count_bits n (w / 2)

unfoldable pub count_pages : List ℕ → ℕ
unfolding count_bits
count_pages [] = 0
count_pages (w ∷ ws) = count_bits 32 w + count_pages ws

pub count_bits-clear_bit :
    (n w k : ℕ) → k < n → test_bit w k ≡ true → count_bits n (clear_bit w k) + 1 ≡ count_bits n w
unfolding count_bits clear_bit test_bit
count_bits-clear_bit zero w k l b = absurd (omega arith)
count_bits-clear_bit (suc n) w zero l b =
    let e : (w / 2 * 2) / 2 ≡ w / 2 = omega arith in
    let o : w % 2 ≡ 1 = ground arith in
    let z : (w / 2 * 2) % 2 ≡ 0 = omega arith in rw (e, o, z) (omega arith)
count_bits-clear_bit (suc n) w (suc k) l b =
    let e : (clear_bit (w / 2) k * 2 + w % 2) / 2 ≡ clear_bit (w / 2) k = omega arith in
    let o : (clear_bit (w / 2) k * 2 + w % 2) % 2 ≡ w % 2 = omega arith in
    rw (e, o) (omega (arith, count_bits-clear_bit n (w / 2) k (omega arith) b))

pub count_bits-set_bit :
    (n w k : ℕ) → k < n → test_bit w k ≡ false → count_bits n (set_bit w k) ≡ count_bits n w + 1
unfolding count_bits set_bit test_bit
count_bits-set_bit zero w k l b = absurd (omega arith)
count_bits-set_bit (suc n) w zero l b =
    let e : (w / 2 * 2 + 1) / 2 ≡ w / 2 = omega arith in
    let o : w % 2 ≡ 0 = ground arith in
    let z : (w / 2 * 2 + 1) % 2 ≡ 1 = omega arith in rw (e, o, z) (omega arith)
count_bits-set_bit (suc n) w (suc k) l b =
    let e : (set_bit (w / 2) k * 2 + w % 2) / 2 ≡ set_bit (w / 2) k = omega arith in
    let o : (set_bit (w / 2) k * 2 + w % 2) % 2 ≡ w % 2 = omega arith in
    rw (e, o) (omega (arith, count_bits-set_bit n (w / 2) k (omega arith) b))

pub count_pages-set :
    (n : ℕ) (ws : List ℕ) (i v : ℕ)
    → i < n
    → i < length ws
    → count_pages (take n (set ws i v)) + count_bits 32 (get_or ws i 0)
      ≡ count_pages (take n ws) + count_bits 32 v
unfolding count_pages
count_pages-set zero ws i v l m = absurd (omega arith)
count_pages-set (suc n) [] i v l m = absurd (omega arith)
count_pages-set (suc n) (w ∷ ws) zero v l m = omega arith
count_pages-set (suc n) (w ∷ ws) (suc i) v l m =
    omega (arith, count_pages-set n ws i v (omega arith) (omega arith))

pub get_or-take : (n : ℕ) (ws : List ℕ) (i : ℕ) → i < n → get_or (take n ws) i 0 ≡ get_or ws i 0
get_or-take zero ws i l = absurd (omega arith)
get_or-take (suc n) [] i l = refl
get_or-take (suc n) (w ∷ ws) zero l = refl
get_or-take (suc n) (w ∷ ws) (suc i) l = get_or-take n ws i (omega arith)

pub is_free-clear_bit :
    (ws : List ℕ) (i j : ℕ)
    → i / 32 < length ws
    → is_free (set ws (i / 32) (clear_bit (get_or ws (i / 32) 0) (i % 32))) j
      ≡ (if i == j then false else is_free ws j)
is_free-clear_bit ws i j l = elim (Bool-cases (i / 32 == j / 32)) [
  | inl e ↦
      let d : i / 32 ≡ j / 32 = (==_iff (i / 32) (j / 32)).0 e in
      let m : (i % 32 == j % 32) ≡ (i == j) = ground (arith, d) in
      ap
        (λ n.
          test_bit (get_or (set ws (i / 32) (clear_bit (get_or ws (i / 32) 0) (i % 32))) n 0)
            (j % 32))
        (sym d)
      ∙ ap (λ w. test_bit w (j % 32))
          (get_or-set_self ws (i / 32) (clear_bit (get_or ws (i / 32) 0) (i % 32)) 0 l)
      ∙ test_bit-clear_bit (get_or ws (i / 32) 0) (i % 32) (j % 32)
      ∙ ap (λ b. if b then false else test_bit (get_or ws (i / 32) 0) (j % 32)) m
      ∙ ap (λ n. if i == j then false else test_bit (get_or ws n 0) (j % 32)) d
  | inr d ↦
      let n : (i == j) ≡ false = ground arith in
      simp (
        n,
        get_or-set_ne ws (i / 32) (j / 32) (clear_bit (get_or ws (i / 32) 0) (i % 32)) 0
            (ground arith),
      )
]

pub is_free-set_bit :
    (ws : List ℕ) (i j : ℕ)
    → i / 32 < length ws
    → is_free (set ws (i / 32) (set_bit (get_or ws (i / 32) 0) (i % 32))) j
      ≡ (if i == j then true else is_free ws j)
is_free-set_bit ws i j l = elim (Bool-cases (i / 32 == j / 32)) [
  | inl e ↦
      let d : i / 32 ≡ j / 32 = (==_iff (i / 32) (j / 32)).0 e in
      let m : (i % 32 == j % 32) ≡ (i == j) = ground (arith, d) in
      ap
        (λ n.
          test_bit (get_or (set ws (i / 32) (set_bit (get_or ws (i / 32) 0) (i % 32))) n 0)
            (j % 32))
        (sym d)
      ∙ ap (λ w. test_bit w (j % 32))
          (get_or-set_self ws (i / 32) (set_bit (get_or ws (i / 32) 0) (i % 32)) 0 l)
      ∙ test_bit-set_bit (get_or ws (i / 32) 0) (i % 32) (j % 32)
      ∙ ap (λ b. if b then true else test_bit (get_or ws (i / 32) 0) (j % 32)) m
      ∙ ap (λ n. if i == j then true else test_bit (get_or ws n 0) (j % 32)) d
  | inr d ↦
      let n : (i == j) ≡ false = ground arith in
      simp (
        n,
        get_or-set_ne ws (i / 32) (j / 32) (set_bit (get_or ws (i / 32) 0) (i % 32)) 0
            (ground arith),
      )
]
