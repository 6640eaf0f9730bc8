-- ===== src/PageAllocator/Find.antt =====
-- What the search for a free page finds.
use chaotix.Base.{
  ℕ, suc, ◌+◌, ◌-◌, ◌*◌, ◌/◌, ◌%◌, ◌≤◌, ◌<◌, ◌≡◌, refl, ap, ◌∙◌, ◌⊎◌, inl, inr, true, false, none,
  some, List, [], ◌∷◌, arith, ltb, ltb→lt, Bool-cases, Option-cases, length, get_or, take,
}
use chaotix.Base.Bits.{test_bit, lowest_bit, lowest_bit-set, lowest_bit-least, lowest_bit-none}
use chaotix.PageAllocator.{is_free, find_first_set}
use chaotix.PageAllocator.Count.{get_or-take}

-- Page `j` of the words is the first that is free.
pub record First (ws : List ℕ) (j : ℕ) : Type 0 where
  pub in_words : j < 32 * length ws
  pub free_page : is_free ws j ≡ true
  pub lowest : (m : ℕ) → m < j → is_free ws m ≡ false

abbrev pub NoneFree : List ℕ → Type 0
NoneFree ws = (m : ℕ) → m < 32 * length ws → is_free ws m ≡ false

is_free-head : (w : ℕ) (ws : List ℕ) (j : ℕ) → j < 32 → is_free (w ∷ ws) j ≡ test_bit w j
is_free-head w ws j l =
    let d : j / 32 ≡ 0 = omega arith in
    let m : j % 32 ≡ j = omega arith in
    ap (λ n. test_bit (get_or (w ∷ ws) n 0) (j % 32)) d ∙ ap (test_bit w) m

is_free-tail : (w : ℕ) (ws : List ℕ) (j : ℕ) → is_free (w ∷ ws) (32 + j) ≡ is_free ws j
is_free-tail w ws j =
    let d : (32 + j) / 32 ≡ suc (j / 32) = omega arith in
    let m : (32 + j) % 32 ≡ j % 32 = omega arith in
    ap (λ n. test_bit (get_or (w ∷ ws) n 0) ((32 + j) % 32)) d
    ∙ ap (test_bit (get_or ws (j / 32) 0)) m

head_tail :
    (w : ℕ) (ws : List ℕ) (m : ℕ)
    → ((j : ℕ) → j < 32 → test_bit w j ≡ false)
    → (32 ≤ m → is_free ws (m - 32) ≡ false)
    → is_free (w ∷ ws) m ≡ false
head_tail w ws m h t = elim (Bool-cases (ltb m 32)) [
  | inl e ↦ is_free-head w ws m (ltb→lt m 32 e) ∙ h m (ltb→lt m 32 e)
  | inr e ↦
      let l : 32 ≤ m = ground arith in
      let s : m ≡ 32 + (m - 32) = omega arith in
      ap (is_free (w ∷ ws)) s ∙ is_free-tail w ws (m - 32) ∙ t l
]

pub find_first_set-First :
    (i : ℕ) (ws : List ℕ)
    → ((j : ℕ) × (find_first_set i ws ≡ some (i * 32 + j)) × First ws j)
      ⊎ ((find_first_set i ws ≡ none) × NoneFree ws)
unfolding find_first_set
find_first_set-First i [] = inr (refl, λ m l. absurd (omega arith))
find_first_set-First i (w ∷ ws) = elim (Option-cases (lowest_bit 32 w)) [
  | inl e ↦ elim (find_first_set-First (suc i) ws) [
    | inl (j, f, first) ↦
        let n : suc i * 32 + j ≡ i * 32 + (32 + j) = omega arith in
        inl (
          32 + j,
          simp (find_first_set, e, f) (ap some n),
          record {
            in_words = omega (arith, first.in_words);
            free_page = is_free-tail w ws j ∙ first.free_page;
            lowest = λ m l.
                head_tail w ws m (λ b k. lowest_bit-none 32 w b e k)
                  (λ k. first.lowest (m - 32) (omega arith));
          },
        )
    | inr (f, none_free) ↦ inr (
      simp (find_first_set, e, f),
      λ m l.
          head_tail w ws m (λ b k. lowest_bit-none 32 w b e k)
            (λ k. none_free (m - 32) (omega arith)),
    )
  ]
  | inr (b, e) ↦
      let s = lowest_bit-set 32 w b e in
      inl (
        b,
        simp (find_first_set, e),
        record {
          in_words = omega (arith, s.1);
          free_page = is_free-head w ws b s.1 ∙ s.0;
          lowest = λ m l. is_free-head w ws m (omega (arith, s.1)) ∙ lowest_bit-least 32 w b m e l;
        },
      )
]

pub is_free-take : (n : ℕ) (ws : List ℕ) (j : ℕ) → j < 32 * n → is_free (take n ws) j ≡ is_free ws j
is_free-take n ws j l = ap (λ w. test_bit w (j % 32)) (get_or-take n ws (j / 32) (omega arith))
