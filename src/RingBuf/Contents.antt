-- ===== src/RingBuf/Contents.antt =====
-- The bytes that a ring holds, oldest first, and what the loops' rounds do to them.
use chaotix.Base.{
  ℕ, zero, suc, ◌+◌, ◌%◌, ◌<◌, ◌≡◌, refl, ap, ap₂, List, [], ◌∷◌, ◌++◌, arith, add-one, length,
  get_or, set, get_or-set_self, get_or-set_ne,
}
use chaotix.RingBuf.Defs.{RingBuf, consume, put}
use chaotix.RingBuf.Inv.{IsValid, size, size-consume, size-put}

-- `n` bytes from index `i` on, round the ring.
abbrev pub from_index : List ℕ → ℕ → ℕ → List ℕ
from_index buf i zero = []
from_index buf i (suc n) = get_or buf i 0 ∷ from_index buf ((i + 1) % 1024) n

abbrev pub contents : RingBuf → List ℕ
contents b = from_index b.inner_buf b.read_idx (size b)

length-from_index : (buf : List ℕ) (i n : ℕ) → length (from_index buf i n) ≡ n
length-from_index buf i zero = refl
length-from_index buf i (suc n) = ap suc (length-from_index buf ((i + 1) % 1024) n)

pub length-contents : (b : RingBuf) → length (contents b) ≡ size b
length-contents b = length-from_index b.inner_buf b.read_idx (size b)

-- A round of reading takes the oldest byte off.
pub contents-consume :
    (b : RingBuf)
    → IsValid b
    → 0 < size b
    → contents b ≡ get_or b.inner_buf b.read_idx 0 ∷ contents (consume b)
contents-consume b v h =
    let one_more : size b ≡ suc (size (consume b)) = omega (arith, size-consume b v h) in
    ap (from_index b.inner_buf b.read_idx) one_more

-- A write outside the stretch leaves it alone, and one right behind it extends it.
from_index-set :
    (buf : List ℕ) (x n i j : ℕ)
    → length buf ≡ 1024
    → i < 1024
    → n < 1024
    → j ≡ (i + n) % 1024
    → from_index (set buf j x) i (suc n) ≡ from_index buf i n ++ x ∷ []
from_index-set buf x zero i j l hi hn e =
    let here : j ≡ i = omega arith in
    rw here (ap (λ y. y ∷ []) (get_or-set_self buf i x 0 (omega arith)))
from_index-set buf x (suc n) i j l hi hn e =
    ap₂ ◌∷◌ (get_or-set_ne buf j i x 0 (omega arith))
      (from_index-set buf x n ((i + 1) % 1024) j l (omega arith) (omega arith) (omega arith))

-- A round of writing appends its byte.
pub contents-put :
    (b : RingBuf) (x : ℕ) → IsValid b → size b < 1023 → contents (put b x) ≡ contents b ++ x ∷ []
contents-put b x v h = rw (size-put b x v h) (
    rw add-one (
      from_index-set b.inner_buf x (size b) b.read_idx b.write_idx v.block v.read_in (omega arith)
        (omega arith)))
