-- ===== src/CString/Compare.antt =====
-- What the comparisons of common/string.c decide.
use chaotix.Base.{ℕ, zero, suc, ◌≡◌, refl, ◌↔◌, some, List, [], ◌∷◌, arith, length, take}
use chaotix.CString.Defs.{c_str, strcmp, strncmp, same, strlen, strstr}

-- `strcmp` returns 0 exactly when the two strings have the same characters before their NULs.
pub strcmp_iff : (s t : List ℕ) → (strcmp s t ≡ same) ↔ (c_str s ≡ c_str t)
unfolding strcmp
strcmp_iff [] [] = (λ h. refl, λ h. refl)
strcmp_iff [] (d ∷ t) = (λ h. ground arith, λ h. ground arith)
strcmp_iff (c ∷ s) [] = (λ h. ground arith, λ h. ground arith)
strcmp_iff (c ∷ s) (d ∷ t) =
    (λ h. ground (arith, (strcmp_iff s t).0), λ h. ground (arith, (strcmp_iff s t).1))

-- `strncmp` returns 0 exactly when the first `n` characters of the two strings agree.
pub strncmp_iff :
    (n : ℕ) (s t : List ℕ) → (strncmp s t n ≡ same) ↔ (take n (c_str s) ≡ take n (c_str t))
unfolding strncmp
strncmp_iff zero s t = (λ h. refl, λ h. refl)
strncmp_iff (suc n) [] [] = (λ h. refl, λ h. refl)
strncmp_iff (suc n) [] (d ∷ t) = (λ h. ground arith, λ h. ground arith)
strncmp_iff (suc n) (c ∷ s) [] = (λ h. ground arith, λ h. ground arith)
strncmp_iff (suc n) (c ∷ s) (d ∷ t) =
    (λ h. ground (arith, (strncmp_iff n s t).0), λ h. ground (arith, (strncmp_iff n s t).1))

-- `strlen` counts the characters before the NUL.
pub strlen_lem : (s : List ℕ) → strlen s ≡ length (c_str s)
unfolding strlen
strlen_lem [] = refl
strlen_lem (c ∷ s) = ground (arith, strlen_lem s)

-- What `strstr` finds reaches to the end of the string: it compares with `strcmp`, so a substring
-- that is followed by anything is not found.
pub strstr_suffix : (s sub u : List ℕ) → strstr s sub ≡ some u → c_str u ≡ c_str sub
unfolding strstr
strstr_suffix [] sub u h = cc
strstr_suffix (c ∷ s) sub u h = ground (arith, strstr_suffix s sub u, (strcmp_iff (c ∷ s) sub).0)
