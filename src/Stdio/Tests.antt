-- ===== src/Stdio/Tests.antt =====
-- Runs of common/stdio.c, and the theorems at them.
use chaotix.Base.{ℕ, zero, suc, ◌≡◌, refl, true, false, some, List, [], ◌∷◌, ◌++◌, arith}
use chaotix.Base.Text.{codes}
use chaotix.Stdlib.{atoi}
use chaotix.Stdio.{itoa, Printed, vsnprintf}
use chaotix.Stdio.Written.{Shortened, vsnprintf_prefix}
use chaotix.Stdio.Number.{atoi-itoa}

-- The arguments 42, and a pointer to "ab".
abbrev args : ℕ → ℕ
args zero = 42
args (suc n) = 1000

abbrev memory : ℕ → List ℕ
memory p = codes "ab"

abbrev all_of_it : Printed
all_of_it = record { memory = codes "n=0042 ab%" ++ (0 ∷ []); returned = 10; overrun = false }

abbrev first_three : Printed
first_three = record { memory = codes "n=0" ++ (0 ∷ []); returned = 4; overrun = false }

run_d_s : vsnprintf 20 args memory (codes "n=%04d %s%%") ≡ some all_of_it
unfolding vsnprintf
run_d_s = refl

run_short : vsnprintf 4 args memory (codes "n=%04d %s%%") ≡ some first_three
unfolding vsnprintf
run_short = refl

-- The "0x" does not fit, and its second character is written behind the buffer.
run_hex :
    vsnprintf 1 args memory (codes "%#x")
    ≡ some (record { memory = 0 ∷ 0x78 ∷ []; returned = 2; overrun = true })
unfolding vsnprintf
run_hex = refl

vsnprintf_prefix_example : Shortened 4 first_three all_of_it
vsnprintf_prefix_example =
    vsnprintf_prefix 4 20 args memory (codes "n=%04d %s%%") first_three all_of_it (omega arith)
      run_short run_d_s

atoi-itoa_example : atoi (itoa 1204 10) ≡ 1204
atoi-itoa_example = atoi-itoa 1204 (omega arith)
