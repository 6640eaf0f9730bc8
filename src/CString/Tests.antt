-- ===== src/CString/Tests.antt =====
-- Runs of common/string.c, and the theorems at concrete strings.
use chaotix.Base.{ℕ, ◌≡◌, refl, none, some, List, [], ◌∷◌, ◌++◌, arith, replicate}
use chaotix.Base.Text.{codes}
use chaotix.CString.Defs.{c_str, strcmp, strstr, below}
use chaotix.CString.Copy.{strcpy, strlcpy}
use chaotix.CString.Bounded.{Copied, strlcpy-Copied}
use chaotix.CString.Tokens.{tokens, is_separator}
use chaotix.CString.Tokenize.{words, tokens-words}

abbrev buffer : List ℕ
buffer = codes "hello" ++ replicate 3 0

tokens-path : tokens 20 (some (codes "//usr/bin/")) (codes "/") ≡ codes "usr" ∷ codes "bin" ∷ []
unfolding tokens
tokens-path = refl

strcmp-prefix : strcmp (codes "ab") (codes "abc") ≡ below
unfolding strcmp
strcmp-prefix = refl

strcpy-shorter : c_str (strcpy buffer (codes "ab")) ≡ codes "abllo"
unfolding strcpy
strcpy-shorter = refl

strlcpy-short :
    strlcpy buffer (codes "abcdef") 4 ≡ (codes "abc" ++ 0 ∷ codes "o" ++ replicate 3 0, 6)
unfolding strlcpy
strlcpy-short = refl

strstr-middle : strstr (codes "abcd") (codes "bc") ≡ none
unfolding strstr strcmp
strstr-middle = refl

strstr-end : strstr (codes "abcd") (codes "cd") ≡ some (codes "cd")
unfolding strstr strcmp
strstr-end = refl

strlcpy-Copied_example : Copied buffer (codes "abcdef") 3 (strlcpy buffer (codes "abcdef") 4)
strlcpy-Copied_example = strlcpy-Copied buffer (codes "abcdef") 3 (omega arith)

tokens-words_example :
    tokens 20 (some (codes "//usr/bin/")) (codes "/")
    ≡ words (is_separator (codes "/")) (c_str (codes "//usr/bin/"))
tokens-words_example = tokens-words (codes "/") 20 (codes "//usr/bin/") (omega arith)
