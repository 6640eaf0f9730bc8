-- ===== src/Dentry/Names.antt =====
-- When two names are the same, and directories in which no name stands twice.
use chaotix.Base.{
  ℕ, ◌≡◌, refl, sym, ap₂, ◌∙◌, ◌↔◌, inl, inr, Bool, true, false, Option, none, some, List, [], ◌∷◌,
  ◌++◌, if◌then◌else◌, Bool-cases,
}
use chaotix.CString.{c_str, Cmp, same, strcmp}
use chaotix.CString.Compare.{strcmp_iff}
use chaotix.Dentry.{Dentry, same_name, has_name}

pub same_name_iff : (a b : List ℕ) → (same_name a b ≡ true) ↔ (c_str a ≡ c_str b)
unfolding same_name
same_name_iff a b = (
  λ h. (strcmp_iff a b).0 (is_same (strcmp a b) h),
  λ h. let e = (strcmp_iff a b).1 h in simp (same_name, e),
)
  where
    is_same : (c : Cmp) → elim c [ same ↦ true | _ ↦ false ] ≡ true → c ≡ same
    is_same Cmp.same h = refl
    is_same Cmp.below h = absurd (cc)
    is_same Cmp.above h = absurd (cc)

Bool-iff : (a b : Bool) → (a ≡ true → b ≡ true) → (b ≡ true → a ≡ true) → a ≡ b
Bool-iff true b f g = sym (f refl)
Bool-iff false true f g = g refl
Bool-iff false false f g = refl

pub same_name_sym : (a b : List ℕ) → same_name a b ≡ same_name b a
same_name_sym a b =
    Bool-iff (same_name a b) (same_name b a)
      (λ h. (same_name_iff b a).1 (sym ((same_name_iff a b).0 h)))
      (λ h. (same_name_iff a b).1 (sym ((same_name_iff b a).0 h)))

pub same_name_cong : (a b n : List ℕ) → same_name a b ≡ true → same_name a n ≡ same_name b n
same_name_cong a b n h =
    let e = (same_name_iff a b).0 h in
    Bool-iff (same_name a n) (same_name b n)
      (λ t. (same_name_iff b n).1 (sym e ∙ (same_name_iff a n).0 t))
      (λ t. (same_name_iff a n).1 (e ∙ (same_name_iff b n).0 t))

pub has_name_cong :
    (ds : List Dentry) (a b : List ℕ) → same_name a b ≡ true → has_name ds a ≡ has_name ds b
unfolding has_name
has_name_cong [] a b h = refl
has_name_cong (d ∷ ds) a b h =
    let e : same_name d.name a ≡ same_name d.name b =
      same_name_sym d.name a ∙ same_name_cong a b d.name h ∙ same_name_sym b d.name in
    ap₂ (λ x y. if x then true else y) e (has_name_cong ds a b h)

abbrev pub Distinct : List Dentry → Type 0
Distinct [] = Unit {0}
Distinct (d ∷ ds) = (has_name ds d.name ≡ false) × Distinct ds

-- The directory as a map from names to inodes.
abbrev pub lookup : List Dentry → List ℕ → Option ℕ
lookup [] n = none
lookup (d ∷ ds) n = let rest = lookup ds n in if same_name d.name n then some d.inode else rest

pub lookup-has_name : (ds : List Dentry) (n : List ℕ) → has_name ds n ≡ false → lookup ds n ≡ none
unfolding has_name
lookup-has_name [] n h = refl
lookup-has_name (d ∷ ds) n h = elim (Bool-cases (same_name d.name n)) [
  | inl t ↦ let e : has_name (d ∷ ds) n ≡ true = simp t in absurd (cc)
  | inr t ↦
      let e : has_name (d ∷ ds) n ≡ has_name ds n = simp t in
      simp t (lookup-has_name ds n (sym e ∙ h))
]

pub has_name-cons :
    (d : Dentry) (ds : List Dentry) (n : List ℕ)
    → has_name (d ∷ ds) n ≡ false
    → (same_name d.name n ≡ false) × (has_name ds n ≡ false)
unfolding has_name
has_name-cons d ds n h = elim (Bool-cases (same_name d.name n)) [
  | inl t ↦ let e : has_name (d ∷ ds) n ≡ true = simp t in absurd (cc)
  | inr t ↦ let e : has_name (d ∷ ds) n ≡ has_name ds n = simp t in (t, sym e ∙ h)
]

pub has_name-append :
    (ds : List Dentry) (e : Dentry) (n : List ℕ)
    → has_name (ds ++ (e ∷ [])) n ≡ (if has_name ds n then true else same_name e.name n)
unfolding has_name
has_name-append [] e n = elim (Bool-cases (same_name e.name n)) [ inl t ↦ simp t | inr t ↦ simp t ]
has_name-append (d ∷ ds) e n = elim (Bool-cases (same_name d.name n)) [
  | inl t ↦ simp t
  | inr t ↦ simp t (has_name-append ds e n)
]
