-- ===== src/Base/Tests.antt =====
-- Boolean tests on the native numbers, and the conditional.
use Prim.Native.Nat.{ℕ, zero, suc, ◌≤◌, ◌<◌, compare, Ordering}
use mathlib.Core.Path.{◌≡◌, refl, sym, ap, ◌∙◌}
use mathlib.Core.Logic.{◌↔◌, ◌⊎◌, inl, inr}
use mathlib.Core.Bool.{Bool, true, false, not}
use mathlib.Core.Option.{Option, none, some}
use native.Mathlib.Omega.{arith}

abbrev pub ltb : ℕ → ℕ → Bool
ltb a b = elim (compare a b) [ Ordering.lt ↦ true | _ ↦ false ]

abbrev pub leb : ℕ → ℕ → Bool
leb a b = elim (compare a b) [ Ordering.gt ↦ false | _ ↦ true ]

infix 50 ◌==◌
abbrev pub ◌==◌ : ℕ → ℕ → Bool
a == b = elim (compare a b) [ Ordering.eq ↦ true | _ ↦ false ]

infix 1 if◌then◌else◌
abbrev pub if◌then◌else◌ {ℓ} : {A : Type ℓ} → Bool → A → A → A
if true then x else y = x
if false then x else y = y

pub ltb→lt : (a b : ℕ) → ltb a b ≡ true → a < b
ltb→lt a b h = ground arith

pub leb→le : (a b : ℕ) → leb a b ≡ true → a ≤ b
leb→le a b h = ground arith

pub ==_iff : (a b : ℕ) → ((a == b) ≡ true) ↔ (a ≡ b)
==_iff a b = ground arith

pub ==_refl : (a : ℕ) → (a == a) ≡ true
==_refl a = ground arith

-- To split on a computed value and keep the equation.
pub Bool-cases : (b : Bool) → (b ≡ true) ⊎ (b ≡ false)
Bool-cases true = inl refl
Bool-cases false = inr refl

pub Option-cases {ℓ} : {A : Type ℓ} (o : Option A) → (o ≡ none) ⊎ ((a : A) × (o ≡ some a))
Option-cases none = inl refl
Option-cases (some a) = inr (a, refl)

-- A test that holds of every number below `n`, by computing it.
abbrev pub all_less : ℕ → (ℕ → Bool) → Bool
all_less zero f = true
all_less (suc n) f = let rest = all_less n f in if f n then rest else false

pub all_less-holds : (n : ℕ) (f : ℕ → Bool) → all_less n f ≡ true → (k : ℕ) → k < n → f k ≡ true
all_less-holds zero f h k l = absurd (omega arith)
all_less-holds (suc n) f h k l = elim (Bool-cases (f n)) [
  | inl t ↦
      let rest : all_less n f ≡ true = sym (simp t) ∙ h in
      elim (Bool-cases (k == n)) [
        | inl e ↦ ap f ((==_iff k n).0 e) ∙ t
        | inr d ↦ all_less-holds n f rest k (ground arith)
      ]
  | inr t ↦ let no : false ≡ true = sym (simp t) ∙ h in absurd (cc)
]

abbrev pub same : Bool → Bool → Bool
same true b = b
same false b = not b

pub same-true : (a b : Bool) → same a b ≡ true → a ≡ b
same-true true true h = refl
same-true true false h = sym h
same-true false true h = h
same-true false false h = refl
