-- ===== src/Mutex/Exclusion.antt =====
-- Who gets the mutex.
use chaotix.Base.{
  ℕ, ◌+◌, ◌-◌, ◌%◌, ◌^◌, ◌<◌, ◌≡◌, sym, ap, ◌∙◌, ◌≢◌, ◌⊎◌, inl, inr, true, false, none, some, arith,
  ltb, ◌==◌, ==_iff, ==_refl, Bool-cases,
}
use chaotix.Base.Outcome.{ok}
use chaotix.Mutex.{Mutex, mutex_lock, mutex_unlock, mutex_unlock_if_locked}

-- A mutex is held just if its level is not 0.
abbrev pub IsValid : Mutex → Type 0
IsValid m = ((m.level ≡ 0) × (m.holder ≡ none)) ⊎ ((p : ℕ) × (0 < m.level) × (m.holder ≡ some p))

-- A process that gets a valid mutex (held by nobody or by itself, and less often than the level can
-- count) keeps every other process out until it unlocks it, which gives the mutex back as it was.
pub mutex_lock-mutex_unlock :
    (p q : ℕ) (m m' : Mutex)
    → IsValid m
    → m.level + 1 < 2 ^ 32
    → p ≢ q
    → mutex_lock p m ≡ some m'
    → (mutex_unlock p m' ≡ ok m) × (mutex_lock q m' ≡ none)
unfolding mutex_lock mutex_unlock
mutex_lock-mutex_unlock p q m m' v l d h = elim v [
  | inl (z, free) ↦
      let e : mutex_lock p m ≡ some (record { holder = some p; level = 1 }) =
        simp (mutex_lock, free, z) in
      let w : m' ≡ record { holder = some p; level = 1 } = let q = sym h ∙ e in cc in
      let same : (p == p) ≡ true = ==_refl p in
      let other : (p == q) ≡ false = ground arith in
      let back : ◌≡◌ {A = Mutex} (record { holder = none; level = 0 }) m =
        λ k. record { holder = sym free k; level = sym z k } in
      (
        ap (mutex_unlock p) w ∙ simp (mutex_unlock, same) (ap ok back),
        ap (mutex_lock q) w ∙ simp (mutex_lock, other),
      )
  | inr (o, pos, held) ↦ elim (Bool-cases (o == p)) [
    | inl mine ↦
        let wrap : (m.level + 1) % 2 ^ 32 ≡ m.level + 1 = omega arith in
        let e : mutex_lock p m ≡ some (record { holder = some p; level = m.level + 1 }) =
          simp (mutex_lock, held, mine, wrap) in
        let w : m' ≡ record { holder = some p; level = m.level + 1 } = let q = sym h ∙ e in cc in
        let same : (p == p) ≡ true = ==_refl p in
        let other : (p == q) ≡ false = ground arith in
        let some_left : (m.level + 1 - 1 == 0) ≡ false = ground arith in
        let down : m.level + 1 - 1 ≡ m.level = omega arith in
        let up : ltb 0 (m.level + 1) ≡ true = ground arith in
        let holder : some p ≡ m.holder = ap some (sym ((==_iff o p).0 mine)) ∙ sym held in
        let back : ◌≡◌ {A = Mutex} (record { holder = some p; level = m.level + 1 - 1 }) m =
          λ k. record { holder = holder k; level = down k } in
        (
          ap (mutex_unlock p) w ∙ simp (mutex_unlock, same, up, some_left) (ap ok back),
          ap (mutex_lock q) w ∙ simp (mutex_lock, other),
        )
    | inr theirs ↦ let e : mutex_lock p m ≡ none = simp (mutex_lock, held, theirs) in absurd (cc)
  ]
]

abbrev pub held_by : ℕ → ℕ → Mutex
held_by p level = record { holder = some p; level = level }

-- mutex_unlock_if_locked by the holder: when it holds the mutex once, the call says false and the
-- mutex stays with it, so that no other process gets it; when it holds it more often, the call says
-- true and any other process gets the mutex, although the holder has not unlocked it as often as it
-- locked it.
pub mutex_unlock_if_locked-mutex_lock :
    (p q level : ℕ)
    → p ≢ q
    → 0 < level
    → level < 2 ^ 32
    → ((level ≡ 1)
        × ((mutex_unlock_if_locked p (held_by p level)).0 ≡ false)
        × (mutex_lock q (mutex_unlock_if_locked p (held_by p level)).1 ≡ none))
      ⊎ ((1 < level)
          × ((mutex_unlock_if_locked p (held_by p level)).0 ≡ true)
          × (mutex_lock q (mutex_unlock_if_locked p (held_by p level)).1 ≡ some (held_by q level)))
unfolding mutex_lock mutex_unlock_if_locked
mutex_unlock_if_locked-mutex_lock p q level d pos l =
    let same : (p == p) ≡ true = ==_refl p in
    let other : (p == q) ≡ false = ground arith in
    let held : (level == 0) ≡ false = ground arith in
    elim (Bool-cases (level - 1 == 0)) [
      | inl t ↦ inl (ground arith, simp (held, same, t), simp (held, same, t, other))
      | inr t ↦
          let up : (level - 1 + 1) % 2 ^ 32 ≡ level = omega arith in
          inr (ground arith, simp (held, same, t), simp (held, same, t, up))
    ]
