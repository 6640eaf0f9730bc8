-- ===== src/Mutex.antt =====
-- kernel/lock.c: the mutex, which its holder may lock again. The flag `lock` makes the part of each
-- function between its two atomic operations one step; a process is known by its address.
pub mod Exclusion
mod Tests
use chaotix.Base.{
  ℕ, zero, suc, ◌+◌, ◌-◌, ◌*◌, ◌/◌, ◌%◌, ◌^◌, ◌≤◌, ◌<◌, min, max, ◌≡◌, refl, sym, ap, ap₂, ◌∙◌, ◌≢◌,
  ◌↔◌, ◌⊎◌, inl, inr, Bool, true, false, not, ◌&&◌, ◌||◌, Option, none, some, List, [], ◌∷◌, ◌++◌,
  map, append-nil, append_assoc, arith, add-one, ltb, leb, ◌==◌, if◌then◌else◌, ltb→lt, leb→le,
  ==_iff, ==_refl, Bool-cases, Option-cases, all_less, all_less-holds, same, same-true, length,
  get_or, set, take, drop, replicate, length-append, length-set, get_or-set_self, get_or-set_ne,
  set_twice, set-get_or, take-nil, drop-nil, length-take, length-drop, take_all, take-append-drop,
  length-replicate, take-min,
}
use chaotix.Base.Outcome.{Errno, Outcome, ok, err, panic, asserting}

pub record Mutex : Type 0 where
  pub holder : Option ℕ
  pub level : ℕ

-- `!m->holder || m->holder == current`.
abbrev pub may_lock : ℕ → Option ℕ → Bool
may_lock current none = true
may_lock current (some p) = p == current

abbrev pub is_holder : ℕ → Option ℕ → Bool
is_holder current none = false
is_holder current (some p) = p == current

-- One round of the loop: `none` where the process yields and tries again. The assertion before the loop,
-- that interrupts are enabled, is the caller's to meet and is not modelled.
unfoldable pub mutex_lock : ℕ → Mutex → Option Mutex
mutex_lock current m =
    if may_lock current m.holder
    then some (record m { holder = some current; level = (m.level + 1) % 2 ^ 32 })
    else none

unfoldable pub mutex_unlock : ℕ → Mutex → Outcome Mutex
mutex_unlock current m = asserting (is_holder current m.holder) (
    asserting (ltb 0 m.level) (
      ok (
        if m.level - 1 == 0
        then record { holder = none; level = 0 }
        else record m { level = m.level - 1 })))

-- The Boolean that is returned, and the mutex.
unfoldable pub mutex_unlock_if_locked : ℕ → Mutex → Bool × Mutex
mutex_unlock_if_locked current m =
    if m.level == 0
    then (false, m)
    else if not (is_holder current m.holder)
    then (false, m)
    else if m.level - 1 == 0
    then (false, record m { level = 0 })
    else (true, record m { holder = none; level = m.level - 1 })
