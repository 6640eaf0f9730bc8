-- ===== src/Process/Wait.antt =====
-- `waitpid_should_unblock` (kernel/syscall/process.c).
use chaotix.Base.{
  ℕ, ◌+◌, ◌≡◌, refl, sym, ap, ap₂, ◌∙◌, Bool, true, false, ◌&&◌, List, [], ◌∷◌, ◌++◌, ◌==◌,
  if◌then◌else◌,
}
use chaotix.Base.Int.{ℤ, pos, negsuc}
use chaotix.Process.{Process, State}

-- `struct waitpid_blocker`, less the process that it yields.
pub record Blocker : Type 0 where
  pub param_pid : ℤ
  pub current_pid : ℕ
  pub current_pgid : ℕ

-- `negsuc n` is `-(n + 1)`, so below -1 the group is `n + 1`.
unfoldable pub is_target : Blocker → Process → Bool
is_target b p = elim b.param_pid [
  | negsuc n ↦ if n == 0 then p.ppid == b.current_pid else p.pgid == n + 1
  | pos n ↦ if n == 0 then p.pgid == b.current_pgid else p.pid == n
]

abbrev pub has_died : State → Bool
has_died State.dead = true
has_died _ = false

-- What the callback leaves: it lets the caller go on with the dead process, taken off the list; or
-- with none, since there is no target; or not at all.
pub data Waited : Type 0 where
  reaped : Process → List Process → Waited
  no_target : Waited
  must_wait : Waited

abbrev pub kept : Process → Waited → Waited
kept p (reaped q ps) = reaped q (p ∷ ps)
kept p no_target = no_target
kept p must_wait = must_wait

-- `any_target_exists |= is_target`.
abbrev pub seen : Bool → Waited → Waited
seen true (reaped q ps) = reaped q ps
seen true no_target = must_wait
seen true must_wait = must_wait
seen false w = w

unfoldable pub waitpid_should_unblock : Blocker → List Process → Waited
unfolding is_target
waitpid_should_unblock b [] = no_target
waitpid_should_unblock b (p ∷ ps) =
    let rest = waitpid_should_unblock b ps in
    if is_target b p && has_died p.state then reaped p ps else kept p (seen (is_target b p) rest)

-- The dead target that is reaped, and the list without it.
pub record Reaped (b : Blocker) (ps : List Process) (p : Process) (after : List Process)
    : Type 0 where
  pub before : List Process
  pub behind : List Process
  pub split : (ps ≡ before ++ (p ∷ behind)) × (after ≡ before ++ behind)
  pub target : (is_target b p ≡ true) × (has_died p.state ≡ true)

-- No process of the list passes the test.
abbrev pub NoneOf : (Process → Bool) → List Process → Type 0
NoneOf f [] = Unit {0}
NoneOf f (p ∷ ps) = (f p ≡ false) × NoneOf f ps

abbrev pub WaitResult : Blocker → List Process → Waited → Type 0
WaitResult b ps (reaped p after) = Reaped b ps p after
WaitResult b ps no_target = NoneOf (is_target b) ps
WaitResult b ps must_wait =
    NoneOf (λ p. is_target b p && has_died p.state) ps
    × ((NoneOf (is_target b) ps) → (true ≡ false))

none_dead :
    (b : Blocker) (ps : List Process)
    → NoneOf (is_target b) ps
    → NoneOf (λ p. is_target b p && has_died p.state) ps
none_dead b [] n = tt
none_dead b (p ∷ ps) n = let e = n.0 in (simp e refl, none_dead b ps n.1)

Reaped-cons :
    (b : Blocker) (p q : Process) (ps after : List Process)
    → Reaped b ps q after
    → Reaped b (p ∷ ps) q (p ∷ after)
Reaped-cons b p q ps after r = record {
  before = p ∷ r.before;
  behind = r.behind;
  split = (ap (λ l. p ∷ l) r.split.0, ap (λ l. p ∷ l) r.split.1);
  target = r.target;
}

-- waitpid_should_unblock takes off the list a dead process that the caller waits for, and nothing
-- else; or it says that no process is waited for, and then none is; or it lets the caller wait, and
-- then some process is waited for but no dead one.
pub waitpid_should_unblock-WaitResult :
    (b : Blocker) (ps : List Process) → WaitResult b ps (waitpid_should_unblock b ps)
unfolding waitpid_should_unblock
waitpid_should_unblock-WaitResult b [] = tt
waitpid_should_unblock-WaitResult b (p ∷ ps) =
    go (waitpid_should_unblock b ps) (waitpid_should_unblock-WaitResult b ps) (is_target b p) refl
      (has_died p.state) refl
  where
    go :
        (w : Waited)
        → WaitResult b ps w
        → (t : Bool) → is_target b p ≡ t
        → (d : Bool) → has_died p.state ≡ d
        → WaitResult b (p ∷ ps) (if t && d then reaped p ps else kept p (seen t w))
    go w r true e true f = record {
      before = [];
      behind = ps;
      split = (refl, refl);
      target = (e, f);
    }
    go (reaped q after) r true e false f = Reaped-cons b p q ps after r
    go no_target r true e false f = ((ap₂ (λ x y. x && y) e f, none_dead b ps r), λ n. sym e ∙ n.0)
    go must_wait r true e false f = ((ap₂ (λ x y. x && y) e f, r.0), λ n. r.1 n.1)
    go (reaped q after) r false e d f = Reaped-cons b p q ps after r
    go no_target r false e d f = (e, r)
    go must_wait r false e d f = ((ap (λ x. x && has_died p.state) e, r.0), λ n. r.1 n.1)
