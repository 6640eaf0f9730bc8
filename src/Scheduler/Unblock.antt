-- ===== src/Scheduler/Unblock.antt =====
-- Who goes on and who stays blocked (unblock_processes of kernel/scheduler.c).
use chaotix.Base.{ℕ, ◌≡◌, ◌≢◌, Bool, true, false, Option, none, some, List, [], ◌∷◌}
use chaotix.Base.All.{All}
use chaotix.Base.Outcome.{Outcome, ok}
use chaotix.Process.{Process, State}
use chaotix.Scheduler.{Scheduler}

-- The processes before and after, one by one, and the addresses of those that were let go, in the order
-- of the list.
pub data Settles (should_unblock : Process → Option Bool)
    : List Process → List Process → List ℕ → Type 0 where
  nobody : Settles should_unblock [] [] []
  not_blocked :
      {ps qs : List Process} {vs : List ℕ} (p : Process)
      → p.state ≢ State.blocked
      → Settles should_unblock ps qs vs
      → Settles should_unblock (p ∷ ps) (p ∷ qs) vs
  waits :
      {ps qs : List Process} {vs : List ℕ} (p : Process)
      → p.state ≡ State.blocked
      → p.pending_signals ≡ 0
      → should_unblock p ≡ some false
      → Settles should_unblock ps qs vs
      → Settles should_unblock (p ∷ ps) (p ∷ qs) vs
  interrupted :
      {ps qs : List Process} {vs : List ℕ} (p : Process)
      → p.state ≡ State.blocked
      → p.pending_signals ≢ 0
      → Settles should_unblock ps qs vs
      → Settles should_unblock
          (p ∷ ps)
          (record p { state = State.running; blocker_was_interrupted = true } ∷ qs)
          (p.address ∷ vs)
  let_go :
      {ps qs : List Process} {vs : List ℕ} (p : Process)
      → p.state ≡ State.blocked
      → p.pending_signals ≡ 0
      → should_unblock p ≡ some true
      → Settles should_unblock ps qs vs
      → Settles should_unblock
          (p ∷ ps)
          (record p { state = State.running; blocker_was_interrupted = false } ∷ qs)
          (p.address ∷ vs)

-- A blocked process has set a callback.
abbrev pub HasCallback : (Process → Option Bool) → Process → Type 0
HasCallback should_unblock p = p.state ≡ State.blocked → should_unblock p ≢ none

-- The result of the loop over a list.
record Loop (f : Process → Option Bool) (ps : List Process) (o : Outcome (List Process × List ℕ))
    : Type 0 where
  after : List Process
  queued : List ℕ
  result : o ≡ ok (after, queued)
  settles : Settles f ps after queued
