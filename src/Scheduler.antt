-- ===== src/Scheduler.antt =====
-- kernel/scheduler.c: the list of all processes and the queue of those that are ready. Switching to a
-- process, which saves and loads registers, is not modelled.
pub mod Order
pub mod Unblock
mod Tests
use chaotix.Base.{
  ℕ, zero, suc, ◌+◌, ◌-◌, ◌*◌, ◌/◌, ◌%◌, ◌^◌, ◌≤◌, ◌<◌, min, max, ◌≡◌, refl, sym, ap, ap₂, ◌∙◌, ◌≢◌,
  ◌↔◌, ◌⊎◌, inl, inr, Bool, true, false, not, ◌&&◌, ◌||◌, Option, none, some, List, [], ◌∷◌, ◌++◌,
  map, append-nil, append_assoc, arith, add-one, ltb, leb, ◌==◌, if◌then◌else◌, ltb→lt, leb→le,
  ==_iff, ==_refl, Bool-cases, Option-cases, all_less, all_less-holds, same, same-true, length,
  get_or, set, take, drop, replicate, length-append, length-set, get_or-set_self, get_or-set_ne,
  set_twice, set-get_or, take-nil, drop-nil, length-take, length-drop, take_all, take-append-drop,
  length-replicate, take-min,
}
use chaotix.Base.Outcome.{Errno, Outcome, ok, err, panic, asserting, ◌>>=◌}
use chaotix.Process.{Process, State}

-- `all_processes` in the order of its links, and `ready_queue`, which holds addresses.
pub record Scheduler : Type 0 where
  pub all_processes : List Process
  pub ready_queue : List ℕ

abbrev pub is_runnable : State → Bool
is_runnable State.runnable = true
is_runnable _ = false

abbrev pub is_blocked : State → Bool
is_blocked State.blocked = true
is_blocked _ = false

abbrev pub is_dead : State → Bool
is_dead State.dead = true
is_dead _ = false

unfoldable pub scheduler_enqueue : Process → Scheduler → Outcome Scheduler
scheduler_enqueue p s =
    asserting (not (is_dead p.state))
      (ok (record s { ready_queue = s.ready_queue ++ (p.address ∷ []) }))

-- Before the first process with a pid that is not smaller.
unfoldable pub insert_process : Process → List Process → List Process
insert_process p [] = p ∷ []
insert_process p (q ∷ qs) =
    let rest = insert_process p qs in if ltb q.pid p.pid then q ∷ rest else p ∷ q ∷ qs

unfoldable pub scheduler_register : Process → Scheduler → Outcome Scheduler
unfolding insert_process scheduler_enqueue
scheduler_register p s =
    asserting (is_runnable p.state)
      (scheduler_enqueue p (record s { all_processes = insert_process p s.all_processes }))

-- The address of the next process; the idle process runs where no other is ready.
unfoldable pub scheduler_deque : ℕ → Scheduler → ℕ × Scheduler
scheduler_deque idle s = elim s.ready_queue [
  | [] ↦ (idle, s)
  | p ∷ ps ↦ (p, record s { ready_queue = ps })
]

-- `should_unblock` stands for the callbacks that processes have set: the answer of a process's callback,
-- and none where it has set none. A callback changes no process here.
module _ (should_unblock : Process → Option Bool) where
  abbrev pub unblocked : Process → Process
  unblocked p = record p {
    blocker_was_interrupted = not (p.pending_signals == 0);
    state = State.running;
  }

  -- The body of the loop, behind the test of the state. `rest` is what the loop makes of the processes
  -- behind `p`: the processes, and the addresses that it has put into the queue.
  abbrev pub unblock_one :
      Process → Option Bool → List Process × List ℕ → Outcome (List Process × List ℕ)
  unblock_one p none rest = panic
  unblock_one p (some answer) rest =
      if not (p.pending_signals == 0) || answer
      then ok (unblocked p ∷ rest.0, p.address ∷ rest.1)
      else ok (p ∷ rest.0, rest.1)

  unfoldable pub unblock_each : List Process → Outcome (List Process × List ℕ)
  unblock_each [] = ok ([], [])
  unblock_each (p ∷ ps) =
      let rest = unblock_each ps in
      rest >>= λ r.
      if is_blocked p.state then unblock_one p (should_unblock p) r else ok (p ∷ r.0, r.1)

  unfoldable pub unblock_processes : Scheduler → Outcome Scheduler
  unfolding unblock_each
  unblock_processes s = unblock_each s.all_processes >>= λ r.
      ok (record s { all_processes = r.0; ready_queue = s.ready_queue ++ r.1 })
