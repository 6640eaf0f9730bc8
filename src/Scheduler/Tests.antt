-- ===== src/Scheduler/Tests.antt =====
-- Registering a process between two others.
use chaotix.Base.{ℕ, ◌*◌, ◌≡◌, refl, Bool, true, false, Option, some, [], ◌∷◌, ◌++◌, arith}
use chaotix.Base.Outcome.{ok}
use chaotix.Process.{Process, State}
use chaotix.Scheduler.{Scheduler, scheduler_register}
use chaotix.Scheduler.Order.{SortedFrom, Inserted, scheduler_register-SortedFrom}

abbrev with_pid : ℕ → State → Process
with_pid n state = record {
  address = n * 1000;
  pid = n;
  ppid = 1;
  pgid = n;
  state = state;
  exit_status = 0;
  pending_signals = 0;
  blocker_was_interrupted = false;
  user_ticks = 0;
  kernel_ticks = 0;
}

abbrev two_processes : Scheduler
two_processes = record {
  all_processes = with_pid 1 State.running ∷ with_pid 3 State.blocked ∷ [];
  ready_queue = 1000 ∷ [];
}

scheduler_register-SortedFrom_example :
    (s' : Scheduler) × (scheduler_register (with_pid 2 State.runnable) two_processes ≡ ok s')
    × Inserted (with_pid 2 State.runnable) two_processes.all_processes s'.all_processes
    × SortedFrom 0 s'.all_processes
    × (s'.ready_queue ≡ (1000 ∷ []) ++ (2000 ∷ []))
scheduler_register-SortedFrom_example =
    scheduler_register-SortedFrom (with_pid 2 State.runnable) two_processes refl
      (omega arith, (omega arith, tt))

-- Every process has a callback, which says that it may go on.
abbrev always : Process → Option Bool
always p = some true
