-- ===== src/Process.antt =====
-- kernel/process.c and kernel/process.h: what a process is, its signals and its file descriptors.
pub mod Signals
pub mod Delivery
pub mod Panics
pub mod Descriptors
pub mod Wait
mod Tests
use chaotix.Base.{
  ℕ, zero, suc, ◌+◌, ◌-◌, ◌*◌, ◌/◌, ◌%◌, ◌^◌, ◌≤◌, ◌<◌, min, max, ◌≡◌, refl, sym, ap, ap₂, ◌∙◌, ◌≢◌,
  ◌↔◌, ◌⊎◌, inl, inr, Bool, true, false, not, ◌&&◌, ◌||◌, Option, none, some, List, [], ◌∷◌, ◌++◌,
  map, append-nil, append_assoc, arith, add-one, ltb, leb, ◌==◌, if◌then◌else◌, ltb→lt, leb→le,
  ==_iff, ==_refl, Bool-cases, Option-cases, all_less, all_less-holds, same, same-true, length,
  get_or, set, take, drop, replicate, length-append, length-set, get_or-set_self, get_or-set_ne,
  set_twice, set-get_or, take-nil, drop-nil, length-take, length-drop, take_all, take-append-drop,
  length-replicate, take-min,
}
use chaotix.Base.Outcome.{Errno, Outcome, ok, err, panic}

-- `PROCESS_STATE_*`
pub data State : Type 0 where
  runnable running blocked dying dead : State

-- `struct process`, less its saved registers, page directory and files. `address` is the address of
-- the struct: processes that the kernel spawns share the pid 0.
pub record Process : Type 0 where
  pub address : ℕ
  pub pid : ℕ
  pub ppid : ℕ
  pub pgid : ℕ
  pub state : State
  pub exit_status : ℕ
  pub pending_signals : ℕ
  pub blocker_was_interrupted : Bool
  pub user_ticks : ℕ
  pub kernel_ticks : ℕ

unfoldable pub process_tick : Bool → Process → Process
process_tick in_kernel p =
    if in_kernel
    then record p { kernel_ticks = (p.kernel_ticks + 1) % 2 ^ 32 }
    else record p { user_ticks = (p.user_ticks + 1) % 2 ^ 32 }

-- What `die` does to a process of the list: its children go to init, and it is dead itself.
abbrev pub bury : Process → Process → Process
bury parent p =
    let q : Process = if p.ppid == parent.pid then record p { ppid = 1 } else p in
    if p.address == parent.address
    then record q { exit_status = parent.exit_status; state = State.dead }
    else q

unfoldable pub bury_each : Process → List Process → List Process
bury_each parent [] = []
bury_each parent (p ∷ ps) = bury parent p ∷ bury_each parent ps

-- The process gives up its memory and files, and never runs again. The death of init is a panic.
unfoldable pub die : Process → List Process → Outcome (List Process)
unfolding bury_each
die current all_processes = if current.pid == 1 then panic else ok (bury_each current all_processes)

-- `exit_status = (status & 0xff) << 8`
unfoldable pub process_exit : ℕ → Process → List Process → Outcome (List Process)
unfolding die
process_exit status current = die (record current { exit_status = status % 256 * 256 })

-- `exit_status = signum & 0xff`
unfoldable pub process_crash_in_userland : ℕ → Process → List Process → Outcome (List Process)
unfolding die
process_crash_in_userland signum current = die (record current { exit_status = signum % 256 })

abbrev pub is_dying : State → Bool
is_dying State.dying = true
is_dying _ = false

unfoldable pub process_die_if_needed : Process → List Process → Outcome (List Process)
unfolding die
process_die_if_needed current all_processes =
    if is_dying current.state then die current all_processes else ok all_processes

unfoldable pub process_find_process_by_pid : ℕ → List Process → Option Process
process_find_process_by_pid pid [] = none
process_find_process_by_pid pid (p ∷ ps) =
    let rest = process_find_process_by_pid pid ps in if p.pid == pid then some p else rest

unfoldable pub process_find_process_by_ppid : ℕ → List Process → Option Process
process_find_process_by_ppid ppid [] = none
process_find_process_by_ppid ppid (p ∷ ps) =
    let rest = process_find_process_by_ppid ppid ps in if p.ppid == ppid then some p else rest
