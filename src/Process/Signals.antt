-- ===== src/Process/Signals.antt =====
-- Signals (kernel/process.c, kernel/api/signum.h). A signal is sent by setting its bit in
-- `pending_signals`; the process takes the bits off, lowest first, when it runs.
use chaotix.Base.{
  ℕ, zero, suc, ◌%◌, Bool, false, not, ◌||◌, Option, none, some, List, [], ◌∷◌, leb, ◌==◌,
  if◌then◌else◌,
}
use chaotix.Base.Outcome.{Errno, Outcome, ok, err, panic}
use chaotix.Base.Int.{ℤ, pos, negsuc}
use chaotix.Base.Bits.{set_bit, clear_bit, lowest_bit}
use chaotix.Process.{Process, State, process_find_process_by_pid}

abbrev pub nsig : ℕ
nsig = 32

pub data Disposition : Type 0 where
  term ign core stop cont : Disposition

abbrev pub is_one_of : ℕ → List ℕ → Bool
is_one_of n [] = false
is_one_of n (m ∷ ms) = n == m || is_one_of n ms

-- SIGHUP, SIGINT, SIGKILL, SIGPIPE, SIGALRM, SIGUSR1, SIGUSR2, SIGVTALRM, SIGSTKFLT, SIGIO, SIGPROF,
-- SIGPWR and SIGTERM.
abbrev pub term_signals : List ℕ
term_signals = 1 ∷ 2 ∷ 9 ∷ 13 ∷ 14 ∷ 10 ∷ 12 ∷ 26 ∷ 16 ∷ 29 ∷ 27 ∷ 30 ∷ 15 ∷ []

-- SIGCHLD, SIGURG and SIGWINCH.
abbrev pub ign_signals : List ℕ
ign_signals = 17 ∷ 23 ∷ 28 ∷ []

-- SIGQUIT, SIGILL, SIGTRAP, SIGABRT, SIGBUS, SIGFPE, SIGSEGV, SIGXCPU, SIGXFSZ and SIGSYS.
abbrev pub core_signals : List ℕ
core_signals = 3 ∷ 4 ∷ 5 ∷ 6 ∷ 7 ∷ 8 ∷ 11 ∷ 24 ∷ 25 ∷ 31 ∷ []

-- SIGSTOP, SIGTSTP, SIGTTIN and SIGTTOU.
abbrev pub stop_signals : List ℕ
stop_signals = 19 ∷ 20 ∷ 21 ∷ 22 ∷ []

-- The last case is SIGCONT; `none` is UNREACHABLE.
unfoldable pub get_default_disposition_for_signal : ℕ → Option Disposition
get_default_disposition_for_signal signum =
    if is_one_of signum term_signals
    then some Disposition.term
    else if is_one_of signum ign_signals
    then some Disposition.ign
    else if is_one_of signum core_signals
    then some Disposition.core
    else if is_one_of signum stop_signals
    then some Disposition.stop
    else if signum == 18
    then some Disposition.cont
    else none

unfoldable pub terminate_with_signal : Process → ℕ → Process
terminate_with_signal p signum = record p { exit_status = signum % 256; state = State.dying }

-- What the loop of `process_handle_pending_signals` does with a signal that it has taken off.
-- UNIMPLEMENTED and UNREACHABLE panic.
unfoldable pub deliver : Process → ℕ → Outcome Process
unfolding terminate_with_signal
deliver p signum = elim (get_default_disposition_for_signal signum) [
  | none ↦ panic
  | some Disposition.term ↦ ok (terminate_with_signal p signum)
  | some Disposition.core ↦ ok (terminate_with_signal p signum)
  | some Disposition.ign ↦ ok p
  | some Disposition.stop ↦ panic
  | some Disposition.cont ↦ panic
]

abbrev pub take_off : Process → ℕ → Process
take_off p signum = record p { pending_signals = clear_bit p.pending_signals signum }

-- The loop, on fuel: each round takes a bit off, so the number falls.
unfoldable pub handle_signals : ℕ → Process → Outcome Process
unfolding deliver
handle_signals zero p = ok p
handle_signals (suc fuel) p = elim (lowest_bit 32 p.pending_signals) [
  | none ↦ ok p
  | some signum ↦ elim (deliver (take_off p signum) signum) [
    | ok q ↦ handle_signals fuel q
    | err e ↦ err e
    | panic ↦ panic
  ]
]

unfoldable pub process_handle_pending_signals : Process → Outcome Process
unfolding handle_signals
process_handle_pending_signals p = handle_signals p.pending_signals p

-- `process->pending_signals |= 1 << signum`, and the running process handles it at once.
unfoldable pub post_signal : Bool → Process → ℕ → Outcome Process
unfolding process_handle_pending_signals
post_signal is_current p signum =
    let q : Process = record p { pending_signals = set_bit p.pending_signals signum } in
    if is_current then process_handle_pending_signals q else ok q

unfoldable pub send_by_disposition : Bool → Process → ℕ → Outcome Process
unfolding post_signal
send_by_disposition is_current p signum = elim (get_default_disposition_for_signal signum) [
  | none ↦ panic
  | some Disposition.term ↦ post_signal is_current p signum
  | some Disposition.core ↦ post_signal is_current p signum
  | some Disposition.ign ↦ ok p
  | some Disposition.stop ↦ panic
  | some Disposition.cont ↦ panic
]

unfoldable pub send_signal : Bool → Process → ℤ → Outcome Process
unfolding send_by_disposition
send_signal is_current p (negsuc n) = err Errno.einval
send_signal is_current p (pos signum) =
    if leb nsig signum then err Errno.einval else send_by_disposition is_current p signum

unfoldable pub process_send_signal_to_one : ℕ → ℕ → ℤ → List Process → Outcome Process
unfolding send_signal process_find_process_by_pid
process_send_signal_to_one pid current signum all_processes =
    elim (process_find_process_by_pid pid all_processes) [
      | none ↦ err Errno.esrch
      | some p ↦ send_signal (p.address == current) p signum
    ]

-- `process_send_signal_to_group` and `process_send_signal_to_all`: down the list, to the processes
-- that `chosen` names, up to the first error. The processes that had their signal keep it.
unfoldable pub send_signal_to_each :
    (Process → Bool) → ℕ → ℤ → List Process → List Process × Outcome (Unit {0})
unfolding send_signal
send_signal_to_each chosen current signum [] = ([], ok tt)
send_signal_to_each chosen current signum (p ∷ ps) =
    let rest = send_signal_to_each chosen current signum ps in
    if not (chosen p)
    then (p ∷ rest.0, rest.1)
    else elim (send_signal (p.address == current) p signum) [
      | ok q ↦ (q ∷ rest.0, rest.1)
      | err e ↦ (p ∷ ps, err e)
      | panic ↦ (p ∷ ps, panic)
    ]

unfoldable pub process_send_signal_to_group :
    ℕ → ℕ → ℤ → List Process → List Process × Outcome (Unit {0})
unfolding send_signal_to_each
process_send_signal_to_group pgid current = send_signal_to_each (λ p. p.pgid == pgid) current

-- Processes with a pid of at most 1 are left out.
unfoldable pub process_send_signal_to_all : ℕ → ℤ → List Process → List Process × Outcome (Unit {0})
unfolding send_signal_to_each
process_send_signal_to_all current = send_signal_to_each (λ p. not (leb p.pid 1)) current
