-- ===== src/Process/Tests.antt =====
-- A process with SIGHUP (1) and SIGINT (2) pending, and its file descriptors.
use chaotix.Base.{
  ℕ, zero, suc, ◌≡◌, refl, ap, inl, false, Option, none, some, [], ◌∷◌, arith, length, replicate,
  length-replicate,
}
use chaotix.Base.Outcome.{ok, ◌>>=◌}
use chaotix.Base.Int.{pos, negsuc}
use chaotix.Base.Bits.{test_bit, test_bit-zero}
use chaotix.Base.{
  ℕ, zero, suc, ◌≡◌, refl, ap, inl, false, Option, none, some, [], ◌∷◌, arith, length, replicate,
  length-replicate,
}
use chaotix.Process.{Process, State}
use chaotix.Process.Wait.{
  Blocker, WaitResult, waitpid_should_unblock, waitpid_should_unblock-WaitResult,
}
use chaotix.Process.Signals.{
  get_default_disposition_for_signal, process_handle_pending_signals, send_signal,
}
use chaotix.Process.Delivery.{
  IsFatal, OnlyFatal, Handled, process_handle_pending_signals-Handled,
  process_handle_pending_signals-send_signal,
}
use chaotix.Process.Descriptors.{
  FdTable, open_max, process_alloc_file_descriptor, process_get_file_description,
  process_free_file_descriptor, process_alloc_file_descriptor-process_free_file_descriptor,
}

abbrev shell : Process
shell = record {
  address = 4096;
  pid = 7;
  ppid = 1;
  pgid = 7;
  state = State.running;
  exit_status = 0;
  pending_signals = 6;
  blocker_was_interrupted = false;
  user_ticks = 3;
  kernel_ticks = 4;
}

IsFatal-hup : IsFatal 1
unfolding get_default_disposition_for_signal
IsFatal-hup = inl refl

IsFatal-int : IsFatal 2
unfolding get_default_disposition_for_signal
IsFatal-int = inl refl

OnlyFatal-mask : OnlyFatal 6
unfolding test_bit
OnlyFatal-mask zero b = absurd (cc)
OnlyFatal-mask (suc zero) b = IsFatal-hup
OnlyFatal-mask (suc (suc zero)) b = IsFatal-int
OnlyFatal-mask (suc (suc (suc k))) b = let z = test_bit-zero k in absurd (cc)

process_handle_pending_signals-Handled_example :
    (q : Process) × (process_handle_pending_signals shell ≡ ok q) × Handled shell q
process_handle_pending_signals-Handled_example =
    process_handle_pending_signals-Handled shell OnlyFatal-mask

process_handle_pending_signals-send_signal_example :
    (q : Process) × ((send_signal false shell (pos 2) >>= process_handle_pending_signals) ≡ ok q)
    × (q.state ≡ State.dying)
process_handle_pending_signals-send_signal_example =
    process_handle_pending_signals-send_signal shell 2 (omega arith) IsFatal-int OnlyFatal-mask

-- Descriptors 0 and 2 are open.
abbrev files : FdTable
files = some 1000 ∷ none ∷ some 2000 ∷ replicate 1021 none

abbrev blank : Option ℕ
blank = none

length-files : length files ≡ open_max
length-files = ap (λ n. suc (suc (suc n))) (length-replicate 1021 blank)

alloc_files :
    process_alloc_file_descriptor (negsuc 0) 3000 files
    ≡ ok (1, some 1000 ∷ some 3000 ∷ some 2000 ∷ replicate 1021 none)
unfolding process_alloc_file_descriptor
alloc_files = refl

process_alloc_file_descriptor-process_free_file_descriptor_example :
    (process_get_file_description (pos 1) (some 1000 ∷ some 3000 ∷ some 2000 ∷ replicate 1021 none)
      ≡ ok 3000)
    × (process_free_file_descriptor
          (pos 1)
          (some 1000 ∷ some 3000 ∷ some 2000 ∷ replicate 1021 none)
        ≡ ok files)
process_alloc_file_descriptor-process_free_file_descriptor_example =
    process_alloc_file_descriptor-process_free_file_descriptor (negsuc 0) files 3000 1
      (some 1000 ∷ some 3000 ∷ some 2000 ∷ replicate 1021 none) length-files alloc_files

-- Two children, the second dead, of which any is waited for.
abbrev any_child : Blocker
any_child = record { param_pid = negsuc 0; current_pid = 1; current_pgid = 1 }

waitpid_should_unblock-WaitResult_example :
    WaitResult any_child
      (shell ∷ record shell { pid = 8; state = State.dead } ∷ [])
      (waitpid_should_unblock any_child (shell ∷ record shell { pid = 8; state = State.dead } ∷ []))
waitpid_should_unblock-WaitResult_example =
    waitpid_should_unblock-WaitResult any_child
      (shell ∷ record shell { pid = 8; state = State.dead } ∷ [])
