-- ===== src/Fifo/History/Tests.antt =====
-- Runs of kernel/fs/fifo.c, and its theorems at a concrete pipe.
use chaotix.Base.{ℕ, ◌≡◌, refl, List, [], ◌∷◌, arith, replicate, length-replicate}
use chaotix.Base.Outcome.{ok}
use chaotix.RingBuf.{RingBuf, IsValid}
use chaotix.RingBuf
use chaotix.Fifo.{Fifo, read_body, write_body}
use chaotix.Fifo.History.{Event, reads, writes, Trace, step, run, Intact, run-Intact}

abbrev empty_pipe : Fifo
empty_pipe = record {
  buf = record { inner_buf = replicate 1024 0; write_idx = 0; read_idx = 0 };
  num_readers = 1;
  num_writers = 1;
}

abbrev start : Trace
start = record { pipe = empty_pipe; delivered = []; accepted = [] }

abbrev script : List Event
script = writes (ok tt) (1 ∷ 2 ∷ []) ∷ reads 1 ∷ writes (ok tt) (3 ∷ []) ∷ reads 9 ∷ reads 9 ∷ []

start-Intact : Intact start
start-Intact = record {
  valid = record {
    block = length-replicate {A = ℕ} 1024 0;
    write_in = omega arith;
    read_in = omega arith;
  };
  in_order = refl;
}

run-script : (run start script).delivered ≡ 1 ∷ 2 ∷ 3 ∷ []
unfolding run step read_body write_body RingBuf.read RingBuf.write RingBuf.is_empty RingBuf.is_full
run-script = refl

run-Intact_example : Intact (run start script)
run-Intact_example = run-Intact start script start-Intact
