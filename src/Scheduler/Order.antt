-- ===== src/Scheduler/Order.antt =====
-- The order of the list, and who stays blocked.
use chaotix.Base.{
  ℕ, ◌≤◌, ◌≡◌, refl, ap, inl, inr, true, false, List, [], ◌∷◌, ◌++◌, arith, ltb, Bool-cases,
}
use chaotix.Base.Outcome.{ok}
use chaotix.Process.{Process, State}
use chaotix.Scheduler.{
  Scheduler, is_runnable, is_dead, scheduler_enqueue, insert_process, scheduler_register,
}

-- No pid before `pid` in the list is larger than a later one.
abbrev pub SortedFrom : ℕ → List Process → Type 0
SortedFrom pid [] = Unit {0}
SortedFrom pid (p ∷ ps) = (pid ≤ p.pid) × SortedFrom p.pid ps

insert_process-SortedFrom :
    (p : Process) (pid : ℕ) (ps : List Process)
    → pid ≤ p.pid
    → SortedFrom pid ps
    → SortedFrom pid (insert_process p ps)
unfolding insert_process
insert_process-SortedFrom p pid [] l h = (l, tt)
insert_process-SortedFrom p pid (q ∷ qs) l h = elim (Bool-cases (ltb q.pid p.pid)) [
  | inl t ↦ simp t (h.0, insert_process-SortedFrom p q.pid qs (ground arith) h.1)
  | inr t ↦ simp t (l, (ground arith, h.1))
]

-- The list after `p` was put between some of its processes.
pub record Inserted (p : Process) (ps after : List Process) : Type 0 where
  pub front : List Process
  pub back : List Process
  pub was : ps ≡ front ++ back
  pub is : after ≡ front ++ (p ∷ back)

insert_process-Inserted : (p : Process) (ps : List Process) → Inserted p ps (insert_process p ps)
unfolding insert_process
insert_process-Inserted p [] = record { front = []; back = []; was = refl; is = refl }
insert_process-Inserted p (q ∷ qs) = elim (Bool-cases (ltb q.pid p.pid)) [
  | inl t ↦
      let r = insert_process-Inserted p qs in
      simp t (record {
        front = q ∷ r.front;
        back = r.back;
        was = ap (λ l. q ∷ l) r.was;
        is = ap (λ l. q ∷ l) r.is;
      })
  | inr t ↦ simp t (record { front = []; back = q ∷ qs; was = refl; is = refl })
]

-- scheduler_register takes a runnable process without a panic: the list of all processes keeps them in
-- their order and has the process between some of them, still in the order of the pids, and the process
-- is the last of the ready queue.
pub scheduler_register-SortedFrom :
    (p : Process) (s : Scheduler)
    → is_runnable p.state ≡ true
    → SortedFrom 0 s.all_processes
    → (s' : Scheduler) × (scheduler_register p s ≡ ok s')
      × Inserted p s.all_processes s'.all_processes
      × SortedFrom 0 s'.all_processes
      × (s'.ready_queue ≡ s.ready_queue ++ (p.address ∷ []))
unfolding scheduler_register scheduler_enqueue
scheduler_register-SortedFrom p s r h =
    let alive : is_dead p.state ≡ false = runs p.state r in
    (
      record {
        all_processes = insert_process p s.all_processes;
        ready_queue = s.ready_queue ++ (p.address ∷ []);
      },
      simp (scheduler_register, r, scheduler_enqueue, alive),
      insert_process-Inserted p s.all_processes,
      insert_process-SortedFrom p 0 s.all_processes (omega arith) h,
      refl,
    )
  where
    runs : (t : State) → is_runnable t ≡ true → is_dead t ≡ false
    runs State.runnable e = refl
    runs State.running e = refl
    runs State.blocked e = refl
    runs State.dying e = refl
    runs State.dead e = absurd (cc)
