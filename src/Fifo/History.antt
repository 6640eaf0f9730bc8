-- ===== src/Fifo/History.antt =====
-- What a pipe delivers over a history: the bytes come out in the order in which they went in, none
-- lost, none twice, whatever the readers and writers do and in whatever order they run.
mod Tests
use chaotix.Base.{
  ℕ, zero, suc, ◌+◌, ◌-◌, ◌*◌, ◌/◌, ◌%◌, ◌^◌, ◌≤◌, ◌<◌, min, max, ◌≡◌, refl, sym, ap, ap₂, ◌∙◌, ◌≢◌,
  ◌↔◌, ◌⊎◌, inl, inr, Bool, true, false, not, ◌&&◌, ◌||◌, Option, none, some, List, [], ◌∷◌, ◌++◌,
  map, append-nil, append_assoc, arith, add-one, ltb, leb, ◌==◌, if◌then◌else◌, ltb→lt, leb→le,
  ==_iff, ==_refl, Bool-cases, Option-cases, length, get_or, set, take, drop, replicate,
  length-append, length-set, get_or-set_self, get_or-set_ne, take-nil, drop-nil, length-take,
  length-drop, take_all, take-append-drop, length-replicate, take-min,
}
use chaotix.RingBuf.{RingBuf, is_empty, is_full, contents, IsValid, free_space}
use chaotix.Base.Outcome.{Errno, Outcome, ok, err, panic, asserting}
use chaotix.RingBuf
use chaotix.RingBuf.Transfer.{read-Took, write-Put}
use chaotix.RingBuf.Inv.{not_empty, not_full}
use chaotix.Fifo.{
  Fifo, Turn, again, returns, read_body, write_body, fifo_open, fifo_close, has_rdonly, has_wronly,
}

-- One atomic step that some process takes.
pub data Event : Type 0 where
  opens closes : ℕ → Event
  reads : ℕ → Event
  writes : Outcome (Unit {0}) → List ℕ → Event

-- The pipe, the bytes that its readers have received, and those that it has accepted.
pub record Trace : Type 0 where
  pub pipe : Fifo
  pub delivered : List ℕ
  pub accepted : List ℕ

abbrev after_open : Trace → Outcome Fifo → Trace
after_open t (ok p) = record t { pipe = p }
after_open t _ = t

abbrev after_read : Trace → Turn (List ℕ) → Trace
after_read t again = t
after_read t (returns bytes p) = record t { pipe = p; delivered = t.delivered ++ bytes }

-- A writer that is told `n` has had the first `n` of its bytes accepted.
abbrev after_write : Trace → List ℕ → Turn (Outcome ℕ) → Trace
after_write t src again = t
after_write t src (returns (ok n) p) = record t { pipe = p; accepted = t.accepted ++ take n src }
after_write t src (returns _ p) = record t { pipe = p }

pub step : Trace → Event → Trace
step t (opens flags) = after_open t (fifo_open t.pipe flags)
step t (closes flags) = after_open t (fifo_close t.pipe flags)
step t (reads count) = after_read t (read_body t.pipe count)
step t (writes sent src) = after_write t src (write_body sent t.pipe src)

pub run : Trace → List Event → Trace
run t [] = t
run t (e ∷ es) = run (step t e) es

pub record Intact (t : Trace) : Type 0 where
  pub valid : IsValid t.pipe.buf
  pub in_order : t.delivered ++ contents t.pipe.buf ≡ t.accepted

open-Intact : (t : Trace) (flags : ℕ) → Intact t → Intact (after_open t (fifo_open t.pipe flags))
unfolding fifo_open
open-Intact t flags i = elim (Bool-cases (has_rdonly flags && has_wronly flags)) [
  | inl both ↦ rw both i
  | inr one ↦ rw one (record { valid = i.valid; in_order = i.in_order })
]

close-Intact : (t : Trace) (flags : ℕ) → Intact t → Intact (after_open t (fifo_close t.pipe flags))
unfolding fifo_close
close-Intact t flags i = elim (Bool-cases (has_rdonly flags && has_wronly flags)) [
  | inl both ↦ rw both i
  | inr one ↦ rw one (record { valid = i.valid; in_order = i.in_order })
]

read-Intact : (t : Trace) (n : ℕ) → Intact t → Intact (after_read t (read_body t.pipe n))
unfolding read_body
read-Intact t n i = elim (Bool-cases (is_empty t.pipe.buf)) [
  | inl nothing ↦ rw nothing (elim (Bool-cases (t.pipe.num_writers == 0)) [
    | inl closed ↦
        rw closed (record { valid = i.valid; in_order = rw (append-nil t.delivered) i.in_order })
    | inr held ↦ rw held i
  ])
  | inr some_left ↦
      let r = read-Took t.pipe.buf n i.valid some_left in
      rw some_left (record {
        valid = r.valid;
        in_order =
            rw (r.rest, r.bytes, append_assoc, take-append-drop n (contents t.pipe.buf)) i.in_order;
      })
]

write-Intact :
    (t : Trace) (sent : Outcome (Unit {0})) (src : List ℕ)
    → Intact t
    → Intact (after_write t src (write_body sent t.pipe src))
unfolding write_body
write-Intact t sent src i = elim (Bool-cases (t.pipe.num_readers == 0)) [
  | inl broken ↦ rw broken (refused sent)
  | inr heard ↦ rw heard (elim (Bool-cases (is_full t.pipe.buf)) [
    | inl full ↦ rw full i
    | inr room ↦
        let r = write-Put t.pipe.buf src i.valid room in
        rw room (record {
          valid = r.valid;
          in_order =
              rw (r.bytes, r.count, take-min src (free_space t.pipe.buf), ← i.in_order)
                (sym (append_assoc t.delivered (contents t.pipe.buf) _));
        })
  ])
]
  where
    refused :
        (o : Outcome (Unit {0}))
        → Intact (
            after_write t src
              (returns (elim o [ ok _ ↦ err Errno.epipe | err e ↦ err e | panic ↦ panic ]) t.pipe))
    refused (ok _) = record { valid = i.valid; in_order = i.in_order }
    refused (err e) = record { valid = i.valid; in_order = i.in_order }
    refused panic = record { valid = i.valid; in_order = i.in_order }

step-Intact : (t : Trace) (e : Event) → Intact t → Intact (step t e)
unfolding step
step-Intact t (opens flags) i = open-Intact t flags i
step-Intact t (closes flags) i = close-Intact t flags i
step-Intact t (reads n) i = read-Intact t n i
step-Intact t (writes sent src) i = write-Intact t sent src i

-- Over any sequence of steps, by any number of readers and writers in any order, the bytes
-- delivered and then those still in the pipe are the bytes accepted, in their order.
pub run-Intact : (t : Trace) (es : List Event) → Intact t → Intact (run t es)
unfolding run
run-Intact t [] i = i
run-Intact t (e ∷ es) i = run-Intact (step t e) es (step-Intact t e i)
