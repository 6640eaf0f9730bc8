-- ===== src/Process/Delivery.antt =====
-- What sending and handling signals comes to.
use chaotix.Base.{
  ℕ, zero, suc, ◌%◌, ◌≤◌, ◌<◌, ◌≡◌, refl, sym, ap, ◌∙◌, ◌≢◌, ◌⊎◌, inl, inr, true, false, some,
  arith, ltb, leb, ◌==◌, ltb→lt, ==_iff, ==_refl, Bool-cases, Option-cases,
}
use chaotix.Base.Outcome.{ok, ◌>>=◌}
use chaotix.Base.Int.{pos}
use chaotix.Base.Bits.{
  test_bit, set_bit, clear_bit, lowest_bit, test_bit-set_bit, test_bit-clear_bit, clear_bit-lt,
  lowest_bit-set, lowest_bit-least, lowest_bit-none, test_bit-zero,
}
use mathlib.Core.Path.{subst}
use chaotix.Process.{Process, State}
use chaotix.Process.Signals.{
  nsig, Disposition, get_default_disposition_for_signal, deliver, take_off, handle_signals,
  process_handle_pending_signals, post_signal, send_by_disposition, send_signal,
  terminate_with_signal,
}

-- Signals whose default is to terminate the process, with or without a core.
abbrev pub IsFatal : ℕ → Type 0
IsFatal k =
    (get_default_disposition_for_signal k ≡ some Disposition.term)
    ⊎ (get_default_disposition_for_signal k ≡ some Disposition.core)

-- Only such signals are pending.
abbrev pub OnlyFatal : ℕ → Type 0
OnlyFatal w = (k : ℕ) → test_bit w k ≡ true → IsFatal k

deliver-fatal : (p : Process) (k : ℕ) → IsFatal k → deliver p k ≡ ok (terminate_with_signal p k)
unfolding deliver
deliver-fatal p k (inl e) = cc
deliver-fatal p k (inr e) = cc

-- The process after the loop: nothing is pending, and if something was, the process is dying of the
-- highest signal that was.
pub record Handled (p q : Process) : Type 0 where
  pub none_pending : (j : ℕ) → j < 32 → test_bit q.pending_signals j ≡ false
  pub cause :
      ((q ≡ p) × ((j : ℕ) → j < 32 → test_bit p.pending_signals j ≡ false))
      ⊎ ((k : ℕ) × (test_bit p.pending_signals k ≡ true)
          × (q.state ≡ State.dying)
          × (q.exit_status ≡ k % 256)
          × ((j : ℕ) → k < j → j < 32 → test_bit p.pending_signals j ≡ false))

bit-clear_bit : (w k j : ℕ) → test_bit (clear_bit w k) j ≡ true → (test_bit w j ≡ true) × (j ≢ k)
bit-clear_bit w k j b = elim (Bool-cases (k == j)) [
  | inl e ↦
      let h : test_bit (clear_bit w k) j ≡ false = test_bit-clear_bit w k j ∙ simp e in absurd (cc)
  | inr n ↦
      let h : test_bit (clear_bit w k) j ≡ test_bit w j = test_bit-clear_bit w k j ∙ simp n in
      (sym h ∙ b, ground arith)
]

no_bit-clear_bit : (w k j : ℕ) → test_bit (clear_bit w k) j ≡ false → j ≢ k → test_bit w j ≡ false
no_bit-clear_bit w k j b d =
    let n : (k == j) ≡ false = ground arith in
    let h : test_bit (clear_bit w k) j ≡ test_bit w j = test_bit-clear_bit w k j ∙ simp n in
    sym h ∙ b

Handled-terminate :
    (p q : Process) (k : ℕ)
    → lowest_bit 32 p.pending_signals ≡ some k
    → Handled (terminate_with_signal (take_off p k) k) q
    → Handled p q
unfolding terminate_with_signal
Handled-terminate p q k low h =
    let w : ℕ = p.pending_signals in
    let b = lowest_bit-set 32 w k low in
    record {
      none_pending = h.none_pending;
      cause = inr (elim h.cause [
        | inl (e, none_left) ↦ (
          k,
          b.0,
          ap (λ r. r.state) e,
          ap (λ r. r.exit_status) e,
          λ j l m. no_bit-clear_bit w k j (none_left j m) (omega arith),
        )
        | inr (i, c, dead, status, highest) ↦
            let d = bit-clear_bit w k i c in
            (
              i,
              d.0,
              dead,
              status,
              λ j l m. no_bit-clear_bit w k j (highest j l m) (elim (Bool-cases (ltb i k)) [
                | inl below ↦
                    absurd (let z = lowest_bit-least 32 w k i low (ltb→lt i k below) in cc)
                | inr above ↦ ground arith
              ]),
            )
      ]);
    }

terminate-pending :
    (p : Process) (k : ℕ)
    → (terminate_with_signal (take_off p k) k).pending_signals ≡ clear_bit p.pending_signals k
unfolding terminate_with_signal
terminate-pending p k = refl

handle_signals-Handled :
    (fuel : ℕ) (p : Process)
    → p.pending_signals ≤ fuel
    → OnlyFatal p.pending_signals
    → (q : Process) × (handle_signals fuel p ≡ ok q) × Handled p q
unfolding handle_signals
handle_signals-Handled zero p l f =
    let e : p.pending_signals ≡ 0 = omega arith in
    let z : (j : ℕ) → j < 32 → test_bit p.pending_signals j ≡ false =
      λ j m. ap (λ w. test_bit w j) e ∙ test_bit-zero j in
    (p, refl, record { none_pending = z; cause = inl (refl, z) })
handle_signals-Handled (suc fuel) p l f = elim (Option-cases (lowest_bit 32 p.pending_signals)) [
  | inl e ↦
      let z : (j : ℕ) → j < 32 → test_bit p.pending_signals j ≡ false =
        λ j m. lowest_bit-none 32 p.pending_signals j e m in
      (p, simp (handle_signals, e), record { none_pending = z; cause = inl (refl, z) })
  | inr (k, e) ↦
      let b = lowest_bit-set 32 p.pending_signals k e in
      let lt : clear_bit p.pending_signals k < p.pending_signals =
        clear_bit-lt p.pending_signals k b.0 in
      let d = deliver-fatal (take_off p k) k (f k b.0) in
      let q : Process = terminate_with_signal (take_off p k) k in
      let left : q.pending_signals ≡ clear_bit p.pending_signals k = terminate-pending p k in
      let r = handle_signals-Handled fuel q (omega arith) (λ j c.
        f j ((bit-clear_bit p.pending_signals k j (ap (λ w. test_bit w j) (sym left) ∙ c)).0)) in
      (r.0, simp (handle_signals, e, d) (r.1), Handled-terminate p (r.0) k e (r.2))
]

-- A process with only fatal signals pending (by default they terminate it) handles them all and
-- without a panic: afterwards no signal below 32 is pending, and either none was
-- and the process is as before, or the process is dying and its exit status is the highest signal
-- that was pending.
pub process_handle_pending_signals-Handled :
    (p : Process)
    → OnlyFatal p.pending_signals
    → (q : Process) × (process_handle_pending_signals p ≡ ok q) × Handled p q
unfolding process_handle_pending_signals
process_handle_pending_signals-Handled p = handle_signals-Handled p.pending_signals p (omega arith)

set_bit-OnlyFatal : (w k : ℕ) → OnlyFatal w → IsFatal k → OnlyFatal (set_bit w k)
set_bit-OnlyFatal w k f fatal j b = elim (Bool-cases (k == j)) [
  | inl e ↦ subst IsFatal ((==_iff k j).0 e) fatal
  | inr n ↦
      let h : test_bit (set_bit w k) j ≡ test_bit w j = test_bit-set_bit w k j ∙ simp n in
      f j (sym h ∙ b)
]

send_signal-fatal :
    (p : Process) (k : ℕ)
    → k < 32
    → IsFatal k
    → send_signal false p (pos k) ≡ ok (record p { pending_signals = set_bit p.pending_signals k })
unfolding send_signal send_by_disposition post_signal
send_signal-fatal p k l fatal =
    let below32 : leb nsig k ≡ false = ground arith in
    elim fatal [
      | inl e ↦ simp (send_signal, below32, send_by_disposition, e)
      | inr e ↦ simp (send_signal, below32, send_by_disposition, e)
    ]

-- Sending a process a fatal signal (numbered below 32) kills it: if it is not the running process and
-- only fatal signals were pending, then once it next handles its signals it is dying.
pub process_handle_pending_signals-send_signal :
    (p : Process) (k : ℕ)
    → k < 32
    → IsFatal k
    → OnlyFatal p.pending_signals
    → (q : Process) × ((send_signal false p (pos k) >>= process_handle_pending_signals) ≡ ok q)
      × (q.state ≡ State.dying)
process_handle_pending_signals-send_signal p k l fatal f =
    let sent : Process = record p { pending_signals = set_bit p.pending_signals k } in
    let s = send_signal-fatal p k l fatal in
    let r =
      process_handle_pending_signals-Handled sent (set_bit-OnlyFatal p.pending_signals k f fatal) in
    (
      r.0,
      ap (λ o. o >>= process_handle_pending_signals) s ∙ r.1,
      elim r.2.cause [
        | inl (e, z) ↦
            let b : test_bit (set_bit p.pending_signals k) k ≡ true =
              test_bit-set_bit p.pending_signals k k ∙ simp (==_refl k) in
            let c = z k l in absurd (cc)
        | inr (i, c, dead, status, highest) ↦ dead
      ],
    )
