-- ===== src/Process/Panics.antt =====
-- The signal numbers on which sending a signal panics.
use chaotix.Base.{
  ℕ, ◌<◌, ◌≡◌, refl, sym, ◌∙◌, ◌↔◌, Bool, true, false, Option, none, some, List, [], ◌∷◌, arith,
  leb, all_less, all_less-holds, same, same-true,
}
use chaotix.Base.Outcome.{ok, panic}
use chaotix.Base.Int.{pos}
use chaotix.Base.Bits.{set_bit}
use chaotix.Process.{Process}
use chaotix.Process.Signals.{
  is_one_of, nsig, Disposition, get_default_disposition_for_signal, post_signal,
  send_by_disposition, send_signal,
}

-- SIGSTOP, SIGTSTP, SIGTTIN, SIGTTOU and SIGCONT, and the number 0.
abbrev pub panicking_signals : List ℕ
panicking_signals = 0 ∷ 18 ∷ 19 ∷ 20 ∷ 21 ∷ 22 ∷ []

is_panicking : Option Disposition → Bool
is_panicking none = true
is_panicking (some Disposition.term) = false
is_panicking (some Disposition.ign) = false
is_panicking (some Disposition.core) = false
is_panicking (some Disposition.stop) = true
is_panicking (some Disposition.cont) = true

dispositions_agree :
    all_less 32 (λ k.
      same (is_panicking (get_default_disposition_for_signal k)) (is_one_of k panicking_signals))
    ≡ true
unfolding is_panicking get_default_disposition_for_signal
dispositions_agree = refl

disposition-panicking :
    (k : ℕ)
    → k < 32
    → is_panicking (get_default_disposition_for_signal k) ≡ is_one_of k panicking_signals
disposition-panicking k l =
    same-true (is_panicking (get_default_disposition_for_signal k)) (is_one_of k panicking_signals)
      (all_less-holds 32
        (λ n.
          same (is_panicking (get_default_disposition_for_signal n))
            (is_one_of n panicking_signals))
        dispositions_agree k l)

send_signal-disposition :
    (p : Process) (k : ℕ)
    → k < 32
    → (d : Option Disposition) → get_default_disposition_for_signal k ≡ d
    → (send_signal false p (pos k) ≡ panic) ↔ (is_panicking d ≡ true)
unfolding send_signal send_by_disposition post_signal is_panicking
send_signal-disposition p k l d e =
    let below32 : leb nsig k ≡ false = ground arith in go below32 d e
  where
    go :
        leb nsig k ≡ false
        → (d : Option Disposition) → get_default_disposition_for_signal k ≡ d
        → (send_signal false p (pos k) ≡ panic) ↔ (is_panicking d ≡ true)
    go z none e = (λ h. refl, λ h. simp (send_signal, z, send_by_disposition, e))
    go z (some Disposition.term) e =
        let r : send_signal false p (pos k)
            ≡ ok (record p { pending_signals = set_bit p.pending_signals k }) =
          simp (send_signal, z, send_by_disposition, e) in
        (λ h. absurd (cc), λ h. absurd (cc))
    go z (some Disposition.ign) e =
        let r : send_signal false p (pos k) ≡ ok p =
          simp (send_signal, z, send_by_disposition, e) in
        (λ h. absurd (cc), λ h. absurd (cc))
    go z (some Disposition.core) e =
        let r : send_signal false p (pos k)
            ≡ ok (record p { pending_signals = set_bit p.pending_signals k }) =
          simp (send_signal, z, send_by_disposition, e) in
        (λ h. absurd (cc), λ h. absurd (cc))
    go z (some Disposition.stop) e = (λ h. refl, λ h. simp (send_signal, z, send_by_disposition, e))
    go z (some Disposition.cont) e = (λ h. refl, λ h. simp (send_signal, z, send_by_disposition, e))

-- Of the signal numbers that the range check lets through, send_signal panics on 0, on the four stop
-- signals and on SIGCONT, and on no other, when the receiver is not the running process.
pub send_signal-panic :
    (p : Process) (k : ℕ)
    → k < 32
    → (send_signal false p (pos k) ≡ panic) ↔ (is_one_of k panicking_signals ≡ true)
send_signal-panic p k l =
    let e = disposition-panicking k l in
    let s = send_signal-disposition p k l (get_default_disposition_for_signal k) refl in
    (λ h. sym e ∙ s.0 h, λ h. s.1 (e ∙ h))
