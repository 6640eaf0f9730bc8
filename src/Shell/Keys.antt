-- ===== src/Shell/Keys.antt =====
-- Every character has the effect of its key.
use chaotix.Base.{
  ℕ, ◌+◌, ◌<◌, ◌≡◌, refl, ap, ◌∙◌, ◌≢◌, inl, inr, Bool, true, false, ◌||◌, Option, none, some,
  arith, ◌==◌, if◌then◌else◌, Bool-cases, set, length-set,
}
use chaotix.Stdlib.{atoi}
use chaotix.Shell.Editor.{
  LineEditor, Mode, buf_size, isprint, is_param, handle_ground, handle_state_esc, handle_csi_vt,
  run_csi, to_ground, handle_state_csi, on_char,
}
use chaotix.Shell.Buffer.{store-set}
use chaotix.Shell.Line.{Line, Key, edit, line_of, ground_key, vt_key, csi_key, key_of, IsValid}
use chaotix.Shell.Edits.{Does, insert_char-Does, backspace-Does, on_delete-Does}
use chaotix.Shell.Moves.{
  on_home-Does, on_end-Does, on_right-Does, on_left-Does, clear_line-Does, end_of_file-Does,
}

branch :
    (l : Line) (b : Bool) (h h' : Option LineEditor) (k k' : Key)
    → Does l h k
    → Does l h' k'
    → Does l (if b then h else h') (if b then k else k')
branch l true h h' k k' d d' = d
branch l false h h' k k' d d' = d'

-- The same, where the key does not depend on the test.
either_way :
    (l : Line) (b : Bool) (h h' : Option LineEditor) (k : Key)
    → Does l h k
    → Does l h' k
    → Does l (if b then h else h') k
either_way l true h h' k d d' = d
either_way l false h h' k d d' = d'

stays : (ed : LineEditor) → IsValid ed → Does (line_of ed) (some ed) Key.stay
unfolding edit
stays ed v = (ed, refl, v, refl)

-- The mode, the flag and the parameters do not show in the line.
shown :
    (ed : LineEditor) (m : Mode) (d : Bool) (n : ℕ)
    → IsValid ed
    → IsValid (record ed { mode = m; dirty = d; param_len = n })
shown ed m d n v = record { buf = v.buf; cursor = v.cursor; len = v.len; params = v.params }

pub handle_ground-Does :
    (ed : LineEditor) (c : ℕ)
    → IsValid ed
    → ed.input_len < buf_size
    → Does (line_of ed) (handle_ground ed c) (ground_key c)
unfolding handle_ground ground_key edit
handle_ground-Does ed c v room =
    let l = line_of ed in
    branch l (isprint c) _ _ _ _ (insert_char-Does ed c v room) (
      branch l (c == 0x1b) _ _ _ _
        (record ed { mode = Mode.esc }, refl, shown ed Mode.esc ed.dirty ed.param_len v, refl)
        (branch l (c == 13 || c == 10) _ _ _ _
          (
            record ed { mode = Mode.accepted },
            refl,
            shown ed Mode.accepted ed.dirty ed.param_len v,
            refl,
          )
          (branch l (c == 8 || c == 0x7f) _ _ _ _ (backspace-Does ed v) (
            branch l (c == 21) _ _ _ _ (clear_line-Does ed v) (
              either_way l (c == 4) _ _ Key.stay (end_of_file-Does ed v) (
                either_way l (c == 12) _ _ Key.stay
                  (record ed { dirty = true }, refl, shown ed ed.mode true ed.param_len v, refl)
                  (stays ed v)))))))

handle_state_esc-Does :
    (ed : LineEditor) (c : ℕ)
    → IsValid ed
    → ed.input_len < buf_size
    → Does (line_of ed) (handle_state_esc ed c) (if c == 0x5b then Key.stay else ground_key c)
unfolding handle_state_esc edit
handle_state_esc-Does ed c v room =
    branch (line_of ed) (c == 0x5b) _ _ _ _
      (record ed { param_len = 0; mode = Mode.csi }, refl, shown ed Mode.csi ed.dirty 0 v, refl)
      (handle_ground-Does (record ed { mode = Mode.ground }) c
        (shown ed Mode.ground ed.dirty ed.param_len v) room)

handle_csi_vt-Does :
    (ed : LineEditor)
    → IsValid ed
    → Does (line_of ed) (handle_csi_vt ed) (vt_key (atoi ed.param_buf))
unfolding handle_csi_vt vt_key
handle_csi_vt-Does ed v =
    let l = line_of ed in
    let code = atoi ed.param_buf in
    branch l (code == 1 || code == 7) _ _ _ _ (on_home-Does ed v) (
      branch l (code == 4 || code == 8) _ _ _ _ (on_end-Does ed v)
        (branch l (code == 3) _ _ _ _ (on_delete-Does ed v) (stays ed v)))

run_csi-Does :
    (ed : LineEditor) (c : ℕ)
    → IsValid ed
    → Does (line_of ed) (run_csi ed c) (csi_key ed.param_buf c)
unfolding run_csi csi_key
run_csi-Does ed c v =
    let l = line_of ed in
    branch l (c == 0x43) _ _ _ _ (on_right-Does ed v) (
      branch l (c == 0x44) _ _ _ _ (on_left-Does ed v) (
        branch l (c == 0x48) _ _ _ _ (on_home-Does ed v) (
          branch l (c == 0x46) _ _ _ _ (on_end-Does ed v)
            (branch l (c == 0x7e) _ _ _ _ (handle_csi_vt-Does ed v) (stays ed v)))))

to_ground-Does :
    (l : Line) (k : Key) (h : Option LineEditor)
    → Does l h k
    → Does l (elim h [ none ↦ none | some r ↦ some (to_ground r) ]) k
to_ground-Does l k h d = (
  to_ground d.0,
  ap (λ o. elim o [ none ↦ none | some r ↦ some (to_ground r) ]) d.1,
  shown d.0 Mode.ground d.0.dirty d.0.param_len d.2,
  d.3,
)

handle_state_csi-Does :
    (ed : LineEditor) (c : ℕ)
    → IsValid ed
    → ed.param_len < buf_size
    → Does
        (line_of ed)
        (handle_state_csi ed c)
        (if is_param c then Key.stay else csi_key (set ed.param_buf ed.param_len 0) c)
unfolding handle_state_csi edit
handle_state_csi-Does ed c v room = elim (Bool-cases (is_param c)) [
  | inl t ↦
      let params = set ed.param_buf ed.param_len c in
      let s = store-set ed.param_buf ed.param_len c (omega (arith, v.params)) in
      simp t (
        record ed { param_buf = params; param_len = ed.param_len + 1 },
        simp (handle_state_csi, t, s),
        record {
          buf = v.buf;
          cursor = v.cursor;
          len = v.len;
          params = length-set ed.param_buf ed.param_len c ∙ v.params;
        },
        refl,
      )
  | inr t ↦
      let params = set ed.param_buf ed.param_len 0 in
      let s = store-set ed.param_buf ed.param_len 0 (omega (arith, v.params)) in
      let e : LineEditor = record ed { param_buf = params } in
      let w : IsValid e = record {
        buf = v.buf;
        cursor = v.cursor;
        len = v.len;
        params = length-set ed.param_buf ed.param_len 0 ∙ v.params;
      } in
      let d = to_ground-Does (line_of ed) (csi_key params c) (run_csi e c) (run_csi-Does e c w) in
      simp t (d.0, simp (handle_state_csi, t, s) d.1, d.2, d.3)
]

-- A valid editor that still waits for its line and has room left in both buffers takes any character:
-- it stays valid, writes inside its buffers only, and the text before and behind the cursor changes
-- just as the key that the character completes says (a character inserted, the one before or at the
-- cursor removed, the cursor moved by one or to an end, the line cleared) or not at all.
pub on_char-edit :
    (ed : LineEditor) (c : ℕ)
    → IsValid ed
    → ed.mode ≢ Mode.accepted
    → ed.input_len < buf_size
    → ed.param_len < buf_size
    → (e : LineEditor) × (on_char ed c ≡ some e)
      × IsValid e
      × (line_of e ≡ edit (key_of ed c) (line_of ed))
unfolding on_char key_of
on_char-edit ed c v waiting room params = go ed.mode refl
  where
    go :
        (m : Mode)
        → ed.mode ≡ m
        → Does
            (line_of ed)
            (elim m [
              | Mode.ground ↦ handle_ground ed c
              | Mode.esc ↦ handle_state_esc ed c
              | Mode.csi ↦ handle_state_csi ed c
              | Mode.accepted ↦ none
            ])
            (elim m [
              | Mode.ground ↦ ground_key c
              | Mode.esc ↦ if c == 0x5b then Key.stay else ground_key c
              | Mode.csi ↦
                  if is_param c then Key.stay else csi_key (set ed.param_buf ed.param_len 0) c
              | Mode.accepted ↦ Key.stay
            ])
    go Mode.ground e = handle_ground-Does ed c v room
    go Mode.esc e = handle_state_esc-Does ed c v room
    go Mode.csi e = handle_state_csi-Does ed c v params
    go Mode.accepted e = absurd (waiting e)
