-- ===== src/Wait/History.antt =====
-- The events that a wait has seen, and what the variables of its loop say of them.
use headless_terminal.Base.{
  ◌≡◌, ◌∙◌, Bool, true, false, not, ◌&&◌, ◌||◌, Option, List, [], ◌∷◌, Bytes, Result, ok, err,
  arith, inl, inr, Result-cases,
}
use headless_terminal.Session.{Snapshot, SessionError}
use headless_terminal.Wait.{
  Condition, WaitError, is_positive, Seen, Event, context_done, timeout_fires, channel_closes,
  idle_fires, done_closes, chunk_arrives, Loop, goes, check_exit, check_cursor, needs_snapshot,
  check_text, eval_snapshot, return_if_met, look, note_chunk, round, first_look,
}

-- The events so far, the newest first: what the session showed last.
abbrev pub last_seen : Seen → List Event → Seen
last_seen first [] = first
last_seen first (done_closes seen ∷ es) = seen
last_seen first (chunk_arrives seen ∷ es) = seen
last_seen first (idle_fires exited ∷ es) = last_seen first es
last_seen first (context_done ∷ es) = last_seen first es
last_seen first (timeout_fires ∷ es) = last_seen first es
last_seen first (channel_closes ∷ es) = last_seen first es

-- A chunk has arrived.
abbrev pub has_chunk : List Event → Bool
has_chunk [] = false
has_chunk (chunk_arrives seen ∷ es) = true
has_chunk (done_closes seen ∷ es) = has_chunk es
has_chunk (idle_fires exited ∷ es) = has_chunk es
has_chunk (context_done ∷ es) = has_chunk es
has_chunk (timeout_fires ∷ es) = has_chunk es
has_chunk (channel_closes ∷ es) = has_chunk es

-- The idle timer has fired, and no chunk has arrived since.
abbrev pub quiet : List Event → Bool
quiet [] = false
quiet (idle_fires exited ∷ es) = true
quiet (chunk_arrives seen ∷ es) = false
quiet (done_closes seen ∷ es) = quiet es
quiet (context_done ∷ es) = quiet es
quiet (timeout_fires ∷ es) = quiet es
quiet (channel_closes ∷ es) = quiet es

-- At the event the conditions are tested, and what it shows of the exit.
abbrev pub evaluates : Event → Bool
evaluates (idle_fires exited) = true
evaluates (done_closes seen) = true
evaluates (chunk_arrives seen) = true
evaluates context_done = false
evaluates timeout_fires = false
evaluates channel_closes = false

abbrev pub shows_exit : Event → Bool
shows_exit (idle_fires exited) = exited
shows_exit (done_closes seen) = seen.exited
shows_exit (chunk_arrives seen) = seen.exited
shows_exit context_done = false
shows_exit timeout_fires = false
shows_exit channel_closes = false

module _ (c : Condition) (re : Option (Bytes → Bool)) where
  -- The snapshot has the text and the cursor that are asked for.
  abbrev pub fits : Result SessionError Snapshot → Bool
  fits (err e) = not (needs_snapshot c)
  fits (ok snap) = check_text c re snap.screen && check_cursor c snap

  -- All conditions hold at once: those of the screen in the last snapshot, the exit now, a full
  -- quiet time since the last chunk, and a chunk since the beginning.
  abbrev pub satisfied : Seen → Event → List Event → Bool
  satisfied first e es =
      fits (last_seen first (e ∷ es)).snapshot
      && check_exit c (shows_exit e)
      && (not (is_positive c.idle) || quiet (e ∷ es))
      && (not c.change || has_chunk (e ∷ es))

  -- The events `es` have brought the loop to the state `l`.
  pub data Runs (first : Seen) : List Event → Loop → Type 0 where
    runs_start : {l : Loop} → first_look c re first ≡ goes l → Runs first [] l
    runs_next :
        {es : List Event} {l l' : Loop} (e : Event)
        → Runs first es l
        → round c re l e ≡ goes l'
        → Runs first (e ∷ es) l'

  -- What the variables of the loop say of the events.
  pub record Knows (first : Seen) (es : List Event) (l : Loop) : Type 0 where
    pub view : eval_snapshot c re (last_seen first es).snapshot ≡ ok (l.text_ok, l.cursor_ok)
    pub change : l.change_seen ≡ has_chunk es
    pub idle : is_positive c.idle ≡ true → l.idle_fired ≡ quiet es

  look-goes :
      (l : Loop) (seen : Seen) (x : Bool) {l' : Loop}
      → look c re l seen x ≡ goes l'
      → (eval_snapshot c re seen.snapshot ≡ ok (l'.text_ok, l'.cursor_ok))
        × (l'.change_seen ≡ l.change_seen)
        × (l'.idle_fired ≡ l.idle_fired)
  unfolding look return_if_met
  look-goes l seen x {l'} e = elim (Result-cases (eval_snapshot c re seen.snapshot)) [
    | inr (w, q) ↦ (ground arith, ground arith, ground arith)
    | inl ((t, k), q) ↦ (ground arith, ground arith, ground arith)
  ]

  first_look-goes :
      (seen : Seen) {l : Loop}
      → first_look c re seen ≡ goes l
      → (eval_snapshot c re seen.snapshot ≡ ok (l.text_ok, l.cursor_ok))
        × (l.change_seen ≡ false)
        × (l.idle_fired ≡ false)
  unfolding first_look
  first_look-goes seen {l} e = elim (Result-cases (eval_snapshot c re seen.snapshot)) [
    | inr (w, q) ↦ (ground arith, ground arith, ground arith)
    | inl ((t, k), q) ↦ (ground arith, ground arith, ground arith)
  ]

  return_if_met-goes :
      (l : Loop) (x y : Bool) {l' : Loop} → return_if_met c re l x y ≡ goes l' → l' ≡ l
  unfolding return_if_met
  return_if_met-goes l x y e = ground arith

  round-Knows :
      (first : Seen) (es : List Event) (e : Event) (l : Loop) {l' : Loop}
      → Knows first es l
      → round c re l e ≡ goes l'
      → Knows first (e ∷ es) l'
  unfolding round
  round-Knows first es context_done l k p = cc
  round-Knows first es timeout_fires l k p = absurd (ground arith)
  round-Knows first es channel_closes l {l'} k p = record {
    view = ground (arith, k.view);
    change = ground (arith, k.change);
    idle = ground (arith, k.idle);
  }
  round-Knows first es (idle_fires exited) l {l'} k p =
      let after = record l { idle_fired = true; timer_runs = false } in
      let went : return_if_met c re after exited (check_exit c exited) ≡ goes l' = ground arith in
      let same : l' ≡ after = return_if_met-goes after exited (check_exit c exited) went in
      record {
        view = ground (arith, k.view);
        change = ground (arith, k.change);
        idle = λ h. ground arith;
      }
  round-Knows first es (done_closes seen) l {l'} k p =
      let after = record l { done_open = false } in
      let went : look c re after seen true ≡ goes l' = ground arith in
      let (v, ch, i) = look-goes after seen true went in
      record { view = v; change = ch ∙ k.change; idle = λ h. i ∙ k.idle h }
  round-Knows first es (chunk_arrives seen) l {l'} k p =
      let went : look c re (note_chunk c re l) seen (check_exit c seen.exited) ≡ goes l' =
        ground arith in
      let (v, ch, i) = look-goes (note_chunk c re l) seen (check_exit c seen.exited) went in
      record { view = v; change = ch; idle = λ h. i ∙ rw h }

  pub Runs-Knows : {first : Seen} {es : List Event} {l : Loop} → Runs first es l → Knows first es l
  Runs-Knows {first} (runs_start e) =
      let (v, ch, i) = first_look-goes first e in record { view = v; change = ch; idle = λ h. i }
  Runs-Knows {first} (runs_next {es} {l} e r p) = round-Knows first es e l (Runs-Knows r) p

  pub fits-ok :
      (view : Result SessionError Snapshot) {t k : Bool}
      → eval_snapshot c re view ≡ ok (t, k)
      → fits view ≡ (t && k)
  unfolding eval_snapshot check_text
  fits-ok (err e) h = ground arith
  fits-ok (ok snap) h = ground arith

  pub fits-err :
      (view : Result SessionError Snapshot) {e : WaitError}
      → eval_snapshot c re view ≡ err e
      → fits view ≡ false
  unfolding eval_snapshot
  fits-err (err e) h = ground arith
  fits-err (ok snap) h = ground arith
