-- ===== src/Wait/Laws.antt =====
-- When `Wait` reports a match, told by what has happened since it began, and what its result names.
use headless_terminal.Base.{
  ◌≡◌, ◌≢◌, refl, sym, ap, ◌∙◌, Bool, true, false, not, ◌&&◌, ◌||◌, Option, List, Bytes, Result, ok,
  err, arith, if_true, Bool-cases, inl, inr, Result-cases,
}
use headless_terminal.Session.{Snapshot, SessionError}
use headless_terminal.Wait.{
  Condition, Trigger, by_exit, by_text, by_cursor, by_idle, by_change, by_timeout, no_trigger,
  WaitResult, is_zero, is_positive, is_some, is_nil, Seen, Event, context_done, timeout_fires,
  channel_closes, idle_fires, done_closes, chunk_arrives, Loop, Round, goes, returns, cannot_be,
  pick_trigger, is_empty, check_exit, eval_snapshot, all_met, return_if_met, look, note_chunk,
  round, first_look,
}
use headless_terminal.Wait.History.{
  last_seen, has_chunk, quiet, evaluates, fits, satisfied, Runs, Knows, Runs-Knows, fits-ok,
  fits-err,
}

-- The round reports a match.
abbrev pub matches : Round → Bool
matches (returns (ok r)) = r.matched
matches (returns (err e)) = false
matches (goes l) = false
matches cannot_be = false

idle_part : (b fired q : Bool) → (b ≡ true → fired ≡ q) → (not b || fired) ≡ (not b || q)
idle_part true fired q h = h refl
idle_part false fired q h = refl

module _ (c : Condition) (re : Option (Bytes → Bool)) where
  matches-return_if_met :
      (l : Loop) (x y : Bool) → matches (return_if_met c re l x y) ≡ all_met c re l x
  unfolding return_if_met
  matches-return_if_met l x y = ground arith

  -- The four conditions, from what is known of each.
  abbrev four : Result SessionError Snapshot → Bool → Bool → Bool → Bool
  four view x q ch =
      fits c re view && check_exit c x && (not (is_positive c.idle) || q) && (not c.change || ch)

  all_met-four :
      (l : Loop) (view : Result SessionError Snapshot) (x q ch : Bool)
      → eval_snapshot c re view ≡ ok (l.text_ok, l.cursor_ok)
      → l.change_seen ≡ ch
      → (is_positive c.idle ≡ true → l.idle_fired ≡ q)
      → all_met c re l x ≡ four view x q ch
  unfolding all_met
  all_met-four l view x q ch v h i =
      rw (fits-ok c re view v, h)
        (ap
          (λ (b : Bool). (l.text_ok && l.cursor_ok) && check_exit c x && b && (not c.change || ch))
          (idle_part (is_positive c.idle) l.idle_fired q i))

  matches-look :
      (l : Loop) (seen : Seen) (y q ch : Bool)
      → l.change_seen ≡ ch
      → (is_positive c.idle ≡ true → l.idle_fired ≡ q)
      → matches (look c re l seen y) ≡ four seen.snapshot seen.exited q ch
  unfolding look
  matches-look l seen y q ch h i = elim (Result-cases (eval_snapshot c re seen.snapshot)) [
    | inr (w, p) ↦
        rw (p, look, matches)
          (sym (
            ap
              (λ (b : Bool).
                b
                && check_exit c seen.exited
                && (not (is_positive c.idle) || q)
                && (not c.change || ch))
              (fits-err c re seen.snapshot p)))
    | inl ((t, k), p) ↦
        let after = record l { text_ok = t; cursor_ok = k } in
        rw (p, look, matches)
          (matches-return_if_met after seen.exited y
            ∙ all_met-four after seen.snapshot seen.exited q ch p h i)
  ]

  matches-round :
      (first : Seen) (es : List Event) (e : Event) (l : Loop)
      → Knows c re first es l
      → round c re l e ≢ cannot_be
      → matches (round c re l e) ≡ (evaluates e && satisfied c re first e es)
  unfolding round
  matches-round first es context_done l k n = refl
  matches-round first es timeout_fires l k n = ground arith
  matches-round first es channel_closes l k n = ground arith
  matches-round first es (idle_fires exited) l k n = elim (Bool-cases l.timer_runs) [
    | inr stopped ↦ absurd (n (rw stopped))
    | inl runs ↦
        let after = record l { idle_fired = true; timer_runs = false } in
        ap matches (if_true _ cannot_be runs)
        ∙ (matches-return_if_met after exited (check_exit c exited)
            ∙ all_met-four after (last_seen first es).snapshot exited true (has_chunk es) k.view
                k.change (λ h. refl))
  ]
  matches-round first es (done_closes seen) l k n = elim (Bool-cases l.done_open) [
    | inr closed ↦ absurd (n (rw closed))
    | inl open_ ↦
        ap matches (if_true _ cannot_be open_)
        ∙ (matches-look (record l { done_open = false }) seen true (quiet es) (has_chunk es)
            k.change k.idle)
  ]
  matches-round first es (chunk_arrives seen) l k n = elim (Bool-cases l.channel_open) [
    | inr closed ↦ absurd (n (rw closed))
    | inl open_ ↦
        ap matches (if_true _ cannot_be open_)
        ∙ (matches-look (note_chunk c re l) seen (check_exit c seen.exited) false true refl
            (λ h. rw h))
  ]

-- A round of the loop reports a match exactly if it tests the conditions and all of them hold at
-- once: the text and the cursor in the snapshot taken last, the exit now, the idle time since the
-- last chunk, a chunk since Wait began. None is missed, and none is reported on stale evidence.
pub round-satisfied :
    (c : Condition) (re : Option (Bytes → Bool)) (first : Seen) {es : List Event} {l : Loop}
    (e : Event)
    → Runs c re first es l
    → round c re l e ≢ cannot_be
    → matches (round c re l e) ≡ (evaluates e && satisfied c re first e es)
round-satisfied c re first {es} {l} e r n = matches-round c re first es e l (Runs-Knows c re r) n

-- Before the loop, a match is reported exactly if neither an idle time nor a change is asked for
-- and the session already shows the text, the cursor and the exit that are.
pub first_look-matches :
    (c : Condition) (re : Option (Bytes → Bool)) (seen : Seen)
    → matches (first_look c re seen)
      ≡ (is_zero c.idle && not c.change && fits c re seen.snapshot && check_exit c seen.exited)
unfolding first_look
first_look-matches c re seen = elim (Result-cases (eval_snapshot c re seen.snapshot)) [
  | inr (w, q) ↦ ground (arith, fits-err c re seen.snapshot q)
  | inl ((t, k), q) ↦ ground (arith, fits-ok c re seen.snapshot q)
]

-- A condition of this kind is asked for.
abbrev pub asked : Condition → Trigger → Bool
asked c by_exit = c.exit
asked c by_text = not (is_nil c.text)
asked c by_cursor = is_some c.cursor
asked c by_idle = is_positive c.idle
asked c by_change = c.change
asked c by_timeout = is_positive c.timeout
asked c no_trigger = false

return_if_met-asked :
    (c : Condition) (re : Option (Bytes → Bool)) (l : Loop) (x y : Bool) {r : WaitResult}
    → is_empty c ≡ false
    → (is_zero c.idle || is_positive c.idle) ≡ true
    → (check_exit c x ≡ true → check_exit c y ≡ true)
    → return_if_met c re l x y ≡ returns (ok r)
    → asked c r.trigger ≡ true
unfolding return_if_met all_met pick_trigger is_empty
return_if_met-asked c re l x y {r} h i z e = ground arith

look-asked :
    (c : Condition) (re : Option (Bytes → Bool)) (l : Loop) (seen : Seen) (y : Bool)
    {r : WaitResult}
    → is_empty c ≡ false
    → (is_zero c.idle || is_positive c.idle) ≡ true
    → (check_exit c seen.exited ≡ true → check_exit c y ≡ true)
    → look c re l seen y ≡ returns (ok r)
    → asked c r.trigger ≡ true
unfolding look
look-asked c re l seen y {r} h i z e = elim (Result-cases (eval_snapshot c re seen.snapshot)) [
  | inr (w, q) ↦ absurd (ground arith)
  | inl ((t, k), q) ↦
      let after = record l { text_ok = t; cursor_ok = k } in
      let met : return_if_met c re after seen.exited y ≡ returns (ok r) = ground arith in
      return_if_met-asked c re after seen.exited y h i z met
]

-- The trigger of a result names a condition that was asked for, or the timeout if there is one,
-- where some condition is asked for and the idle time is not negative.
pub round-asked :
    (c : Condition) (re : Option (Bytes → Bool)) (l : Loop) (e : Event) {r : WaitResult}
    → is_empty c ≡ false
    → (is_zero c.idle || is_positive c.idle) ≡ true
    → round c re l e ≡ returns (ok r)
    → asked c r.trigger ≡ true
unfolding round
round-asked c re l context_done h i e = absurd (ground arith)
round-asked c re l timeout_fires h i e = ground arith
round-asked c re l channel_closes h i e = absurd (ground arith)
round-asked c re l (idle_fires exited) {r} h i e =
    let after = record l { idle_fired = true; timer_runs = false } in
    let met : return_if_met c re after exited (check_exit c exited) ≡ returns (ok r) =
      ground arith in
    return_if_met-asked c re after exited (check_exit c exited) h i (λ z. ground arith) met
round-asked c re l (done_closes seen) {r} h i e =
    let met : look c re (record l { done_open = false }) seen true ≡ returns (ok r) =
      ground arith in
    look-asked c re _ seen true h i (λ z. ground arith) met
round-asked c re l (chunk_arrives seen) {r} h i e =
    let met : look c re (note_chunk c re l) seen (check_exit c seen.exited) ≡ returns (ok r) =
      ground arith in
    look-asked c re _ seen (check_exit c seen.exited) h i (λ z. ground arith) met
