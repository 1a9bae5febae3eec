-- ===== src/Wait.antt =====
-- internal/wait/wait.go. The goroutine of `Wait` sees events: what its `select` receives, with what
-- the session shows it at that time. Durations are whole numbers; the time that passes is not kept.
-- `regexp` comes in as the argument `compile`.
pub mod History
pub mod Laws
use headless_terminal.Base.{
  ℕ, Bool, true, false, not, ◌&&◌, ◌||◌, Option, none, some, List, [], ◌∷◌, Bytes, Result, ok, err,
  ◌>>=◌, ℤ, pos, negsuc, ◌==◌, if◌then◌else◌, bytes_eq, has_prefix, zero, suc,
}
use headless_terminal.Session.{Snapshot, SessionError}

-- Condition.
pub record Condition : Type 0 where
  pub idle : ℤ
  pub change : Bool
  pub text : Bytes
  pub regex : Bool
  pub cursor : Option (ℕ × ℕ)
  pub exit : Bool
  pub timeout : ℤ

pub data Trigger : Type 0 where
  by_exit by_text by_cursor by_idle by_change by_timeout no_trigger : Trigger

pub data WaitError : Type 0 where
  no_condition invalid_regex cancelled : WaitError
  view_failed : SessionError → WaitError

-- Result, without the time that passed.
pub record WaitResult : Type 0 where
  pub matched : Bool
  pub trigger : Trigger

abbrev pub is_zero : ℤ → Bool
is_zero (pos zero) = true
is_zero (pos (suc n)) = false
is_zero (negsuc n) = false

abbrev pub is_positive : ℤ → Bool
is_positive (pos zero) = false
is_positive (pos (suc n)) = true
is_positive (negsuc n) = false

abbrev pub is_some {ℓ} : {A : Type ℓ} → Option A → Bool
is_some none = false
is_some (some a) = true

abbrev pub is_nil {ℓ} : {A : Type ℓ} → List A → Bool
is_nil [] = true
is_nil (x ∷ xs) = false

-- strings.Contains.
unfoldable pub contains : Bytes → Bytes → Bool
contains [] p = has_prefix [] p
contains (x ∷ s) p = has_prefix (x ∷ s) p || contains s p

-- What the goroutine reads of the session at an event: whether it has exited, and its snapshot.
pub record Seen : Type 0 where
  pub exited : Bool
  pub snapshot : Result SessionError Snapshot

-- The cases of the `select`.
pub data Event : Type 0 where
  context_done timeout_fires channel_closes : Event
  idle_fires : Bool → Event
  done_closes : Seen → Event
  chunk_arrives : Seen → Event

-- The variables of the loop, and which channels the `select` still waits at.
pub record Loop : Type 0 where
  pub text_ok : Bool
  pub cursor_ok : Bool
  pub idle_fired : Bool
  pub change_seen : Bool
  pub timer_runs : Bool
  pub done_open : Bool
  pub channel_open : Bool

-- One round: go on, or return. An event that the `select` cannot choose is no round.
pub data Round : Type 0 where
  goes : Loop → Round
  returns : Result WaitError WaitResult → Round
  cannot_be : Round

-- pickTrigger.
unfoldable pub pick_trigger : Condition → Bool → Bool → Bool → Bool → Bool → Trigger
pick_trigger c text_ok cursor_ok exit_ok idle_fired change_seen =
    if c.exit && exit_ok
    then by_exit
    else if not (is_nil c.text) && text_ok
    then by_text
    else if is_some c.cursor && cursor_ok
    then by_cursor
    else if is_positive c.idle && idle_fired
    then by_idle
    else if c.change && change_seen
    then by_change
    else no_trigger

-- The first test of Wait.
unfoldable pub is_empty : Condition → Bool
is_empty c = is_zero c.idle && is_nil c.text && not (is_some c.cursor) && not c.exit && not c.change

-- checkExit.
abbrev pub check_exit : Condition → Bool → Bool
check_exit c exited = not c.exit || exited

abbrev check_position : Snapshot → Option (ℕ × ℕ) → Bool
check_position snap none = true
check_position snap (some (row, col)) = snap.cursor_row == row && snap.cursor_col == col

-- checkCursor.
abbrev pub check_cursor : Condition → Snapshot → Bool
check_cursor c snap = check_position snap c.cursor

-- The compiled pattern: none unless a regex is asked for.
unfoldable pub compile_text :
    (Bytes → Option (Bytes → Bool)) → Condition → Result WaitError (Option (Bytes → Bool))
compile_text compile c =
    if not (is_nil c.text) && c.regex
    then elim (compile c.text) [ none ↦ err invalid_regex | some re ↦ ok (some re) ]
    else ok none

abbrev pub search_text : Option (Bytes → Bool) → Bytes → Bytes → Bool
search_text (some re) text screen = re screen
search_text none text screen = contains screen text

-- needsSnapshot.
abbrev pub needs_snapshot : Condition → Bool
needs_snapshot c = not (is_nil c.text) || is_some c.cursor

module _ (c : Condition) (re : Option (Bytes → Bool)) where
  -- checkText.
  unfoldable pub check_text : Bytes → Bool
  check_text screen = if is_nil c.text then true else search_text re c.text screen

  -- evalSnapshot.
  unfoldable pub eval_snapshot : Result SessionError Snapshot → Result WaitError (Bool × Bool)
  eval_snapshot view =
      if needs_snapshot c
      then elim view [
        | err e ↦ err (view_failed e)
        | ok snap ↦ ok (check_text snap.screen, check_cursor c snap)
      ]
      else ok (true, true)

  -- allMet.
  unfoldable pub all_met : Loop → Bool → Bool
  all_met l exited =
      (l.text_ok && l.cursor_ok)
      && check_exit c exited
      && (not (is_positive c.idle) || l.idle_fired)
      && (not c.change || l.change_seen)

  -- `if allMet() { return … }`, where the switch passes `exit_ok` to pickTrigger.
  unfoldable pub return_if_met : Loop → Bool → Bool → Round
  return_if_met l exited exit_ok =
      if all_met l exited
      then returns (
          ok (record {
            matched = true;
            trigger = pick_trigger c l.text_ok l.cursor_ok exit_ok l.idle_fired l.change_seen;
          }))
      else goes l

  -- The evaluation of a new snapshot, and the test of all conditions.
  unfoldable pub look : Loop → Seen → Bool → Round
  look l seen exit_ok = elim (eval_snapshot seen.snapshot) [
    | err e ↦ returns (err e)
    | ok (text_ok, cursor_ok) ↦
        return_if_met (record l { text_ok = text_ok; cursor_ok = cursor_ok }) seen.exited exit_ok
  ]

  -- The loop after a chunk, the timer set anew.
  abbrev pub note_chunk : Loop → Loop
  note_chunk l = record l {
    change_seen = true;
    idle_fired = if is_positive c.idle then false else l.idle_fired;
    timer_runs = is_positive c.idle;
  }

  -- One round of the loop.
  unfoldable pub round : Loop → Event → Round
  round l context_done = returns (err cancelled)
  round l timeout_fires =
      if is_positive c.timeout
      then returns (ok (record { matched = false; trigger = by_timeout }))
      else cannot_be
  round l (idle_fires exited) =
      if l.timer_runs
      then return_if_met (record l { idle_fired = true; timer_runs = false }) exited
          (check_exit c exited)
      else cannot_be
  round l (done_closes seen) =
      if l.done_open then look (record l { done_open = false }) seen true else cannot_be
  round l channel_closes =
      if l.channel_open then goes (record l { channel_open = false }) else cannot_be
  round l (chunk_arrives seen) =
      if l.channel_open then look (note_chunk l) seen (check_exit c seen.exited) else cannot_be

  -- The check before the loop, and the state in which the loop begins.
  unfoldable pub first_look : Seen → Round
  first_look seen = elim (eval_snapshot seen.snapshot) [
    | err e ↦ returns (err e)
    | ok (text_ok, cursor_ok) ↦
        if is_zero c.idle && not c.change && (text_ok && cursor_ok) && check_exit c seen.exited
        then returns (
            ok (record {
              matched = true;
              trigger = pick_trigger c text_ok cursor_ok true false false;
            }))
        else goes (record {
          text_ok = text_ok;
          cursor_ok = cursor_ok;
          idle_fired = false;
          change_seen = false;
          timer_runs = is_positive c.idle;
          done_open = true;
          channel_open = true;
        })
  ]

  -- The loop over the events that come; none if it still waits.
  unfoldable pub run : Round → List Event → Option (Result WaitError WaitResult)
  run (returns r) es = some r
  run cannot_be es = none
  run (goes l) [] = none
  run (goes l) (e ∷ es) = run (round l e) es

-- Wait.
unfoldable pub wait :
    (Bytes → Option (Bytes → Bool))
    → Condition
    → Seen
    → List Event
    → Option (Result WaitError WaitResult)
wait compile c seen es =
    if is_empty c then some (err no_condition) else elim (compile_text compile c) [
      | err e ↦ some (err e)
      | ok re ↦ run c re (first_look c re seen) es
    ]
