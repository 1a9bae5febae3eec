-- ===== src/Cli/Watching/Signals.antt =====
-- cmd/ht/watch.go: the two goroutines of cmdWatch, behind newClient. The one that watches may go on writing when the
-- other has a signal and has restored the terminal.
use headless_terminal.Base.{
  ◌≡◌, ◌≢◌, refl, subst, sym, ap, ◌∙◌, Bool, true, false, not, ◌&&◌, Option, none, some, List, [],
  ◌∷◌, ◌++◌, Bytes, flatten, if◌then◌else◌, append-nil, append_assoc, arith, inl, inr, ◌⊎◌,
  Bool-cases, Option-cases,
}
use headless_terminal.Client.{Streamed}
use headless_terminal.Daemon.Requests.{SessionInfo}
use headless_terminal.Daemon.Handlers.Run.{Frame, data_frame, eof_frame}
use headless_terminal.Server.Replay.{shown_data}
use headless_terminal.Cli.Watching.{alt_screen_enter, alt_screen_exit, term_mode_reset, watch_out}

-- Where the goroutine is that watches: before OnReady, between its two lines, at the frames that are
-- still to come, and behind Watch.
pub data Phase : Type 0 where
  connecting announced : Phase
  showing : List Frame → Phase
  finished : Phase

-- Where cmdWatch is: at its `select`, or behind it and the deferred call.
pub data Caller : Type 0 where
  selecting has_result has_signal : Caller

pub record Watching : Type 0 where
  pub phase : Phase
  pub caller : Caller
  pub is_waiting : Bool
  pub out : Bytes

abbrev pub start_watching : Watching
start_watching = record { phase = connecting; caller = selecting; is_waiting = true; out = [] }

module _ (use_alt : Bool) (s : Streamed) where
  abbrev pub enter_alt : Bytes
  enter_alt = if use_alt then alt_screen_enter else []

  -- The deferred call.
  abbrev pub restore : Bool → Bytes
  restore is_waiting = if use_alt && not is_waiting then term_mode_reset ++ alt_screen_exit else []

  -- A step of either goroutine. Watch gives what `s` says.
  pub data WatchStep (w : Watching) : Watching → Type 0 where
    is_ready :
        (info : Option SessionInfo)
        → w.phase ≡ connecting
        → s.ready ≡ some info
        → WatchStep w (record w { phase = announced; is_waiting = false })
    never_ready :
        w.phase ≡ connecting → s.ready ≡ none → WatchStep w (record w { phase = finished })
    enters :
        w.phase ≡ announced
        → WatchStep w (record w { phase = showing s.frames; out = w.out ++ enter_alt })
    shows :
        (f : Frame) (fs : List Frame)
        → w.phase ≡ showing (f ∷ fs)
        → WatchStep w
            (record w { phase = showing fs; out = w.out ++ flatten (shown_data (f ∷ [])) })
    ends : w.phase ≡ showing [] → WatchStep w (record w { phase = finished })
    gets_result :
        w.caller ≡ selecting
        → w.phase ≡ finished
        → WatchStep w (record w { caller = has_result; out = w.out ++ restore w.is_waiting })
    gets_signal :
        w.caller ≡ selecting
        → WatchStep w (record w { caller = has_signal; out = w.out ++ restore w.is_waiting })

  pub data WatchSteps : Watching → Type 0 where
    starts : WatchSteps start_watching
    then_step : {w w' : Watching} → WatchSteps w → WatchStep w w' → WatchSteps w'

  -- What is written of the frames, with the screen that is entered before.
  abbrev body : Bytes
  body = enter_alt ++ flatten (shown_data s.frames)

  abbrev is_some : Option (Option SessionInfo) → Bool
  is_some none = false
  is_some (some i) = true

  IsAt : Phase → Bool → Bytes → Type 0
  IsAt connecting waits out = (out ≡ []) × (waits ≡ true)
  IsAt announced waits out = (out ≡ []) × (waits ≡ false) × (is_some s.ready ≡ true)
  IsAt (showing fs) waits out =
      (out ++ flatten (shown_data fs) ≡ body) × (waits ≡ false) × (is_some s.ready ≡ true)
  IsAt finished waits out =
      ((out ≡ []) × (waits ≡ true) × (is_some s.ready ≡ false))
      ⊎ ((out ≡ body) × (waits ≡ false) × (is_some s.ready ≡ true))

  -- Up to a signal: what is written is what the watch has come to.
  IsWatched : Caller → Phase → Bool → Bytes → Type 0
  unfolding IsAt
  IsWatched selecting phase waits out = IsAt phase waits out
  IsWatched has_result phase waits out = (phase ≡ finished) × (out ≡ watch_out use_alt s)
  IsWatched has_signal phase waits out = Unit {0}

  shown_data_first :
      (f : Frame) (fs : List Frame)
      → flatten (shown_data (f ∷ [])) ++ flatten (shown_data fs) ≡ flatten (shown_data (f ∷ fs))
  shown_data_first eof_frame fs = refl
  shown_data_first (data_frame b) fs = ap (λ x. x ++ flatten (shown_data fs)) (append-nil b)

  forward_at :
      (c : Caller) (w w' : Watching)
      → w.phase ≢ finished
      → (IsAt w.phase w.is_waiting w.out → IsAt w'.phase w'.is_waiting w'.out)
      → IsWatched c w.phase w.is_waiting w.out
      → IsWatched c w'.phase w'.is_waiting w'.out
  unfolding IsWatched
  forward_at selecting w w' ne f v = f v
  forward_at has_result w w' ne f v = absurd (ne v.0)
  forward_at has_signal w w' ne f v = tt

  IsValid : Watching → Type 0
  unfolding IsWatched
  IsValid w = IsWatched w.caller w.phase w.is_waiting w.out

  -- A step of the goroutine that watches keeps it.
  forward :
      (w w' : Watching) (p : Phase)
      → w'.caller ≡ w.caller
      → w.phase ≡ p
      → p ≢ finished
      → (IsAt p w.is_waiting w.out → IsAt w'.phase w'.is_waiting w'.out)
      → IsValid w
      → IsValid w'
  unfolding IsValid
  forward w w' p same at ne f v =
      subst (λ c. IsWatched c w'.phase w'.is_waiting w'.out) (sym same)
        (forward_at w.caller w w' (λ e. ne (sym at ∙ e))
          (λ a. f (subst (λ x. IsAt x w.is_waiting w.out) at a)) v)

  result_out :
      (waits : Bool) (out : Bytes)
      → IsAt finished waits out
      → out ++ restore waits ≡ watch_out use_alt s
  unfolding IsAt watch_out
  result_out waits out (inl (e, w, r)) =
      let never : s.ready ≡ none = ground arith in
      elim (Bool-cases use_alt) [
        | inl alt ↦ rw (never, e, w, alt) refl
        | inr plain ↦ rw (never, e, w, plain) refl
      ]
  result_out waits out (inr (e, w, r)) = elim (Option-cases s.ready) [
    | inl never ↦ absurd (ground arith)
    | inr (info, there) ↦ elim (Bool-cases use_alt) [
      | inl alt ↦
          rw (e, w, alt, there)
            (append_assoc alt_screen_enter (flatten (shown_data s.frames))
              (term_mode_reset ++ alt_screen_exit))
      | inr plain ↦ rw (e, w, plain, there) (append-nil (flatten (shown_data s.frames)))
    ]
  ]

  WatchStep-IsValid : {w w' : Watching} → WatchStep w w' → IsValid w → IsValid w'
  unfolding IsValid IsAt IsWatched
  WatchStep-IsValid {w} {w'} (is_ready info p r) v =
      forward w w' connecting refl p (λ e. cc) (λ a. (a.0, refl, ground arith)) v
  WatchStep-IsValid {w} {w'} (never_ready p r) v =
      forward w w' connecting refl p (λ e. cc) (λ a. inl (a.0, a.1, ground arith)) v
  WatchStep-IsValid {w} {w'} (enters p) v =
      forward w w' announced refl p (λ e. cc)
        (λ a. (ap (λ x. x ++ enter_alt ++ flatten (shown_data s.frames)) a.0, a.1, a.2)) v
  WatchStep-IsValid {w} {w'} (shows f fs p) v =
      forward w w' (showing (f ∷ fs)) refl p (λ e. cc)
        (λ a.
          (append_assoc w.out _ _ ∙ ap (λ x. w.out ++ x) (shown_data_first f fs) ∙ a.0, a.1, a.2))
        v
  WatchStep-IsValid {w} {w'} (ends p) v =
      forward w w' (showing []) refl p (λ e. cc) (λ a. inr (sym (append-nil w.out) ∙ a.0, a.1, a.2))
        v
  WatchStep-IsValid {w} (gets_result c p) v =
      let at = subst (λ x. IsWatched x w.phase w.is_waiting w.out) c v in
      (p, result_out w.is_waiting w.out (subst (λ x. IsAt x w.is_waiting w.out) p at))
  WatchStep-IsValid {w} (gets_signal c) v = tt

  WatchSteps-IsValid : {w : Watching} → WatchSteps w → IsValid w
  unfolding IsValid IsWatched IsAt
  WatchSteps-IsValid starts = (refl, refl)
  WatchSteps-IsValid (then_step ws t) = WatchStep-IsValid t (WatchSteps-IsValid ws)

  -- In whatever order the two goroutines of `ht watch` run: if its `select` gets the end of the watch, it has written what
  -- the sequential program writes, with the screen that was entered left and its modes reset as the last of it, and
  -- nothing is written behind that.
  pub watch_out_lem :
      {w : Watching}
      → WatchSteps w
      → w.caller ≡ has_result
      → (w.phase ≡ finished) × (w.out ≡ watch_out use_alt s)
  unfolding IsValid IsWatched
  watch_out_lem {w} ws e =
      subst (λ c. IsWatched c w.phase w.is_waiting w.out) e (WatchSteps-IsValid ws)

-- A signal between the two lines of OnReady: the deferred call restores the terminal, and the goroutine that watches
-- enters the other screen behind it, which nobody leaves.
signal_leaves_alt_screen :
    (s : Streamed) (info : Option SessionInfo)
    → s.ready ≡ some info
    → (w : Watching) × WatchSteps true s w
      × (w.caller ≡ has_signal)
      × (w.out ≡ (term_mode_reset ++ alt_screen_exit) ++ alt_screen_enter)
signal_leaves_alt_screen s info e = (
  _,
  then_step (then_step (then_step starts (is_ready info refl e)) (gets_signal refl)) (enters refl),
  refl,
  refl,
)
