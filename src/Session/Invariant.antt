-- ===== src/Session/Invariant.antt =====
-- internal/session/session.go: the invariant of a session whatever its goroutines do, and the
-- operations that could panic.
use headless_terminal.Base.{
  ℕ, ◌<◌, ◌≡◌, ◌≢◌, refl, sym, ap, ◌∙◌, Bool, true, false, Option, none, some, ok, List, [], ◌∷◌,
  inl, inr, Bytes, ℤ, Bool-cases, Option-cases, ◌++◌, subst, update, arith,
}
use headless_terminal.Session.Chan.{Channel, Channels, push, receive, take_first}
use headless_terminal.Session.Subs.{
  Distinct, AllOpen, shut, has_sub-delete_sub, delete_sub-Distinct, close_at_lem, close_all_lem,
}
use headless_terminal.Session.Machine.{
  Flow, Step, Reach, here, next, subscribes, unsubscribes, receives, outputs, delivers, unlocks,
  read_ends, exits, finishes, flows, resizes, tears_down, is_free,
}
use headless_terminal.Session.{
  Emulator, Session, Options, Reader, reading, fanning, ended, exited, is_exited, has_sub,
  delete_sub, subscribe, unsubscribe, mark_exited, take_output, deliver, resize, tear_down, start,
}

-- Who is left to get a chunk is a subscriber.
abbrev pub LeftIn : List ℕ → Reader → Type 0
LeftIn subs reading = Unit {0}
LeftIn subs ended = Unit {0}
LeftIn subs (fanning chunk left) =
    Distinct left × ((i : ℕ) → has_sub i left ≡ true → has_sub i subs ≡ true)

pub record Inv {Term : Type 0} (s : Session Term) : Type 0 where
  pub distinct : Distinct s.subs
  pub fresh : (i : ℕ) → has_sub i s.subs ≡ true → i < s.next_sub
  pub all_open : AllOpen s.subs s.chans
  pub gone : is_exited s.state ≡ true → s.subs ≡ []
  pub left_in : LeftIn s.subs s.reader

free-LeftIn : (subs : List ℕ) (r : Reader) → is_free r ≡ true → LeftIn subs r
free-LeftIn subs reading h = tt
free-LeftIn subs ended h = tt
free-LeftIn subs (fanning chunk left) h = cc

receive-closed : (ch : Channel) → (receive ch).closed ≡ ch.closed
unfolding receive
receive-closed ch = take_first-closed ch ch.queue
  where
    take_first-closed : (c : Channel) (q : List Bytes) → (take_first c q).closed ≡ c.closed
    take_first-closed c [] = refl
    take_first-closed c (b ∷ q) = refl

-- A write to one cell that is open leaves the channels of a list open.
update-AllOpen :
    (id : ℕ) (ch : Channel) (subs : List ℕ) (chans : Channels)
    → (has_sub id subs ≡ true → ch.closed ≡ false)
    → AllOpen subs chans
    → AllOpen subs (update chans id ch)
unfolding update
update-AllOpen id ch subs chans h o i m = ground (arith, o i m)

-- The operations that close a channel or send to one.
pub data ChannelUse : Type 0 where
  unsubscribe_use : ℕ → ChannelUse
  exit_use : ℤ → ChannelUse
  deliver_use : Bytes → List ℕ → ℕ → ChannelUse

-- A client that unsubscribes and waitLoop want the lock; readLoop has it for a send.
abbrev pub IsDue : {Term : Type 0} → ChannelUse → Session Term → Type 0
IsDue (unsubscribe_use id) s = is_free s.reader ≡ true
IsDue (exit_use code) s = is_free s.reader ≡ true
IsDue (deliver_use chunk left id) s = (s.reader ≡ fanning chunk left) × (has_sub id left ≡ true)

module _ (em : Emulator) where
  open em use {Term}

  pub start-Inv :
      (id : Bytes) (process : Option ℕ) (o : Options) {s : Session Term}
      → start em id process o ≡ ok s
      → Inv s
  unfolding start has_sub
  start-Inv id process o {s} e =
      let empty : s.subs ≡ [] = ground arith in
      let free : is_free s.reader ≡ true = ground arith in
      record {
        distinct = subst Distinct (sym empty) tt;
        fresh = λ i h. absurd (ground (arith, ap (has_sub i) empty));
        all_open = λ i h. absurd (ground (arith, ap (has_sub i) empty));
        gone = λ h. empty;
        left_in = free-LeftIn s.subs s.reader free;
      }

  pub subscribe-Inv : (s : Session Term) → is_free s.reader ≡ true → Inv s → Inv (subscribe em s).0
  unfolding subscribe
  subscribe-Inv s f v = elim (Bool-cases (is_exited s.state)) [
    | inl gone ↦ rw gone (record {
      distinct = v.distinct;
      fresh = λ i h. omega (arith, v.fresh i h);
      all_open =
          update-AllOpen s.next_sub _ s.subs s.chans
            (λ h. absurd (omega (arith, v.fresh s.next_sub h))) v.all_open;
      gone = v.gone;
      left_in = v.left_in;
    })
    | inr live ↦ rw live (record {
      distinct = (unfold has_sub in ground (arith, v.fresh s.next_sub), v.distinct);
      fresh = λ i h. unfold has_sub in ground (arith, v.fresh i);
      all_open = λ i h. unfold has_sub update in ground (arith, v.all_open i);
      gone = λ e. cc;
      left_in = free-LeftIn (s.next_sub ∷ s.subs) s.reader f;
    })
  ]

  unsubscribe-Inv :
      (id : ℕ) (s : Session Term)
      → is_free s.reader ≡ true
      → Inv s
      → (t : Session Term) × (unsubscribe em id s ≡ some t) × Inv t
  unfolding unsubscribe
  unsubscribe-Inv id s f v = elim (Bool-cases (has_sub id s.subs)) [
    | inr out ↦ (s, rw out, v)
    | inl held ↦
        let chans = update s.chans id (shut (s.chans id)) in
        let gone = λ (i : ℕ). has_sub-delete_sub i id s.subs v.distinct in
        (
          record s { subs = delete_sub id s.subs; chans = chans },
          rw (held, close_at_lem id s.chans (v.all_open id held)),
          record {
            distinct = delete_sub-Distinct id s.subs v.distinct;
            fresh = λ i h. ground (arith, gone i, v.fresh i);
            all_open = λ i h. unfold update in ground (arith, gone i, v.all_open i);
            gone = λ e. unfold delete_sub in rw (v.gone e);
            left_in = free-LeftIn (delete_sub id s.subs) s.reader f;
          },
        )
  ]

  pub mark_exited-Inv :
      (code : ℤ) (s : Session Term)
      → is_free s.reader ≡ true
      → Inv s
      → (t : Session Term) × (mark_exited em code s ≡ some t) × Inv t
  unfolding mark_exited has_sub
  mark_exited-Inv code s f v =
      let (after, e, _) = close_all_lem s.subs s.chans v.distinct v.all_open in
      (
        record s { state = exited; exit_code = code; subs = []; chans = after },
        rw (e, mark_exited),
        record {
          distinct = tt;
          fresh = λ i h. cc;
          all_open = λ i h. cc;
          gone = λ e. refl;
          left_in = free-LeftIn [] s.reader f;
        },
      )

  deliver-Inv :
      (chunk : Bytes) (left : List ℕ) (id : ℕ) (s : Session Term)
      → s.reader ≡ fanning chunk left
      → has_sub id left ≡ true
      → Inv s
      → (t : Session Term) × (deliver em chunk left id s ≡ some t) × Inv t
  unfolding deliver push
  deliver-Inv chunk left id s r m v =
      let (dis, sub) = subst (LeftIn s.subs) r v.left_in in
      let is_open : (s.chans id).closed ≡ false = v.all_open id (sub id m) in
      let gone = λ (i : ℕ). has_sub-delete_sub i id left dis in
      let ch = record (s.chans id) { queue = (s.chans id).queue ++ chunk ∷ [] } in
      (
        record s { chans = update s.chans id ch; reader = fanning chunk (delete_sub id left) },
        ground arith,
        record {
          distinct = v.distinct;
          fresh = v.fresh;
          all_open = update-AllOpen id ch s.subs s.chans (λ h. is_open) v.all_open;
          gone = v.gone;
          left_in = (delete_sub-Distinct id left dis, λ i h. ground (arith, gone i, sub i));
        },
      )

  outputs-Inv : (chunk : Bytes) (s : Session Term) → Inv s → Inv (take_output em chunk s)
  unfolding take_output
  outputs-Inv chunk s v = elim (Option-cases s.term) [
    | inl nil ↦ rw nil (record {
      distinct = v.distinct;
      fresh = v.fresh;
      all_open = v.all_open;
      gone = v.gone;
      left_in = tt;
    })
    | inr (term, is) ↦ rw is (record {
      distinct = v.distinct;
      fresh = v.fresh;
      all_open = v.all_open;
      gone = v.gone;
      left_in = (v.distinct, λ i h. h);
    })
  ]

  pub Flow-Inv : {s t : Session Term} → Flow em s t → Inv s → Inv t
  Flow-Inv {s} (subscribes f e) v = subst Inv (sym e) (subscribe-Inv s f v)
  Flow-Inv {s} (unsubscribes id f e) v =
      let (t, p, w) = unsubscribe-Inv id s f v in subst Inv (ground (arith, p)) w
  Flow-Inv {s} (receives id e) v = subst Inv (sym e) (record {
    distinct = v.distinct;
    fresh = v.fresh;
    all_open =
        update-AllOpen id (receive (s.chans id)) s.subs s.chans
          (λ h. receive-closed (s.chans id) ∙ v.all_open id h) v.all_open;
    gone = v.gone;
    left_in = v.left_in;
  })
  Flow-Inv {s} (outputs chunk r e) v = subst Inv (sym e) (outputs-Inv chunk s v)
  Flow-Inv {s} (delivers chunk left id r m _ e) v =
      let (t, p, w) = deliver-Inv chunk left id s r m v in subst Inv (ground (arith, p)) w
  Flow-Inv (unlocks chunk r e) v = subst Inv (sym e) (record {
    distinct = v.distinct;
    fresh = v.fresh;
    all_open = v.all_open;
    gone = v.gone;
    left_in = tt;
  })
  Flow-Inv (read_ends r e) v = subst Inv (sym e) (record {
    distinct = v.distinct;
    fresh = v.fresh;
    all_open = v.all_open;
    gone = v.gone;
    left_in = tt;
  })
  Flow-Inv {s} (exits code f live e) v =
      let (t, p, w) = mark_exited-Inv code s f v in subst Inv (ground (arith, p)) w
  Flow-Inv (finishes x e) v = subst Inv (sym e) (record {
    distinct = v.distinct;
    fresh = v.fresh;
    all_open = v.all_open;
    gone = v.gone;
    left_in = v.left_in;
  })

  resize-Inv :
      (pty_takes : Bool) (cols rows : ℕ) (s : Session Term) {t : Session Term}
      → resize em pty_takes cols rows s ≡ ok t
      → Inv s
      → Inv t
  unfolding resize
  resize-Inv pty_takes cols rows s {t} e v =
      let same : t ≡ record s { term = t.term; cols = t.cols; rows = t.rows } = ground arith in
      subst Inv (sym same) (record {
        distinct = v.distinct;
        fresh = v.fresh;
        all_open = v.all_open;
        gone = v.gone;
        left_in = v.left_in;
      })

  pub Step-Inv : {s t : Session Term} → Step em s t → Inv s → Inv t
  Step-Inv (flows f) v = Flow-Inv f v
  Step-Inv {s} (resizes p c r f e) v = resize-Inv p c r s e v
  Step-Inv (tears_down d r e) v = subst Inv (sym e) (
      unfold tear_down in
      record {
        distinct = v.distinct;
        fresh = v.fresh;
        all_open = v.all_open;
        gone = v.gone;
        left_in = v.left_in;
      })

  -- From a state with the invariant on, it holds in every state that the goroutines reach: the
  -- subscriptions are distinct, numbered below the next one and have open channels, there are
  -- none after the exit, and readLoop hands its chunk to subscribers only.
  pub Reach-Inv : {s t : Session Term} → Reach em s t → Inv s → Inv t
  Reach-Inv here v = v
  Reach-Inv (next r st) v = Step-Inv st (Reach-Inv r v)

  abbrev pub perform : ChannelUse → Session Term → Option (Session Term)
  perform (unsubscribe_use id) s = unsubscribe em id s
  perform (exit_use code) s = mark_exited em code s
  perform (deliver_use chunk left id) s = deliver em chunk left id s

  -- From the start of a session on, whatever steps its goroutines take, neither an unsubscribe nor
  -- the exit while the lock is free, nor a send to a subscriber that readLoop has left, panics: no
  -- closed channel is closed again or sent to, also when a client unsubscribes twice or after the
  -- exit.
  pub no_panic :
      (id : Bytes) (process : Option ℕ) (o : Options) (what : ChannelUse) {s t : Session Term}
      → start em id process o ≡ ok s
      → Reach em s t
      → IsDue what t
      → perform what t ≢ none
  no_panic id process o (unsubscribe_use i) {s} {t} e r f n =
      let (_, p, _) = unsubscribe-Inv i t f (Reach-Inv r (start-Inv id process o e)) in
      ground (arith, p)
  no_panic id process o (exit_use code) {s} {t} e r f n =
      let (_, p, _) = mark_exited-Inv code t f (Reach-Inv r (start-Inv id process o e)) in
      ground (arith, p)
  no_panic id process o (deliver_use chunk left i) {s} {t} e r (at, m) n =
      let (_, p, _) = deliver-Inv chunk left i t at m (Reach-Inv r (start-Inv id process o e)) in
      ground (arith, p)
