-- ===== src/Server/Replay.antt =====
-- internal/daemon/daemon.go: opWatch, between the session's terminal and the watcher's.
use mathlib.Core.List.{foldl}
use headless_terminal.Base.{
  ℕ, ◌≡◌, refl, sym, ap, ◌∙◌, subst, true, false, some, List, [], ◌∷◌, ◌++◌, append-nil, Bytes, ok,
  arith, map, Result-cases, inl, inr, ℤ, update,
}
use headless_terminal.Session.{
  Emulator, Session, vt, clear, subscribe, subscribe_with_prime, mark_exited, is_exited,
}
use headless_terminal.Session.Chan.{history}
use headless_terminal.Session.Machine.{is_free}
use headless_terminal.Session.Invariant.{Inv, subscribe-Inv, Flow-Inv}
use headless_terminal.Session.Stream.{
  stream, pending-free, Watched, watch_start, watch_next, subscribe-Tracks,
}
use headless_terminal.Session.Priming.{subscribe_with_prime_lem, mark_exited-history}
use headless_terminal.Daemon.{Handle}
use headless_terminal.Daemon.Handlers.{World, object_of}
use headless_terminal.Daemon.Handlers.Run.{Frame, data_frame, eof_frame, frames, attach}

-- What `ht watch` writes to the terminal for its frames.
abbrev pub shown_data : List Frame → List Bytes
shown_data [] = []
shown_data (data_frame b ∷ fs) = b ∷ shown_data fs
shown_data (eof_frame ∷ fs) = shown_data fs

shown_data-chunks :
    (chunks : List Bytes) → shown_data (map (λ c. data_frame c) chunks ++ eof_frame ∷ []) ≡ chunks
shown_data-chunks [] = refl
shown_data-chunks (c ∷ cs) = ap (◌∷◌ c) (shown_data-chunks cs)

-- A notion of terminals in the same state as far as output can tell: the same output keeps them so.
abbrev pub IsKept : (em : Emulator) → (em.Term → em.Term → Type 0) → Type 0
IsKept em Same =
    (a b : em.Term) (chunk : Bytes) → Same a b → Same (em.feed a chunk) (em.feed b chunk)

-- The VT text of a terminal paints it on another terminal. It is a condition on the moment: in
-- the middle of an escape sequence the screen does not hold all that later output depends on.
abbrev pub IsPaintedOn : (em : Emulator) → (em.Term → em.Term → Type 0) → em.Term → em.Term → Type 0
IsPaintedOn em Same blank base =
    (screen : Bytes) → em.format vt base ≡ some screen → Same (em.feed blank (clear ++ screen)) base

module _ (em : Emulator) (Same : em.Term → em.Term → Type 0) (law : IsKept em Same) where
  open em use {Term, feed, format}

  foldl-Same :
      (a b : Term) (chunks : List Bytes)
      → Same a b
      → Same (foldl feed a chunks) (foldl feed b chunks)
  foldl-Same a b [] h = h
  foldl-Same a b (c ∷ cs) h = foldl-Same (feed a c) (feed b c) cs (law a b c h)

  shown_data-frames :
      (screen : Bytes) (chunks : List Bytes)
      → shown_data (frames (clear ++ screen) chunks) ≡ (clear ++ screen) ∷ chunks
  unfolding frames
  shown_data-frames screen chunks = ap (◌∷◌ (clear ++ screen)) (shown_data-chunks chunks)

module _ (em : Emulator) where
  open em use {Term, feed, format}

  attach_lem :
      (w w' : World Term) (s : Handle) (base : Term) (prime : Bytes) (ch : ℕ)
      → (object_of em w s).term ≡ some base
      → attach em w s ≡ ok (prime, w', ch)
      → (screen : Bytes) × (format vt base ≡ some screen)
        × (prime ≡ clear ++ screen)
        × (object_of em w' s ≡ (subscribe em (object_of em w s)).0)
        × (ch ≡ (subscribe em (object_of em w s)).1)
  unfolding attach update
  attach_lem w w' s base prime ch t e =
      elim (Result-cases (subscribe_with_prime em (object_of em w s))) [
        | inr (why, failed) ↦ absurd (ground arith)
        | inl ((p, o, c), went) ↦
            let (screen, painted, front, obj, num) =
              subscribe_with_prime_lem em (object_of em w s) o base p c t went in
            (screen, painted, ground arith, ground arith, ground arith)
      ]

  Watched-Inv : {id : ℕ} {s t : Session Term} → Watched em id s t → Inv s → Inv t
  Watched-Inv watch_start v = v
  Watched-Inv (watch_next w f m) v = Flow-Inv em f (Watched-Inv w v)

  module _ (Same : Term → Term → Type 0) (law : IsKept em Same) where
    -- `ht watch` shows what the session shows. A watcher attaches to a live session with the
    -- invariant, while the lock is free, and stays while the goroutines take steps, none of them a
    -- resize or the end of Close, until the child exits. Then the frames of opWatch, for all that
    -- its channel was ever sent, paint on the watcher's terminal what the session's terminal shows
    -- at the exit, for any notion of the same state that output keeps, if in this notion the VT
    -- text taken at the attach paints the session's terminal on the watcher's.
    pub watch_replays :
        (w w' : World Term) (s : Handle) (base blank : Term) (prime : Bytes) (ch : ℕ) (code : ℤ)
        (t t' : Session Term)
        → Inv (object_of em w s)
        → (object_of em w s).term ≡ some base
        → is_free (object_of em w s).reader ≡ true
        → is_exited (object_of em w s).state ≡ false
        → IsPaintedOn em Same blank base
        → attach em w s ≡ ok (prime, w', ch)
        → Watched em ch (object_of em w' s) t
        → is_free t.reader ≡ true
        → mark_exited em code t ≡ some t'
        → (last : Term) × (t'.term ≡ some last)
          × Same (foldl feed blank (shown_data (frames prime (history (t'.chans ch))))) last
    watch_replays w w' s base blank prime ch code t t' v e f live paints a watched free x =
        let o = object_of em w s in
        let (screen, painted, front, obj, num) = attach_lem w w' s base prime ch e a in
        let same_watch : Watched em (subscribe em o).1 (subscribe em o).0 t =
          subst (λ c. Watched em c (subscribe em o).0 t) num
            (subst (λ b. Watched em ch b t) obj watched) in
        let inv = Watched-Inv same_watch (subscribe-Inv em o f v) in
        let (kept, sent) = mark_exited-history em code ch t t' inv x in
        let chunks = history (t'.chans ch) in
        let none_left : stream ch t ≡ chunks =
          ap (λ p. history (t.chans ch) ++ p) (pending-free ch t.reader free)
          ∙ (append-nil (history (t.chans ch)) ∙ sym sent) in
        let tracks : t.term ≡ some (foldl feed base (stream ch t)) =
          subst (λ c. t.term ≡ some (foldl feed base (stream c t))) (sym num)
            (subscribe-Tracks em base o v e f live same_watch) in
        let painted_base = paints screen painted in
        let all = foldl-Same em Same law (feed blank (clear ++ screen)) base chunks painted_base in
        let shown : shown_data (frames prime chunks) ≡ (clear ++ screen) ∷ chunks =
          ap (λ p. shown_data (frames p chunks)) front
          ∙ shown_data-frames em Same law screen chunks in
        (
          foldl feed base chunks,
          kept ∙ tracks ∙ ap (λ l. some (foldl feed base l)) none_left,
          subst (λ l. Same (foldl feed blank l) (foldl feed base chunks)) (sym shown) all,
        )
