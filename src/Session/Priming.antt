-- ===== src/Session/Priming.antt =====
-- internal/session/session.go: the screen that a watcher starts from, and its channel at the exit.
use headless_terminal.Base.{
  ℕ, subst, false, true, ◌≡◌, refl, Option, none, some, ok, ◌++◌, Bytes, arith, Option-cases,
  Result-cases, inl, inr, ℤ,
}
use headless_terminal.Session.{
  Emulator, Session, vt, Snapshot, Render, view, with_cursor, or_err, clear, subscribe,
  subscribe_with_prime, mark_exited,
}
use headless_terminal.Session.Chan.{history}
use headless_terminal.Session.Subs.{close_all_lem}
use headless_terminal.Session.Invariant.{Inv, subscribe-Inv}
use headless_terminal.Session.Machine.{is_free}

module _ (em : Emulator) where
  open em use {Term, format, render}

  with_cursor-screen :
      (snap : Snapshot) (r : Option Render) → (with_cursor snap r).screen ≡ snap.screen
  unfolding with_cursor
  with_cursor-screen snap none = refl
  with_cursor-screen snap (some r) = refl

  -- What is primed is the terminal in the VT format, behind a clear.
  pub subscribe_with_prime_lem :
      (s t : Session Term) (base : Term) (prime : Bytes) (ch : ℕ)
      → s.term ≡ some base
      → subscribe_with_prime em s ≡ ok (prime, t, ch)
      → (screen : Bytes) × (format vt base ≡ some screen)
        × (prime ≡ clear ++ screen)
        × (t ≡ (subscribe em s).0)
        × (ch ≡ (subscribe em s).1)
  unfolding subscribe_with_prime view or_err
  subscribe_with_prime_lem s t base prime ch e h = elim (Option-cases (format vt base)) [
    | inl failed ↦ absurd (ground arith)
    | inr (screen, painted) ↦
        let bare : Snapshot = record {
          screen = screen;
          cols = s.cols;
          rows = s.rows;
          cursor_row = 0;
          cursor_col = 0;
          cursor_vis = false;
        } in
        let snap = with_cursor bare (render base) in
        let whole : subscribe_with_prime em s
            ≡ ok (clear ++ snap.screen, (subscribe em s).0, (subscribe em s).1) =
          rw (e, painted) refl in
        let same = with_cursor-screen bare (render base) in
        (screen, painted, ground arith, ground arith, ground arith)
  ]

  -- The session behind it is the one behind a Subscribe.
  pub subscribe_with_prime-Inv :
      (s t : Session Term) (prime : Bytes) (ch : ℕ)
      → is_free s.reader ≡ true
      → Inv s
      → subscribe_with_prime em s ≡ ok (prime, t, ch)
      → Inv t
  unfolding subscribe_with_prime
  subscribe_with_prime-Inv s t prime ch f v h = elim (Result-cases (view em vt s)) [
    | inr (e, failed) ↦ absurd (ground arith)
    | inl (snap, shown) ↦ subst Inv (ground arith) (subscribe-Inv em s f v)
  ]

  -- The exit leaves the terminal, and what each channel was ever sent.
  pub mark_exited-history :
      (code : ℤ) (id : ℕ) (s t : Session Term)
      → Inv s
      → mark_exited em code s ≡ some t
      → (t.term ≡ s.term) × (history (t.chans id) ≡ history (s.chans id))
  unfolding mark_exited
  mark_exited-history code id s t v e =
      let (after, closed, cell) = close_all_lem s.subs s.chans v.distinct v.all_open in
      (ground arith, ground (arith, cell id))
