-- ===== src/Tests/Pacing.antt =====
-- Runs of SendPaced of internal/session/session.go.
use headless_terminal.Base.{◌≡◌, refl, false, none, some, [], ◌∷◌, ◌++◌, Bytes, codes, arith, ◌==◌}
use headless_terminal.Utf8.{encode_rune, decode_rune}
use headless_terminal.Session.Pacing.{
  write, sleep, write_failed, send_paced, pace_loop, keystroke_len, escape_seq_end, csi_len,
  keystrokes,
}
use headless_terminal.Session.Pacing.Keystrokes.{keystrokes-encode_rune}
use headless_terminal.Session.Pacing.Trace.{written, spaced, send_paced-written, send_paced-spaced}

-- An arrow key and a letter, with the second write refused.
abbrev arrow : Bytes
arrow = 0x1b ∷ codes "[Aq"

refused :
    send_paced (λ k. k == 1) false arrow 5
    ≡ (write (0x1b ∷ codes "[A") ∷ sleep 5 ∷ write (codes "q") ∷ [], some write_failed)
unfolding send_paced pace_loop keystroke_len escape_seq_end csi_len decode_rune
refused = refl

send_paced-written_example :
    (rest : Bytes) × (written (send_paced (λ k. k == 1) false arrow 5).0 ++ rest ≡ arrow)
    × ((send_paced (λ k. k == 1) false arrow 5).1 ≡ none → rest ≡ [])
send_paced-written_example = send_paced-written (λ k. k == 1) false arrow 5

send_paced-spaced_example :
    send_paced (λ k. false) false arrow 5 ≡ (spaced 5 (keystrokes arrow), none)
send_paced-spaced_example =
    send_paced-spaced (λ k. false) arrow 5 (λ i. refl) (omega arith) (omega arith)

keystrokes-encode_rune_example :
    keystrokes (encode_rune 0xe9 ++ codes "q") ≡ encode_rune 0xe9 ∷ keystrokes (codes "q")
keystrokes-encode_rune_example = keystrokes-encode_rune 0xe9 (codes "q") refl refl
