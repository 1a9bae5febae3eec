-- ===== src/Cli/Screen/Cursors.antt =====
-- cmd/ht/view.go and cmd/ht/wait.go: the cursor line of a view, and --cursor.
use headless_terminal.Base.{
  ◌<◌, ◌≡◌, refl, ap, ◌∙◌, false, some, [], ◌∷◌, ◌++◌, append-nil, Bytes, codes, ok, if◌then◌else◌,
  bytes_eq, Bool-cases, inl, inr,
}
use headless_terminal.Daemon.Requests.{Cursor}
use headless_terminal.Wire.{newline}
use headless_terminal.Cli.Numbers.{decimal, comma, parse_cursor}
use headless_terminal.Cli.Numbers.RoundTrip.{parse_cursor-decimal}
use headless_terminal.Cli.Screen.{ends_bare, cursor_tail, cursor_line, write_screen}

ends_bare-newline : (s : Bytes) → ends_bare (s ++ newline ∷ []) ≡ false
unfolding ends_bare
ends_bare-newline [] = refl
ends_bare-newline (c ∷ []) = refl
ends_bare-newline (c ∷ d ∷ s) = ends_bare-newline (d ∷ s)

-- The newline that is added, or not, and the screen is over a line either way.
full_lines :
    (screen : Bytes)
    → (added : Bytes) × ((if ends_bare screen then newline ∷ [] else []) ≡ added)
      × (ends_bare (screen ++ added) ≡ false)
full_lines screen = elim (Bool-cases (ends_bare screen)) [
  | inl bare ↦ rw bare (newline ∷ [], refl, ends_bare-newline screen)
  | inr full ↦ rw full ([], refl, ap ends_bare (append-nil screen) ∙ full)
]

cursor_line-shown :
    (cur : Cursor) (format : Bytes)
    → bytes_eq format (codes "html") ≡ false
    → cursor_line (some cur) format
      ≡ codes "cursor: " ++ (decimal cur.row ++ comma ∷ decimal cur.col) ++ cursor_tail cur.visible
unfolding cursor_line
cursor_line-shown cur format other = rw other refl

-- When a view prints a cursor whose row and column are below 2 ^ 16, in a format other than html, the
-- screen comes first and fills whole lines, and the rest is "cursor: ", a text that
-- parseCursor reads as that row and column, and the end of the line, with the note that the cursor is hidden if it is.
pub write_screen-parse_cursor :
    (screen : Bytes) (cur : Cursor) (format : Bytes)
    → cur.row < 65536
    → cur.col < 65536
    → bytes_eq format (codes "html") ≡ false
    → (added text : Bytes) × (write_screen screen (some cur) format
        ≡ (screen ++ added) ++ (codes "cursor: " ++ text ++ cursor_tail cur.visible))
      × (ends_bare (screen ++ added) ≡ false)
      × (parse_cursor text ≡ ok (cur.row, cur.col))
unfolding write_screen
write_screen-parse_cursor screen cur format r c other =
    let (added, e, full) = full_lines screen in
    (
      added,
      decimal cur.row ++ comma ∷ decimal cur.col,
      rw e (ap (λ l. (screen ++ added) ++ l) (cursor_line-shown cur format other)),
      full,
      parse_cursor-decimal cur.row cur.col r c,
    )
