-- ===== src/Cli/Screen.antt =====
-- cmd/ht/view.go: writeScreen.
pub mod Cursors
use headless_terminal.Base.{
  ℕ, Bool, true, false, not, ◌||◌, Option, none, some, List, [], ◌∷◌, ◌++◌, Bytes, codes, ◌==◌,
  if◌then◌else◌, bytes_eq,
}
use headless_terminal.Daemon.Requests.{Cursor}
use headless_terminal.Wire.{newline}
use headless_terminal.Cli.Numbers.{decimal, comma}

-- There is a last byte, and it is no newline.
unfoldable pub ends_bare : Bytes → Bool
ends_bare [] = false
ends_bare (c ∷ []) = not (c == newline)
ends_bare (c ∷ d ∷ s) = ends_bare (d ∷ s)

-- What follows the numbers of the cursor line.
abbrev pub cursor_tail : Bool → Bytes
cursor_tail visible = if visible then newline ∷ [] else codes " (hidden)" ++ newline ∷ []

cursor_line : Option Cursor → Bytes → Bytes
cursor_line none format = []
cursor_line (some cur) format =
    if bytes_eq format (codes "html")
    then []
    else codes "cursor: " ++ (decimal cur.row ++ comma ∷ decimal cur.col) ++ cursor_tail cur.visible

-- writeScreen: what it prints.
unfoldable pub write_screen : Bytes → Option Cursor → Bytes → Bytes
unfolding cursor_line
write_screen screen cursor format =
    (screen ++ (if ends_bare screen then newline ∷ [] else [])) ++ cursor_line cursor format
