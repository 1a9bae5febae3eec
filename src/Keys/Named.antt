-- ===== src/Keys/Named.antt =====
-- The tables `named` and `shifted` of internal/keys/keys.go. A name stands lowercased.
use headless_terminal.Base.{
  List, [], ◌∷◌, Option, none, some, Bytes, String, codes, bytes_eq, if◌then◌else◌,
}

-- A lookup in a Go map from strings, whose keys are distinct.
unfoldable pub lookup : Bytes → List (Bytes × Bytes) → Option Bytes
unfolding bytes_eq
lookup k [] = none
lookup k ((j, v) ∷ m) = if bytes_eq j k then some v else lookup k m

abbrev entry : String → Bytes → Bytes × Bytes
entry k v = (codes k, v)

-- An escape sequence: ESC and then the text.
abbrev esc : String → Bytes
esc s = 0x1b ∷ codes s

abbrev pub named : List (Bytes × Bytes)
named =
    entry "cr" (0x0d ∷ [])
    ∷ entry "enter" (0x0d ∷ [])
    ∷ entry "return" (0x0d ∷ [])
    ∷ entry "esc" (0x1b ∷ [])
    ∷ entry "escape" (0x1b ∷ [])
    ∷ entry "tab" (0x09 ∷ [])
    ∷ entry "bs" (0x7f ∷ [])
    ∷ entry "backspace" (0x7f ∷ [])
    ∷ entry "space" (0x20 ∷ [])
    ∷ entry "del" (esc "[3~")
    ∷ entry "delete" (esc "[3~")
    ∷ entry "ins" (esc "[2~")
    ∷ entry "insert" (esc "[2~")
    ∷ entry "up" (esc "[A")
    ∷ entry "down" (esc "[B")
    ∷ entry "right" (esc "[C")
    ∷ entry "left" (esc "[D")
    ∷ entry "home" (esc "[H")
    ∷ entry "end" (esc "[F")
    ∷ entry "pageup" (esc "[5~")
    ∷ entry "pagedown" (esc "[6~")
    ∷ entry "f1" (esc "OP")
    ∷ entry "f2" (esc "OQ")
    ∷ entry "f3" (esc "OR")
    ∷ entry "f4" (esc "OS")
    ∷ entry "f5" (esc "[15~")
    ∷ entry "f6" (esc "[17~")
    ∷ entry "f7" (esc "[18~")
    ∷ entry "f8" (esc "[19~")
    ∷ entry "f9" (esc "[20~")
    ∷ entry "f10" (esc "[21~")
    ∷ entry "f11" (esc "[23~")
    ∷ entry "f12" (esc "[24~")
    ∷ entry "lt" (codes "<")
    ∷ []

abbrev pub shifted : List (Bytes × Bytes)
shifted = entry "tab" (esc "[Z") ∷ []
