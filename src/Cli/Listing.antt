-- ===== src/Cli/Listing.antt =====
-- cmd/ht/list.go: the sessions as JSON, or as a table. `text/tabwriter` aligns what is between the tabs, and the age of a
-- session depends on the clock: both are parameters. The writes succeed.
use headless_terminal.Base.{
  ℕ, Bool, not, ◌||◌, Option, List, [], ◌∷◌, ◌++◌, Bytes, codes, Result, ok, ◌>>=◌, map, flatten,
  if◌then◌else◌,
}
use headless_terminal.Daemon.Requests.{SessionInfo}
use headless_terminal.Wire.{Json, newline}
use headless_terminal.Client
use headless_terminal.Client.{CallError}
use headless_terminal.Cli.Numbers.{decimal}
use headless_terminal.Cli.Flags.{CommandError, call_failed, or_failed}
use headless_terminal.Cli.Commands.{Shell, Ran, after, prints, emit_json, or_zero, new_client}

-- strings.Join(l, sep).
unfoldable pub joined : Bytes → List Bytes → Bytes
joined sep [] = []
joined sep (s ∷ []) = s
joined sep (s ∷ t ∷ l) = s ++ sep ++ joined sep (t ∷ l)

abbrev tab : ℕ
tab = 0x09

abbrev or_dash : Bytes → Bytes
or_dash [] = codes "-"
or_dash (c ∷ s) = c ∷ s

-- A line of the table.
table_row : List Bytes → Bytes
unfolding joined
table_row cells = joined (tab ∷ []) cells ++ newline ∷ []

abbrev titles : List Bytes
titles = map codes ("ID" ∷ "NAME" ∷ "STATE" ∷ "PID" ∷ "SIZE" ∷ "AGE" ∷ "CMD" ∷ [])

session_cells : (SessionInfo → Bytes) → SessionInfo → List Bytes
unfolding joined decimal
session_cells age s =
    s.id
    ∷ or_dash s.name
    ∷ s.state
    ∷ decimal s.pid
    ∷ (decimal s.cols ++ codes "x" ++ decimal s.rows)
    ∷ age s
    ∷ joined (codes " ") s.cmd
    ∷ []

-- What is given to the tabwriter.
unfoldable pub table : (SessionInfo → Bytes) → List SessionInfo → Bytes
unfolding table_row session_cells
table age l = table_row titles ++ flatten (map (λ s. table_row (session_cells age s)) l)

-- What cmdList prints of the sessions.
unfoldable pub show_list :
    Shell
    → (List SessionInfo → Option Bytes)
    → (SessionInfo → Bytes)
    → (Bytes → Bytes)
    → Bool
    → List SessionInfo
    → Ran
unfolding table
show_list shell list_text age tabulate json_out l =
    if json_out || not shell.is_tty then emit_json (list_text l) else elim l [
      | [] ↦ prints (codes "no sessions" ++ newline ∷ [])
      | s ∷ ss ↦ prints (tabulate (table age (s ∷ ss)))
    ]

module _ (shell : Shell) (json : Json) (connect : Option (Bytes → Option Bytes)) where
  listed : Result CommandError (List SessionInfo)
  unfolding or_failed new_client
  listed = do
    net ← new_client shell json connect
    l ← or_failed call_failed (Client.list json net)
    ok (or_zero [] l)

  -- cmdList.
  unfoldable pub cmd_list :
      (List SessionInfo → Option Bytes) → (SessionInfo → Bytes) → (Bytes → Bytes) → Bool → Ran
  unfolding listed show_list
  cmd_list list_text age tabulate json_out =
      after listed (show_list shell list_text age tabulate json_out)
