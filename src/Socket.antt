-- ===== src/Socket.antt =====
-- The path of the socket: DefaultSocketPath and prepareSocketDir of internal/daemon/daemon.go, New and the environment
-- of the daemon's process of internal/client/client.go, daemonRun of cmd/ht/daemon.go, and newClient of
-- cmd/ht/common.go; with what they use of `path/filepath` on Unix.
pub mod Paths
use headless_terminal.Base.{
  ℕ, Bool, true, false, ◌||◌, List, [], ◌∷◌, ◌++◌, Bytes, codes, bytes_eq, ◌==◌, if◌then◌else◌,
}
use headless_terminal.Daemon.{is_nil}
use headless_terminal.Cli.Numbers.{decimal}

abbrev pub slash : ℕ
slash = 0x2f

-- The texts between the slashes.
unfoldable pub components : Bytes → List Bytes
components [] = [] ∷ []
components (c ∷ s) =
    let rest = components s in
    if c == slash then [] ∷ rest else elim rest [ [] ↦ (c ∷ []) ∷ [] | d ∷ ds ↦ (c ∷ d) ∷ ds ]

-- What `..` does to the components before it, the last one first.
go_up : Bool → List Bytes → List Bytes
go_up true [] = []
go_up false [] = codes ".." ∷ []
go_up rooted (c ∷ cs) = if bytes_eq c (codes "..") then codes ".." ∷ c ∷ cs else cs

unfoldable pub walk : Bool → List Bytes → List Bytes → List Bytes
unfolding go_up
walk rooted seen [] = seen
walk rooted seen (c ∷ cs) =
    if is_nil c || bytes_eq c (codes ".")
    then walk rooted seen cs
    else if bytes_eq c (codes "..")
    then walk rooted (go_up rooted seen) cs
    else walk rooted (c ∷ seen) cs

-- The components with slashes between them, the last one given first.
unfoldable pub unwind : List Bytes → Bytes
unwind [] = []
unwind (c ∷ []) = c
unwind (c ∷ d ∷ ds) = unwind (d ∷ ds) ++ slash ∷ c

dot_if_empty : Bytes → Bytes
dot_if_empty [] = codes "."
dot_if_empty (c ∷ s) = c ∷ s

-- filepath.Clean.
unfoldable pub clean : Bytes → Bytes
unfolding dot_if_empty components walk unwind
clean [] = codes "."
clean (c ∷ s) =
    if c == slash
    then slash ∷ unwind (walk true [] (components s))
    else dot_if_empty (unwind (walk false [] (components (c ∷ s))))

-- strings.Join(l, "/").
unfoldable pub with_slashes : List Bytes → Bytes
with_slashes [] = []
with_slashes (s ∷ []) = s
with_slashes (s ∷ t ∷ l) = s ++ slash ∷ with_slashes (t ∷ l)

-- filepath.Join.
unfoldable pub join : List Bytes → Bytes
unfolding clean with_slashes
join [] = []
join ([] ∷ l) = join l
join ((c ∷ s) ∷ l) = clean (with_slashes ((c ∷ s) ∷ l))

-- The text up to its last slash, and the slash.
up_to_slash : Bytes → Bytes
up_to_slash [] = []
up_to_slash (c ∷ s) =
    let rest = up_to_slash s in
    elim rest [ [] ↦ if c == slash then c ∷ [] else [] | d ∷ t ↦ c ∷ d ∷ t ]

-- The directory of prepareSocketDir, filepath.Dir of the path.
unfoldable pub socket_dir : Bytes → Bytes
unfolding up_to_slash clean
socket_dir path = clean (up_to_slash path)

-- What os.Getenv gives for each name.
abbrev pub Environ : Type 0
Environ = Bytes → Bytes

abbrev pub socket_var : Bytes
socket_var = codes "HT_SOCKET"

abbrev pub runtime_var : Bytes
runtime_var = codes "XDG_RUNTIME_DIR"

or_else : Bytes → Bytes → Bytes
or_else [] other = other
or_else (c ∷ s) other = c ∷ s

runtime_path : Bytes → ℕ → Bytes
unfolding join decimal
runtime_path [] uid = join (codes "/tmp" ∷ (codes "ht-" ++ decimal uid) ∷ codes "ht.sock" ∷ [])
runtime_path (c ∷ s) uid = join ((c ∷ s) ∷ codes "ht" ∷ codes "ht.sock" ∷ [])

-- DefaultSocketPath, for the user with an id.
unfoldable pub default_socket_path : Environ → ℕ → Bytes
unfolding or_else runtime_path
default_socket_path env uid = or_else (env socket_var) (runtime_path (env runtime_var) uid)

-- The path of client.New.
unfoldable pub client_path : Bytes → Environ → ℕ → Bytes
unfolding or_else default_socket_path
client_path socket env uid = or_else socket (default_socket_path env uid)

-- The path that daemonRun listens on.
unfoldable pub daemon_path : Environ → ℕ → Bytes
unfolding or_else default_socket_path
daemon_path env uid = or_else (env socket_var) (default_socket_path env uid)

-- The environment that EnsureDaemon gives to the daemon's process: of two entries for a name the last one counts, as
-- package exec documents.
unfoldable pub daemon_environ : Bytes → Environ → Environ
daemon_environ path env k = if bytes_eq socket_var k then path else env k
