-- ===== src/Lib.antt =====
-- headless terminal: a model of the Go program that runs terminal programs in the background, and
-- the theorems on it.
--
-- A daemon (internal/daemon/daemon.go) keeps sessions (internal/session/session.go). A session is
-- a child process on a PTY, a terminal emulator that is fed the child's output, and subscribers
-- that get each chunk of it through a channel. A client sends one request per connection: it runs,
-- lists, stops and removes sessions, sends keys, takes views of the screen, watches the output,
-- and waits for a condition (internal/wait/wait.go). The keys that a user writes in vim's notation
-- are turned into bytes by internal/keys/keys.go.
--
-- Which file models what:
-- - Keys: Parse, ParseAll, parseSpecial, resolveBase and applyCtrl. Keys.Named has the two tables.
-- - Utf8: what the program uses of Go's UTF-8, on natural numbers for bytes and runes.
-- - Session: the fields behind the lock and the operations on them: Start is `start`, View and
--   snapshotLocked are `view`, Subscribe is `subscribe`, the function that it returns is
--   `unsubscribe`, the rounds of readLoop are `take_output` and `deliver`, the critical section of
--   waitLoop is `mark_exited`, and Resize, signal and the end of Close have their names.
-- - Session.Chan: the channels of the subscribers. Session.Machine: the goroutines as steps, where
--   a step that needs the lock waits while readLoop holds it.
-- - Session.Ids: newID, whose ids Start is given here.
-- - Session.Pacing: Send, SendPaced and escapeSeqEnd; writes and sleeps are a list of actions.
-- - Wait: Wait as rounds, one for each event that its `select` receives; pickTrigger.
-- - Daemon: the maps behind the daemon's lock, resolve, and the critical sections of the handlers.
--   A Go map has the order in which a range goes through it, and may be nil.
-- - Daemon.Requests: the records of internal/protocol/protocol.go, and how the handlers read and
--   fill them. Daemon.Handlers and Daemon.Handlers.Run: the handlers, on decoded parameters.
--   `World` is the maps and the session objects. What happens between two critical sections of a
--   handler is a second world.
-- - Daemon.Waiting: what comes between the park of a watcher and its session.
-- - Daemon.Handlers.Shutdown: closeAllSessions, with each Close.
-- - Daemon.Serve: Run and stop, as turns of daemons that have one socket path. Daemon.Serve.Ending
--   is about how Run returns, Daemon.Serve.Orphans about a second daemon on the path.
-- - Daemon.Changes: what requests do to the maps when they come one at a time. Daemon.Sends: what the
--   critical sections, in any order, do to the channels of waiting watchers. Daemon.Resolve.Unordered: the map of sessions as a
--   quotient, without the order of its entries.
-- - Socket: the path of the socket, for the daemon, for New of the client and for the process that
--   EnsureDaemon starts, with Clean, Join and Dir of `path/filepath`.
-- - Daemon.Made, Daemon.Entries, Daemon.Handlers.Safety: the state under every critical section.
--   Daemon.Meaning: what a reference denotes, apart from the maps.
-- - Wire: internal/protocol/protocol.go as values, and the writers of internal/daemon/daemon.go.
--   `Json` has json.Marshal and json.Unmarshal for each type.
-- - Server: handleConn. `Surroundings` is what a handler gets from elsewhere: the PTY, the
--   process, `regexp`, what a wait sees and what other requests do meanwhile. Server.Replay puts
--   opWatch, the session and the watcher together, Server.Safety the steps of the daemon
--   from New to closeAllSessions.
-- - Client: call, its wrappers and Watch of internal/client/client.go; Client.Starting has
--   EnsureDaemon. The connection is a function from the bytes that are written to the bytes that
--   come back. Client.Calls and Client.Streaming put client and daemon together.
-- - Cli: cmd/ht. Cli.Main is main, cmdDaemon and the dispatch, Cli.Main.FlagSets the flags that
--   each command declares, Cli.Main.Debug cmdDebug, Cli.Listing cmdList. Cli.Numbers has
--   parseCursor and parseSize, Cli.Screen writeScreen, Cli.Flags the requests that the commands
--   make, Cli.Commands the commands, Cli.Main.Codes the exit codes of usage errors, Cli.Recording and Cli.Watching `ht record`
--   and `ht watch`, Cli.Watching.Signals the two goroutines of the latter.
-- - Tests: runs at concrete inputs.
--
-- A panic of the program, a close of a closed channel or a write to a nil map, is `none`. An error
-- is a constructor with the values that the message holds. The use of a terminal that Close has
-- freed is a panic too: it comes as `nil_terminal` out of the operations of a session, and the
-- handlers of Server end in `panics` on it.
--
-- Bounds: the loops of Parse, of SendPaced, of the conversion to runes and of TrimSpace run on
-- fuel, which is the length of the text, since each round takes a byte at least; the digits of a
-- number run on the number, which is no less than its digits but one. Durations are cut to
-- milliseconds by the commands and wrap at 64 bits where the daemon makes them from milliseconds;
-- cursor positions and sizes have 16 bits. EnsureDaemon reads the clock once for its deadline and
-- then tests it 121 times at most: each pass of its loop sleeps for 25 ms, and the loop ends after
-- 3 s.
--
-- Not modelled: the emulator, the PTY, the process, `regexp` and `encoding/json`, which are
-- parameters; the files, sockets and processes behind Run and EnsureDaemon, whose outcomes are
-- parameters; the parser of flags, which is `pflag`; the alignment and the ages of the table of ht
-- list; what ht debug does to the terminal; signals, which end a recording; what goes to the
-- standard error; internal/termshot, a copy of another library; the clock: a wait gets its timers
-- as events, and the start times of sessions and the time that a wait takes are not kept. An error
-- of the daemon goes to the client as a value in place of its text.
pub mod Base
pub mod Utf8
pub mod Keys
pub mod Session
pub mod Wait
pub mod Daemon
pub mod Wire
pub mod Server
pub mod Socket
pub mod Client
pub mod Cli
mod Tests
