-- ===== src/Tests/Socket.antt =====
-- Runs of the path of the socket.
use headless_terminal.Base.{Bytes, ◌≡◌, ◌≢◌, refl, [], ◌++◌, codes, arith, bytes_eq, if◌then◌else◌}
use headless_terminal.Cli.Numbers.{decimal}
use headless_terminal.Socket.{
  components, walk, unwind, clean, join, with_slashes, socket_dir, Environ, socket_var, runtime_var,
  default_socket_path, client_path, daemon_path, daemon_environ,
}
use headless_terminal.Socket.Paths.{daemon_path-client_path, default_socket_path_own}

clean_dots : clean (codes "/run//user/./1000/../7/") ≡ codes "/run/user/7"
unfolding clean components walk unwind bytes_eq
clean_dots = refl

clean_above : clean (codes "a/../../b") ≡ codes "../b"
unfolding clean components walk unwind bytes_eq
clean_above = refl

abbrev bare : Environ
bare k = []

abbrev with_runtime : Environ
with_runtime k = if bytes_eq runtime_var k then codes "/run/user/7/" else []

runtime_default : default_socket_path with_runtime 7 ≡ codes "/run/user/7/ht/ht.sock"
unfolding default_socket_path components walk unwind bytes_eq join with_slashes clean
runtime_default = refl

abbrev given : Bytes
given = codes "/tmp/mine/ht.sock"

daemon_path-client_path_example :
    (given ≢ [] → client_path given with_runtime 7 ≡ given)
    × (given ≡ [] → client_path given with_runtime 7 ≡ default_socket_path with_runtime 7)
    × (daemon_path (daemon_environ (client_path given with_runtime 7) with_runtime) 7
        ≡ client_path given with_runtime 7)
    × (client_path (with_runtime socket_var) with_runtime 7 ≡ daemon_path with_runtime 7)
    × (client_path given with_runtime 7 ≢ [])
daemon_path-client_path_example = daemon_path-client_path given with_runtime 7

default_socket_path_own_example :
    (default_socket_path bare 501 ≡ codes "/tmp/ht-" ++ decimal 501 ++ codes "/ht.sock")
    × (socket_dir (default_socket_path bare 501) ≡ codes "/tmp/ht-" ++ decimal 501)
    × (default_socket_path bare 501 ≢ default_socket_path bare 502)
default_socket_path_own_example =
    default_socket_path_own bare bare 501 502 refl refl refl refl (λ e. omega arith)
