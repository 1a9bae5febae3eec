-- ===== src/Socket/Paths.antt =====
-- internal/daemon/daemon.go and internal/client/client.go: which path the daemon and its clients use.
use headless_terminal.Base.{
  ℕ, ◌≡◌, ◌≢◌, refl, sym, ap, ◌∙◌, Bool, true, false, ◌||◌, List, [], ◌∷◌, ◌++◌, Bytes, codes,
  bytes_eq, ◌==◌, drop, arith, Bool-cases, inl, inr, All,
}
use headless_terminal.Cli.Numbers.{decimal}
use headless_terminal.Cli.Numbers.Digits.{value, value-decimal}
use headless_terminal.Cli.Numbers.RoundTrip.{IsDigit, decimal_digits}
use headless_terminal.Socket.{
  slash, components, walk, unwind, clean, with_slashes, join, socket_dir, Environ, socket_var,
  runtime_var, or_else, runtime_path, default_socket_path, client_path, daemon_path, daemon_environ,
  dot_if_empty, up_to_slash,
}

dot_if_empty-ne-nil : (s : Bytes) → dot_if_empty s ≢ []
unfolding dot_if_empty
dot_if_empty-ne-nil [] = λ e. cc
dot_if_empty-ne-nil (c ∷ s) = λ e. cc

clean-ne-nil : (s : Bytes) → clean s ≢ []
unfolding clean
clean-ne-nil [] = λ e. cc
clean-ne-nil (c ∷ s) = elim (Bool-cases (c == slash)) [
  | inl rooted ↦ rw rooted (λ e. cc)
  | inr plain ↦ rw plain (dot_if_empty-ne-nil _)
]

or_else-ne-nil : (s t : Bytes) → t ≢ [] → or_else s t ≢ []
unfolding or_else
or_else-ne-nil [] t ne = ne
or_else-ne-nil (c ∷ s) t ne = λ e. cc

or_else-same : (s t : Bytes) → s ≢ [] → or_else s t ≡ s
unfolding or_else
or_else-same [] t ne = absurd (ne refl)
or_else-same (c ∷ s) t ne = refl

join-ne-nil : (s : Bytes) (l : List Bytes) → s ≢ [] → join (s ∷ l) ≢ []
unfolding join
join-ne-nil [] l ne = absurd (ne refl)
join-ne-nil (c ∷ s) l ne = clean-ne-nil (with_slashes ((c ∷ s) ∷ l))

runtime_path-ne-nil : (dir : Bytes) (uid : ℕ) → runtime_path dir uid ≢ []
unfolding runtime_path
runtime_path-ne-nil [] uid =
    join-ne-nil (codes "/tmp") ((codes "ht-" ++ decimal uid) ∷ codes "ht.sock" ∷ []) (λ e. cc)
runtime_path-ne-nil (c ∷ s) uid = join-ne-nil (c ∷ s) (codes "ht" ∷ codes "ht.sock" ∷ []) (λ e. cc)

client_path-ne-nil : (socket : Bytes) (env : Environ) (uid : ℕ) → client_path socket env uid ≢ []
unfolding client_path default_socket_path
client_path-ne-nil socket env uid =
    or_else-ne-nil socket _
      (or_else-ne-nil (env socket_var) _ (runtime_path-ne-nil (env runtime_var) uid))

-- A client dials the path that it is given, or the default one where that is empty, and never an
-- empty path. The daemon that it starts listens on the path that it dials, whatever the
-- environment. The commands, which give a client the value of HT_SOCKET, dial the path of a daemon
-- that a user starts in the same environment.
pub daemon_path-client_path :
    (socket : Bytes) (env : Environ) (uid : ℕ)
    → (socket ≢ [] → client_path socket env uid ≡ socket)
      × (socket ≡ [] → client_path socket env uid ≡ default_socket_path env uid)
      × (daemon_path (daemon_environ (client_path socket env uid) env) uid
          ≡ client_path socket env uid)
      × (client_path (env socket_var) env uid ≡ daemon_path env uid)
      × (client_path socket env uid ≢ [])
unfolding daemon_path daemon_environ client_path bytes_eq or_else
daemon_path-client_path socket env uid =
    let full = client_path-ne-nil socket env uid in
    (
      or_else-same socket (default_socket_path env uid),
      λ e. rw e refl,
      or_else-same (client_path socket env uid) _ full,
      refl,
      full,
    )

abbrev has_slash : Bytes → Bool
has_slash [] = false
has_slash (c ∷ s) = c == slash || has_slash s

no_slash : (s : Bytes) → has_slash s ≡ false → All (λ c. c ≢ slash) s
no_slash [] e = tt
no_slash (c ∷ s) e = (ground arith, no_slash s (ground arith))

-- A text without a slash is one component.
components-append :
    (s t : Bytes) → All (λ c. c ≢ slash) s → components (s ++ slash ∷ t) ≡ s ∷ components t
unfolding components
components-append [] t a = refl
components-append (c ∷ s) t (ne, a) =
    let other : (c == slash) ≡ false = ground arith in rw (components-append s t a, other) refl

digits_no_slash : (s : Bytes) → All IsDigit s → All (λ c. c ≢ slash) s
digits_no_slash [] a = tt
digits_no_slash (c ∷ s) ((lo, hi), a) = ((λ e. omega arith), digits_no_slash s a)

up_to_slash-none : (s : Bytes) → All (λ c. c ≢ slash) s → up_to_slash s ≡ []
unfolding up_to_slash
up_to_slash-none [] a = refl
up_to_slash-none (c ∷ s) (ne, a) =
    let other : (c == slash) ≡ false = ground arith in rw (up_to_slash-none s a, other) refl

up_to_slash-append :
    (s t : Bytes) → All (λ c. c ≢ slash) t → up_to_slash (s ++ slash ∷ t) ≡ s ++ slash ∷ []
unfolding up_to_slash
up_to_slash-append [] t a = rw (up_to_slash-none t a) refl
up_to_slash-append (c ∷ []) t a = rw (up_to_slash-append [] t a) refl
up_to_slash-append (c ∷ d ∷ s) t a = rw (up_to_slash-append (d ∷ s) t a) refl

-- The directory for the sockets of a user, below /tmp.
abbrev pub user_dir : ℕ → Bytes
user_dir uid = codes "/tmp/ht-" ++ decimal uid

components-user :
    (uid : ℕ) (t : Bytes)
    → components (user_dir uid ++ slash ∷ t)
      ≡ [] ∷ codes "tmp" ∷ (codes "ht-" ++ decimal uid) ∷ components t
components-user uid t =
    let plain = digits_no_slash (decimal uid) (decimal_digits uid) in
    let named =
      components-append (codes "ht-" ++ decimal uid) t
        ((λ e. omega arith), ((λ e. omega arith), ((λ e. omega arith), plain))) in
    components-append [] (codes "tmp/ht-" ++ decimal uid ++ slash ∷ t) tt
    ∙ ap (λ l. [] ∷ l)
        (components-append (codes "tmp") (codes "ht-" ++ decimal uid ++ slash ∷ t)
            (no_slash (codes "tmp") refl)
          ∙ ap (λ l. codes "tmp" ∷ l) named)

clean-user :
    (uid : ℕ)
    → (clean (user_dir uid ++ codes "/ht.sock") ≡ user_dir uid ++ codes "/ht.sock")
      × (clean (user_dir uid ++ codes "/") ≡ user_dir uid)
unfolding clean walk unwind bytes_eq
clean-user uid = (
  ap (λ l. slash ∷ unwind (walk true [] l)) (components-user uid (codes "ht.sock")),
  ap (λ l. slash ∷ unwind (walk true [] l)) (components-user uid []),
)

-- What a user's path stands for when its digits are read.
value-user :
    (uid : ℕ) → value 0 (drop 8 (user_dir uid ++ codes "/ht.sock")) ≡ value uid (codes "/ht.sock")
value-user uid = value-decimal uid (codes "/ht.sock")

same_value : (n m : ℕ) → value n (codes "/ht.sock") ≡ value m (codes "/ht.sock") → n ≡ m
unfolding value
same_value n m e = omega arith

join-user :
    (uid : ℕ)
    → join (codes "/tmp" ∷ (codes "ht-" ++ decimal uid) ∷ codes "ht.sock" ∷ [])
      ≡ user_dir uid ++ codes "/ht.sock"
unfolding join
join-user uid = (clean-user uid).0

default_is_own :
    (env : Environ) (uid : ℕ)
    → env socket_var ≡ []
    → env runtime_var ≡ []
    → default_socket_path env uid ≡ user_dir uid ++ codes "/ht.sock"
unfolding default_socket_path
default_is_own env uid s r = rw (s, r) (join-user uid)

dir_is_own : (uid : ℕ) → socket_dir (user_dir uid ++ codes "/ht.sock") ≡ user_dir uid
unfolding socket_dir
dir_is_own uid =
    ap clean (up_to_slash-append (user_dir uid) (codes "ht.sock") (no_slash (codes "ht.sock") refl))
    ∙ (clean-user uid).1

-- Without HT_SOCKET and XDG_RUNTIME_DIR the socket of a user is `ht.sock` in the directory below /tmp that has
-- the user's id in its name, which is the directory that prepareSocketDir makes, and no other user has that path.
pub default_socket_path_own :
    (env env' : Environ) (uid uid' : ℕ)
    → env socket_var ≡ []
    → env runtime_var ≡ []
    → env' socket_var ≡ []
    → env' runtime_var ≡ []
    → uid ≢ uid'
    → (default_socket_path env uid ≡ codes "/tmp/ht-" ++ decimal uid ++ codes "/ht.sock")
      × (socket_dir (default_socket_path env uid) ≡ codes "/tmp/ht-" ++ decimal uid)
      × (default_socket_path env uid ≢ default_socket_path env' uid')
default_socket_path_own env env' uid uid' s r s' r' ne =
    let own = default_is_own env uid s r in
    let other = default_is_own env' uid' s' r' in
    (
      own,
      ap socket_dir own ∙ dir_is_own uid,
      λ e.
          let read =
            sym (value-user uid)
            ∙ ap (λ p. value 0 (drop 8 p)) (sym own ∙ e ∙ other)
            ∙ value-user uid' in
          ne (same_value uid uid' read),
    )
