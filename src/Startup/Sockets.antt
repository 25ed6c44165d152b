-- ===== src/Startup/Sockets.antt =====
-- No socket stays open, however main (srcs/main.cpp) ends.
use irc.Base.{
  ℕ, Bool, true, false, ◌≡◌, refl, sym, subst, Option-cases, [], ◌∷◌, List, some, nat_ord, arith,
  ◌==◌, ==_eq, ==_refl, not, if◌then◌else◌, Bool-cases, inl, inr,
}
use irc.Map.{Map, lookup, member, insert, erase}
use irc.Map.Laws.{member-erase}
use irc.Text.{Text}
use irc.Client.{Client}
use irc.Server.{Server}
use irc.Connection.{normal, thrown, add_poll_fd, has_poll_fd}
use irc.Loop.{System, Polled, Ran, ended, unfinished, AtRan, run, main_arguments, new_server}
use irc.Protocol.Rules.{by_if, by_option}
use irc.Polling.{IsPolled}
use irc.Polling.Accepted.{AcceptsUnused, PolledOutcome}
use irc.Polling.Running.{run-new_server-PolledOutcome}
use irc.Startup.{
  Sockets, StartCalls, Started, started, not_started, Process, exited, serving,
  install_signal_handlers, create_listening_socket, start_server, listening, delete_clients,
  delete_server, finish, serve, main,
}

-- Whether the client of an entry of the map has the descriptor.
has_socket : ℕ → Map ℕ Client → Bool
has_socket fd [] = false
has_socket fd ((g, c) ∷ rest) = if c.fd == fd then true else has_socket fd rest

member-delete_clients :
    (fd : ℕ) (clients : Map ℕ Client) (sockets : Sockets)
    → member fd (delete_clients clients sockets)
      ≡ (if has_socket fd clients then false else member fd sockets)
unfolding delete_clients has_socket
member-delete_clients fd [] sockets = refl
member-delete_clients fd ((g, c) ∷ rest) sockets =
    ground (arith, member-delete_clients fd rest (erase c.fd sockets), member-erase c.fd fd sockets)

-- Nothing is left of sockets that no descriptor is in.
empty_lem : (sockets : Sockets) → ((fd : ℕ) → member fd sockets ≡ false) → sockets ≡ []
unfolding member lookup
empty_lem [] h = refl
empty_lem ((fd, u) ∷ rest) h = absurd (ground (arith, h fd, ==_refl fd))

-- A client that stands under its own descriptor.
has_socket_of_lookup :
    (fd : ℕ) (clients : Map ℕ Client) (c : Client)
    → lookup fd clients ≡ some c
    → c.fd ≡ fd
    → has_socket fd clients ≡ true
unfolding lookup has_socket
has_socket_of_lookup fd [] c found keyed = absurd (ground (arith, found))
has_socket_of_lookup fd ((g, d) ∷ rest) c found keyed =
    ground (arith, has_socket_of_lookup fd rest c, found, keyed, ==_refl fd)

-- The destructor closes every socket.
pub delete_server-closes : (s : Server) → IsPolled s → delete_server s ≡ []
unfolding delete_server member
delete_server-closes s w =
    empty_lem (erase s.listener_fd (delete_clients s.clients s.open_fds)) closed
  where
    owned : (fd : ℕ) → member fd s.clients ≡ true → has_socket fd s.clients ≡ true
    owned fd h = elim (Option-cases (lookup fd s.clients)) [
      | inl missing ↦ absurd (ground (arith, missing, h))
      | inr (c, found) ↦ has_socket_of_lookup fd s.clients c found (w.served fd c found).keyed
    ]

    closed :
        (fd : ℕ) → member fd (erase s.listener_fd (delete_clients s.clients s.open_fds)) ≡ false
    closed fd = elim (Bool-cases (member fd s.clients)) [
      | inl client ↦ ground (
        arith,
        member-erase s.listener_fd fd (delete_clients s.clients s.open_fds),
        member-delete_clients fd s.clients s.open_fds,
        owned fd client,
      )
      | inr other ↦ ground (
        arith,
        member-erase s.listener_fd fd (delete_clients s.clients s.open_fds),
        member-delete_clients fd s.clients s.open_fds,
        w.opened fd,
        ==_eq fd s.listener_fd,
        ==_refl fd,
      )
    ]

-- No socket is open behind the program, or none would be if the server that goes on were destroyed.
abbrev pub IsClosed : Process → Type 0
IsClosed (exited status sockets) = sockets ≡ []
IsClosed (serving s) = delete_server s ≡ []

finish-closes : (r : Ran) → AtRan PolledOutcome r → IsClosed (finish r)
unfolding finish
finish-closes (ended (normal s)) w = delete_server-closes s w
finish-closes (ended (thrown s)) w = delete_server-closes s w
finish-closes (unfinished s) w = delete_server-closes s w

-- What a start that fails leaves open, and what a server that is started is.
IsStarted : Text → Started → Type 0
IsStarted password (started s) = (fd : ℕ) × (s ≡ new_server fd password)
IsStarted password (not_started sockets) = sockets ≡ []

closed_again : (fd : ℕ) → erase fd (insert fd (tt {0}) []) ≡ []
unfolding erase insert
closed_again fd = ground (arith, ==_refl fd)

create_listening_socket-IsStarted :
    (password : Text) (calls : StartCalls)
    → IsStarted password (create_listening_socket password calls [])
unfolding create_listening_socket listening add_poll_fd has_poll_fd IsStarted new_server insert
create_listening_socket-IsStarted password calls =
    by_option P calls.socket (λ _. refl)
      λ fd _.
        by_if P (not calls.setsockopt) (λ _. closed_again fd)
          λ _.
            by_if P (not calls.fcntl) (λ _. closed_again fd)
              λ _.
                by_if P (not calls.bind) (λ _. closed_again fd)
                  λ _. by_if P (not calls.listen) (λ _. closed_again fd) (λ _. (fd, refl))
  where
    P : Started → Type 0
    P = IsStarted password

start_server-IsStarted :
    (password : Text) (calls : StartCalls) → IsStarted password (start_server password calls [])
unfolding start_server IsStarted
start_server-IsStarted password calls =
    by_if (IsStarted password) (not (install_signal_handlers calls)) (λ _. refl)
      (λ _. create_listening_socket-IsStarted password calls)

module _ (polls : ℕ) (io : ℕ → System) (poll : ℕ → Server → Polled)
    (unused : (call : ℕ) → AcceptsUnused (io call)) where
  serve-closes :
      (password : Text) (r : Started) → IsStarted password r → IsClosed (serve polls io poll r)
  unfolding serve IsStarted
  serve-closes password (not_started sockets) h = h
  serve-closes password (started s) (fd, e) = finish-closes (run polls io poll s) (
      subst (λ t. AtRan PolledOutcome (run polls io poll t)) (sym e)
        (run-new_server-PolledOutcome fd password polls io poll unused))

  -- Whatever the arguments, whatever fails at the start, whatever the clients send and however often
  -- poll() is called, no socket is open behind main, on failure and on success, and destroying a
  -- server that goes on would close every socket, provided that accept() gives descriptors that are
  -- not open.
  pub main_closes :
      (arguments : List Text) (calls : StartCalls) → IsClosed (main arguments calls polls io poll)
  unfolding main
  main_closes arguments calls =
      by_option IsClosed (main_arguments arguments) (λ _. refl)
        λ accepted _. serve-closes accepted.1 _ (start_server-IsStarted accepted.1 calls)
