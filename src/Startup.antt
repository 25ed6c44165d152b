-- ===== src/Startup.antt =====
-- createListeningSocket (srcs/Server/ServerSocket.cpp), installSignalHandlers (srcs/Server/ServerUtils.cpp),
-- the constructor and the destructor of Server (srcs/Server/Server.cpp) and main (srcs/main.cpp): how the
-- server starts and ends, with the sockets that are open. What the system calls return is an argument.
pub mod Sockets
pub mod Status
use irc.Base.{
  ℕ, Bool, true, false, [], ◌∷◌, List, Option, none, some, nat_ord, ◌==◌, not, if◌then◌else◌,
}
use irc.Map.{Map, insert, erase}
use irc.Text.{Text}
use irc.Client.{Client}
use irc.Server.{Server}
use irc.Connection.{Outcome, normal, thrown, add_poll_fd}
use irc.Loop.{System, Polled, Ran, ended, unfinished, run, main_arguments}

-- The sockets that the process has open.
abbrev pub Sockets : Type 0
Sockets = Map ℕ (Unit {0})

-- What the calls of the start return: the descriptor of `socket()`, none for -1, and whether each other
-- call succeeds.
pub record StartCalls : Type 0 where
  pub sigint : Bool
  pub sigterm : Bool
  pub sigpipe : Bool
  pub socket : Option ℕ
  pub setsockopt : Bool
  pub fcntl : Bool
  pub bind : Bool
  pub listen : Bool

-- False when it throws.
unfoldable pub install_signal_handlers : StartCalls → Bool
install_signal_handlers calls =
    if not calls.sigint then false else if not calls.sigterm then false else calls.sigpipe

-- The server with its listener, or an exception, with the sockets that are open then.
pub data Started : Type 0 where
  started : Server → Started
  not_started : Sockets → Started

-- `_listenerFd = fd; addPollFd(_listenerFd, POLLIN)`. When the constructor throws, no destructor runs.
unfoldable pub listening : Outcome → Started
listening (normal s) = started s
listening (thrown s) = not_started s.open_fds

-- The members of a server before it is polled.
abbrev pub blank_server : ℕ → Text → Sockets → Server
blank_server listener password sockets = record {
  listener_fd = listener;
  password = password;
  poll_fds = [];
  clients = [];
  nickname_index = [];
  channels = [];
  open_fds = sockets;
}

unfoldable pub create_listening_socket : Text → StartCalls → Sockets → Started
unfolding listening add_poll_fd
create_listening_socket password calls sockets = elim calls.socket [
  | none ↦ not_started sockets
  | some fd ↦
      let opened = insert fd tt sockets in
      if not calls.setsockopt
      then not_started (erase fd opened)
      else if not calls.fcntl
      then not_started (erase fd opened)
      else if not calls.bind
      then not_started (erase fd opened)
      else if not calls.listen
      then not_started (erase fd opened)
      else listening (add_poll_fd fd (blank_server fd password opened))
]

-- The constructor.
unfoldable pub start_server : Text → StartCalls → Sockets → Started
unfolding install_signal_handlers create_listening_socket
start_server password calls sockets =
    if not (install_signal_handlers calls)
    then not_started sockets
    else create_listening_socket password calls sockets

-- The destructor of each client closes its socket.
unfoldable pub delete_clients : Map ℕ Client → Sockets → Sockets
delete_clients [] sockets = sockets
delete_clients ((fd, client) ∷ rest) sockets = delete_clients rest (erase client.fd sockets)

-- The destructor of the server.
unfoldable pub delete_server : Server → Sockets
unfolding delete_clients
delete_server s = erase s.listener_fd (delete_clients s.clients s.open_fds)

pub data Exit : Type 0 where
  success : Exit
  failure : Exit

-- The program, watched for a number of calls of `poll()`: it has ended, with its status and the sockets
-- that are open behind it, or its server goes on.
pub data Process : Type 0 where
  exited : Exit → Sockets → Process
  serving : Server → Process

-- The server is destroyed when `run` returns and when it throws.
unfoldable pub finish : Ran → Process
unfolding delete_server
finish (ended (normal s)) = exited success (delete_server s)
finish (ended (thrown s)) = exited failure (delete_server s)
finish (unfinished s) = serving s

unfoldable pub serve : ℕ → (ℕ → System) → (ℕ → Server → Polled) → Started → Process
unfolding finish
serve polls io poll (not_started sockets) = exited failure sockets
serve polls io poll (started s) = finish (run polls io poll s)

-- `main`, with the arguments behind the program's name, up to a number of calls of `poll()`, and the
-- sockets that are open behind it. No socket is open before it.
unfoldable pub main : List Text → StartCalls → ℕ → (ℕ → System) → (ℕ → Server → Polled) → Process
unfolding main_arguments start_server serve
main arguments calls polls io poll = elim (main_arguments arguments) [
  | none ↦ exited failure []
  | some (port, password) ↦ serve polls io poll (start_server password calls [])
]
