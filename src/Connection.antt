-- ===== src/Connection.antt =====
-- srcs/Server/ServerSocket.cpp, flushClientOutput (srcs/Server/ServerSend.cpp) and addPollFd
-- (srcs/Server/ServerUtils.cpp): the life of a connection. What the system calls return is an
-- argument; the handler of the lines is Handler/Dispatch.antt.
pub mod Settled
use irc.Base.{
  ℕ, zero, suc, ◌*◌, Bool, true, false, not, [], ◌∷◌, ◌++◌, List, Option, none, some, ◌==◌, nat_ord,
  get_elem?, ltb, if◌then◌else◌,
}
use irc.Map.{insert, erase, member}
use irc.Text.{Text, codes}
use irc.Client.{
  Client, new_client, append_input, input_size, pop_line, has_output, consume_output,
  request_disconnect,
}
use irc.Server.{Server, Events, PollFd, find_client, modify_client}
use irc.Server.Cleanup.{cleanup_client_irc_state}
use irc.Handler.Dispatch.{handle_complete_line}

-- A call that may throw: the state that it leaves, and whether it threw.
pub data Outcome : Type 0 where
  normal : Server → Outcome
  thrown : Server → Outcome

abbrev pub no_events : Events
no_events = record {
  pollin = false;
  pollout = false;
  pollerr = false;
  pollnval = false;
  pollhup = false;
}

unfoldable pub has_poll_fd : ℕ → List PollFd → Bool
has_poll_fd fd [] = false
has_poll_fd fd (p ∷ rest) = if p.fd == fd then true else has_poll_fd fd rest

-- `addPollFd(fd, POLLIN)`
unfoldable pub add_poll_fd : ℕ → Server → Outcome
unfolding has_poll_fd
add_poll_fd fd s =
    if has_poll_fd fd s.poll_fds
    then thrown s
    else normal (record s {
      poll_fds =
          s.poll_fds
          ++ record { fd = fd; wants_in = true; wants_out = false; revents = no_events } ∷ [];
    })

-- `accept()`, and whether the new descriptor could be made non-blocking.
pub data Accepted : Type 0 where
  accept_failed : Accepted
  accepted : ℕ → Bool → Accepted

-- `close(fd)`
abbrev pub close_fd : ℕ → Server → Server
close_fd fd s = record s { open_fds = erase fd s.open_fds }

abbrev pub open_fd : ℕ → Server → Server
open_fd fd s = record s { open_fds = insert fd tt s.open_fds }

-- The handler of the exceptions forgets the descriptor, deletes the client, whose destructor closes the
-- descriptor, or closes the descriptor itself, and throws on.
unfoldable pub forget_accepted : ℕ → Outcome → Outcome
forget_accepted fd (normal s) = normal s
forget_accepted fd (thrown s) = thrown (close_fd fd (record s { clients = erase fd s.clients }))

unfoldable pub register_client : ℕ → Server → Outcome
unfolding member add_poll_fd new_client
register_client fd s =
    if member fd s.clients
    then thrown s
    else add_poll_fd fd (record s { clients = insert fd (new_client fd) s.clients })

unfoldable pub accept_client : Accepted → Server → Outcome
unfolding forget_accepted register_client
accept_client accept_failed s = normal s
accept_client (accepted fd non_blocking) s =
    let opened = open_fd fd s in
    forget_accepted fd (if non_blocking then register_client fd opened else thrown opened)

-- `_pollFds.erase(_pollFds.begin() + index)`
unfoldable pub erase_at : ℕ → List PollFd → List PollFd
erase_at index [] = []
erase_at zero (p ∷ rest) = rest
erase_at (suc index) (p ∷ rest) = p ∷ erase_at index rest

-- The destructor of the client closes its socket.
unfoldable pub remove_descriptor : ℕ → Server → Server
unfolding find_client
remove_descriptor fd s = elim (find_client fd s) [
  | none ↦ s
  | some client ↦
      let cleaned = cleanup_client_irc_state client s in
      close_fd client.fd (record cleaned { clients = erase fd cleaned.clients })
]

-- The index is in range.
unfoldable pub remove_client : ℕ → Server → Server
unfolding remove_descriptor erase_at
remove_client index s = elim (get_elem? s.poll_fds index) [
  | none ↦ s
  | some p ↦
      let removed = remove_descriptor p.fd s in
      record removed { poll_fds = erase_at index removed.poll_fds }
]

abbrev pub max_pending_input : ℕ
max_pending_input = 64 * 1024

-- `recv()`: some bytes, 1024 at most, the end of the stream, or an error.
pub data Received : Type 0 where
  bytes : Text → Received
  closed : Received
  recv_failed : Received

abbrev pub set_input : Text → Client → Client
set_input rest client = record client { input_buffer = rest }

abbrev pub disconnects : ℕ → Server → Bool
disconnects fd s = elim (find_client fd s) [
  | none ↦ true
  | some client ↦ client.disconnect_requested
]

-- The loop over the complete lines of the buffer, on fuel.
unfoldable pub serve_lines : ℕ → ℕ → Server → Server
unfolding find_client pop_line
serve_lines zero fd s = s
serve_lines (suc fuel) fd s = elim (find_client fd s) [
  | none ↦ s
  | some client ↦ elim (pop_line client) [
    | none ↦ s
    | some (line, popped) ↦
        let handled =
          handle_complete_line fd line (modify_client fd (set_input popped.input_buffer) s) in
        elim (disconnects fd handled) [ true ↦ handled | false ↦ serve_lines fuel fd handled ]
  ]
]

abbrev pub within_input : ℕ → Server → Bool
within_input fd s = elim (find_client fd s) [
  | none ↦ false
  | some client ↦ not (ltb max_pending_input (input_size client))
]

-- Every line takes a byte of the buffer at least, so its size is fuel enough.
unfoldable pub receive_bytes : ℕ → Text → Client → Server → Server × Bool
unfolding serve_lines append_input
receive_bytes fd received client s =
    let read = modify_client fd (append_input received) s in
    let served = serve_lines (suc (input_size (append_input received client))) fd read in
    (served, within_input fd served)

-- False when the connection must be removed.
unfoldable pub receive_from_client : ℕ → Received → Server → Server × Bool
unfolding receive_bytes find_client
receive_from_client fd result s = elim (find_client fd s) [
  | none ↦ (s, false)
  | some client ↦ elim result [
    | closed ↦ (s, false)
    | recv_failed ↦ (s, false)
    | bytes received ↦ receive_bytes fd received client s
  ]
]

-- `events &= ~POLLOUT` at the index.
unfoldable pub disarm_pollout : ℕ → List PollFd → List PollFd
disarm_pollout index [] = []
disarm_pollout zero (p ∷ rest) = record p { wants_out = false } ∷ rest
disarm_pollout (suc index) (p ∷ rest) = p ∷ disarm_pollout index rest

abbrev pub disarm : ℕ → Server → Server
disarm index s = record s { poll_fds = disarm_pollout index s.poll_fds }

-- `send()`: how many bytes went out; none when it returned 0 or less.
unfoldable pub flush_client_output : ℕ → ℕ → Option ℕ → Server → Server × Bool
unfolding find_client disarm_pollout has_output consume_output
flush_client_output index fd sent s = elim (find_client fd s) [
  | none ↦ (s, false)
  | some client ↦ if not (has_output client) then (disarm index s, true) else elim sent [
    | none ↦ (modify_client fd (request_disconnect (codes "Write error")) s, false)
    | some count ↦
        let left = modify_client fd (consume_output count) s in
        (if has_output (consume_output count client) then left else disarm index left, true)
  ]
]
