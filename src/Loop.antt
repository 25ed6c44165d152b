-- ===== src/Loop.antt =====
-- Server::run and removeDisconnectedClients (srcs/Server/Server.cpp), the constructor, and the
-- arguments of main (srcs/main.cpp). Each round has its own results of the system calls.
use irc.Base.{
  ℕ, zero, suc, Bool, true, false, not, ◌||◌, ◌&&◌, [], ◌∷◌, List, Option, none, some, ◌==◌,
  nat_ord, get_elem?, length, is_empty, if◌then◌else◌,
}
use irc.Text.{Text}
use irc.Number.{check_port}
use irc.Server.{Server, Events, PollFd, find_client}
use irc.Connection.{
  Outcome, normal, thrown, Accepted, Received, no_events, accept_client, remove_client,
  receive_from_client, flush_client_output,
}

-- What the system calls and the signal handler do in one round of the loop over the descriptors.
pub record Io : Type 0 where
  pub stop_requested : Bool
  pub accepts : Accepted
  pub receives : Received
  pub sends : Option ℕ

-- The server after a round, and whether the index moves on.
pub data Served : Type 0 where
  advance : Server → Served
  stay : Server → Served
  aborted : Server → Served

unfoldable pub served_listener : Outcome → Served
served_listener (normal s) = advance s
served_listener (thrown s) = aborted s

unfoldable pub serve_hangup : ℕ → Events → Server → Served
serve_hangup index events s = if events.pollhup then stay (remove_client index s) else advance s

unfoldable pub serve_output : ℕ → ℕ → Events → Io → Server → Served
unfolding serve_hangup
serve_output index fd events io s =
    if events.pollout
    then (let (flushed, alive) = flush_client_output index fd io.sends s in
        if alive then serve_hangup index events flushed else stay (remove_client index flushed))
    else serve_hangup index events s

unfoldable pub serve_input : ℕ → ℕ → Events → Io → Server → Served
unfolding serve_output
serve_input index fd events io s =
    if events.pollin
    then (let (received, alive) = receive_from_client fd io.receives s in
        if alive
        then serve_output index fd events io received
        else stay (remove_client index received))
    else serve_output index fd events io s

unfoldable pub is_silent : Events → Bool
is_silent e = not (e.pollin || e.pollout || e.pollerr || e.pollnval || e.pollhup)

-- The body of the loop, at the entry with the index.
unfoldable pub serve_descriptor : ℕ → PollFd → Io → Server → Served
unfolding is_silent served_listener serve_input
serve_descriptor index p io s =
    let events = p.revents in
    if is_silent events
    then advance s
    else if p.fd == s.listener_fd
    then if events.pollin then served_listener (accept_client io.accepts s) else advance s
    else if events.pollerr || events.pollnval
    then stay (remove_client index s)
    else serve_input index p.fd events io s

-- What the system does in a round, by the number of the round and the state that it meets.
abbrev pub System : Type 0
System = ℕ → Server → Io

-- The loop over the descriptors, on fuel; Polling/Fuel relates it to the loop without one.
unfoldable pub serve_descriptors : ℕ → System → ℕ → ℕ → Server → Outcome
unfolding serve_descriptor
serve_descriptors zero io round index s = normal s
serve_descriptors (suc fuel) io round index s = elim (get_elem? s.poll_fds index) [
  | none ↦ normal s
  | some p ↦ elim (io round s).stop_requested [
    | true ↦ normal s
    | false ↦ elim (serve_descriptor index p (io round s) s) [
      | advance next ↦ serve_descriptors fuel io (suc round) (suc index) next
      | stay next ↦ serve_descriptors fuel io (suc round) index next
      | aborted next ↦ thrown next
    ]
  ]
]

unfoldable pub wants_removal : ℕ → Server → Bool
unfolding find_client
wants_removal fd s = elim (find_client fd s) [
  | none ↦ false
  | some client ↦ client.disconnect_requested
]

-- On fuel: each round removes an entry or moves past one. WellFormed/Removal relates it to the loop
-- without one.
unfoldable pub remove_disconnected : ℕ → ℕ → Server → Server
unfolding wants_removal
remove_disconnected zero index s = s
remove_disconnected (suc fuel) index s = elim (get_elem? s.poll_fds index) [
  | none ↦ s
  | some p ↦ elim (not (p.fd == s.listener_fd) && wants_removal p.fd s) [
    | true ↦ remove_disconnected fuel index (remove_client index s)
    | false ↦ remove_disconnected fuel (suc index) s
  ]
]

unfoldable pub remove_disconnected_clients : Server → Server
unfolding remove_disconnected
remove_disconnected_clients s = remove_disconnected (suc (length s.poll_fds)) 0 s

-- `poll()`: an error, with whether the stop is requested by then, no descriptor ready, or the events of the descriptors.
pub data Polled : Type 0 where
  poll_failed : Bool → Polled
  nothing_ready : Polled
  ready : List Events → Polled

unfoldable pub set_revents : List Events → List PollFd → List PollFd
set_revents events [] = []
set_revents [] (p ∷ rest) = p ∷ rest
set_revents (e ∷ events) (p ∷ rest) = record p { revents = e } ∷ set_revents events rest

-- The server with the events of `poll()`, its descriptors served. One entry more than there are is
-- accepted at most, and each round moves on or removes an entry.
unfoldable pub serve_ready : System → List Events → Server → Outcome
unfolding serve_descriptors set_revents
serve_ready io events s =
    serve_descriptors (suc (suc (length s.poll_fds))) io 1 0
      (record s { poll_fds = set_revents events s.poll_fds })

-- The loop of `run`, watched for a number of calls of `poll()`: it has ended by then, or it goes on.
pub data Ran : Type 0 where
  ended : Outcome → Ran
  unfinished : Server → Ran

-- A predicate on the server that the loop has reached, whether it has ended or goes on.
abbrev pub AtRan : (Outcome → Type 0) → Ran → Type 0
AtRan P (ended o) = P o
AtRan P (unfinished s) = P (normal s)

-- The calls of `poll()` are numbered by how many are watched behind them.
unfoldable pub run : ℕ → (ℕ → System) → (ℕ → Server → Polled) → Server → Ran
unfolding serve_ready remove_disconnected_clients
run zero io poll s = unfinished s
run (suc calls) io poll s = elim (io calls 0 s).stop_requested [
  | true ↦ ended (normal s)
  | false ↦ elim (poll calls s) [
    | poll_failed stopped ↦ ended (if stopped then normal s else thrown s)
    | nothing_ready ↦ run calls io poll s
    | ready events ↦ elim (serve_ready (io calls) events s) [
      | thrown t ↦ ended (thrown t)
      | normal t ↦ run calls io poll (remove_disconnected_clients t)
    ]
  ]
]

-- The server that the constructor leaves when `socket()` and the calls after it succeed.
unfoldable pub new_server : ℕ → Text → Server
new_server listener password = record {
  listener_fd = listener;
  password = password;
  poll_fds = record { fd = listener; wants_in = true; wants_out = false; revents = no_events } ∷ [];
  clients = [];
  nickname_index = [];
  channels = [];
  open_fds = (listener, tt) ∷ [];
}

-- The arguments that main accepts, behind the program's name: the port and the password.
unfoldable pub main_arguments : List Text → Option (ℕ × Text)
unfolding check_port
main_arguments (port ∷ password ∷ []) = elim (check_port port) [
  | none ↦ none
  | some value ↦ if is_empty password then none else some (value, password)
]
main_arguments _ = none
