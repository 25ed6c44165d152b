-- ===== src/WellFormed/Running.antt =====
-- The loop of the server keeps it well formed, from the start on.
use irc.Base.{
  ℕ, zero, suc, not, ◌&&◌, ◌||◌, List, nat_ord, arith, ◌==◌, if◌then◌else◌, get_elem?, length,
}
use irc.Text.{Text}
use irc.Map.{lookup, map_values}
use irc.Server.{Server, PollFd, Events}
use irc.Server.Send.Frames.{quiet}
use irc.Connection.{
  Outcome, normal, thrown, remove_client, receive_from_client, flush_client_output,
}
use irc.Loop.{
  Io, System, Served, advance, stay, aborted, Polled, poll_failed, nothing_ready, ready,
  served_listener, serve_hangup, serve_output, serve_input, serve_descriptor, is_silent,
  serve_descriptors, serve_ready, remove_disconnected, remove_disconnected_clients, wants_removal,
  Ran, ended, AtRan, run, new_server, set_revents,
}
use irc.Protocol.Rules.{by_if, by_option, by_bool}
use irc.WellFormed.{nickname_of, registered_at}
use irc.WellFormed.Connections.{
  Fit, other_polls-Fit, receive_from_client-Fit, flush_client_output-Fit, remove_client-Fit,
}
use irc.WellFormed.Arrived.{FitOutcome, IsFresh, accept_client-FitOutcome}

abbrev FitServed : Served → Type 0
FitServed (advance s) = Fit s
FitServed (stay s) = Fit s
FitServed (aborted s) = Fit s

-- The system accepts connections under descriptors that no client has.
abbrev pub IsSystem : System → Type 0
IsSystem io = (round : ℕ) (s : Server) → IsFresh (io round s).accepts s

served_listener-FitServed : (o : Outcome) → FitOutcome o → FitServed (served_listener o)
unfolding served_listener
served_listener-FitServed (normal s) w = w
served_listener-FitServed (thrown s) w = w

serve_hangup-FitServed :
    (index : ℕ) (e : Events) (s : Server) → Fit s → FitServed (serve_hangup index e s)
unfolding serve_hangup
serve_hangup-FitServed index e s w =
    by_if FitServed e.pollhup (λ _. remove_client-Fit index s w) (λ _. w)

serve_output-FitServed :
    (index fd : ℕ) (e : Events) (io : Io) (s : Server)
    → Fit s
    → FitServed (serve_output index fd e io s)
unfolding serve_output
serve_output-FitServed index fd e io s w =
    let flushed = (flush_client_output index fd io.sends s).0 in
    let kept = flush_client_output-Fit index fd io.sends s w in
    by_if FitServed e.pollout
      (λ _.
        by_if FitServed (flush_client_output index fd io.sends s).1
          (λ _. serve_hangup-FitServed index e flushed kept)
          (λ _. remove_client-Fit index flushed kept))
      (λ _. serve_hangup-FitServed index e s w)

serve_input-FitServed :
    (index fd : ℕ) (e : Events) (io : Io) (s : Server)
    → Fit s
    → FitServed (serve_input index fd e io s)
unfolding serve_input
serve_input-FitServed index fd e io s w =
    let received = (receive_from_client fd io.receives s).0 in
    let kept = receive_from_client-Fit fd io.receives s w in
    by_if FitServed e.pollin
      (λ _.
        by_if FitServed (receive_from_client fd io.receives s).1
          (λ _. serve_output-FitServed index fd e io received kept)
          (λ _. remove_client-Fit index received kept))
      (λ _. serve_output-FitServed index fd e io s w)

serve_descriptor-FitServed :
    (index : ℕ) (p : PollFd) (io : Io) (s : Server)
    → IsFresh io.accepts s
    → Fit s
    → FitServed (serve_descriptor index p io s)
unfolding serve_descriptor
serve_descriptor-FitServed index p io s fresh w =
    by_if FitServed (is_silent p.revents) (λ _. w)
      λ _.
        by_if FitServed (p.fd == s.listener_fd)
          (λ _.
            by_if FitServed p.revents.pollin
              (λ _. served_listener-FitServed _ (accept_client-FitOutcome io.accepts s fresh w))
              (λ _. w))
          λ _.
            by_if FitServed (p.revents.pollerr || p.revents.pollnval)
              (λ _. remove_client-Fit index s w)
              (λ _. serve_input-FitServed index p.fd p.revents io s w)

pub serve_descriptors-FitOutcome :
    (fuel : ℕ) (io : System) (round index : ℕ) (s : Server)
    → IsSystem io
    → Fit s
    → FitOutcome (serve_descriptors fuel io round index s)
unfolding serve_descriptors
serve_descriptors-FitOutcome zero io round index s fresh w = w
serve_descriptors-FitOutcome (suc fuel) io round index s fresh w =
    by_option FitOutcome (get_elem? s.poll_fds index) (λ _. w)
      λ p _.
        by_bool FitOutcome (io round s).stop_requested (λ _. w)
          λ _.
            go (serve_descriptor index p (io round s) s)
              (serve_descriptor-FitServed index p (io round s) s (fresh round s) w)
              (λ t. serve_descriptors-FitOutcome fuel io (suc round) (suc index) t fresh)
              (λ t. serve_descriptors-FitOutcome fuel io (suc round) index t fresh)
  where
    go :
        (r : Served)
        → FitServed r
        → ((t : Server) → Fit t → FitOutcome (serve_descriptors fuel io (suc round) (suc index) t))
        → ((t : Server) → Fit t → FitOutcome (serve_descriptors fuel io (suc round) index t))
        → FitOutcome (elim r [
          | advance next ↦ serve_descriptors fuel io (suc round) (suc index) next
          | stay next ↦ serve_descriptors fuel io (suc round) index next
          | aborted next ↦ thrown next
        ])
    go (advance t) k on again = on t k
    go (stay t) k on again = again t k
    go (aborted t) k on again = k

remove_disconnected-Fit :
    (fuel index : ℕ) (s : Server) → Fit s → Fit (remove_disconnected fuel index s)
unfolding remove_disconnected
remove_disconnected-Fit zero index s w = w
remove_disconnected-Fit (suc fuel) index s w =
    by_option Fit (get_elem? s.poll_fds index) (λ _. w)
      λ p _.
        by_bool Fit (not (p.fd == s.listener_fd) && wants_removal p.fd s)
          (λ _.
            remove_disconnected-Fit fuel index (remove_client index s)
              (remove_client-Fit index s w))
          (λ _. remove_disconnected-Fit fuel (suc index) s w)

serve_ready-FitOutcome :
    (io : System) (events : List Events) (s : Server)
    → IsSystem io
    → Fit s
    → FitOutcome (serve_ready io events s)
unfolding serve_ready
serve_ready-FitOutcome io events s fresh w =
    serve_descriptors-FitOutcome (suc (suc (length s.poll_fds))) io 1 0
      (record s { poll_fds = set_revents events s.poll_fds }) fresh
      (other_polls-Fit s (set_revents events s.poll_fds) w)

module _ (rest : Server → Ran) (again : (t : Server) → Fit t → AtRan FitOutcome (rest t)) where
  served-FitOutcome :
      (o : Outcome)
      → FitOutcome o
      → AtRan FitOutcome
          (elim o [ thrown t ↦ ended (thrown t) | normal t ↦ rest (remove_disconnected_clients t) ])
  unfolding remove_disconnected_clients
  served-FitOutcome (thrown t) k = k
  served-FitOutcome (normal t) k =
      again (remove_disconnected_clients t)
        (remove_disconnected-Fit (suc (length t.poll_fds)) 0 t k)

module _ (io : System) (fresh : IsSystem io) (rest : Server → Ran)
    (again : (t : Server) → Fit t → AtRan FitOutcome (rest t)) (s : Server) (w : Fit s) where
  polled-FitOutcome :
      (p : Polled)
      → AtRan FitOutcome (elim p [
        | poll_failed stopped ↦ ended (if stopped then normal s else thrown s)
        | nothing_ready ↦ rest s
        | ready events ↦ elim (serve_ready io events s) [
          | thrown t ↦ ended (thrown t)
          | normal t ↦ rest (remove_disconnected_clients t)
        ]
      ])
  polled-FitOutcome (poll_failed stopped) = by_if FitOutcome stopped (λ _. w) (λ _. w)
  polled-FitOutcome nothing_ready = again s w
  polled-FitOutcome (ready events) =
      served-FitOutcome rest again (serve_ready io events s)
        (serve_ready-FitOutcome io events s fresh w)

run-FitOutcome :
    (calls : ℕ) (io : ℕ → System) (poll : ℕ → Server → Polled) (s : Server)
    → ((call : ℕ) → IsSystem (io call))
    → Fit s
    → AtRan FitOutcome (run calls io poll s)
unfolding run
run-FitOutcome zero io poll s fresh w = w
run-FitOutcome (suc calls) io poll s fresh w =
    by_bool (AtRan FitOutcome) (io calls 0 s).stop_requested (λ _. w)
      λ _.
        polled-FitOutcome (io calls) (fresh calls) (run calls io poll)
          (λ t. run-FitOutcome calls io poll t fresh) s w (poll calls s)

new_server-Fit : (listener : ℕ) (password : Text) → Fit (new_server listener password)
unfolding new_server quiet nickname_of registered_at lookup map_values
new_server-Fit listener password = record {
  clients = λ fd c e. absurd (ground arith);
  nicknames = record {
    sound = λ key fd e. absurd (ground arith);
    complete = λ fd h. absurd (ground arith);
  };
  clients_sorted = tt;
  index_sorted = tt;
  channels_sorted = tt;
  channels = λ key channel e. absurd (ground arith);
}

-- Whatever the clients send, however the system calls end and however often poll() is called, a
-- server that has just been made is well formed when its loop stops, when it throws and while it
-- goes on, provided that accept() gives descriptors that no client has.
pub run-new_server-FitOutcome :
    (listener : ℕ) (password : Text) (calls : ℕ) (io : ℕ → System) (poll : ℕ → Server → Polled)
    → ((call : ℕ) → IsSystem (io call))
    → AtRan FitOutcome (run calls io poll (new_server listener password))
run-new_server-FitOutcome listener password calls io poll fresh =
    run-FitOutcome calls io poll (new_server listener password) fresh
      (new_server-Fit listener password)
