-- ===== src/Polling/Running.antt =====
-- The loop of the server (Server::run of srcs/Server/Server.cpp): from the start on, every client is
-- polled for what it waits for, and each call of `poll()` is answered in a bounded number of rounds.
use irc.Base.{
  ℕ, zero, suc, true, not, ◌&&◌, ◌≡◌, refl, ◌∙◌, List, some, nat_ord, arith, ◌==◌, ==_eq, ==_refl,
  if◌then◌else◌, get_elem?, length,
}
use irc.Text.{Text}
use irc.Map.{lookup, member}
use irc.Server.{Server, PollFd, Events}
use irc.Connection.{Outcome, normal, thrown, remove_client, has_poll_fd}
use irc.Loop.{
  System, Served, advance, stay, aborted, Polled, poll_failed, nothing_ready, ready,
  serve_descriptor, serve_descriptors, serve_ready, remove_disconnected,
  remove_disconnected_clients, wants_removal, Ran, ended, AtRan, run, new_server, set_revents,
}
use irc.Protocol.Rules.{by_if, by_option, by_bool}
use irc.Polling.{IsPolled, IsServing, left_at, wants_in_at, wants_out_at}
use irc.Polling.Entries.{
  has_poll_fd-set_revents, wants_in_at-set_revents, wants_out_at-set_revents,
  AreDistinct-set_revents,
}
use irc.Polling.Sent.{written-IsPolled}
use irc.Polling.Removed.{remove_client-IsShorter}
use irc.Polling.Rounds.{Progress, serve_descriptor-Progress, fd_at_of_get}
use irc.Polling.Accepted.{PolledOutcome, AcceptsUnused}

module _ (onward again : Server → Outcome) (index left : ℕ)
    (further : (t : Server) → IsPolled t → PolledOutcome (onward t))
    (repeated : (t : Server) → IsPolled t → PolledOutcome (again t)) where
  after_round :
      (r : Served)
      → Progress index left r
      → PolledOutcome (elim r [
        | advance next ↦ onward next
        | stay next ↦ again next
        | aborted next ↦ thrown next
      ])
  after_round (advance t) k = further t k.0
  after_round (stay t) k = repeated t k.0
  after_round (aborted t) k = k

-- The rounds over the entries keep them in order.
serve_descriptors-PolledOutcome :
    (fuel : ℕ) (io : System) (round index : ℕ) (s : Server)
    → AcceptsUnused io
    → IsPolled s
    → PolledOutcome (serve_descriptors fuel io round index s)
unfolding serve_descriptors
serve_descriptors-PolledOutcome zero io round index s fresh w = w
serve_descriptors-PolledOutcome (suc fuel) io round index s fresh w =
    by_option PolledOutcome (get_elem? s.poll_fds index) (λ _. w)
      λ p e.
        by_bool PolledOutcome (io round s).stop_requested (λ _. w)
          λ _.
            after_round (serve_descriptors fuel io (suc round) (suc index))
              (serve_descriptors fuel io (suc round) index) index
              (left_at s.listener_fd index s.poll_fds)
              (λ t. serve_descriptors-PolledOutcome fuel io (suc round) (suc index) t fresh)
              (λ t. serve_descriptors-PolledOutcome fuel io (suc round) index t fresh)
              (serve_descriptor index p (io round s) s)
              (serve_descriptor-Progress index p (io round s) s e (fresh round s) w)

pub set_revents-IsPolled :
    (events : List Events) (s : Server)
    → IsPolled s
    → IsPolled (record s { poll_fds = set_revents events s.poll_fds })
set_revents-IsPolled events s w =
    let ps = s.poll_fds in
    written-IsPolled s s.clients (set_revents events ps) w
      (AreDistinct-set_revents events ps w.distinct) (λ g. has_poll_fd-set_revents g events ps)
      (λ g. wants_in_at-set_revents g events ps) (λ g. refl)
      λ g c found.
        let ok = w.served g c found in
        record {
          keyed = ok.keyed;
          polled = has_poll_fd-set_revents g events ps ∙ ok.polled;
          heard = wants_in_at-set_revents g events ps ∙ ok.heard;
          woken = λ h. wants_out_at-set_revents g events ps ∙ ok.woken h;
          bounded = ok.bounded;
        }

serve_ready-PolledOutcome :
    (io : System) (events : List Events) (s : Server)
    → AcceptsUnused io
    → IsPolled s
    → PolledOutcome (serve_ready io events s)
unfolding serve_ready
serve_ready-PolledOutcome io events s fresh w =
    serve_descriptors-PolledOutcome (suc (suc (length s.poll_fds))) io 1 0 _ fresh
      (set_revents-IsPolled events s w)

-- A client that leaves is not the listener.
pub leaving_lem :
    (index : ℕ) (p : PollFd) (s : Server)
    → get_elem? s.poll_fds index ≡ some p
    → (not (p.fd == s.listener_fd) && wants_removal p.fd s) ≡ true
    → IsPolled s
    → IsServing index p.fd (left_at s.listener_fd index s.poll_fds) s
leaving_lem index p s e leaves w = record {
  whole = w;
  here = fd_at_of_get index s.poll_fds p e;
  other = ground (arith, leaves);
  bound = refl;
}

pub remove_disconnected-IsPolled :
    (fuel index : ℕ) (s : Server) → IsPolled s → IsPolled (remove_disconnected fuel index s)
unfolding remove_disconnected
remove_disconnected-IsPolled zero index s w = w
remove_disconnected-IsPolled (suc fuel) index s w =
    by_option IsPolled (get_elem? s.poll_fds index) (λ _. w)
      λ p e.
        by_bool IsPolled (not (p.fd == s.listener_fd) && wants_removal p.fd s)
          (λ leaves.
            remove_disconnected-IsPolled fuel index (remove_client index s)
              (remove_client-IsShorter index p.fd _ s (leaving_lem index p s e leaves w)).0)
          (λ _. remove_disconnected-IsPolled fuel (suc index) s w)

module _ (rest : Server → Ran)
    (again : (t : Server) → IsPolled t → AtRan PolledOutcome (rest t)) where
  served-PolledOutcome :
      (o : Outcome)
      → PolledOutcome o
      → AtRan PolledOutcome
          (elim o [ thrown t ↦ ended (thrown t) | normal t ↦ rest (remove_disconnected_clients t) ])
  unfolding remove_disconnected_clients
  served-PolledOutcome (thrown t) k = k
  served-PolledOutcome (normal t) k =
      again (remove_disconnected_clients t)
        (remove_disconnected-IsPolled (suc (length t.poll_fds)) 0 t k)

  polled-PolledOutcome :
      (io : System) (s : Server) (p : Polled)
      → AcceptsUnused io
      → IsPolled s
      → AtRan PolledOutcome (elim p [
        | poll_failed stopped ↦ ended (if stopped then normal s else thrown s)
        | nothing_ready ↦ rest s
        | ready events ↦ elim (serve_ready io events s) [
          | thrown t ↦ ended (thrown t)
          | normal t ↦ rest (remove_disconnected_clients t)
        ]
      ])
  polled-PolledOutcome io s (poll_failed stopped) fresh w =
      by_if PolledOutcome stopped (λ _. w) (λ _. w)
  polled-PolledOutcome io s nothing_ready fresh w = again s w
  polled-PolledOutcome io s (ready events) fresh w =
      served-PolledOutcome (serve_ready io events s) (serve_ready-PolledOutcome io events s fresh w)

run-PolledOutcome :
    (calls : ℕ) (io : ℕ → System) (poll : ℕ → Server → Polled) (s : Server)
    → ((call : ℕ) → AcceptsUnused (io call))
    → IsPolled s
    → AtRan PolledOutcome (run calls io poll s)
unfolding run
run-PolledOutcome zero io poll s fresh w = w
run-PolledOutcome (suc calls) io poll s fresh w =
    by_bool (AtRan PolledOutcome) (io calls 0 s).stop_requested (λ _. w)
      λ _.
        polled-PolledOutcome (run calls io poll) (λ t. run-PolledOutcome calls io poll t fresh)
          (io calls) s (poll calls s) (fresh calls) w

pub new_server-IsPolled : (listener : ℕ) (password : Text) → IsPolled (new_server listener password)
unfolding new_server lookup member has_poll_fd wants_in_at wants_out_at
new_server-IsPolled listener password = record {
  distinct = (refl, tt);
  listens = ground (arith, ==_refl listener);
  heard = ground (arith, ==_refl listener);
  apart = refl;
  served = λ fd c e. absurd (ground (arith, e));
  owned = λ fd h other. absurd (ground (arith, h, other, ==_eq listener fd, ==_refl fd));
  opened = λ fd. ground (arith, ==_eq listener fd, ==_eq fd listener, ==_refl fd);
}

-- Whatever the clients send, however the system calls end and however often poll() is called, a
-- server that has just been made has its entries in order when its loop stops, when it throws and
-- while it goes on, provided that accept() gives descriptors that are not open: the listener and
-- every client have one entry each, which asks for POLLIN, no other descriptor has one, every client
-- with pending output asks for POLLOUT, no client has more than 8 MiB of it, and the sockets that
-- are open are the listener's and the clients'.
pub run-new_server-PolledOutcome :
    (listener : ℕ) (password : Text) (calls : ℕ) (io : ℕ → System) (poll : ℕ → Server → Polled)
    → ((call : ℕ) → AcceptsUnused (io call))
    → AtRan PolledOutcome (run calls io poll (new_server listener password))
run-new_server-PolledOutcome listener password calls io poll fresh =
    run-PolledOutcome calls io poll (new_server listener password) fresh
      (new_server-IsPolled listener password)
