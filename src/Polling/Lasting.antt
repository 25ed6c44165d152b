-- ===== src/Polling/Lasting.antt =====
-- The server stays up (Server::run of srcs/Server/Server.cpp): nothing that a client sends and no read
-- or write of a connection that fails ends the loop with an exception.
use irc.Base.{
  ℕ, zero, suc, true, false, ◌||◌, ◌≡◌, none, nat_ord, arith, ◌==◌, if◌then◌else◌, get_elem?,
  length, Bool-cases, inl, inr,
}
use irc.Text.{Text}
use irc.Map.{lookup, member}
use irc.Server.{Server, PollFd, Events}
use irc.Connection.{
  Outcome, normal, thrown, Accepted, accept_failed, accepted, receive_from_client,
  flush_client_output, has_poll_fd, add_poll_fd, register_client, forget_accepted, accept_client,
}
use irc.Loop.{
  Io, System, Served, advance, stay, aborted, Polled, poll_failed, nothing_ready, ready,
  served_listener, serve_hangup, serve_output, serve_input, serve_descriptor, is_silent,
  serve_descriptors, serve_ready, remove_disconnected_clients, Ran, ended, AtRan, run, new_server,
}
use irc.Protocol.Rules.{by_if, by_option, by_bool}
use irc.Polling.{IsPolled, left_at}
use irc.Polling.Rounds.{Progress, serve_descriptor-Progress}
use irc.Polling.Accepted.{IsUnused, unused_lem}
use irc.Polling.Running.{set_revents-IsPolled, remove_disconnected-IsPolled, new_server-IsPolled}

-- `accept()` gives a descriptor that is not open and can be made non-blocking, or it fails.
abbrev pub IsAccepted : Accepted → Server → Type 0
IsAccepted accept_failed s = Unit {0}
IsAccepted (accepted fd non_blocking) s = (lookup fd s.open_fds ≡ none) × (non_blocking ≡ true)

-- `poll()` fails only when the stop is requested.
abbrev pub IsPoll : Polled → Type 0
IsPoll (poll_failed stopped) = stopped ≡ true
IsPoll nothing_ready = Unit {0}
IsPoll (ready events) = Unit {0}

IsAccepted-IsUnused : (result : Accepted) (s : Server) → IsAccepted result s → IsUnused result s
IsAccepted-IsUnused accept_failed s h = tt
IsAccepted-IsUnused (accepted fd non_blocking) s h = h.0

abbrev pub HasEnded : Outcome → Type 0
HasEnded (normal s) = IsPolled s
HasEnded (thrown s) = ⊥

abbrev GoesOn : Served → Type 0
GoesOn (advance s) = Unit {0}
GoesOn (stay s) = Unit {0}
GoesOn (aborted s) = ⊥

-- The listener's round.
abbrev IsNormal : Outcome → Type 0
IsNormal (normal s) = Unit {0}
IsNormal (thrown s) = ⊥

unpolled_lem :
    (fd : ℕ) (s : Server)
    → IsPolled s
    → lookup fd s.open_fds ≡ none
    → has_poll_fd fd s.poll_fds ≡ false
unfolding member
unpolled_lem fd s w unused = elim (Bool-cases (has_poll_fd fd s.poll_fds)) [
  | inr unpolled ↦ unpolled
  | inl polled ↦
      let (fresh, other) = unused_lem fd s unused w in
      absurd (ground (arith, w.owned fd polled other, fresh))
]

accept_client-IsNormal :
    (result : Accepted) (s : Server)
    → IsPolled s
    → IsAccepted result s
    → IsNormal (accept_client result s)
unfolding accept_client forget_accepted register_client add_poll_fd member
accept_client-IsNormal accept_failed s w h = tt
accept_client-IsNormal (accepted fd non_blocking) s w (unused, done) =
    by_if Forgotten non_blocking
      (λ _.
        by_if Forgotten (member fd s.clients)
          (λ h. absurd (ground (arith, h, (unused_lem fd s unused w).0)))
          λ _.
            by_if Forgotten (has_poll_fd fd s.poll_fds)
              (λ h. absurd (ground (arith, h, unpolled_lem fd s w unused))) (λ _. tt))
      (λ h. absurd (ground (arith, h, done)))
  where
    Forgotten : Outcome → Type 0
    Forgotten o = IsNormal (forget_accepted fd o)

served_listener-GoesOn : (o : Outcome) → IsNormal o → GoesOn (served_listener o)
unfolding served_listener
served_listener-GoesOn (normal s) h = tt
served_listener-GoesOn (thrown s) h = elim h [ ]

module _ (index fd : ℕ) (e : Events) (io : Io) where
  serve_hangup-GoesOn : (s : Server) → GoesOn (serve_hangup index e s)
  unfolding serve_hangup
  serve_hangup-GoesOn s = by_if GoesOn e.pollhup (λ _. tt) (λ _. tt)

  serve_output-GoesOn : (s : Server) → GoesOn (serve_output index fd e io s)
  unfolding serve_output
  serve_output-GoesOn s =
      by_if GoesOn e.pollout
        (λ _.
          by_if GoesOn (flush_client_output index fd io.sends s).1 (λ _. serve_hangup-GoesOn _)
            (λ _. tt))
        (λ _. serve_hangup-GoesOn s)

  serve_input-GoesOn : (s : Server) → GoesOn (serve_input index fd e io s)
  unfolding serve_input
  serve_input-GoesOn s =
      by_if GoesOn e.pollin
        (λ _.
          by_if GoesOn (receive_from_client fd io.receives s).1 (λ _. serve_output-GoesOn _)
            (λ _. tt))
        (λ _. serve_output-GoesOn s)

serve_descriptor-GoesOn :
    (index : ℕ) (p : PollFd) (io : Io) (s : Server)
    → IsPolled s
    → IsAccepted io.accepts s
    → GoesOn (serve_descriptor index p io s)
unfolding serve_descriptor
serve_descriptor-GoesOn index p io s w h =
    by_if GoesOn (is_silent p.revents) (λ _. tt)
      λ _.
        by_if GoesOn (p.fd == s.listener_fd)
          (λ _.
            by_if GoesOn p.revents.pollin
              (λ _. served_listener-GoesOn _ (accept_client-IsNormal io.accepts s w h)) (λ _. tt))
          λ _.
            by_if GoesOn (p.revents.pollerr || p.revents.pollnval) (λ _. tt)
              (λ _. serve_input-GoesOn index p.fd p.revents io s)

module _ (onward again : Server → Outcome) (index left : ℕ)
    (further : (t : Server) → IsPolled t → HasEnded (onward t))
    (repeated : (t : Server) → IsPolled t → HasEnded (again t)) where
  after_round :
      (r : Served)
      → Progress index left r
      → GoesOn r
      → HasEnded (elim r [
        | advance next ↦ onward next
        | stay next ↦ again next
        | aborted next ↦ thrown next
      ])
  after_round (advance t) k h = further t k.0
  after_round (stay t) k h = repeated t k.0
  after_round (aborted t) k h = elim h [ ]

serve_descriptors-HasEnded :
    (fuel : ℕ) (io : System) (round index : ℕ) (s : Server)
    → ((round : ℕ) (t : Server) → IsAccepted (io round t).accepts t)
    → IsPolled s
    → HasEnded (serve_descriptors fuel io round index s)
unfolding serve_descriptors
serve_descriptors-HasEnded zero io round index s ok w = w
serve_descriptors-HasEnded (suc fuel) io round index s ok w =
    by_option HasEnded (get_elem? s.poll_fds index) (λ _. w)
      λ p e.
        by_bool HasEnded (io round s).stop_requested (λ _. w)
          λ _.
            after_round (serve_descriptors fuel io (suc round) (suc index))
              (serve_descriptors fuel io (suc round) index) index
              (left_at s.listener_fd index s.poll_fds)
              (λ t. serve_descriptors-HasEnded fuel io (suc round) (suc index) t ok)
              (λ t. serve_descriptors-HasEnded fuel io (suc round) index t ok)
              (serve_descriptor index p (io round s) s)
              (serve_descriptor-Progress index p (io round s) s e
                (IsAccepted-IsUnused (io round s).accepts s (ok round s)) w)
              (serve_descriptor-GoesOn index p (io round s) s w (ok round s))

module _ (P : Ran → Type 0) (at_end : (o : Outcome) → HasEnded o → P (ended o))
    (rest : Server → Ran) (again : (t : Server) → IsPolled t → P (rest t)) where
  served-HasEnded :
      (o : Outcome)
      → HasEnded o
      → P (elim o [ thrown t ↦ ended (thrown t) | normal t ↦ rest (remove_disconnected_clients t) ])
  unfolding remove_disconnected_clients
  served-HasEnded (thrown t) k = elim k [ ]
  served-HasEnded (normal t) k =
      again (remove_disconnected_clients t)
        (remove_disconnected-IsPolled (suc (length t.poll_fds)) 0 t k)

  pub polled-HasEnded :
      (io : System) (s : Server) (p : Polled)
      → ((round : ℕ) (t : Server) → IsAccepted (io round t).accepts t)
      → IsPoll p
      → IsPolled s
      → P (elim p [
        | poll_failed stopped ↦ ended (if stopped then normal s else thrown s)
        | nothing_ready ↦ rest s
        | ready events ↦ elim (serve_ready io events s) [
          | thrown t ↦ ended (thrown t)
          | normal t ↦ rest (remove_disconnected_clients t)
        ]
      ])
  unfolding serve_ready
  polled-HasEnded io s (poll_failed stopped) ok h w =
      at_end _ (by_if HasEnded stopped (λ _. w) (λ f. absurd (ground (arith, f, h))))
  polled-HasEnded io s nothing_ready ok h w = again s w
  polled-HasEnded io s (ready events) ok h w = served-HasEnded (serve_ready io events s) (
      serve_descriptors-HasEnded (suc (suc (length s.poll_fds))) io 1 0 _ ok
        (set_revents-IsPolled events s w))

run-HasEnded :
    (calls : ℕ) (io : ℕ → System) (poll : ℕ → Server → Polled) (s : Server)
    → ((call round : ℕ) (t : Server) → IsAccepted (io call round t).accepts t)
    → ((call : ℕ) (t : Server) → IsPoll (poll call t))
    → IsPolled s
    → AtRan HasEnded (run calls io poll s)
unfolding run
run-HasEnded zero io poll s ok polls w = w
run-HasEnded (suc calls) io poll s ok polls w =
    by_bool (AtRan HasEnded) (io calls 0 s).stop_requested (λ _. w)
      λ _.
        polled-HasEnded (AtRan HasEnded) (λ o k. k) (run calls io poll)
          (λ t. run-HasEnded calls io poll t ok polls) (io calls) s (poll calls s) (ok calls)
          (polls calls s) w

-- Whatever the clients send and however the reads and writes of their connections end, the loop of a
-- server that has just been made never throws, and its entries are in order when it ends and while
-- it goes on, provided that accept() fails or gives descriptors that are not open and can be made
-- non-blocking, and that poll() fails only when the stop is requested.
pub run-new_server-HasEnded :
    (listener : ℕ) (password : Text) (calls : ℕ) (io : ℕ → System) (poll : ℕ → Server → Polled)
    → ((call round : ℕ) (t : Server) → IsAccepted (io call round t).accepts t)
    → ((call : ℕ) (t : Server) → IsPoll (poll call t))
    → AtRan HasEnded (run calls io poll (new_server listener password))
run-new_server-HasEnded listener password calls io poll ok polls =
    run-HasEnded calls io poll (new_server listener password) ok polls
      (new_server-IsPolled listener password)
