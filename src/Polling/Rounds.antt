-- ===== src/Polling/Rounds.antt =====
-- One round of the loop over the entries (Server::run of srcs/Server/Server.cpp): whatever happens, the
-- entries stay in order, and fewer rounds are left.
use irc.Base.{
  ℕ, zero, suc, ◌<◌, ◌||◌, ◌≡◌, refl, [], ◌∷◌, List, some, nat_ord, arith, ◌==◌, ==_eq, get_elem?,
  subst,
}
use irc.Server.{Server, PollFd, Events}
use irc.Connection.{Outcome, normal, thrown, receive_from_client, flush_client_output}
use irc.Loop.{
  Io, Served, advance, stay, aborted, served_listener, serve_hangup, serve_output, serve_input,
  serve_descriptor, is_silent,
}
use irc.Protocol.Rules.{by_if}
use irc.Polling.{IsPolled, IsServing, fd_at, left_at}
use irc.Polling.Served.{receive_from_client-IsServing}
use irc.Polling.Flushed.{flush_client_output-IsServing}
use irc.Polling.Removed.{IsShorter, remove_client-IsShorter}
use irc.Polling.Accepted.{IsUnused, Arrives, accept_client-Arrives, left_at-suc}

-- A round at an index leaves fewer rounds.
abbrev pub Progress : ℕ → ℕ → Served → Type 0
Progress index left (advance s) = IsShorter (suc index) left s
Progress index left (stay s) = IsShorter index left s
Progress index left (aborted s) = IsPolled s

served_listener-Progress :
    (index left : ℕ) (o : Outcome) → Arrives index left o → Progress index left (served_listener o)
unfolding served_listener
served_listener-Progress index left (normal s) w = w
served_listener-Progress index left (thrown s) w = w

module _ (index fd left : ℕ) where
  passed-Progress : (s : Server) → IsServing index fd left s → Progress index left (advance s)
  passed-Progress s v = (
    v.whole,
    subst (λ n. left_at s.listener_fd (suc index) s.poll_fds < n) v.bound
        (left_at-suc s.listener_fd index fd s.poll_fds v.here),
  )

  serve_hangup-Progress :
      (e : Events) (s : Server)
      → IsServing index fd left s
      → Progress index left (serve_hangup index e s)
  unfolding serve_hangup
  serve_hangup-Progress e s v =
      by_if (Progress index left) e.pollhup (λ _. remove_client-IsShorter index fd left s v)
        (λ _. passed-Progress s v)

  serve_output-Progress :
      (e : Events) (io : Io) (s : Server)
      → IsServing index fd left s
      → Progress index left (serve_output index fd e io s)
  unfolding serve_output
  serve_output-Progress e io s v =
      let flushed = (flush_client_output index fd io.sends s).0 in
      let kept = flush_client_output-IsServing index fd left io.sends s v in
      by_if (Progress index left) e.pollout
        (λ _.
          by_if (Progress index left) (flush_client_output index fd io.sends s).1
            (λ _. serve_hangup-Progress e flushed kept)
            (λ _. remove_client-IsShorter index fd left flushed kept))
        (λ _. serve_hangup-Progress e s v)

  serve_input-Progress :
      (e : Events) (io : Io) (s : Server)
      → IsServing index fd left s
      → Progress index left (serve_input index fd e io s)
  unfolding serve_input
  serve_input-Progress e io s v =
      let received = (receive_from_client fd io.receives s).0 in
      let kept = receive_from_client-IsServing index fd left fd io.receives s v in
      by_if (Progress index left) e.pollin
        (λ _.
          by_if (Progress index left) (receive_from_client fd io.receives s).1
            (λ _. serve_output-Progress e io received kept)
            (λ _. remove_client-IsShorter index fd left received kept))
        (λ _. serve_output-Progress e io s v)

pub fd_at_of_get :
    (index : ℕ) (ps : List PollFd) (p : PollFd)
    → get_elem? ps index ≡ some p
    → fd_at index ps ≡ some p.fd
unfolding fd_at
fd_at_of_get index [] p e = absurd (ground (arith, e))
fd_at_of_get zero (q ∷ ps) p e = ground (arith, e)
fd_at_of_get (suc index) (q ∷ ps) p e = fd_at_of_get index ps p e

pub serve_descriptor-Progress :
    (index : ℕ) (p : PollFd) (io : Io) (s : Server)
    → get_elem? s.poll_fds index ≡ some p
    → IsUnused io.accepts s
    → IsPolled s
    → Progress index (left_at s.listener_fd index s.poll_fds) (serve_descriptor index p io s)
unfolding serve_descriptor
serve_descriptor-Progress index p io s e fresh w =
    by_if Ahead (is_silent p.revents) (λ _. passed)
      λ _.
        by_if Ahead (p.fd == s.listener_fd)
          (λ at.
            by_if Ahead p.revents.pollin
              (λ _. served_listener-Progress index (left_at s.listener_fd index s.poll_fds) _ (
                accept_client-Arrives io.accepts index s
                  (subst (λ f. fd_at index s.poll_fds ≡ some f) (==_eq p.fd s.listener_fd at) here)
                  fresh w))
              (λ _. passed))
          λ other.
            let v : IsServing index p.fd (left_at s.listener_fd index s.poll_fds) s = record {
              whole = w;
              here = here;
              other = other;
              bound = refl;
            } in
            by_if Ahead (p.revents.pollerr || p.revents.pollnval)
              (λ _. remove_client-IsShorter index p.fd _ s v)
              (λ _. serve_input-Progress index p.fd _ p.revents io s v)
  where
    Ahead : Served → Type 0
    Ahead = Progress index (left_at s.listener_fd index s.poll_fds)

    here : fd_at index s.poll_fds ≡ some p.fd
    here = fd_at_of_get index s.poll_fds p e

    passed : Ahead (advance s)
    passed = (w, left_at-suc s.listener_fd index p.fd s.poll_fds here)
