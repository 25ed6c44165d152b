-- ===== src/Polling.antt =====
-- What poll() is asked for (`_pollFds` of includes/Server.hpp): the listener and the clients, each once,
-- each for POLLIN, and for POLLOUT where output is pending, which is never more than 8 MiB.
pub mod Entries
pub mod Sent
pub mod Served
pub mod Flushed
pub mod Removed
pub mod Accepted
pub mod Rounds
pub mod Running
pub mod Fuel
pub mod Due
pub mod Leaving
pub mod Lasting
pub mod Stopping
use irc.Base.{
  ℕ, zero, suc, Option, none, ◌≤◌, ◌+◌, Bool, true, false, ◌≡◌, [], ◌∷◌, List, length, is_empty,
  ◌==◌, nat_ord, some, if◌then◌else◌,
}
use irc.Map.{lookup, member}
use irc.Client.{Client}
use irc.Server.{Server, PollFd}
use irc.Server.Send.{max_pending_output}
use irc.Connection.{has_poll_fd}

-- Whether the first entry of the descriptor asks for POLLIN.
unfoldable pub wants_in_at : ℕ → List PollFd → Bool
wants_in_at fd [] = false
wants_in_at fd (p ∷ rest) = if p.fd == fd then p.wants_in else wants_in_at fd rest

unfoldable pub wants_out_at : ℕ → List PollFd → Bool
wants_out_at fd [] = false
wants_out_at fd (p ∷ rest) = if p.fd == fd then p.wants_out else wants_out_at fd rest

-- No descriptor has two entries.
abbrev pub AreDistinct : List PollFd → Type 0
AreDistinct [] = Unit
AreDistinct (p ∷ rest) = (has_poll_fd p.fd rest ≡ false) × AreDistinct rest

-- The entry and the output of the client of a descriptor.
pub record IsServed (fd : ℕ) (c : Client) (polls : List PollFd) : Type 0 where
  pub keyed : c.fd ≡ fd
  pub polled : has_poll_fd fd polls ≡ true
  pub heard : wants_in_at fd polls ≡ true
  pub woken : is_empty c.output_buffer ≡ false → wants_out_at fd polls ≡ true
  pub bounded : length c.output_buffer ≤ max_pending_output

pub record IsPolled (s : Server) : Type 0 where
  pub distinct : AreDistinct s.poll_fds
  pub listens : has_poll_fd s.listener_fd s.poll_fds ≡ true
  pub heard : wants_in_at s.listener_fd s.poll_fds ≡ true
  pub apart : member s.listener_fd s.clients ≡ false
  pub served : (fd : ℕ) (c : Client) → lookup fd s.clients ≡ some c → IsServed fd c s.poll_fds
  pub owned :
      (fd : ℕ)
      → has_poll_fd fd s.poll_fds ≡ true
      → (fd == s.listener_fd) ≡ false
      → member fd s.clients ≡ true
  pub opened :
      (fd : ℕ) → member fd s.open_fds ≡ (if fd == s.listener_fd then true else member fd s.clients)

-- The descriptor of the entry at an index.
unfoldable pub fd_at : ℕ → List PollFd → Option ℕ
fd_at index [] = none
fd_at zero (p ∷ rest) = some p.fd
fd_at (suc index) (p ∷ rest) = fd_at index rest

-- How many rounds of the loop over the entries can follow from an index on: one for each entry, and
-- one for the connection that the listener may accept.
unfoldable pub left_at : ℕ → ℕ → List PollFd → ℕ
left_at listener zero ps = length ps + (if has_poll_fd listener ps then 1 else 0)
left_at listener (suc index) [] = 0
left_at listener (suc index) (p ∷ ps) = left_at listener index ps

-- While the entry of a client at an index is served.
pub record IsServing (index fd left : ℕ) (s : Server) : Type 0 where
  pub whole : IsPolled s
  pub here : fd_at index s.poll_fds ≡ some fd
  pub other : (fd == s.listener_fd) ≡ false
  pub bound : left_at s.listener_fd index s.poll_fds ≡ left
