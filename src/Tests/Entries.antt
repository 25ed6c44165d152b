-- ===== src/Tests/Entries.antt =====
-- Theorems on what poll() is asked for and on the loop, at the test server.
use irc.Base.{
  ℕ, true, false, [], ◌∷◌, ◌≡◌, refl, nat_ord, none, arith, ◌==◌, ==_eq, ==_refl, Bool-cases,
  Option-cases, inl, inr, if◌then◌else◌,
}
use irc.Map.{lookup, member}
use irc.Text.{codes}
use irc.Client.{request_disconnect}
use irc.Server.{Server, modify_client, find_client}
use irc.Connection.{Accepted, accepted, accept_failed, has_poll_fd}
use irc.Handler.Keeps.{request_disconnect-IsCalm}
use irc.Loop.{
  AtRan, System, run, new_server, ready, serve_ready, set_revents, remove_disconnected_clients,
  wants_removal,
}
use irc.Protocol.Rules.{by_if}
use irc.Polling.{IsServed, IsPolled, wants_in_at, wants_out_at}
use irc.Polling.Sent.{modify_client-IsPolled}
use irc.Polling.Accepted.{PolledOutcome, IsUnused, AcceptsUnused}
use irc.Polling.Running.{run-new_server-PolledOutcome}
use irc.Polling.Fuel.{Serves, serve_ready-Serves}
use irc.Polling.Leaving.{remove_disconnected_clients_gone}
use irc.Polling.Lasting.{IsAccepted, HasEnded, run-new_server-HasEnded}
use irc.Tests.{alice, bob, test_server, test_system, readable}
use irc.Tests.State.{two_entries}

test_server_owned :
    (fd : ℕ)
    → has_poll_fd fd test_server.poll_fds ≡ true
    → (fd == 3) ≡ false
    → member fd test_server.clients ≡ true
unfolding has_poll_fd member lookup
test_server_owned fd h other = elim (Bool-cases (3 == fd)) [
  | inl same ↦ absurd (ground (arith, ==_eq 3 fd same, other))
  | inr apart ↦ elim (Bool-cases (4 == fd)) [
    | inl same ↦ ground (arith, same)
    | inr neither ↦ ground (arith, h, apart, neither)
  ]
]

test_server-IsPolled : IsPolled test_server
unfolding has_poll_fd wants_in_at wants_out_at member lookup
test_server-IsPolled = record {
  distinct = (refl, (refl, (refl, tt)));
  listens = refl;
  heard = refl;
  apart = refl;
  served =
      two_entries (λ fd c. IsServed fd c test_server.poll_fds) 4 5 alice bob
        (record {
          keyed = refl;
          polled = refl;
          heard = refl;
          woken = λ h. absurd (ground (arith, h));
          bounded = omega arith;
        })
        (record {
          keyed = refl;
          polled = refl;
          heard = refl;
          woken = λ h. absurd (ground (arith, h));
          bounded = omega arith;
        });
  owned = test_server_owned;
  opened = λ fd. ground (arith, ==_eq 3 fd, ==_eq fd 3, ==_refl fd);
}

-- A descriptor that is not open, or none.
abbrev seven : Server → Accepted
seven s = if member 7 s.open_fds then accept_failed else accepted 7 true

abbrev pub steady_system : System
steady_system round s = record (test_system round s) { accepts = seven s }

missing_lem : (fd : ℕ) (s : Server) → member fd s.open_fds ≡ false → lookup fd s.open_fds ≡ none
unfolding member
missing_lem fd s h = elim (Option-cases (lookup fd s.open_fds)) [
  | inl missing ↦ missing
  | inr (u, found) ↦ absurd (ground (arith, found, h))
]

pub seven-IsAccepted : (s : Server) → IsAccepted (seven s) s
seven-IsAccepted s =
    by_if (λ a. IsAccepted a s) (member 7 s.open_fds) (λ _. tt)
      (λ unused. (missing_lem 7 s unused, refl))

pub steady_system-AcceptsUnused : AcceptsUnused steady_system
steady_system-AcceptsUnused round s =
    by_if (λ a. IsUnused a s) (member 7 s.open_fds) (λ _. tt) (λ unused. missing_lem 7 s unused)

run-new_server-PolledOutcome_example : AtRan PolledOutcome (
    run 3 (λ _. steady_system) (λ _ _. ready (readable ∷ readable ∷ [])) (new_server 3 (b'p' ∷ [])))
run-new_server-PolledOutcome_example =
    run-new_server-PolledOutcome 3 (b'p' ∷ []) 3 (λ _. steady_system)
      (λ _ _. ready (readable ∷ readable ∷ [])) (λ _. steady_system-AcceptsUnused)

serve_ready-Serves_example :
    Serves steady_system 1 0
      (record test_server {
        poll_fds = set_revents (readable ∷ readable ∷ []) test_server.poll_fds;
      })
      (serve_ready steady_system (readable ∷ readable ∷ []) test_server)
serve_ready-Serves_example =
    serve_ready-Serves steady_system (readable ∷ readable ∷ []) test_server
      steady_system-AcceptsUnused test_server-IsPolled

-- Bob is to be disconnected.
abbrev leaving_server : Server
leaving_server = modify_client 5 (request_disconnect (codes "bye")) test_server

remove_disconnected_clients_gone_example :
    find_client 5 (remove_disconnected_clients leaving_server) ≡ none
unfolding wants_removal find_client lookup irc.Map.modify request_disconnect
remove_disconnected_clients_gone_example =
    remove_disconnected_clients_gone 5 leaving_server
      (modify_client-IsPolled 5 (request_disconnect (codes "bye")) test_server
        (request_disconnect-IsCalm (codes "bye")).fd
        (request_disconnect-IsCalm (codes "bye")).output test_server-IsPolled)
      refl

run-new_server-HasEnded_example : AtRan HasEnded (
    run 3 (λ _. steady_system) (λ _ _. ready (readable ∷ readable ∷ [])) (new_server 3 (b'p' ∷ [])))
run-new_server-HasEnded_example =
    run-new_server-HasEnded 3 (b'p' ∷ []) 3 (λ _. steady_system)
      (λ _ _. ready (readable ∷ readable ∷ [])) (λ _ _ t. seven-IsAccepted t) (λ _ _. tt)
