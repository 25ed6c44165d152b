-- ===== src/Polling/Flushed.antt =====
-- Writing to a connection (flushClientOutput of srcs/Server/ServerSend.cpp) leaves the entries in order.
use irc.Base.{
  ℕ, zero, suc, ◌≤◌, Bool, true, false, not, ◌≡◌, refl, ◌∙◌, ap, subst, [], ◌∷◌, List, Option, some,
  nat_ord, arith, ◌==◌, ==_eq, ==_refl, is_empty, length, drop, Bool-cases, inl, inr, get_elem?,
}
use irc.Map.{lookup, modify}
use irc.Map.Laws.{lookup-modify, lookup-modify_cases}
use irc.Text.{Text}
use irc.Client.{Client, consume_output, has_output, request_disconnect}
use irc.Server.{Server, PollFd, find_client, modify_client}
use irc.Handler.Keeps.{request_disconnect-IsCalm}
use irc.Connection.{flush_client_output, disarm, disarm_pollout}
use irc.Protocol.Rules.{by_if, by_option}
use irc.Polling.{IsServed, IsPolled, IsServing, fd_at, left_at}
use irc.Polling.Entries.{
  has_poll_fd-disarm, wants_in_at-disarm, wants_out_at-disarm, AreDistinct-disarm,
}
use irc.Polling.Sent.{member-modify, written-IsPolled}
use irc.Polling.Served.{modify_client-IsServing}

length-drop_bound : (n : ℕ) (xs : Text) → length (drop n xs) ≤ length xs
length-drop_bound zero xs = omega arith
length-drop_bound (suc n) [] = omega arith
length-drop_bound (suc n) (x ∷ xs) = omega (arith, length-drop_bound n xs)

-- Nothing is left of nothing.
shrunk_lem :
    (more less : Text) → length less ≤ length more → is_empty less ≡ false → is_empty more ≡ false
shrunk_lem [] [] h left = left
shrunk_lem [] (x ∷ less) h left = absurd (omega (arith, h))
shrunk_lem (x ∷ more) less h left = refl

consumed_lem :
    (count : ℕ) (c : Client)
    → length (consume_output count c).output_buffer ≤ length c.output_buffer
unfolding consume_output
consumed_lem count c = ground (arith, length-drop_bound count c.output_buffer)

consumed_fd : (count : ℕ) (c : Client) → (consume_output count c).fd ≡ c.fd
unfolding consume_output
consumed_fd count c = ground arith

consume_output-IsPolled :
    (fd count : ℕ) (s : Server) → IsPolled s → IsPolled (modify_client fd (consume_output count) s)
consume_output-IsPolled fd count s w =
    let f = consume_output count in
    written-IsPolled s (modify fd f s.clients) s.poll_fds w w.distinct (λ g. refl) (λ g. refl)
      (λ g. member-modify fd g f s.clients)
      λ g c e. elim (lookup-modify_cases fd g f s.clients c e) [
        | inr old ↦ w.served g c old
        | inl (b, old, at_g, done) ↦
            let ok = w.served g b old in
            subst (λ d. IsServed g d s.poll_fds) done
              (record {
                keyed = consumed_fd count b ∙ ok.keyed;
                polled = ok.polled;
                heard = ok.heard;
                woken = λ h. ok.woken (shrunk_lem b.output_buffer _ (consumed_lem count b) h);
                bounded = omega (arith, consumed_lem count b, ok.bounded);
              })
      ]

fd_at-disarm :
    (index at : ℕ) (ps : List PollFd) → fd_at index (disarm_pollout at ps) ≡ fd_at index ps
unfolding fd_at disarm_pollout
fd_at-disarm index at [] = refl
fd_at-disarm zero zero (p ∷ ps) = refl
fd_at-disarm zero (suc at) (p ∷ ps) = refl
fd_at-disarm (suc index) zero (p ∷ ps) = refl
fd_at-disarm (suc index) (suc at) (p ∷ ps) = fd_at-disarm index at ps

length-disarm : (at : ℕ) (ps : List PollFd) → length (disarm_pollout at ps) ≡ length ps
unfolding disarm_pollout
length-disarm at [] = refl
length-disarm zero (p ∷ ps) = refl
length-disarm (suc at) (p ∷ ps) = ground (arith, length-disarm at ps)

left_at-disarm :
    (l index at : ℕ) (ps : List PollFd)
    → left_at l index (disarm_pollout at ps) ≡ left_at l index ps
unfolding left_at disarm_pollout
left_at-disarm l zero at ps = rw (has_poll_fd-disarm at l ps, length-disarm at ps) refl
left_at-disarm l (suc index) at [] = refl
left_at-disarm l (suc index) zero (p ∷ ps) = refl
left_at-disarm l (suc index) (suc at) (p ∷ ps) = left_at-disarm l index at ps

pub entry_at :
    (index fd : ℕ) (ps : List PollFd)
    → fd_at index ps ≡ some fd
    → (p : PollFd) × (get_elem? ps index ≡ some p) × (p.fd ≡ fd)
unfolding fd_at
entry_at index fd [] e = absurd (ground (arith, e))
entry_at zero fd (p ∷ ps) e = (p, refl, ground (arith, e))
entry_at (suc index) fd (p ∷ ps) e = entry_at index fd ps e

-- No interest in POLLOUT is left where nothing is pending.
disarm-IsPolled :
    (index fd : ℕ) (s : Server) (c : Client)
    → fd_at index s.poll_fds ≡ some fd
    → lookup fd s.clients ≡ some c
    → is_empty c.output_buffer ≡ true
    → IsPolled s
    → IsPolled (disarm index s)
disarm-IsPolled index fd s c here found quiet w =
    let (p, e, at_fd) = entry_at index fd s.poll_fds here in
    written-IsPolled s s.clients (disarm_pollout index s.poll_fds) w
      (AreDistinct-disarm index s.poll_fds w.distinct) (λ g. has_poll_fd-disarm index g s.poll_fds)
      (λ g. wants_in_at-disarm index g s.poll_fds) (λ g. refl)
      λ g d old.
        let ok = w.served g d old in
        record {
          keyed = ok.keyed;
          polled = has_poll_fd-disarm index g s.poll_fds ∙ ok.polled;
          heard = wants_in_at-disarm index g s.poll_fds ∙ ok.heard;
          woken = λ h. elim (Bool-cases (p.fd == g)) [
            | inr other ↦ wants_out_at-disarm p g index s.poll_fds w.distinct e other ∙ ok.woken h
            | inl same ↦ absurd (ground (arith, ==_eq p.fd g same, at_fd, found, old, quiet, h))
          ];
          bounded = ok.bounded;
        }

disarm-IsServing :
    (index fd left : ℕ) (s : Server) (c : Client)
    → lookup fd s.clients ≡ some c
    → not (has_output c) ≡ true
    → IsServing index fd left s
    → IsServing index fd left (disarm index s)
unfolding has_output
disarm-IsServing index fd left s c found quiet w = record {
  whole = disarm-IsPolled index fd s c w.here found (ground (arith, quiet)) w.whole;
  here = fd_at-disarm index index s.poll_fds ∙ w.here;
  other = w.other;
  bound = left_at-disarm s.listener_fd index index s.poll_fds ∙ w.bound;
}

pub flush_client_output-IsServing :
    (index fd left : ℕ) (sent : Option ℕ) (s : Server)
    → IsServing index fd left s
    → IsServing index fd left (flush_client_output index fd sent s).0
unfolding flush_client_output find_client
flush_client_output-IsServing index fd left sent s w =
    by_option First (lookup fd s.clients) (λ _. w)
      λ c found.
        by_if First (not (has_output c)) (λ quiet. disarm-IsServing index fd left s c found quiet w)
          λ _.
            by_option First sent
              (λ _.
                modify_client-IsServing index fd left fd (request_disconnect _) s
                  (request_disconnect-IsCalm _).fd (request_disconnect-IsCalm _).output w)
              λ count _.
                let after : P (modify_client fd (consume_output count) s) = record {
                  whole = consume_output-IsPolled fd count s w.whole;
                  here = w.here;
                  other = w.other;
                  bound = w.bound;
                } in
                by_if P (has_output (consume_output count c)) (λ _. after)
                  λ quiet.
                    disarm-IsServing index fd left (modify_client fd (consume_output count) s)
                      (consume_output count c)
                      (ground (
                        arith,
                        lookup-modify fd fd (consume_output count) s.clients,
                        ==_refl fd,
                        found,
                      ))
                      (ap not quiet) after
  where
    P : Server → Type 0
    P = IsServing index fd left

    First : Server × Bool → Type 0
    First outcome = P outcome.0
