-- ===== src/Polling/Leaving.antt =====
-- removeDisconnectedClients (srcs/Server/Server.cpp) reaches every client that is to go.
use irc.Base.{
  ℕ, zero, suc, ◌≤◌, true, false, not, ◌&&◌, ◌≡◌, ◌∙◌, subst, some, none, nat_ord, arith, ◌==◌,
  ==_eq, ==_refl, get_elem?, length, Option-cases, Bool-cases, inl, inr,
}
use irc.Map.{lookup, member}
use irc.Map.Laws.{lookup-modify, lookup-erase}
use irc.Client.{Client, append_output, request_disconnect}
use irc.Server.{Server, PollFd, find_client}
use irc.Server.Send.{exceeded}
use irc.Server.Cleanup.{cleanup_client_irc_state}
use irc.Server.Keeps.{queue_raw_cases, IsKept, cleanup_client_irc_state_keeps}
use irc.Connection.{remove_client, remove_descriptor}
use irc.Loop.{remove_disconnected, remove_disconnected_clients, wants_removal}
use irc.Protocol.Rules.{by_option, by_bool, by_some}
use irc.Polling.{IsPolled, IsServing, left_at}
use irc.Polling.Rounds.{fd_at_of_get}
use irc.Polling.Removed.{remove_client_cases, remove_client-IsShorter}
use irc.Polling.Running.{leaving_lem}
use irc.Polling.Accepted.{left_at-suc}
use irc.Polling.Fuel.{left_at-zero}
use irc.Polling.Due.{is_behind, is_behind-suc, get_elem_behind, IsDue, remove_client-IsDue}

-- No client any more.
IsGone : ℕ → Server → Type 0
IsGone fd s = lookup fd s.clients ≡ none

IsGone-IsKept : (fd : ℕ) → IsKept (IsGone fd)
unfolding IsGone
IsGone-IsKept fd = record {
  queued = λ g bytes s w.
      queue_raw_cases (IsGone fd) g bytes s w
        (ground (arith, lookup-modify g fd (request_disconnect exceeded) s.clients, w))
        (λ c _ _. ground (arith, lookup-modify g fd (append_output bytes) s.clients, w));
  written = λ g f s calm w. ground (arith, lookup-modify g fd f s.clients, w);
  shared = λ channels maps s w. w;
}

remove_client-IsGone : (fd index : ℕ) (s : Server) → IsGone fd s → IsGone fd (remove_client index s)
unfolding remove_client remove_descriptor IsGone
remove_client-IsGone fd index s w =
    by_option (IsGone fd) (get_elem? s.poll_fds index) (λ _. w)
      λ p _.
        by_option (IsGone fd) (find_client p.fd s) (λ _. w)
          λ c _. ground (
            arith,
            lookup-erase p.fd fd (cleanup_client_irc_state c s).clients,
            cleanup_client_irc_state_keeps (IsGone fd) (IsGone-IsKept fd) c s w,
          )

removed_now :
    (fd index left : ℕ) (s : Server) → IsServing index fd left s → IsGone fd (remove_client index s)
unfolding IsGone
removed_now fd index left s v =
    remove_client_cases (IsGone fd) index fd left s v
      λ c k. ground (arith, lookup-erase fd fd (cleanup_client_irc_state c s).clients, ==_refl fd)

remove_disconnected-IsGone :
    (fuel index fd : ℕ) (s : Server) → IsGone fd s → IsGone fd (remove_disconnected fuel index s)
unfolding remove_disconnected
remove_disconnected-IsGone zero index fd s w = w
remove_disconnected-IsGone (suc fuel) index fd s w =
    by_option (IsGone fd) (get_elem? s.poll_fds index) (λ _. w)
      λ p _.
        by_bool (IsGone fd) (not (p.fd == s.listener_fd) && wants_removal p.fd s)
          (λ _.
            remove_disconnected-IsGone fuel index fd (remove_client index s)
              (remove_client-IsGone fd index s w))
          (λ _. remove_disconnected-IsGone fuel (suc index) fd s w)

apart_lem :
    (fd : ℕ) (c : Client) (s : Server)
    → lookup fd s.clients ≡ some c
    → IsPolled s
    → (fd == s.listener_fd) ≡ false
unfolding member
apart_lem fd c s found w = elim (Bool-cases (fd == s.listener_fd)) [
  | inr other ↦ other
  | inl same ↦ absurd (ground (arith, ==_eq fd s.listener_fd same, found, w.apart))
]

-- A client that stays is not one that is to go.
staying_lem :
    (fd index : ℕ) (p : PollFd) (s : Server)
    → (not (p.fd == s.listener_fd) && wants_removal p.fd s) ≡ false
    → IsDue fd index s
    → (p.fd == fd) ≡ false
staying_lem fd index p s stays due = elim (Bool-cases (p.fd == fd)) [
  | inr other ↦ other
  | inl same ↦
      let here : (not (fd == s.listener_fd) && wants_removal fd s) ≡ false =
        subst (λ f. (not (f == s.listener_fd) && wants_removal f s) ≡ false) (==_eq p.fd fd same)
          stays in
      absurd (ground (arith, here, due.asked, due.other))
]

due_reached :
    (fuel index fd : ℕ) (s : Server)
    → IsPolled s
    → left_at s.listener_fd index s.poll_fds ≤ fuel
    → IsDue fd index s
    → IsGone fd (remove_disconnected fuel index s)
unfolding remove_disconnected
due_reached zero index fd s w h due =
    let (p, e) = get_elem_behind fd index s.poll_fds due.behind in
    absurd (
      omega (
        arith,
        h,
        left_at-suc s.listener_fd index p.fd s.poll_fds (fd_at_of_get index s.poll_fds p e),
      ))
due_reached (suc fuel) index fd s w h due =
    let (p, e) = get_elem_behind fd index s.poll_fds due.behind in
    let here = fd_at_of_get index s.poll_fds p e in
    by_some (IsGone fd) (get_elem? s.poll_fds index) s _ e (
      by_bool (IsGone fd) (not (p.fd == s.listener_fd) && wants_removal p.fd s)
        (λ leaves.
          let v = leaving_lem index p s e leaves w in
          let shorter = remove_client-IsShorter index p.fd _ s v in
          elim (Bool-cases (p.fd == fd)) [
            | inl same ↦ remove_disconnected-IsGone fuel index fd (remove_client index s) (
                subst (λ f. IsGone f (remove_client index s)) (==_eq p.fd fd same)
                  (removed_now p.fd index _ s v))
            | inr other ↦
                due_reached fuel index fd (remove_client index s) shorter.0
                  (omega (arith, shorter.1, h)) (remove_client-IsDue fd index p.fd _ s v other due)
          ])
        (λ stays.
          let other : (p.fd == fd) ≡ false = staying_lem fd index p s stays due in
          due_reached fuel (suc index) fd s w
            (omega (arith, left_at-suc s.listener_fd index p.fd s.poll_fds here, h))
            (record {
              asked = due.asked;
              behind = is_behind-suc fd index p.fd s.poll_fds here other ∙ due.behind;
              other = due.other;
            })))

-- When the entries are in order, no client whose disconnection was requested before the removal of
-- disconnected clients is a client of the server behind it.
pub remove_disconnected_clients_gone :
    (fd : ℕ) (s : Server)
    → IsPolled s
    → wants_removal fd s ≡ true
    → find_client fd (remove_disconnected_clients s) ≡ none
unfolding remove_disconnected_clients find_client IsGone wants_removal is_behind
remove_disconnected_clients_gone fd s w asked = elim (Option-cases (lookup fd s.clients)) [
  | inl missing ↦ absurd (ground (arith, missing, asked))
  | inr (c, found) ↦
      due_reached (suc (length s.poll_fds)) 0 fd s w (left_at-zero s.listener_fd s.poll_fds)
        (record {
          asked = asked;
          behind = (w.served fd c found).polled;
          other = apart_lem fd c s found w;
        })
]
