-- ===== src/Polling/Removed.antt =====
-- removeClient (srcs/Server/ServerSocket.cpp) takes the client and its entry away together.
use irc.Base.{
  ℕ, zero, suc, [], ◌∷◌, List, ◌<◌, true, false, ◌≡◌, sym, ◌∙◌, ap, subst, some, nat_ord, arith,
  ◌==◌, ==_eq, Bool-cases, Option-cases, inl, inr, get_elem?,
}
use irc.Map.{lookup, member, erase}
use irc.Map.Laws.{lookup-erase, member-erase}
use irc.Client.{Client}
use irc.Server.{Server, PollFd, find_client}
use irc.Server.Cleanup.{cleanup_client_irc_state}
use irc.Server.Keeps.{cleanup_client_irc_state_keeps}
use irc.Connection.{remove_client, remove_descriptor, erase_at, has_poll_fd}
use irc.Protocol.Rules.{by_some}
use irc.Polling.{IsPolled, IsServing, fd_at, left_at}
use irc.Polling.Entries.{
  has_poll_fd-erase_at, wants_in_at-erase_at, wants_out_at-erase_at, AreDistinct-erase_at,
  has_poll_fd_of_get,
}
use irc.Polling.Sent.{IsServing-IsKept}
use irc.Polling.Flushed.{entry_at}

erased-IsPolled :
    (index fd left : ℕ) (s : Server)
    → IsServing index fd left s
    → IsPolled (record s {
      clients = erase fd s.clients;
      poll_fds = erase_at index s.poll_fds;
      open_fds = erase fd s.open_fds;
    })
erased-IsPolled index fd left s v =
    let (p, e, at_fd) = entry_at index fd s.poll_fds v.here in
    let w = v.whole in
    let polled = λ (g : ℕ). has_poll_fd-erase_at p g index s.poll_fds w.distinct e in
    let apart : (p.fd == s.listener_fd) ≡ false = ap (λ f. f == s.listener_fd) at_fd ∙ v.other in
    record {
      distinct = AreDistinct-erase_at index s.poll_fds w.distinct;
      listens = ground (arith, polled s.listener_fd, apart, w.listens);
      heard = wants_in_at-erase_at p s.listener_fd index s.poll_fds w.distinct e apart ∙ w.heard;
      apart = ground (arith, member-erase fd s.listener_fd s.clients, w.apart);
      served = λ g c found. elim (Bool-cases (fd == g)) [
        | inl same ↦ absurd (ground (arith, lookup-erase fd g s.clients, found, same))
        | inr differs ↦
            let other : (p.fd == g) ≡ false = ap (λ f. f == g) at_fd ∙ differs in
            let ok = w.served g c (ground (arith, lookup-erase fd g s.clients, found, differs)) in
            record {
              keyed = ok.keyed;
              polled = ground (arith, polled g, other, ok.polled);
              heard = wants_in_at-erase_at p g index s.poll_fds w.distinct e other ∙ ok.heard;
              woken =
                  λ h. wants_out_at-erase_at p g index s.poll_fds w.distinct e other ∙ ok.woken h;
              bounded = ok.bounded;
            }
      ];
      owned = λ g h differs. elim (Bool-cases (p.fd == g)) [
        | inl same ↦ absurd (ground (arith, polled g, same, h))
        | inr other ↦ ground (
          arith,
          member-erase fd g s.clients,
          ap (λ f. f == g) at_fd,
          other,
          w.owned g (ground (arith, polled g, other, h)) differs,
        )
      ];
      opened = λ g. ground (
        arith,
        member-erase fd g s.clients,
        member-erase fd g s.open_fds,
        w.opened g,
        ==_eq fd g,
        v.other,
      );
    }

found_of_member :
    (fd : ℕ) (s : Server)
    → member fd s.clients ≡ true
    → (c : Client) × (lookup fd s.clients ≡ some c)
unfolding member find_client
found_of_member fd s h = elim (Option-cases (lookup fd s.clients)) [
  | inl missing ↦ absurd (ground (arith, missing, h))
  | inr found ↦ found
]

left_at-erase_at :
    (l index fd : ℕ) (ps : List PollFd)
    → fd_at index ps ≡ some fd
    → (fd == l) ≡ false
    → left_at l index (erase_at index ps) < left_at l index ps
unfolding left_at fd_at erase_at has_poll_fd
left_at-erase_at l index fd [] e other = absurd (ground (arith, e))
left_at-erase_at l zero fd (p ∷ ps) e other = ground (arith, e, other)
left_at-erase_at l (suc index) fd (p ∷ ps) e other = left_at-erase_at l index fd ps e other

-- With fewer rounds left.
abbrev pub IsShorter : ℕ → ℕ → Server → Type 0
IsShorter index left s = IsPolled s × (left_at s.listener_fd index s.poll_fds < left)

erased-IsShorter :
    (index fd left : ℕ) (s : Server)
    → IsServing index fd left s
    → IsShorter index left (record s {
      clients = erase fd s.clients;
      poll_fds = erase_at index s.poll_fds;
      open_fds = erase fd s.open_fds;
    })
erased-IsShorter index fd left s v = (
  erased-IsPolled index fd left s v,
  subst (λ n. left_at s.listener_fd index (erase_at index s.poll_fds) < n) v.bound
      (left_at-erase_at s.listener_fd index fd s.poll_fds v.here v.other),
)

-- The removal of a client: its traces are cleaned up, and both its object and its entry are erased.
module _ (P : Server → Type 0) (index fd left : ℕ) (s : Server)
    (v : IsServing index fd left s) where
  erased : Server → Server
  erased t = record t {
    clients = erase fd t.clients;
    poll_fds = erase_at index t.poll_fds;
    open_fds = erase fd t.open_fds;
  }

  descriptor_cases :
      ((c : Client) → P (erased (cleanup_client_irc_state c s)))
      → has_poll_fd fd s.poll_fds ≡ true
      → P (record (remove_descriptor fd s) {
        poll_fds = erase_at index (remove_descriptor fd s).poll_fds;
      })
  unfolding erased remove_descriptor erase_at find_client
  descriptor_cases each h =
      let (c, found) = found_of_member fd s (v.whole.owned fd h v.other) in
      let keyed = (v.whole.served fd c found).keyed in
      rw (found, remove_descriptor)
        (subst
          (λ f. P (record (cleanup_client_irc_state c s) {
            clients = erase fd (cleanup_client_irc_state c s).clients;
            poll_fds = erase_at index (cleanup_client_irc_state c s).poll_fds;
            open_fds = erase f (cleanup_client_irc_state c s).open_fds;
          }))
          (sym keyed) (each c))

  pub remove_client_cases :
      ((c : Client)
        → IsServing index fd left (cleanup_client_irc_state c s)
        → P (record (cleanup_client_irc_state c s) {
          clients = erase fd (cleanup_client_irc_state c s).clients;
          poll_fds = erase_at index (cleanup_client_irc_state c s).poll_fds;
          open_fds = erase fd (cleanup_client_irc_state c s).open_fds;
        }))
      → P (remove_client index s)
  unfolding remove_client erased
  remove_client_cases each =
      let (p, e, at_fd) = entry_at index fd s.poll_fds v.here in
      by_some P (get_elem? s.poll_fds index) s _ e (
        subst
          (λ f. P (record (remove_descriptor f s) {
            poll_fds = erase_at index (remove_descriptor f s).poll_fds;
          }))
          (sym at_fd)
          (descriptor_cases
            (λ c. each c (
              cleanup_client_irc_state_keeps (IsServing index fd left)
                (IsServing-IsKept index fd left) c s v))
            (ap (λ f. has_poll_fd f s.poll_fds) (sym at_fd)
              ∙ has_poll_fd_of_get index s.poll_fds p e)))

-- Of a client, whose entry is not the listener's.
pub remove_client-IsShorter :
    (index fd left : ℕ) (s : Server)
    → IsServing index fd left s
    → IsShorter index left (remove_client index s)
remove_client-IsShorter index fd left s v =
    remove_client_cases (IsShorter index left) index fd left s v
      (λ c k. erased-IsShorter index fd left (cleanup_client_irc_state c s) k)
