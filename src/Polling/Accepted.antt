-- ===== src/Polling/Accepted.antt =====
-- acceptClient (srcs/Server/ServerSocket.cpp): the new client gets one entry; when the registration
-- throws, the server is as it was.
use irc.Base.{
  ℕ, zero, suc, [], ◌∷◌, List, ◌<◌, true, false, ◌≡◌, refl, sym, ◌∙◌, none, some, nat_ord, arith,
  ◌==◌, ==_eq, ==_refl, Bool-cases, Option-cases, inl, inr, if◌then◌else◌, ◌++◌, length-append,
}
use irc.Map.{Map, lookup, member, insert, erase}
use irc.Map.Laws.{lookup-insert, lookup-erase, member-insert}
use irc.Client.{Client, new_client}
use irc.Server.{Server, PollFd}
use irc.Connection.{
  Outcome, normal, thrown, Accepted, accept_failed, accepted, has_poll_fd, add_poll_fd,
  register_client, forget_accepted, accept_client, open_fd, close_fd,
}
use irc.Loop.{System}
use irc.Protocol.Rules.{by_if}
use irc.Polling.{IsServed, IsPolled, AreDistinct, fd_at, left_at}
use irc.Polling.Entries.{
  fresh_entry, has_poll_fd-append, wants_in_at-append, wants_out_at-append, AreDistinct-append,
}
use irc.Polling.Sent.{written-IsPolled, other_fds-IsPolled}

abbrev pub PolledOutcome : Outcome → Type 0
PolledOutcome (normal s) = IsPolled s
PolledOutcome (thrown s) = IsPolled s

-- With fewer rounds left behind the listener's entry.
abbrev pub Arrives : ℕ → ℕ → Outcome → Type 0
Arrives index left (normal s) = IsPolled s × (left_at s.listener_fd (suc index) s.poll_fds < left)
Arrives index left (thrown s) = IsPolled s

left_at-append :
    (l index fd : ℕ) (ps : List PollFd)
    → AreDistinct ps
    → fd_at index ps ≡ some l
    → has_poll_fd fd ps ≡ false
    → left_at l (suc index) (ps ++ fresh_entry fd ∷ []) < left_at l index ps
unfolding left_at fd_at has_poll_fd
left_at-append l index fd [] d e new = absurd (ground (arith, e))
left_at-append l zero fd (p ∷ ps) d e new = ground (
  arith,
  e,
  d.0,
  new,
  length-append ps (fresh_entry fd ∷ []),
  has_poll_fd-append fd l ps,
  ==_refl l,
  ==_eq fd l,
)
left_at-append l (suc index) fd (p ∷ ps) d e new =
    left_at-append l index fd ps d.1 e (ground (arith, new))

pub left_at-suc :
    (l index fd : ℕ) (ps : List PollFd)
    → fd_at index ps ≡ some fd
    → left_at l (suc index) ps < left_at l index ps
unfolding left_at fd_at has_poll_fd
left_at-suc l index fd [] e = absurd (ground (arith, e))
left_at-suc l zero fd (p ∷ ps) e = ground arith
left_at-suc l (suc index) fd (p ∷ ps) e = left_at-suc l index fd ps e

-- `accept()` gives a descriptor that is not open.
abbrev pub IsUnused : Accepted → Server → Type 0
IsUnused accept_failed s = Unit {0}
IsUnused (accepted fd non_blocking) s = lookup fd s.open_fds ≡ none

abbrev pub AcceptsUnused : System → Type 0
AcceptsUnused io = (round : ℕ) (s : Server) → IsUnused (io round s).accepts s

-- Such a descriptor is no client's and not the listener's.
pub unused_lem :
    (fd : ℕ) (s : Server)
    → lookup fd s.open_fds ≡ none
    → IsPolled s
    → (lookup fd s.clients ≡ none) × ((fd == s.listener_fd) ≡ false)
unfolding member
unused_lem fd s unused w = elim (Bool-cases (fd == s.listener_fd)) [
  | inl same ↦ absurd (ground (arith, same, unused, w.opened fd))
  | inr other ↦ elim (Option-cases (lookup fd s.clients)) [
    | inl missing ↦ (missing, other)
    | inr (c, found) ↦ absurd (ground (arith, other, unused, found, w.opened fd))
  ]
]

module _ (fd : ℕ) (s : Server) (unused : lookup fd s.open_fds ≡ none) (w : IsPolled s) where
  newcomer :
      has_poll_fd fd s.poll_fds ≡ false
      → IsServed fd (new_client fd) (s.poll_fds ++ fresh_entry fd ∷ [])
  unfolding new_client
  newcomer unpolled = record {
    keyed = refl;
    polled = ground (arith, has_poll_fd-append fd fd s.poll_fds, ==_refl fd);
    heard = ground (arith, wants_in_at-append fd fd s.poll_fds, unpolled, ==_refl fd);
    woken = λ h. absurd (ground (arith, h));
    bounded = omega arith;
  }

  arrived_at :
      (g : ℕ)
      → member g (insert fd (new_client fd) s.clients)
        ≡ (if fd == g then true else member g s.clients)
  arrived_at g = member-insert fd g (new_client fd) s.clients

  arrived-IsPolled :
      has_poll_fd fd s.poll_fds ≡ false
      → IsPolled (record s {
        clients = insert fd (new_client fd) s.clients;
        poll_fds = s.poll_fds ++ fresh_entry fd ∷ [];
        open_fds = insert fd tt s.open_fds;
      })
  unfolding new_client
  arrived-IsPolled unpolled = record {
    distinct = AreDistinct-append fd s.poll_fds unpolled w.distinct;
    listens = ground (arith, has_poll_fd-append fd s.listener_fd s.poll_fds, w.listens);
    heard = ground (arith, wants_in_at-append fd s.listener_fd s.poll_fds, w.listens, w.heard);
    apart = elim (Bool-cases (fd == s.listener_fd)) [
      | inl same ↦ absurd (ground (arith, ==_eq fd s.listener_fd same, w.listens, unpolled))
      | inr other ↦ ground (arith, arrived_at s.listener_fd, other, w.apart)
    ];
    served = λ g c found. elim (Bool-cases (fd == g)) [
      | inl same ↦ ground (
        arith,
        ==_eq fd g same,
        newcomer unpolled,
        lookup-insert fd g (new_client fd) s.clients,
        found,
      )
      | inr other ↦
          let ok =
            w.served g c
              (ground (arith, lookup-insert fd g (new_client fd) s.clients, found, other)) in
          record {
            keyed = ok.keyed;
            polled = ground (arith, has_poll_fd-append fd g s.poll_fds, ok.polled);
            heard = ground (arith, wants_in_at-append fd g s.poll_fds, ok.polled, ok.heard);
            woken = λ h. wants_out_at-append fd g s.poll_fds ∙ ok.woken h;
            bounded = ok.bounded;
          }
    ];
    owned = λ g h differs. elim (Bool-cases (fd == g)) [
      | inl same ↦ ground (arith, arrived_at g, same)
      | inr other ↦ ground (
        arith,
        arrived_at g,
        other,
        w.owned g (ground (arith, has_poll_fd-append fd g s.poll_fds, other, h)) differs,
      )
    ];
    opened = λ g.
        ground (
          arith,
          arrived_at g,
          member-insert fd g tt s.open_fds,
          w.opened g,
          ==_eq fd g,
          ==_refl fd,
        );
  }

  -- The descriptor is closed again.
  closed_lem : (g : ℕ) → member g (erase fd (insert fd tt s.open_fds)) ≡ member g s.open_fds
  unfolding member
  closed_lem g = ground (
    arith,
    lookup-erase fd g (insert fd tt s.open_fds),
    lookup-insert fd g tt s.open_fds,
    ==_eq fd g,
    unused,
  )

  -- The handler of the exceptions takes back what was registered.
  forgotten-IsPolled :
      (clients : Map ℕ Client)
      → ((g : ℕ) → lookup g clients ≡ lookup g s.clients)
      → IsPolled (close_fd fd (record (open_fd fd s) { clients = clients }))
  unfolding member
  forgotten-IsPolled clients same =
      other_fds-IsPolled (record s { clients = clients }) _ closed_lem
        (written-IsPolled s clients s.poll_fds w w.distinct (λ g. refl) (λ g. refl)
          (λ g. ground (arith, same g)) (λ g c found. w.served g c (sym (same g) ∙ found)))

  erase-lookup :
      (clients : Map ℕ Client)
      → ((g : ℕ) → (fd == g) ≡ false → lookup g clients ≡ lookup g s.clients)
      → (g : ℕ) → lookup g (erase fd clients) ≡ lookup g s.clients
  erase-lookup clients same g = elim (Bool-cases (fd == g)) [
    | inl at_fd ↦
        ground
          (arith, lookup-erase fd g clients, at_fd, ==_eq fd g at_fd, (unused_lem fd s unused w).0)
    | inr other ↦ ground (arith, lookup-erase fd g clients, other, same g other)
  ]

  registered-Arrives :
      (index : ℕ)
      → fd_at index s.poll_fds ≡ some s.listener_fd
      → Arrives index
          (left_at s.listener_fd index s.poll_fds)
          (forget_accepted fd (register_client fd (open_fd fd s)))
  unfolding forget_accepted register_client add_poll_fd member
  registered-Arrives index here =
      by_if (λ o. Arrives index (left_at s.listener_fd index s.poll_fds) (forget_accepted fd o))
        (member fd s.clients) (λ _. forgotten-IsPolled _ (erase-lookup s.clients (λ g _. refl)))
        λ _.
          by_if (λ o. Arrives index (left_at s.listener_fd index s.poll_fds) (forget_accepted fd o))
            (has_poll_fd fd s.poll_fds)
            (λ _. forgotten-IsPolled _ (
              erase-lookup (insert fd (new_client fd) s.clients)
                λ g other. ground (arith, lookup-insert fd g (new_client fd) s.clients, other)))
            λ unpolled. (
              arrived-IsPolled unpolled,
              left_at-append s.listener_fd index fd s.poll_fds w.distinct here unpolled,
            )

pub accept_client-Arrives :
    (result : Accepted) (index : ℕ) (s : Server)
    → fd_at index s.poll_fds ≡ some s.listener_fd
    → IsUnused result s
    → IsPolled s
    → Arrives index (left_at s.listener_fd index s.poll_fds) (accept_client result s)
unfolding accept_client forget_accepted
accept_client-Arrives accept_failed index s here unused w =
    (w, left_at-suc s.listener_fd index s.listener_fd s.poll_fds here)
accept_client-Arrives (accepted fd non_blocking) index s here unused w =
    by_if (λ o. Arrives index (left_at s.listener_fd index s.poll_fds) (forget_accepted fd o))
      non_blocking (λ _. registered-Arrives fd s unused w index here)
      (λ _. forgotten-IsPolled fd s unused w _ (erase-lookup fd s unused w s.clients (λ g _. refl)))
