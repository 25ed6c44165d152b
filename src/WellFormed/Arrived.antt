-- ===== src/WellFormed/Arrived.antt =====
-- A connection that is accepted (acceptClient) keeps the server well formed.
use irc.Base.{
  ℕ, false, ◌≡◌, subst, ◌∙◌, [], none, some, inl, inr, nat_ord, arith, ◌==◌, ==_eq, ==_refl,
  Bool-cases,
}
use irc.Map.{Map, lookup, member, insert, erase}
use irc.Map.Laws.{
  lookup-map_values, lookup-insert, lookup-erase, map_values-insert, map_values-erase,
}
use irc.Map.Sorted.{Sorted, insert-Sorted, erase-Sorted}
use irc.Text.{text_ord}
use irc.Client.{Client, new_client}
use irc.Server.{Server}
use irc.Server.Send.Frames.{quiet, core}
use irc.Connection.{
  Outcome, normal, thrown, Accepted, accept_failed, accepted, add_poll_fd, has_poll_fd,
  register_client, forget_accepted, accept_client, open_fd, close_fd,
}
use irc.Protocol.Rules.{by_if}
use irc.WellFormed.{nickname_of, registered_at, IsClient, IsWellFormed}
use irc.WellFormed.Connections.{Fit, other_polls-Fit, other_fds-Fit}

-- Other clients, with the nicknames and the registrations of the old ones.
same_names-IsWellFormed :
    (clients : Map ℕ Client) (v : Server)
    → ((g : ℕ) (c : Client) → lookup g clients ≡ some c → IsClient g c)
    → ((g : ℕ) → nickname_of g (record v { clients = clients }) ≡ nickname_of g v)
    → ((g : ℕ) → registered_at g (record v { clients = clients }) ≡ registered_at g v)
    → Sorted clients
    → IsWellFormed v
    → IsWellFormed (record v { clients = clients })
same_names-IsWellFormed clients v each names regs sorted w = record {
  clients = each;
  nicknames = record {
    sound = λ key g e. rw names (w.nicknames.sound key g e);
    complete = λ g. rw names (w.nicknames.complete g);
  };
  clients_sorted = sorted;
  index_sorted = w.index_sorted;
  channels_sorted = w.channels_sorted;
  channels = λ key channel e.
      let ok = w.channels key channel e in
      record {
        named = ok.named;
        inhabited = ok.inhabited;
        ordered = ok.ordered;
        members = λ g m. regs g ∙ ok.members g m;
        invites = ok.invites;
      };
}

module _ (fd : ℕ) (v : Server) (fresh : lookup fd v.clients ≡ none) (w : IsWellFormed v) where
  abbrev arrived : Map ℕ Client
  arrived = insert fd (new_client fd) v.clients

  arrived-IsClient : (g : ℕ) (c : Client) → lookup g arrived ≡ some c → IsClient g c
  unfolding new_client
  arrived-IsClient g c e = elim (Bool-cases (fd == g)) [
    | inr other ↦ w.clients g c (ground (arith, lookup-insert fd g (new_client fd) v.clients))
    | inl same ↦
        subst (IsClient g) {x = new_client fd}
          (ground (arith, lookup-insert fd g (new_client fd) v.clients))
          (record { keyed = ==_eq fd g same; ready = λ r. absurd (ground arith) })
  ]

  new_client-IsWellFormed : IsWellFormed (record v { clients = arrived })
  new_client-IsWellFormed =
      same_names-IsWellFormed arrived v arrived-IsClient names regs
        (insert-Sorted fd (new_client fd) v.clients w.clients_sorted) w
    where
      names : (g : ℕ) → nickname_of g (record v { clients = arrived }) ≡ nickname_of g v
      names g =
          unfold nickname_of new_client in
          ground (arith, lookup-insert fd g (new_client fd) v.clients, ==_eq fd g)

      regs : (g : ℕ) → registered_at g (record v { clients = arrived }) ≡ registered_at g v
      regs g =
          unfold registered_at new_client in
          ground (arith, lookup-insert fd g (new_client fd) v.clients, ==_eq fd g)

module _ (fd : ℕ) (v : Server) (nameless : nickname_of fd v ≡ [])
    (guest : registered_at fd v ≡ false) (w : IsWellFormed v) where
  dropped-IsWellFormed : IsWellFormed (record v { clients = erase fd v.clients })
  dropped-IsWellFormed =
      same_names-IsWellFormed (erase fd v.clients) v
        (λ g c e. w.clients g c (ground (arith, lookup-erase fd g v.clients))) names regs
        (erase-Sorted fd v.clients w.clients_sorted) w
    where
      names : (g : ℕ) → nickname_of g (record v { clients = erase fd v.clients }) ≡ nickname_of g v
      names g = unfold nickname_of in ground (arith, lookup-erase fd g v.clients, ==_eq fd g)

      regs :
          (g : ℕ) → registered_at g (record v { clients = erase fd v.clients }) ≡ registered_at g v
      regs g = unfold registered_at in ground (arith, lookup-erase fd g v.clients, ==_eq fd g)

-- Both ways in which a call can end.
abbrev pub FitOutcome : Outcome → Type 0
FitOutcome (normal s) = Fit s
FitOutcome (thrown s) = Fit s

-- `accept()` gives a descriptor that no client has.
abbrev pub IsFresh : Accepted → Server → Type 0
IsFresh accept_failed s = Unit {0}
IsFresh (accepted fd non_blocking) s = lookup fd s.clients ≡ none

add_poll_fd-FitOutcome : (fd : ℕ) (s : Server) → Fit s → FitOutcome (add_poll_fd fd s)
unfolding add_poll_fd
add_poll_fd-FitOutcome fd s w =
    by_if FitOutcome (has_poll_fd fd s.poll_fds) (λ _. w) (λ _. other_polls-Fit s _ w)

module _ (fd : ℕ) (s : Server) (fresh : lookup fd s.clients ≡ none) (w : Fit s) where
  fresh_quiet : lookup fd (quiet s).clients ≡ none
  unfolding quiet
  fresh_quiet = rw (lookup-map_values core fd s.clients, fresh)

  arrived-Fit : Fit (record s { clients = insert fd (new_client fd) s.clients })
  unfolding quiet
  arrived-Fit =
      rw (map_values-insert core fd (new_client fd) s.clients)
        (unfold new_client in new_client-IsWellFormed fd (quiet s) fresh_quiet w)

drop-Fit :
    (fd : ℕ) (s : Server)
    → nickname_of fd (quiet s) ≡ []
    → registered_at fd (quiet s) ≡ false
    → Fit s
    → Fit (close_fd fd (record s { clients = erase fd s.clients }))
unfolding quiet
drop-Fit fd s nameless guest w =
    other_fds-Fit (record s { clients = erase fd s.clients }) _
      (rw (map_values-erase core fd s.clients) (dropped-IsWellFormed fd (quiet s) nameless guest w))

-- The result of adding a descriptor is the server with other poll entries.
forget_add_poll_fd-FitOutcome :
    (fd : ℕ) (s : Server)
    → nickname_of fd (quiet s) ≡ []
    → registered_at fd (quiet s) ≡ false
    → Fit s
    → FitOutcome (forget_accepted fd (add_poll_fd fd s))
unfolding forget_accepted add_poll_fd
forget_add_poll_fd-FitOutcome fd s nameless guest w =
    by_if (λ o. FitOutcome (forget_accepted fd o)) (has_poll_fd fd s.poll_fds)
      (λ _. drop-Fit fd s nameless guest w) (λ _. other_polls-Fit s _ w)

module _ (fd : ℕ) (s : Server) (fresh : lookup fd s.clients ≡ none) where
  blank : (nickname_of fd (quiet s) ≡ []) × (registered_at fd (quiet s) ≡ false)
  unfolding nickname_of registered_at quiet
  blank = ground (arith, lookup-map_values core fd s.clients)

  blank_arrived :
      (nickname_of fd (quiet (record s { clients = insert fd (new_client fd) s.clients })) ≡ [])
      × (registered_at fd (quiet (record s { clients = insert fd (new_client fd) s.clients }))
          ≡ false)
  unfolding nickname_of registered_at quiet new_client
  blank_arrived = ground (
    arith,
    lookup-map_values core fd (insert fd (new_client fd) s.clients),
    lookup-insert fd fd (new_client fd) s.clients,
    ==_refl fd,
  )

  forget_register_client-FitOutcome : Fit s → FitOutcome (forget_accepted fd (register_client fd s))
  unfolding forget_accepted register_client
  forget_register_client-FitOutcome w =
      by_if (λ o. FitOutcome (forget_accepted fd o)) (member fd s.clients)
        (λ _. drop-Fit fd s blank.0 blank.1 w)
        (λ _.
          forget_add_poll_fd-FitOutcome fd
            (record s { clients = insert fd (new_client fd) s.clients }) blank_arrived.0
            blank_arrived.1 (arrived-Fit fd s fresh w))

-- Accepting a connection under a descriptor that no client has keeps a well-formed server well formed,
-- also where the call throws.
pub accept_client-FitOutcome :
    (result : Accepted) (s : Server)
    → IsFresh result s
    → Fit s
    → FitOutcome (accept_client result s)
unfolding accept_client forget_accepted
accept_client-FitOutcome accept_failed s fresh w = w
accept_client-FitOutcome (accepted fd non_blocking) s fresh w =
    by_if (λ o. FitOutcome (forget_accepted fd o)) non_blocking
      (λ _. forget_register_client-FitOutcome fd (open_fd fd s) fresh (other_fds-Fit s _ w))
      (λ _.
        let opened = open_fd fd s in
        drop-Fit fd opened (blank fd opened fresh).0 (blank fd opened fresh).1
          (other_fds-Fit s _ w))
