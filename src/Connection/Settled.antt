-- ===== src/Connection/Settled.antt =====
-- Both ends of acceptClient (srcs/Server/ServerSocket.cpp).
use irc.Base.{
  ℕ, Bool, true, false, not, ◌&&◌, ◌≡◌, refl, [], ◌∷◌, ◌++◌, none, some, Bool-cases, inl, inr, ◌==◌,
  nat_ord, arith, if◌then◌else◌,
}
use irc.Map.{Map, lookup, member, insert, erase}
use irc.Map.Laws.{lookup-insert, lookup-erase, member-insert, member-erase}
use irc.Client.{Client, new_client}
use irc.Server.{Server}
use irc.Connection.{
  Outcome, normal, thrown, Accepted, accept_failed, accepted, no_events, has_poll_fd, add_poll_fd,
  register_client, forget_accepted, accept_client,
}
use irc.Protocol.Rules.{by_if}

-- What a new connection needs: the descriptor is non-blocking, no client's, and has no entry.
abbrev pub may_connect : ℕ → Bool → Server → Bool
may_connect fd non_blocking s =
    non_blocking && not (member fd s.clients) && not (has_poll_fd fd s.poll_fds)

-- Everything but clients, entries and sockets is as it was.
record IsSettled (s t : Server) : Type 0 where
  listener : t.listener_fd ≡ s.listener_fd
  password : t.password ≡ s.password
  index : t.nickname_index ≡ s.nickname_index
  channels : t.channels ≡ s.channels

pub record IsConnected (fd : ℕ) (non_blocking : Bool) (s t : Server) : Type 0 where
  allowed : may_connect fd non_blocking s ≡ true
  clients :
      (g : ℕ) → lookup g t.clients ≡ (if fd == g then some (new_client fd) else lookup g s.clients)
  sockets : (g : ℕ) → member g t.open_fds ≡ (if fd == g then true else member g s.open_fds)
  entries :
      t.poll_fds
      ≡ s.poll_fds
        ++ record { fd = fd; wants_in = true; wants_out = false; revents = no_events } ∷ []
  settled : IsSettled s t

pub record IsForgotten (fd : ℕ) (non_blocking : Bool) (s t : Server) : Type 0 where
  refused : may_connect fd non_blocking s ≡ false
  clients : (g : ℕ) → lookup g t.clients ≡ (if fd == g then none else lookup g s.clients)
  sockets : (g : ℕ) → member g t.open_fds ≡ (if fd == g then false else member g s.open_fds)
  entries : t.poll_fds ≡ s.poll_fds
  settled : IsSettled s t

unfoldable pub Settles : Accepted → Server → Outcome → Type 0
Settles accept_failed s o = o ≡ normal s
Settles (accepted fd non_blocking) s (normal t) = IsConnected fd non_blocking s t
Settles (accepted fd non_blocking) s (thrown t) = IsForgotten fd non_blocking s t

module _ (fd : ℕ) (non_blocking : Bool) (s : Server) where
  kept_lem : IsSettled s s
  kept_lem = record { listener = refl; password = refl; index = refl; channels = refl }

  connected_lem :
      may_connect fd non_blocking s ≡ true
      → IsConnected fd non_blocking s (record s {
        clients = insert fd (new_client fd) s.clients;
        open_fds = insert fd tt s.open_fds;
        poll_fds =
            s.poll_fds
            ++ record { fd = fd; wants_in = true; wants_out = false; revents = no_events } ∷ [];
      })
  connected_lem allowed = record {
    allowed = allowed;
    clients = λ g. lookup-insert fd g (new_client fd) s.clients;
    sockets = λ g. member-insert fd g tt s.open_fds;
    entries = refl;
    settled = record { listener = refl; password = refl; index = refl; channels = refl };
  }

  -- Whatever was put under the descriptor is taken away.
  forgotten_lem :
      (clients : Map ℕ Client)
      → may_connect fd non_blocking s ≡ false
      → ((g : ℕ) → (fd == g) ≡ false → lookup g clients ≡ lookup g s.clients)
      → IsForgotten fd non_blocking s
          (record s { clients = erase fd clients; open_fds = erase fd (insert fd tt s.open_fds) })
  forgotten_lem clients refused same = record {
    refused = refused;
    clients = λ g. elim (Bool-cases (fd == g)) [
      | inl here ↦ ground (arith, lookup-erase fd g clients, here)
      | inr other ↦ ground (arith, lookup-erase fd g clients, other, same g other)
    ];
    sockets = λ g.
        ground
          (arith, member-erase fd g (insert fd tt s.open_fds), member-insert fd g tt s.open_fds);
    entries = refl;
    settled = record { listener = refl; password = refl; index = refl; channels = refl };
  }

-- A connection whose descriptor can be made non-blocking, is that of no client and has no entry gets
-- a blank client, an open socket and an entry that asks for POLLIN; any other ends by an exception,
-- with no client and no open socket under the descriptor and the entries as they were; a failed
-- accept() changes nothing, and nothing else changes.
pub accept_client-Settles :
    (result : Accepted) (s : Server) → Settles result s (accept_client result s)
unfolding accept_client Settles forget_accepted register_client add_poll_fd
accept_client-Settles accept_failed s = refl
accept_client-Settles (accepted fd non_blocking) s =
    by_if Here non_blocking
      (λ free.
        by_if Here (member fd s.clients)
          (λ taken. forgotten_lem fd non_blocking s s.clients (ground (arith, taken)) (λ g _. refl))
          λ new.
            by_if Here (has_poll_fd fd s.poll_fds)
              (λ polled.
                forgotten_lem fd non_blocking s (insert fd (new_client fd) s.clients)
                  (ground (arith, polled))
                  (λ g other. ground (arith, lookup-insert fd g (new_client fd) s.clients, other)))
              λ unpolled. connected_lem fd non_blocking s (ground (arith, free, new, unpolled)))
      (λ blocks. forgotten_lem fd non_blocking s s.clients (ground (arith, blocks)) (λ g _. refl))
  where
    Here : Outcome → Type 0
    Here o = Settles (accepted fd non_blocking) s (forget_accepted fd o)
