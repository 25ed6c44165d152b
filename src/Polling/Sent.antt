-- ===== src/Polling/Sent.antt =====
-- Queued output and the writes of the commands leave the entries in order.
use irc.Base.{
  ℕ, zero, suc, [], ◌∷◌, ◌≤◌, false, ◌≡◌, refl, sym, ◌∙◌, ap, subst, some, nat_ord, arith, ◌==◌,
  ==_refl, length, inl, inr, length-append, ◌++◌, ◌+◌, List,
}
use irc.Map.{Map, lookup, member, modify}
use irc.Map.Laws.{lookup-modify, lookup-modify_cases}
use irc.Text.{Text}
use irc.Client.{Client, append_output, request_disconnect}
use irc.Server.{Server, PollFd, modify_client}
use irc.Server.Send.{queue_raw, arm_pollout, max_pending_output, exceeded}
use irc.Server.Keeps.{queue_raw_cases, IsKept}
use irc.Handler.Keeps.{request_disconnect-IsCalm}
use irc.Connection.{has_poll_fd}
use irc.Channel.{Channel}
use irc.Polling.{IsServing, fd_at, left_at, IsServed, IsPolled, AreDistinct, wants_in_at}
use irc.Polling.Entries.{has_poll_fd-arm, wants_in_at-arm, wants_out_at-arm, AreDistinct-arm}

pub member-modify :
    (fd g : ℕ) (f : Client → Client) (m : Map ℕ Client) → member g (modify fd f m) ≡ member g m
unfolding member
member-modify fd g f m = ground (arith, lookup-modify fd g f m)

-- A write of the clients and of the entries that adds and removes none.
module _ (s : Server) (clients : Map ℕ Client) (polls : List PollFd) (w : IsPolled s)
    (distinct : AreDistinct polls)
    (same_polled : (g : ℕ) → has_poll_fd g polls ≡ has_poll_fd g s.poll_fds)
    (same_heard : (g : ℕ) → wants_in_at g polls ≡ wants_in_at g s.poll_fds)
    (same_member : (g : ℕ) → member g clients ≡ member g s.clients)
    (served : (g : ℕ) (c : Client) → lookup g clients ≡ some c → IsServed g c polls) where
  pub written-IsPolled : IsPolled (record s { clients = clients; poll_fds = polls })
  written-IsPolled = record {
    distinct = distinct;
    listens = same_polled s.listener_fd ∙ w.listens;
    heard = same_heard s.listener_fd ∙ w.heard;
    apart = same_member s.listener_fd ∙ w.apart;
    served = served;
    owned = λ g h other. same_member g ∙ w.owned g (sym (same_polled g) ∙ h) other;
    opened = λ g. ground (arith, w.opened g, same_member g);
  }

pub other_fds-IsPolled :
    (s : Server) (fds : Map ℕ (Unit {0}))
    → ((g : ℕ) → member g fds ≡ member g s.open_fds)
    → IsPolled s
    → IsPolled (record s { open_fds = fds })
other_fds-IsPolled s fds same w = record {
  distinct = w.distinct;
  listens = w.listens;
  heard = w.heard;
  apart = w.apart;
  served = w.served;
  owned = w.owned;
  opened = λ g. same g ∙ w.opened g;
}

-- A write that keeps the output of the client.
pub modify_client-IsPolled :
    (fd : ℕ) (f : Client → Client) (s : Server)
    → ((c : Client) → (f c).fd ≡ c.fd)
    → ((c : Client) → (f c).output_buffer ≡ c.output_buffer)
    → IsPolled s
    → IsPolled (modify_client fd f s)
modify_client-IsPolled fd f s fds same w =
    written-IsPolled s (modify fd f s.clients) s.poll_fds w w.distinct (λ g. refl) (λ g. refl)
      (λ g. member-modify fd g f s.clients)
      λ g c e. elim (lookup-modify_cases fd g f s.clients c e) [
        | inr old ↦ w.served g c old
        | inl (b, old, at_g, done) ↦
            let ok = w.served g b old in
            let kept : c.output_buffer ≡ b.output_buffer =
              ap (λ (d : Client). d.output_buffer) (sym done) ∙ same b in
            record {
              keyed = ap (λ (d : Client). d.fd) (sym done) ∙ fds b ∙ ok.keyed;
              polled = ok.polled;
              heard = ok.heard;
              woken = λ h. ok.woken (ground (arith, kept, h));
              bounded = ground (arith, kept, ok.bounded);
            }
      ]

-- Appended output, with the entry armed.
pub armed-IsPolled :
    (fd : ℕ) (bytes : Text) (s : Server) (c : Client)
    → lookup fd s.clients ≡ some c
    → length c.output_buffer + length bytes ≤ max_pending_output
    → IsPolled s
    → IsPolled (record s {
      clients = modify fd (append_output bytes) s.clients;
      poll_fds = arm_pollout fd s.poll_fds;
    })
unfolding append_output
armed-IsPolled fd bytes s c found fits w =
    written-IsPolled s (modify fd (append_output bytes) s.clients) (arm_pollout fd s.poll_fds) w
      (AreDistinct-arm fd s.poll_fds w.distinct) (λ g. has_poll_fd-arm fd g s.poll_fds)
      (λ g. wants_in_at-arm fd g s.poll_fds)
      (λ g. member-modify fd g (append_output bytes) s.clients)
      λ g d e. elim (lookup-modify_cases fd g (append_output bytes) s.clients d e) [
        | inr old ↦ stays g d (w.served g d old)
        | inl (b, old, at_g, done) ↦
            subst (λ e. IsServed g e (arm_pollout fd s.poll_fds)) done
              (appended g b at_g old (w.served g b old))
      ]
  where
    stays :
        (g : ℕ) (d : Client) → IsServed g d s.poll_fds → IsServed g d (arm_pollout fd s.poll_fds)
    stays g d ok = record {
      keyed = ok.keyed;
      polled = has_poll_fd-arm fd g s.poll_fds ∙ ok.polled;
      heard = wants_in_at-arm fd g s.poll_fds ∙ ok.heard;
      woken = λ h. ground (arith, wants_out_at-arm fd g s.poll_fds, ok.woken h);
      bounded = ok.bounded;
    }

    appended :
        (g : ℕ) (b : Client)
        → fd ≡ g
        → lookup g s.clients ≡ some b
        → IsServed g b s.poll_fds
        → IsServed g (append_output bytes b) (arm_pollout fd s.poll_fds)
    appended g b at_g old ok =
        let same : b ≡ c = ground (arith, old, at_g, found) in
        record {
          keyed = ok.keyed;
          polled = has_poll_fd-arm fd g s.poll_fds ∙ ok.polled;
          heard = wants_in_at-arm fd g s.poll_fds ∙ ok.heard;
          woken = λ h. ground (arith, wants_out_at-arm fd g s.poll_fds, ok.polled, at_g, ==_refl g);
          bounded =
              subst (λ (x : Client). length (x.output_buffer ++ bytes) ≤ max_pending_output)
                (sym same)
                (subst (λ n. n ≤ max_pending_output) (sym (length-append c.output_buffer bytes))
                  fits);
        }

queued-IsPolled :
    (fd : ℕ) (bytes : Text) (s : Server) → IsPolled s → IsPolled (queue_raw fd bytes s).0
queued-IsPolled fd bytes s w =
    queue_raw_cases IsPolled fd bytes s w
      (modify_client-IsPolled fd (request_disconnect exceeded) s
        (request_disconnect-IsCalm exceeded).fd (request_disconnect-IsCalm exceeded).output w)
      (λ c found fits. armed-IsPolled fd bytes s c found fits w)

other_maps-IsPolled :
    (channels : Map Text Channel) (index : Map Text ℕ) (s : Server)
    → IsPolled s
    → IsPolled (record s { channels = channels; nickname_index = index })
other_maps-IsPolled channels index s w = record {
  distinct = w.distinct;
  listens = w.listens;
  heard = w.heard;
  apart = w.apart;
  served = w.served;
  owned = w.owned;
  opened = w.opened;
}

pub IsPolled-IsKept : IsKept IsPolled
IsPolled-IsKept = record {
  queued = queued-IsPolled;
  written = λ fd f s calm w. modify_client-IsPolled fd f s calm.fd calm.output w;
  shared = other_maps-IsPolled;
}

fd_at-arm : (index fd : ℕ) (ps : List PollFd) → fd_at index (arm_pollout fd ps) ≡ fd_at index ps
unfolding fd_at arm_pollout
fd_at-arm index fd [] = refl
fd_at-arm zero fd (p ∷ ps) = ground arith
fd_at-arm (suc index) fd (p ∷ ps) = ground (arith, fd_at-arm index fd ps)

length-arm : (fd : ℕ) (ps : List PollFd) → length (arm_pollout fd ps) ≡ length ps
unfolding arm_pollout
length-arm fd [] = refl
length-arm fd (p ∷ ps) = ground (arith, length-arm fd ps)

left_at-arm :
    (l index fd : ℕ) (ps : List PollFd) → left_at l index (arm_pollout fd ps) ≡ left_at l index ps
unfolding left_at arm_pollout
left_at-arm l zero fd ps = rw (has_poll_fd-arm fd l ps, length-arm fd ps) refl
left_at-arm l (suc index) fd [] = refl
left_at-arm l (suc index) fd (p ∷ ps) = ground (arith, left_at-arm l index fd ps)

-- What holds of the entries and of the listener, whatever is queued.
IsAt : ℕ → ℕ → ℕ → Server → Type 0
IsAt index fd left s =
    (fd_at index s.poll_fds ≡ some fd)
    × ((fd == s.listener_fd) ≡ false)
    × (left_at s.listener_fd index s.poll_fds ≡ left)

queued-IsAt :
    (index at left fd : ℕ) (bytes : Text) (s : Server)
    → IsAt index at left s
    → IsAt index at left (queue_raw fd bytes s).0
unfolding IsAt
queued-IsAt index at left fd bytes s w =
    queue_raw_cases (IsAt index at left) fd bytes s w w λ c _ _. (
      fd_at-arm index fd s.poll_fds ∙ w.0,
      w.1,
      left_at-arm s.listener_fd index fd s.poll_fds ∙ w.2,
    )

pub IsServing-IsKept : (index at left : ℕ) → IsKept (IsServing index at left)
unfolding IsAt
IsServing-IsKept index at left = record {
  queued = λ fd bytes s w.
      let still = queued-IsAt index at left fd bytes s (w.here, w.other, w.bound) in
      record {
        whole = queued-IsPolled fd bytes s w.whole;
        here = still.0;
        other = still.1;
        bound = still.2;
      };
  written = λ fd f s calm w. record {
    whole = modify_client-IsPolled fd f s calm.fd calm.output w.whole;
    here = w.here;
    other = w.other;
    bound = w.bound;
  };
  shared = λ channels maps s w. record {
    whole = other_maps-IsPolled channels maps s w.whole;
    here = w.here;
    other = w.other;
    bound = w.bound;
  };
}
