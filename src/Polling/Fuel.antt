-- ===== src/Polling/Fuel.antt =====
-- The loop over the entries (Server::run of srcs/Server/Server.cpp), without a fuel.
use irc.Base.{
  true, false, none, ℕ, zero, suc, ◌<◌, ◌≤◌, ◌≡◌, refl, ap, [], ◌∷◌, List, some, nat_ord, arith,
  get_elem?, length, Option-cases, Bool-cases, inl, inr,
}
use irc.Server.{Server, PollFd, Events}
use irc.Connection.{Outcome, thrown}
use irc.Loop.{
  System, Served, advance, stay, aborted, serve_descriptor, serve_descriptors, serve_ready,
  set_revents,
}
use irc.Polling.{IsPolled, left_at}
use irc.Polling.Rounds.{Progress, serve_descriptor-Progress, fd_at_of_get}
use irc.Polling.Running.{set_revents-IsPolled}
use irc.Polling.Accepted.{left_at-suc, AcceptsUnused}

-- An entry at the index is a round that is left.
left_of_get :
    (l index : ℕ) (ps : List PollFd) (p : PollFd)
    → get_elem? ps index ≡ some p
    → 0 < left_at l index ps
left_of_get l index ps p e = omega (arith, left_at-suc l index p.fd ps (fd_at_of_get index ps p e))

-- The loop over the entries, without a fuel: what it ends with, from a round and an index on.
pub data Serves (io : System) : ℕ → ℕ → Server → Outcome → Type 0 where
  past :
      (round index : ℕ) (s : Server)
      → get_elem? s.poll_fds index ≡ none
      → Serves io round index s (Outcome.normal s)
  stopped :
      (round index : ℕ) (s : Server)
      → (io round s).stop_requested ≡ true
      → Serves io round index s (Outcome.normal s)
  threw :
      (round index : ℕ) (s t : Server) (p : PollFd)
      → get_elem? s.poll_fds index ≡ some p
      → (io round s).stop_requested ≡ false
      → serve_descriptor index p (io round s) s ≡ aborted t
      → Serves io round index s (thrown t)
  moved :
      (round index : ℕ) (s t : Server) (p : PollFd) (o : Outcome)
      → get_elem? s.poll_fds index ≡ some p
      → (io round s).stop_requested ≡ false
      → serve_descriptor index p (io round s) s ≡ advance t
      → Serves io (suc round) (suc index) t o
      → Serves io round index s o
  stayed :
      (round index : ℕ) (s t : Server) (p : PollFd) (o : Outcome)
      → get_elem? s.poll_fds index ≡ some p
      → (io round s).stop_requested ≡ false
      → serve_descriptor index p (io round s) s ≡ stay t
      → Serves io (suc round) index t o
      → Serves io round index s o

-- One round, when the fuel is enough for the rounds behind it.
module _ (fuel : ℕ) (io : System) (round index left : ℕ) (s : Server) (p : PollFd)
    (here : get_elem? s.poll_fds index ≡ some p) (going : (io round s).stop_requested ≡ false)
    (further : (index : ℕ) (t : Server)
      → IsPolled t
      → left_at t.listener_fd index t.poll_fds < left
      → Serves io (suc round) index t (serve_descriptors fuel io (suc round) index t)) where
  one_round :
      (r : Served)
      → serve_descriptor index p (io round s) s ≡ r
      → Progress index left r
      → Serves io round index s (elim r [
        | advance next ↦ serve_descriptors fuel io (suc round) (suc index) next
        | stay next ↦ serve_descriptors fuel io (suc round) index next
        | aborted next ↦ thrown next
      ])
  one_round (advance t) e k = moved round index s t p _ here going e (further (suc index) t k.0 k.1)
  one_round (stay t) e k = stayed round index s t p _ here going e (further index t k.0 k.1)
  one_round (aborted t) e k = threw round index s t p here going e

serve_descriptors-Serves :
    (fuel : ℕ) (io : System) (round index : ℕ) (s : Server)
    → AcceptsUnused io
    → IsPolled s
    → left_at s.listener_fd index s.poll_fds ≤ fuel
    → Serves io round index s (serve_descriptors fuel io round index s)
unfolding serve_descriptors
serve_descriptors-Serves zero io round index s fresh w h =
    elim (Option-cases (get_elem? s.poll_fds index)) [
      | inl missing ↦ past round index s missing
      | inr (p, e) ↦ absurd (omega (arith, left_of_get s.listener_fd index s.poll_fds p e, h))
    ]
serve_descriptors-Serves (suc fuel) io round index s fresh w h =
    elim (Option-cases (get_elem? s.poll_fds index)) [
      | inl missing ↦ rw (missing, serve_descriptors) (past round index s missing)
      | inr (p, e) ↦ elim (Bool-cases (io round s).stop_requested) [
        | inl stop ↦ rw (e, serve_descriptors, stop) (stopped round index s stop)
        | inr going ↦
            rw (e, serve_descriptors, going)
              (one_round fuel io round index (left_at s.listener_fd index s.poll_fds) s p e going
                (λ i t u l.
                  serve_descriptors-Serves fuel io (suc round) i t fresh u (omega (arith, l, h)))
                (serve_descriptor index p (io round s) s) refl
                (serve_descriptor-Progress index p (io round s) s e (fresh round s) w))
      ]
    ]

length-set_revents :
    (events : List Events) (ps : List PollFd) → length (set_revents events ps) ≡ length ps
unfolding set_revents
length-set_revents events [] = refl
length-set_revents [] (p ∷ ps) = refl
length-set_revents (e ∷ events) (p ∷ ps) = ap suc (length-set_revents events ps)

pub left_at-zero : (l : ℕ) (ps : List PollFd) → left_at l 0 ps ≤ suc (length ps)
unfolding left_at
left_at-zero l ps = ground arith

-- When the entries are in order and accept() gives descriptors that are not open, the loop over the
-- entries, which has no fuel in the code, ends, with the server or the exception that the model gives.
pub serve_ready-Serves :
    (io : System) (events : List Events) (s : Server)
    → AcceptsUnused io
    → IsPolled s
    → Serves io 1 0
        (record s { poll_fds = set_revents events s.poll_fds })
        (serve_ready io events s)
unfolding serve_ready
serve_ready-Serves io events s fresh w =
    serve_descriptors-Serves (suc (suc (length s.poll_fds))) io 1 0 _ fresh
      (set_revents-IsPolled events s w)
      (omega (
        arith,
        left_at-zero s.listener_fd (set_revents events s.poll_fds),
        length-set_revents events s.poll_fds,
      ))
