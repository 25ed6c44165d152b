-- ===== src/WellFormed/Removal.antt =====
-- The loop of removeDisconnectedClients (srcs/Server/Server.cpp).
use irc.Base.{
  true, false, none, ℕ, zero, suc, ◌+◌, ◌<◌, not, ◌&&◌, ◌≡◌, refl, sym, ap, ◌∙◌, subst, [], ◌∷◌,
  List, length, map, get_elem?, some, nat_ord, arith, ◌==◌, Option-cases, Bool-cases, inl, inr,
}
use irc.Map.{lookup}
use irc.Client.{Client}
use irc.Server.{Server, PollFd, find_client}
use irc.Server.Send.Frames.{quiet, core_poll}
use irc.Connection.{remove_client, remove_descriptor, erase_at}
use irc.Loop.{remove_disconnected, remove_disconnected_clients, wants_removal}
use irc.WellFormed.Connections.{Fit, keyed_in, remove_client-Fit}
use irc.WellFormed.Departed.{quiet-remove_descriptor, departed}

length-map_polls : (ps : List PollFd) → length (map core_poll ps) ≡ length ps
length-map_polls [] = refl
length-map_polls (p ∷ ps) = ap suc (length-map_polls ps)

length-erase_at :
    (index : ℕ) (ps : List PollFd)
    → index < length ps
    → suc (length (erase_at index ps)) ≡ length ps
unfolding erase_at
length-erase_at index [] h = absurd (omega (arith, h))
length-erase_at zero (p ∷ ps) h = refl
length-erase_at (suc index) (p ∷ ps) h = ap suc (length-erase_at index ps (omega (arith, h)))

get_elem?_bound :
    (ps : List PollFd) (index : ℕ) (p : PollFd) → get_elem? ps index ≡ some p → index < length ps
get_elem?_bound [] index p e = absurd (ground (arith, e))
get_elem?_bound (q ∷ ps) zero p e = omega arith
get_elem?_bound (q ∷ ps) (suc index) p e = omega (arith, get_elem?_bound ps index p e)

length-remove_descriptor :
    (fd : ℕ) (s : Server) → Fit s → length (remove_descriptor fd s).poll_fds ≡ length s.poll_fds
length-remove_descriptor fd s w = elim (Option-cases (lookup fd s.clients)) [
  | inl gone ↦ unfold remove_descriptor find_client in ground (arith, gone)
  | inr (c, found) ↦
      let e = keyed_in fd s c w found in
      let here = ap (λ d. lookup d s.clients) e ∙ found in
      subst (λ d. length (remove_descriptor d s).poll_fds ≡ length s.poll_fds) e
        (sym (length-map_polls (remove_descriptor c.fd s).poll_fds)
          ∙ polls c s here
          ∙ length-map_polls s.poll_fds)
]
  where
    polls :
        (c : Client) (s : Server)
        → lookup c.fd s.clients ≡ some c
        → length (map core_poll (remove_descriptor c.fd s).poll_fds)
          ≡ length (map core_poll s.poll_fds)
    polls c s here =
        unfold quiet departed in
        ap (λ (v : Server). length v.poll_fds) (quiet-remove_descriptor c s here)

length-remove_client :
    (index : ℕ) (s : Server) (p : PollFd)
    → Fit s
    → get_elem? s.poll_fds index ≡ some p
    → suc (length (remove_client index s).poll_fds) ≡ length s.poll_fds
unfolding remove_client
length-remove_client index s p w e =
    let same = length-remove_descriptor p.fd s w in
    ground (
      arith,
      e,
      same,
      length-erase_at index (remove_descriptor p.fd s).poll_fds,
      get_elem?_bound s.poll_fds index p e,
    )

-- The loop without a fuel: the server that it ends with, from an index on.
pub data Removes : ℕ → Server → Server → Type 0 where
  past : (index : ℕ) (s : Server) → get_elem? s.poll_fds index ≡ none → Removes index s s
  removed :
      (index : ℕ) (s t : Server) (p : PollFd)
      → get_elem? s.poll_fds index ≡ some p
      → (not (p.fd == s.listener_fd) && wants_removal p.fd s) ≡ true
      → Removes index (remove_client index s) t
      → Removes index s t
  kept :
      (index : ℕ) (s t : Server) (p : PollFd)
      → get_elem? s.poll_fds index ≡ some p
      → (not (p.fd == s.listener_fd) && wants_removal p.fd s) ≡ false
      → Removes (suc index) s t
      → Removes index s t

remove_disconnected-Removes :
    (fuel index : ℕ) (s : Server)
    → Fit s
    → length s.poll_fds < fuel + index
    → Removes index s (remove_disconnected fuel index s)
unfolding remove_disconnected
remove_disconnected-Removes zero index s w k = elim (Option-cases (get_elem? s.poll_fds index)) [
  | inl missing ↦ past index s missing
  | inr (p, e) ↦ absurd (omega (arith, k, get_elem?_bound s.poll_fds index p e))
]
remove_disconnected-Removes (suc fuel) index s w k =
    elim (Option-cases (get_elem? s.poll_fds index)) [
      | inl missing ↦ rw (missing, remove_disconnected) (past index s missing)
      | inr (p, e) ↦ elim (Bool-cases (not (p.fd == s.listener_fd) && wants_removal p.fd s)) [
        | inl leaves ↦
            rw (e, remove_disconnected, leaves)
              (removed index s _ p e leaves (
                remove_disconnected-Removes fuel index (remove_client index s)
                  (remove_client-Fit index s w)
                  (omega (arith, k, length-remove_client index s p w e))))
        | inr stays ↦
            rw (e, remove_disconnected, stays)
              (kept index s _ p e stays
                (remove_disconnected-Removes fuel (suc index) s w (omega (arith, k))))
      ]
    ]

-- For a well-formed server the loop that removes the disconnected clients, which has no fuel in the
-- code, ends, with the server that the model gives.
pub remove_disconnected_clients-Removes :
    (s : Server) → Fit s → Removes 0 s (remove_disconnected_clients s)
unfolding remove_disconnected_clients
remove_disconnected_clients-Removes s w =
    remove_disconnected-Removes (suc (length s.poll_fds)) 0 s w (omega arith)
