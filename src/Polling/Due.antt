-- ===== src/Polling/Due.antt =====
-- A client that is to go keeps its place among the entries until it is reached (removeDisconnectedClients,
-- srcs/Server/Server.cpp).
use irc.Base.{
  ℕ, zero, suc, Bool, true, false, ◌≡◌, refl, ◌∙◌, [], ◌∷◌, List, some, nat_ord, arith, ◌==◌,
  get_elem?, Option-cases, inl, inr,
}
use irc.Map.{lookup}
use irc.Map.Laws.{lookup-modify, lookup-erase}
use irc.Text.{Text}
use irc.Client.{Client, append_output, request_disconnect}
use irc.Server.{Server, PollFd, find_client, modify_client}
use irc.Server.Send.{exceeded, queue_raw, arm_pollout}
use irc.Server.Cleanup.{cleanup_client_irc_state}
use irc.Server.Keeps.{queue_raw_cases, IsKept, cleanup_client_irc_state_keeps}
use irc.Connection.{remove_client, erase_at, has_poll_fd}
use irc.Loop.{wants_removal}
use irc.Polling.{IsServing, fd_at}
use irc.Polling.Entries.{has_poll_fd-arm}
use irc.Polling.Removed.{remove_client_cases}

-- Whether the descriptor has an entry from an index on.
unfoldable pub is_behind : ℕ → ℕ → List PollFd → Bool
is_behind fd zero ps = has_poll_fd fd ps
is_behind fd (suc index) [] = false
is_behind fd (suc index) (p ∷ ps) = is_behind fd index ps

is_behind-arm :
    (fd index other : ℕ) (ps : List PollFd)
    → is_behind fd index (arm_pollout other ps) ≡ is_behind fd index ps
unfolding is_behind arm_pollout
is_behind-arm fd zero other ps = has_poll_fd-arm other fd ps
is_behind-arm fd (suc index) other [] = refl
is_behind-arm fd (suc index) other (p ∷ ps) = ground (arith, is_behind-arm fd index other ps)

is_behind-erase_at :
    (fd index gone : ℕ) (ps : List PollFd)
    → fd_at index ps ≡ some gone
    → (gone == fd) ≡ false
    → is_behind fd index (erase_at index ps) ≡ is_behind fd index ps
unfolding is_behind erase_at fd_at has_poll_fd
is_behind-erase_at fd index gone [] e other = refl
is_behind-erase_at fd zero gone (p ∷ ps) e other = ground (arith, e, other)
is_behind-erase_at fd (suc index) gone (p ∷ ps) e other =
    is_behind-erase_at fd index gone ps e other

pub is_behind-suc :
    (fd index gone : ℕ) (ps : List PollFd)
    → fd_at index ps ≡ some gone
    → (gone == fd) ≡ false
    → is_behind fd (suc index) ps ≡ is_behind fd index ps
unfolding is_behind fd_at has_poll_fd
is_behind-suc fd index gone [] e other = absurd (ground (arith, e))
is_behind-suc fd zero gone (p ∷ ps) e other = ground (arith, e, other)
is_behind-suc fd (suc index) gone (p ∷ ps) e other = is_behind-suc fd index gone ps e other

-- An entry from the index on is at the index or behind it.
pub get_elem_behind :
    (fd index : ℕ) (ps : List PollFd)
    → is_behind fd index ps ≡ true
    → (p : PollFd) × (get_elem? ps index ≡ some p)
unfolding is_behind has_poll_fd
get_elem_behind fd zero [] h = absurd (ground (arith, h))
get_elem_behind fd zero (p ∷ ps) h = (p, refl)
get_elem_behind fd (suc index) [] h = absurd (ground (arith, h))
get_elem_behind fd (suc index) (p ∷ ps) h = get_elem_behind fd index ps h

-- A client that is to go, with an entry from an index on.
pub record IsDue (fd index : ℕ) (s : Server) : Type 0 where
  pub asked : wants_removal fd s ≡ true
  pub behind : is_behind fd index s.poll_fds ≡ true
  pub other : (fd == s.listener_fd) ≡ false

modify_client-asked :
    (fd g : ℕ) (f : Client → Client) (s : Server)
    → ((c : Client) → c.disconnect_requested ≡ true → (f c).disconnect_requested ≡ true)
    → wants_removal fd s ≡ true
    → wants_removal fd (modify_client g f s) ≡ true
unfolding wants_removal find_client
modify_client-asked fd g f s still h = elim (Option-cases (lookup fd s.clients)) [
  | inl missing ↦ absurd (ground (arith, missing, h))
  | inr (c, found) ↦ ground (arith, lookup-modify g fd f s.clients, found, h, still c)
]

module _ (fd index : ℕ) where
  queued-IsDue :
      (g : ℕ) (bytes : Text) (s : Server)
      → IsDue fd index s
      → IsDue fd index (queue_raw g bytes s).0
  unfolding append_output request_disconnect wants_removal find_client
  queued-IsDue g bytes s w =
      queue_raw_cases (IsDue fd index) g bytes s w
        (record {
          asked = modify_client-asked fd g (request_disconnect exceeded) s (λ c h. refl) w.asked;
          behind = w.behind;
          other = w.other;
        })
        λ c _ _. record {
          asked = modify_client-asked fd g (append_output bytes) s (λ c h. h) w.asked;
          behind = is_behind-arm fd index g s.poll_fds ∙ w.behind;
          other = w.other;
        }

  IsDue-IsKept : IsKept (IsDue fd index)
  unfolding wants_removal find_client
  IsDue-IsKept = record {
    queued = queued-IsDue;
    written = λ g f s calm w. record {
      asked = modify_client-asked fd g f s calm.leaving w.asked;
      behind = w.behind;
      other = w.other;
    };
    shared = λ channels maps s w. record { asked = w.asked; behind = w.behind; other = w.other };
  }

-- The removal of another client, of the entry at the index.
pub remove_client-IsDue :
    (fd index gone left : ℕ) (s : Server)
    → IsServing index gone left s
    → (gone == fd) ≡ false
    → IsDue fd index s
    → IsDue fd index (remove_client index s)
unfolding wants_removal find_client
remove_client-IsDue fd index gone left s v other w =
    remove_client_cases (IsDue fd index) index gone left s v λ c k.
      let cleaned = cleanup_client_irc_state c s in
      let due = cleanup_client_irc_state_keeps (IsDue fd index) (IsDue-IsKept fd index) c s w in
      record {
        asked = ground (arith, lookup-erase gone fd cleaned.clients, other, due.asked);
        behind = is_behind-erase_at fd index gone cleaned.poll_fds k.here other ∙ due.behind;
        other = due.other;
      }
