-- ===== src/Polling/Entries.antt =====
-- What the writes of the entries do to each descriptor's entry.
use irc.Base.{
  ℕ, zero, suc, true, false, ◌&&◌, ◌≡◌, refl, ◌∙◌, [], ◌∷◌, ◌++◌, List, get_elem?, some, ◌==◌,
  ==_eq, ==_refl, nat_ord, arith, if◌then◌else◌,
}
use irc.Server.{PollFd, Events}
use irc.Server.Send.{arm_pollout}
use irc.Connection.{has_poll_fd, erase_at, disarm_pollout, no_events}
use irc.Loop.{set_revents}
use irc.Polling.{wants_in_at, wants_out_at, AreDistinct}

pub has_poll_fd-arm :
    (fd g : ℕ) (ps : List PollFd) → has_poll_fd g (arm_pollout fd ps) ≡ has_poll_fd g ps
unfolding has_poll_fd arm_pollout
has_poll_fd-arm fd g [] = refl
has_poll_fd-arm fd g (p ∷ ps) = ground (arith, has_poll_fd-arm fd g ps)

pub wants_in_at-arm :
    (fd g : ℕ) (ps : List PollFd) → wants_in_at g (arm_pollout fd ps) ≡ wants_in_at g ps
unfolding wants_in_at arm_pollout
wants_in_at-arm fd g [] = refl
wants_in_at-arm fd g (p ∷ ps) = ground (arith, wants_in_at-arm fd g ps)

pub wants_out_at-arm :
    (fd g : ℕ) (ps : List PollFd)
    → wants_out_at g (arm_pollout fd ps)
      ≡ (if fd == g && has_poll_fd g ps then true else wants_out_at g ps)
unfolding wants_out_at arm_pollout has_poll_fd
wants_out_at-arm fd g [] = ground arith
wants_out_at-arm fd g (p ∷ ps) = ground (arith, wants_out_at-arm fd g ps)

pub AreDistinct-arm : (fd : ℕ) (ps : List PollFd) → AreDistinct ps → AreDistinct (arm_pollout fd ps)
unfolding arm_pollout
AreDistinct-arm fd [] d = tt
AreDistinct-arm fd (p ∷ ps) d =
    ground (arith, AreDistinct-arm fd ps d.1, has_poll_fd-arm fd p.fd ps)

pub has_poll_fd_of_get :
    (index : ℕ) (ps : List PollFd) (p : PollFd)
    → get_elem? ps index ≡ some p
    → has_poll_fd p.fd ps ≡ true
unfolding has_poll_fd
has_poll_fd_of_get index [] p e = absurd (ground (arith, e))
has_poll_fd_of_get zero (q ∷ ps) p e = ground (arith, e, ==_refl p.fd)
has_poll_fd_of_get (suc index) (q ∷ ps) p e = ground (arith, has_poll_fd_of_get index ps p e)

-- The removal of the entry at an index, and of its interest in POLLOUT.
module _ (p : PollFd) (g : ℕ) where
  pub has_poll_fd-erase_at :
      (index : ℕ) (ps : List PollFd)
      → AreDistinct ps
      → get_elem? ps index ≡ some p
      → has_poll_fd g (erase_at index ps) ≡ (if p.fd == g then false else has_poll_fd g ps)
  unfolding has_poll_fd erase_at
  has_poll_fd-erase_at index [] d e = absurd (ground (arith, e))
  has_poll_fd-erase_at zero (q ∷ ps) d e = ground (arith, e, d.0, ==_eq p.fd g)
  has_poll_fd-erase_at (suc index) (q ∷ ps) d e = ground (
    arith,
    has_poll_fd-erase_at index ps d.1 e,
    has_poll_fd_of_get index ps p e,
    d.0,
    ==_eq q.fd g,
    ==_eq p.fd g,
    ==_eq p.fd q.fd,
  )

  pub wants_in_at-erase_at :
      (index : ℕ) (ps : List PollFd)
      → AreDistinct ps
      → get_elem? ps index ≡ some p
      → (p.fd == g) ≡ false
      → wants_in_at g (erase_at index ps) ≡ wants_in_at g ps
  unfolding wants_in_at erase_at
  wants_in_at-erase_at index [] d e other = absurd (ground (arith, e))
  wants_in_at-erase_at zero (q ∷ ps) d e other = ground (arith, e, other)
  wants_in_at-erase_at (suc index) (q ∷ ps) d e other =
      ground (arith, wants_in_at-erase_at index ps d.1 e other)

  pub wants_out_at-erase_at :
      (index : ℕ) (ps : List PollFd)
      → AreDistinct ps
      → get_elem? ps index ≡ some p
      → (p.fd == g) ≡ false
      → wants_out_at g (erase_at index ps) ≡ wants_out_at g ps
  unfolding wants_out_at erase_at
  wants_out_at-erase_at index [] d e other = absurd (ground (arith, e))
  wants_out_at-erase_at zero (q ∷ ps) d e other = ground (arith, e, other)
  wants_out_at-erase_at (suc index) (q ∷ ps) d e other =
      ground (arith, wants_out_at-erase_at index ps d.1 e other)

  pub wants_out_at-disarm :
      (index : ℕ) (ps : List PollFd)
      → AreDistinct ps
      → get_elem? ps index ≡ some p
      → (p.fd == g) ≡ false
      → wants_out_at g (disarm_pollout index ps) ≡ wants_out_at g ps
  unfolding wants_out_at disarm_pollout
  wants_out_at-disarm index [] d e other = absurd (ground (arith, e))
  wants_out_at-disarm zero (q ∷ ps) d e other = ground (arith, e, other)
  wants_out_at-disarm (suc index) (q ∷ ps) d e other =
      ground (arith, wants_out_at-disarm index ps d.1 e other)

pub AreDistinct-erase_at :
    (index : ℕ) (ps : List PollFd) → AreDistinct ps → AreDistinct (erase_at index ps)
unfolding erase_at has_poll_fd
AreDistinct-erase_at index [] d = tt
AreDistinct-erase_at zero (q ∷ ps) d = d.1
AreDistinct-erase_at (suc index) (q ∷ ps) d =
    (still index ps q.fd d.0, AreDistinct-erase_at index ps d.1)
  where
    still :
        (i : ℕ) (qs : List PollFd) (g : ℕ)
        → has_poll_fd g qs ≡ false
        → has_poll_fd g (erase_at i qs) ≡ false
    still i [] g h = h
    still zero (r ∷ qs) g h = ground (arith, h)
    still (suc i) (r ∷ qs) g h = ground (arith, h, still i qs g)

pub has_poll_fd-disarm :
    (index g : ℕ) (ps : List PollFd) → has_poll_fd g (disarm_pollout index ps) ≡ has_poll_fd g ps
unfolding has_poll_fd disarm_pollout
has_poll_fd-disarm index g [] = refl
has_poll_fd-disarm zero g (p ∷ ps) = refl
has_poll_fd-disarm (suc index) g (p ∷ ps) = ground (arith, has_poll_fd-disarm index g ps)

pub wants_in_at-disarm :
    (index g : ℕ) (ps : List PollFd) → wants_in_at g (disarm_pollout index ps) ≡ wants_in_at g ps
unfolding wants_in_at disarm_pollout
wants_in_at-disarm index g [] = refl
wants_in_at-disarm zero g (p ∷ ps) = refl
wants_in_at-disarm (suc index) g (p ∷ ps) = ground (arith, wants_in_at-disarm index g ps)

pub AreDistinct-disarm :
    (index : ℕ) (ps : List PollFd) → AreDistinct ps → AreDistinct (disarm_pollout index ps)
unfolding disarm_pollout
AreDistinct-disarm index [] d = tt
AreDistinct-disarm zero (p ∷ ps) d = d
AreDistinct-disarm (suc index) (p ∷ ps) d =
    (has_poll_fd-disarm index p.fd ps ∙ d.0, AreDistinct-disarm index ps d.1)

-- A new entry behind the others.
abbrev pub fresh_entry : ℕ → PollFd
fresh_entry fd = record { fd = fd; wants_in = true; wants_out = false; revents = no_events }

pub has_poll_fd-append :
    (fd g : ℕ) (ps : List PollFd)
    → has_poll_fd g (ps ++ fresh_entry fd ∷ []) ≡ (if has_poll_fd g ps then true else fd == g)
unfolding has_poll_fd
has_poll_fd-append fd g [] = ground arith
has_poll_fd-append fd g (p ∷ ps) = ground (arith, has_poll_fd-append fd g ps)

pub wants_in_at-append :
    (fd g : ℕ) (ps : List PollFd)
    → wants_in_at g (ps ++ fresh_entry fd ∷ [])
      ≡ (if has_poll_fd g ps then wants_in_at g ps else fd == g)
unfolding has_poll_fd wants_in_at
wants_in_at-append fd g [] = ground arith
wants_in_at-append fd g (p ∷ ps) = ground (arith, wants_in_at-append fd g ps)

pub wants_out_at-append :
    (fd g : ℕ) (ps : List PollFd) → wants_out_at g (ps ++ fresh_entry fd ∷ []) ≡ wants_out_at g ps
unfolding wants_out_at
wants_out_at-append fd g [] = ground arith
wants_out_at-append fd g (p ∷ ps) = ground (arith, wants_out_at-append fd g ps)

pub AreDistinct-append :
    (fd : ℕ) (ps : List PollFd)
    → has_poll_fd fd ps ≡ false
    → AreDistinct ps
    → AreDistinct (ps ++ fresh_entry fd ∷ [])
unfolding has_poll_fd
AreDistinct-append fd [] h d = (refl, tt)
AreDistinct-append fd (p ∷ ps) h d = ground (
  arith,
  h,
  AreDistinct-append fd ps,
  d.0,
  d.1,
  has_poll_fd-append fd p.fd ps,
  ==_eq fd p.fd,
  ==_refl p.fd,
)

pub has_poll_fd-set_revents :
    (g : ℕ) (es : List Events) (ps : List PollFd)
    → has_poll_fd g (set_revents es ps) ≡ has_poll_fd g ps
unfolding has_poll_fd set_revents
has_poll_fd-set_revents g es [] = refl
has_poll_fd-set_revents g [] (p ∷ ps) = refl
has_poll_fd-set_revents g (e ∷ es) (p ∷ ps) = ground (arith, has_poll_fd-set_revents g es ps)

pub wants_in_at-set_revents :
    (g : ℕ) (es : List Events) (ps : List PollFd)
    → wants_in_at g (set_revents es ps) ≡ wants_in_at g ps
unfolding wants_in_at set_revents
wants_in_at-set_revents g es [] = refl
wants_in_at-set_revents g [] (p ∷ ps) = refl
wants_in_at-set_revents g (e ∷ es) (p ∷ ps) = ground (arith, wants_in_at-set_revents g es ps)

pub wants_out_at-set_revents :
    (g : ℕ) (es : List Events) (ps : List PollFd)
    → wants_out_at g (set_revents es ps) ≡ wants_out_at g ps
unfolding wants_out_at set_revents
wants_out_at-set_revents g es [] = refl
wants_out_at-set_revents g [] (p ∷ ps) = refl
wants_out_at-set_revents g (e ∷ es) (p ∷ ps) = ground (arith, wants_out_at-set_revents g es ps)

pub AreDistinct-set_revents :
    (es : List Events) (ps : List PollFd) → AreDistinct ps → AreDistinct (set_revents es ps)
unfolding set_revents
AreDistinct-set_revents es [] d = tt
AreDistinct-set_revents [] (p ∷ ps) d = d
AreDistinct-set_revents (e ∷ es) (p ∷ ps) d =
    (has_poll_fd-set_revents p.fd es ps ∙ d.0, AreDistinct-set_revents es ps d.1)
