-- ===== src/Polling/Stopping.antt =====
-- The stop of the loop (Server::run of srcs/Server/Server.cpp).
use irc.Base.{
  ==_eq, ==_refl, ◌⊎◌, ◌<◌, ℕ, zero, suc, true, ◌≡◌, nat_ord, arith, ◌==◌, Bool-cases, inl, inr,
}
use irc.Text.{Text}
use irc.Server.{Server}
use irc.Loop.{System, Polled, poll_failed, Ran, ended, unfinished, run, new_server}
use irc.Protocol.Rules.{by_bool}
use irc.Polling.{IsPolled}
use irc.Polling.Running.{new_server-IsPolled}
use irc.Polling.Lasting.{IsAccepted, IsPoll, HasEnded, polled-HasEnded}

-- The stop at a call of `poll()`: the flag is set before it, or it fails with the flag set by then.
abbrev pub StopsAt : ℕ → (ℕ → System) → (ℕ → Server → Polled) → Server → Type 0
StopsAt call io poll s = ((io call 0 s).stop_requested ≡ true) ⊎ (poll call s ≡ poll_failed true)

-- The loop has ended without an exception.
abbrev pub HasReturned : Ran → Type 0
HasReturned (ended o) = HasEnded o
HasReturned (unfinished s) = ⊥

run-HasReturned :
    (calls call : ℕ) (io : ℕ → System) (poll : ℕ → Server → Polled) (s : Server)
    → ((call round : ℕ) (t : Server) → IsAccepted (io call round t).accepts t)
    → ((call : ℕ) (t : Server) → IsPoll (poll call t))
    → call < calls
    → ((t : Server) → StopsAt call io poll t)
    → IsPolled s
    → HasReturned (run calls io poll s)
unfolding run
run-HasReturned zero call io poll s ok polls early stops w = absurd (omega (arith, early))
run-HasReturned (suc calls) call io poll s ok polls early stops w =
    by_bool HasReturned (io calls 0 s).stop_requested (λ _. w)
      λ going. elim (Bool-cases (call == calls)) [
        | inl here ↦ elim (stops s) [
          | inl stop ↦ absurd (ground (arith, going, rw (==_eq call calls here) at stop))
          | inr failed ↦
              let e : poll calls s ≡ poll_failed true = rw (==_eq call calls here) at failed in
              rw e w
        ]
        | inr other ↦
            polled-HasEnded HasReturned (λ o k. k) (run calls io poll)
              (λ t.
                run-HasReturned calls call io poll t ok polls
                  (ground (arith, early, other, ==_refl call)) stops)
              (io calls) s (poll calls s) (ok calls) (polls calls s) w
      ]

-- A server that has just been made stops when it is to, and without an exception.
pub run-new_server-HasReturned :
    (listener : ℕ) (password : Text) (calls call : ℕ) (io : ℕ → System) (poll : ℕ → Server → Polled)
    → ((call round : ℕ) (t : Server) → IsAccepted (io call round t).accepts t)
    → ((call : ℕ) (t : Server) → IsPoll (poll call t))
    → call < calls
    → ((t : Server) → StopsAt call io poll t)
    → HasReturned (run calls io poll (new_server listener password))
run-new_server-HasReturned listener password calls call io poll ok polls early stops =
    run-HasReturned calls call io poll (new_server listener password) ok polls early stops
      (new_server-IsPolled listener password)
