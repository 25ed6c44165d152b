-- ===== src/Protocol/Runs.antt =====
-- A handler's result is reached by changes of the protocol; what it sends is silent.
use irc.Base.{arith, Option-cases, inl, inr, ℕ, ◌≡◌, some, true, nat_ord}
use irc.Map.{lookup}
use irc.Text.{Text, irc_case_fold, text_ord}
use irc.Client.{Client}
use irc.Command.{Command}
use irc.Server.{Server, find_client_by_nickname}
use irc.Server.Send.{send_numeric}
use irc.Server.Send.Frames.{quiet, core, quiet-send_numeric, lookup-quiet}
use irc.Protocol.{Act, Acts, done, next, IsRegistered}

module _ (fd : ℕ) (command : Command) (s : Server) where
  -- The server `t`, seen without the pending output, is reached from `s`.
  abbrev pub Runs : Server → Type 0
  Runs t = Acts fd command (quiet s) (quiet t)

  pub silent : (t : Server) → quiet t ≡ quiet s → Runs t
  silent t e = rw e done

  pub replied : (to : ℕ) (numeric arguments : Text) → Runs (send_numeric to numeric arguments s)
  replied to numeric arguments = silent _ (quiet-send_numeric to numeric arguments s)

  -- One change, and output before or behind it.
  pub acted : (t : Server) {v : Server} → quiet t ≡ v → Act fd command (quiet s) v → Runs t
  acted t e act = rw e (next done act)

pub quiet-IsRegistered :
    (fd : ℕ) (s : Server) (c : Client)
    → lookup fd s.clients ≡ some c
    → c.registered ≡ true
    → IsRegistered fd (quiet s) (core c)
quiet-IsRegistered fd s c e r = record { found = lookup-quiet fd s e; registered = r }

pub find_client_by_nickname-quiet :
    (nickname : Text) (s : Server) (target : Client)
    → find_client_by_nickname nickname s ≡ some target
    → find_client_by_nickname nickname (quiet s) ≡ some (core target)
unfolding find_client_by_nickname quiet
find_client_by_nickname-quiet nickname s target e =
    elim (Option-cases (lookup (irc_case_fold nickname) s.nickname_index)) [
      | inl missing ↦ ground arith
      | inr (fd, held) ↦
          rw (held, find_client_by_nickname) (lookup-quiet fd {c = target} s (ground arith))
    ]
