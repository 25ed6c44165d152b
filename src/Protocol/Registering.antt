-- ===== src/Protocol/Registering.antt =====
-- PING, QUIT, CAP, PASS and USER make the changes of the protocol only.
use irc.Base.{inl, inr, ℕ, true, not, ◌≡◌, refl, ap, some, ◌==◌, ==_eq, arith, nat_ord}
use irc.Map.{lookup}
use irc.Text.{codes, text_ord}
use irc.Client.{Client, set_password_accepted, set_user, set_registered, is_registration_ready}
use irc.Command.{Command}
use irc.Server.{Server, modify_client}
use irc.Server.Send.Frames.{
  quiet, core, quiet-send_welcome, quiet-queue_line, quiet-modify_core, quiet-modify_client,
  lookup-quiet, core-request_disconnect,
}
use irc.Handler.Registration.{
  try_complete_registration, handle_ping, handle_quit, handle_cap, handle_pass, handle_user,
}
use irc.Protocol.{MayComplete, Act, done, next, authenticate, describe, register, Acts-trans}
use irc.Protocol.Runs.{Runs, silent, replied, acted}
use irc.Protocol.Rules.{by_if, by_option, by_some, by_list}

module _ (fd : ℕ) (command : Command) (s : Server) where
  pub try_complete_registration-Acts :
      MayComplete command → Runs fd command s (try_complete_registration fd s)
  unfolding try_complete_registration is_registration_ready
  try_complete_registration-Acts may =
      by_option (Runs fd command s) (lookup fd s.clients) (λ _. done)
        λ c e.
          by_if (Runs fd command s) c.registered (λ _. done)
            λ fresh.
              by_if (Runs fd command s) (not (is_registration_ready c)) (λ _. done)
                λ ready. rw quiet-send_welcome (
                  rw (quiet-modify_core fd (set_registered true) s (λ c'. refl)) (
                    next done (
                      register (quiet s) (core c) may
                        (record { found = lookup-quiet fd s e; unregistered = fresh })
                        (ground (arith, ready)))))

module _ (c : Client) (command : Command) (s : Server)
    (found : lookup c.fd s.clients ≡ some c) where
  pub handle_ping-Acts : Runs c.fd command s (handle_ping c.fd command s)
  unfolding handle_ping
  handle_ping-Acts =
      by_list (Runs c.fd command s) command.parameters
        (λ _. silent c.fd command s _ (quiet-queue_line c.fd _ s))
        (λ token rest _. silent c.fd command s _ (quiet-queue_line c.fd _ s))

  pub handle_quit-Acts : Runs c.fd command s (handle_quit c.fd command s)
  unfolding handle_quit
  handle_quit-Acts =
      by_list (Runs c.fd command s) command.parameters
        (λ _. silent c.fd command s _ (quiet-modify_client c.fd _ s (core-request_disconnect _)))
        (λ reason rest _.
          silent c.fd command s _ (quiet-modify_client c.fd _ s (core-request_disconnect _)))

  pub handle_cap-Acts : Runs c.fd command s (handle_cap c.fd command s)
  unfolding handle_cap
  handle_cap-Acts =
      by_list (Runs c.fd command s) command.parameters (λ _. done)
        λ first rest _.
          by_if (Runs c.fd command s) (first == codes "LS")
            (λ _. silent c.fd command s _ (quiet-queue_line c.fd _ s))
            (λ _.
              by_if (Runs c.fd command s) (first == codes "REQ")
                (λ _. silent c.fd command s _ (quiet-queue_line c.fd _ s)) (λ _. done))

  pub handle_pass-Acts :
      command.name ≡ codes "PASS" → Runs c.fd command s (handle_pass c.fd command s)
  unfolding handle_pass quiet
  handle_pass-Acts named = by_some (Runs c.fd command s) (lookup c.fd s.clients) _ _ found (
      by_if (Runs c.fd command s) c.registered (λ _. replied c.fd command s c.fd _ _)
        λ fresh.
          by_list (Runs c.fd command s) command.parameters (λ _. replied c.fd command s c.fd _ _)
            λ supplied rest given.
              by_if (Runs c.fd command s) (not (supplied == s.password))
                (λ _. replied c.fd command s c.fd _ _)
                λ right.
                  let accepted : Act c.fd command (quiet s)
                      (modify_client c.fd set_password_accepted (quiet s)) =
                    authenticate (quiet s) (core c) named
                      (record { found = lookup-quiet c.fd s found; unregistered = fresh })
                      (rw given (ap some (==_eq supplied s.password (ground (arith, right))))) in
                  Acts-trans
                    (acted c.fd command s _
                      (quiet-modify_core c.fd set_password_accepted s (λ c'. refl)) accepted)
                    (try_complete_registration-Acts c.fd command
                      (modify_client c.fd set_password_accepted s) (inl named)))

  pub handle_user-Acts :
      command.name ≡ codes "USER" → Runs c.fd command s (handle_user c.fd command s)
  unfolding handle_user
  handle_user-Acts named = by_some (Runs c.fd command s) (lookup c.fd s.clients) _ _ found (
      by_if (Runs c.fd command s) c.registered (λ _. replied c.fd command s c.fd _ _)
        λ fresh.
          by_list (Runs c.fd command s) command.parameters (λ _. replied c.fd command s c.fd _ _)
            λ username r1 a.
              by_list (Runs c.fd command s) r1 (λ _. replied c.fd command s c.fd _ _)
                λ mode r2 b.
                  by_list (Runs c.fd command s) r2 (λ _. replied c.fd command s c.fd _ _)
                    λ unused r3 d.
                      by_list (Runs c.fd command s) r3 (λ _. replied c.fd command s c.fd _ _)
                        λ realname rest e.
                          Acts-trans
                            (acted c.fd command s
                              (modify_client c.fd (set_user username realname) s)
                              (quiet-modify_core c.fd (set_user username realname) s (λ c'. refl))
                              (describe (quiet s) (core c) username realname named
                                (record { found = lookup-quiet c.fd s found; unregistered = fresh })
                                (rw a refl) (rw (a, b, d, e) refl)))
                            (try_complete_registration-Acts c.fd command
                              (modify_client c.fd (set_user username realname) s)
                              (inr (inl named))))
