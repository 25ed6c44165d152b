-- ===== src/Protocol/Turns.antt =====
-- Which commands a client may send before and after its registration (srcs/Server/ServerCommand.cpp, srcs/Command).
use irc.Base.{
  ℕ, Bool, true, false, ◌||◌, ◌==◌, ==_eq, nat_ord, not, ◌≡◌, refl, subst, ◌∙◌, some, arith,
  if◌then◌else◌, [], ◌∷◌, List, All, Bool-cases, inl, inr,
}
use irc.Map.{lookup}
use irc.Text.{Text, text_ord, codes, compare_text}
use irc.Client.{Client}
use irc.Command.{Command}
use irc.Server.{Server}
use irc.Server.Send.{send_numeric}
use irc.Handler.Registration.{not_registered, handle_pass, handle_user}
use irc.Handler.Privmsg.{handle_privmsg}
use irc.Handler.Join.{handle_join}
use irc.Handler.Topic.{handle_topic}
use irc.Handler.Kick.{handle_kick}
use irc.Handler.Invite.{handle_invite}
use irc.Handler.Mode.{handle_mode}
use irc.Handler.Dispatch.{dispatch_command}
use irc.Protocol.Rules.{by_if, by_some}

-- The commands that a client may send only behind its registration.
abbrev pub member_commands : List Text
member_commands =
    codes "PRIVMSG"
    ∷ codes "JOIN"
    ∷ codes "TOPIC"
    ∷ codes "KICK"
    ∷ codes "INVITE"
    ∷ codes "MODE"
    ∷ []

-- The commands that a client may send only before it.
abbrev pub registering_commands : List Text
registering_commands = codes "PASS" ∷ codes "USER" ∷ []

unfoldable pub is_one_of : Text → List Text → Bool
is_one_of name [] = false
is_one_of name (first ∷ rest) = name == first || is_one_of name rest

by_name {ℓ} :
    {X : Type ℓ} (name : Text) (names : List Text)
    → is_one_of name names ≡ true
    → All (λ n. name ≡ n → X) names
    → X
unfolding is_one_of
by_name name [] h ways = absurd (ground (arith, h))
by_name name (first ∷ rest) h ways = elim (Bool-cases (name == first)) [
  | inl same ↦ ways.0 (==_eq name first same)
  | inr other ↦ by_name name rest (ground (arith, h, other)) ways.1
]

module _ (fd : ℕ) (command : Command) (s : Server) where
  dispatch-handle_privmsg :
      command.name ≡ codes "PRIVMSG" → dispatch_command fd command s ≡ handle_privmsg fd command s
  unfolding dispatch_command codes compare_text
  dispatch-handle_privmsg e = rw e refl

  dispatch-handle_join :
      command.name ≡ codes "JOIN" → dispatch_command fd command s ≡ handle_join fd command s
  unfolding dispatch_command codes compare_text
  dispatch-handle_join e = rw e refl

  dispatch-handle_topic :
      command.name ≡ codes "TOPIC" → dispatch_command fd command s ≡ handle_topic fd command s
  unfolding dispatch_command codes compare_text
  dispatch-handle_topic e = rw e refl

  dispatch-handle_kick :
      command.name ≡ codes "KICK" → dispatch_command fd command s ≡ handle_kick fd command s
  unfolding dispatch_command codes compare_text
  dispatch-handle_kick e = rw e refl

  dispatch-handle_invite :
      command.name ≡ codes "INVITE" → dispatch_command fd command s ≡ handle_invite fd command s
  unfolding dispatch_command codes compare_text
  dispatch-handle_invite e = rw e refl

  dispatch-handle_mode :
      command.name ≡ codes "MODE" → dispatch_command fd command s ≡ handle_mode fd command s
  unfolding dispatch_command codes compare_text
  dispatch-handle_mode e = rw e refl

  dispatch-handle_pass :
      command.name ≡ codes "PASS" → dispatch_command fd command s ≡ handle_pass fd command s
  unfolding dispatch_command codes compare_text
  dispatch-handle_pass e = rw e refl

  dispatch-handle_user :
      command.name ≡ codes "USER" → dispatch_command fd command s ≡ handle_user fd command s
  unfolding dispatch_command codes compare_text
  dispatch-handle_user e = rw e refl

module _ (fd : ℕ) (command : Command) (s : Server) (c : Client)
    (found : lookup fd s.clients ≡ some c) where
  -- The command `PASS` or `USER` again.
  abbrev again : Server
  again = send_numeric fd (codes "462") (codes ":You may not reregister") s

  handle_privmsg-not_registered :
      c.registered ≡ false → handle_privmsg fd command s ≡ not_registered fd s
  unfolding handle_privmsg
  handle_privmsg-not_registered e =
      by_some (λ t. t ≡ not_registered fd s) (lookup fd s.clients) _ _ found
        (by_if (λ t. t ≡ not_registered fd s) (not c.registered) (λ _. refl)
          (λ o. absurd (ground (arith, o, e))))

  handle_join-not_registered : c.registered ≡ false → handle_join fd command s ≡ not_registered fd s
  unfolding handle_join
  handle_join-not_registered e =
      by_some (λ t. t ≡ not_registered fd s) (lookup fd s.clients) _ _ found
        (by_if (λ t. t ≡ not_registered fd s) (not c.registered) (λ _. refl)
          (λ o. absurd (ground (arith, o, e))))

  handle_topic-not_registered :
      c.registered ≡ false → handle_topic fd command s ≡ not_registered fd s
  unfolding handle_topic
  handle_topic-not_registered e =
      by_some (λ t. t ≡ not_registered fd s) (lookup fd s.clients) _ _ found
        (by_if (λ t. t ≡ not_registered fd s) (not c.registered) (λ _. refl)
          (λ o. absurd (ground (arith, o, e))))

  handle_kick-not_registered : c.registered ≡ false → handle_kick fd command s ≡ not_registered fd s
  unfolding handle_kick
  handle_kick-not_registered e =
      by_some (λ t. t ≡ not_registered fd s) (lookup fd s.clients) _ _ found
        (by_if (λ t. t ≡ not_registered fd s) (not c.registered) (λ _. refl)
          (λ o. absurd (ground (arith, o, e))))

  handle_invite-not_registered :
      c.registered ≡ false → handle_invite fd command s ≡ not_registered fd s
  unfolding handle_invite
  handle_invite-not_registered e =
      by_some (λ t. t ≡ not_registered fd s) (lookup fd s.clients) _ _ found
        (by_if (λ t. t ≡ not_registered fd s) (not c.registered) (λ _. refl)
          (λ o. absurd (ground (arith, o, e))))

  handle_mode-not_registered : c.registered ≡ false → handle_mode fd command s ≡ not_registered fd s
  unfolding handle_mode
  handle_mode-not_registered e =
      by_some (λ t. t ≡ not_registered fd s) (lookup fd s.clients) _ _ found
        (by_if (λ t. t ≡ not_registered fd s) (not c.registered) (λ _. refl)
          (λ o. absurd (ground (arith, o, e))))

  handle_pass-again : c.registered ≡ true → handle_pass fd command s ≡ again
  unfolding handle_pass
  handle_pass-again e =
      by_some (λ t. t ≡ again) (lookup fd s.clients) _ _ found
        (by_if (λ t. t ≡ again) c.registered (λ _. refl) (λ o. absurd (ground (arith, o, e))))

  handle_user-again : c.registered ≡ true → handle_user fd command s ≡ again
  unfolding handle_user
  handle_user-again e =
      by_some (λ t. t ≡ again) (lookup fd s.clients) _ _ found
        (by_if (λ t. t ≡ again) c.registered (λ _. refl) (λ o. absurd (ground (arith, o, e))))

  member_command_early :
      c.registered ≡ false
      → is_one_of command.name member_commands ≡ true
      → dispatch_command fd command s ≡ not_registered fd s
  member_command_early e h = by_name command.name member_commands h (
    (λ n. dispatch-handle_privmsg fd command s n ∙ handle_privmsg-not_registered e),
    (
      (λ n. dispatch-handle_join fd command s n ∙ handle_join-not_registered e),
      (
        (λ n. dispatch-handle_topic fd command s n ∙ handle_topic-not_registered e),
        (
          (λ n. dispatch-handle_kick fd command s n ∙ handle_kick-not_registered e),
          (
            (λ n. dispatch-handle_invite fd command s n ∙ handle_invite-not_registered e),
            ((λ n. dispatch-handle_mode fd command s n ∙ handle_mode-not_registered e), tt),
          ),
        ),
      ),
    ),
  )

  registering_command_late :
      c.registered ≡ true
      → is_one_of command.name registering_commands ≡ true
      → dispatch_command fd command s ≡ again
  registering_command_late e h = by_name command.name registering_commands h (
    (λ n. dispatch-handle_pass fd command s n ∙ handle_pass-again e),
    ((λ n. dispatch-handle_user fd command s n ∙ handle_user-again e), tt),
  )

-- A command that is not for a client before its registration, or behind it.
unfoldable pub is_out_of_turn : Bool → Text → Bool
is_out_of_turn registered name =
    if registered then is_one_of name registering_commands else is_one_of name member_commands

-- A command out of turn, PASS or USER from a registered client, or PRIVMSG, JOIN, TOPIC, KICK, INVITE or
-- MODE from a client that is not registered, does nothing but answer with the numeric 462 or 451.
pub dispatch_command_out_of_turn :
    (fd : ℕ) (command : Command) (s : Server) (c : Client)
    → lookup fd s.clients ≡ some c
    → is_out_of_turn c.registered command.name ≡ true
    → dispatch_command fd command s ≡ (
        if c.registered
        then send_numeric fd (codes "462") (codes ":You may not reregister") s
        else send_numeric fd (codes "451") (codes ":You have not registered") s)
unfolding is_out_of_turn not_registered
dispatch_command_out_of_turn fd command s c found h = elim (Bool-cases c.registered) [
  | inl e ↦ rw e (
      registering_command_late fd command s c found e
        (subst (λ r. is_out_of_turn r command.name ≡ true) e h))
  | inr e ↦ rw e (
      member_command_early fd command s c found e
        (subst (λ r. is_out_of_turn r command.name ≡ true) e h))
]
