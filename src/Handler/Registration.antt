-- ===== src/Handler/Registration.antt =====
-- PING, QUIT, CAP, PASS and USER (srcs/Command/Ping.cpp, Quit.cpp, Cap.cpp, Pass.cpp, User.cpp), and
-- the end of a registration (srcs/Server/ServerCommand.cpp).
use irc.Base.{ℕ, true, not, [], ◌∷◌, ◌++◌, List, ◌==◌, nat_ord, if◌then◌else◌}
use irc.Text.{Text, codes, text_ord}
use irc.Client.{
  request_disconnect, set_password_accepted, set_user, set_registered, is_registration_ready,
}
use irc.Command.{Command}
use irc.Server.{Server, modify_client, with_client}
use irc.Server.Send.{queue_line, send_numeric, send_welcome}

unfoldable pub not_registered : ℕ → Server → Server
not_registered fd s = send_numeric fd (codes "451") (codes ":You have not registered") s

unfoldable pub try_complete_registration : ℕ → Server → Server
unfolding is_registration_ready set_registered
try_complete_registration fd s = with_client fd s λ client.
    if client.registered
    then s
    else if not (is_registration_ready client)
    then s
    else send_welcome fd (modify_client fd (set_registered true) s)

unfoldable pub handle_ping : ℕ → Command → Server → Server
handle_ping fd command s = elim command.parameters [
  | [] ↦ (queue_line fd (codes ":ircserv 409 * :No origin specified") s).0
  | token ∷ rest ↦
      (queue_line fd
        (codes ":" ++ codes "ircserv" ++ codes " PONG " ++ codes "ircserv" ++ codes " :" ++ token)
        s).0
]

unfoldable pub handle_quit : ℕ → Command → Server → Server
handle_quit fd command s = elim command.parameters [
  | [] ↦ modify_client fd (request_disconnect (codes "Client Quit")) s
  | reason ∷ rest ↦ modify_client fd (request_disconnect reason) s
]

abbrev pub second_or_empty : List Text → Text
second_or_empty [] = []
second_or_empty (text ∷ rest) = text

unfoldable pub handle_cap : ℕ → Command → Server → Server
handle_cap fd command s = elim command.parameters [
  | [] ↦ s
  | first ∷ rest ↦
      if first == codes "LS"
      then (queue_line fd (codes ":ircserv CAP * LS") s).0
      else if first == codes "REQ"
      then (queue_line fd (codes ":ircserv CAP * NAK " ++ second_or_empty rest) s).0
      else s
]

unfoldable pub handle_pass : ℕ → Command → Server → Server
unfolding set_password_accepted
handle_pass fd command s = with_client fd s λ client.
    if client.registered
    then send_numeric fd (codes "462") (codes ":You may not reregister") s
    else elim command.parameters [
      | [] ↦ send_numeric fd (codes "461") (codes "PASS :Not enough parameters") s
      | supplied ∷ rest ↦
          if not (supplied == s.password)
          then send_numeric fd (codes "464") (codes ":Password incorrect") s
          else try_complete_registration fd (modify_client fd set_password_accepted s)
    ]

unfoldable pub handle_user : ℕ → Command → Server → Server
unfolding set_user
handle_user fd command s = with_client fd s λ client.
    if client.registered
    then send_numeric fd (codes "462") (codes ":You may not reregister") s
    else elim command.parameters [
      | username ∷ mode ∷ unused ∷ realname ∷ rest ↦
          try_complete_registration fd (modify_client fd (set_user username realname) s)
      | _ ↦ send_numeric fd (codes "461") (codes "USER :Not enough parameters") s
    ]
