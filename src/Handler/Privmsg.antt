-- ===== src/Handler/Privmsg.antt =====
-- PRIVMSG (srcs/Command/Privmsg.cpp).
use irc.Base.{ℕ, Bool, false, ◌||◌, not, [], ◌∷◌, ◌++◌, none, some, ◌==◌, nat_ord, if◌then◌else◌}
use irc.Text.{Text, codes, text_ord}
use irc.Channel.{has_member}
use irc.Client.{Client, prefix}
use irc.Command.{Command}
use irc.Server.{Server, find_client_by_nickname, find_channel, with_client}
use irc.Server.Send.{queue_line, send_numeric, broadcast_to_channel}
use irc.Handler.Registration.{not_registered}

-- `targetName[0]` is a channel prefix; the terminator of an empty text is none.
unfoldable pub starts_like_channel : Text → Bool
starts_like_channel [] = false
starts_like_channel (c ∷ rest) = c == b'#' || c == b'&'

unfoldable pub message_line : Client → Text → Text → Text
message_line client target text =
    codes ":" ++ prefix client ++ codes " PRIVMSG " ++ target ++ codes " :" ++ text

unfoldable pub message_channel : Client → Text → Text → Server → Server
unfolding message_line has_member find_channel
message_channel client target text s = elim (find_channel target s) [
  | none ↦ send_numeric client.fd (codes "401") (target ++ codes " :No such nick/channel") s
  | some channel ↦
      if not (has_member client.fd channel)
      then send_numeric client.fd (codes "404") (target ++ codes " :Cannot send to channel") s
      else broadcast_to_channel channel (message_line client target text) (some client.fd) s
]

unfoldable pub message_user : Client → Text → Text → Server → Server
unfolding message_line find_client_by_nickname
message_user client nickname text s = elim (find_client_by_nickname nickname s) [
  | none ↦ send_numeric client.fd (codes "401") (nickname ++ codes " :No such nick/channel") s
  | some target ↦ (queue_line target.fd (message_line client target.nickname text) s).0
]

unfoldable pub handle_privmsg : ℕ → Command → Server → Server
unfolding message_channel message_user starts_like_channel not_registered
handle_privmsg fd command s = with_client fd s λ client.
    if not client.registered then not_registered fd s else elim command.parameters [
      | [] ↦ send_numeric fd (codes "411") (codes ":No recipient given (PRIVMSG)") s
      | target ∷ [] ↦ send_numeric fd (codes "412") (codes ":No text to send") s
      | target ∷ text ∷ rest ↦
          if starts_like_channel target
          then message_channel client target text s
          else message_user client target text s
    ]
