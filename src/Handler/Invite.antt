-- ===== src/Handler/Invite.antt =====
-- INVITE (srcs/Command/Invite.cpp).
use irc.Base.{ℕ, not, ◌∷◌, ◌++◌, none, some, nat_ord, if◌then◌else◌}
use irc.Text.{Text, codes, text_ord}
use irc.Channel.{Channel, has_member, is_member_operator, add_invite}
use irc.Client.{Client, prefix}
use irc.Command.{Command}
use irc.Server.{Server, find_client_by_nickname, find_channel, modify_channel, with_client}
use irc.Server.Send.{queue_line, send_numeric}
use irc.Handler.Registration.{not_registered}

unfoldable pub invite_target : Client → Client → Text → Text → Server → Server
unfolding add_invite
invite_target client target target_nick channel_name s =
    let invited = modify_channel channel_name (add_invite target_nick) s in
    let answered =
      send_numeric client.fd (codes "341") (target_nick ++ codes " " ++ channel_name) invited in
    (queue_line target.fd
      (codes ":" ++ prefix client ++ codes " INVITE " ++ target_nick ++ codes " :" ++ channel_name)
      answered).0

unfoldable pub invite_checked : Client → Client → Text → Text → Channel → Server → Server
unfolding invite_target has_member is_member_operator
invite_checked client target target_nick channel_name channel s =
    if not (has_member client.fd channel)
    then send_numeric client.fd (codes "442") (channel_name ++ codes " :You're not on that channel")
        s
    else if not (is_member_operator client.fd channel)
    then send_numeric client.fd (codes "482")
        (channel_name ++ codes " :You're not channel operator") s
    else if has_member target.fd channel
    then send_numeric client.fd (codes "443")
        (target_nick ++ codes " " ++ channel_name ++ codes " :is already on channel") s
    else invite_target client target target_nick channel_name s

unfoldable pub handle_invite : ℕ → Command → Server → Server
unfolding invite_checked find_channel find_client_by_nickname not_registered
handle_invite fd command s = with_client fd s λ client.
    if not client.registered then not_registered fd s else elim command.parameters [
      | target_nick ∷ channel_name ∷ rest ↦ elim (find_client_by_nickname target_nick s) [
        | none ↦ send_numeric fd (codes "401") (target_nick ++ codes " :No such nick/channel") s
        | some target ↦ elim (find_channel channel_name s) [
          | none ↦ send_numeric fd (codes "403") (channel_name ++ codes " :No such channel") s
          | some channel ↦ invite_checked client target target_nick channel_name channel s
        ]
      ]
      | _ ↦ send_numeric fd (codes "461") (codes "INVITE :Not enough parameters") s
    ]
