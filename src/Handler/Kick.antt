-- ===== src/Handler/Kick.antt =====
-- KICK (srcs/Command/Kick.cpp), with removeMemberFromChannel (srcs/Server/Server.cpp).
use irc.Base.{ℕ, not, [], ◌∷◌, ◌++◌, List, none, some, nat_ord, if◌then◌else◌}
use irc.Map.{erase}
use irc.Text.{Text, codes, irc_case_fold, text_ord}
use irc.Channel.{Channel, has_member, is_member_operator, remove_member, is_empty_channel}
use irc.Client.{Client, prefix}
use irc.Command.{Command}
use irc.Server.{Server, find_client_by_nickname, find_channel, modify_channel, with_client}
use irc.Server.Send.{send_numeric, broadcast_to_channel}
use irc.Handler.Registration.{not_registered}

-- The pointer to the channel is the name under which it was found.
unfoldable pub remove_member_from_channel : Text → ℕ → Server → Server
unfolding find_channel remove_member is_empty_channel
remove_member_from_channel channel_name fd s = elim (find_channel channel_name s) [
  | none ↦ s
  | some channel ↦
      let left = modify_channel channel_name (remove_member fd) s in
      if not (is_empty_channel (remove_member fd channel))
      then left
      else record left { channels = erase (irc_case_fold channel.name) left.channels }
]

abbrev pub kick_reason : Client → List Text → Text
kick_reason client [] = client.nickname
kick_reason client (reason ∷ rest) = reason

unfoldable pub kick_line : Client → Text → Text → List Text → Text
kick_line client channel_name target_nick rest =
    codes ":"
    ++ prefix client
    ++ codes " KICK "
    ++ channel_name
    ++ codes " "
    ++ target_nick
    ++ codes " :"
    ++ kick_reason client rest

unfoldable pub kick_target : Client → Text → Text → List Text → Channel → Server → Server
unfolding remove_member_from_channel find_client_by_nickname has_member
kick_target client channel_name target_nick rest channel s =
    elim (find_client_by_nickname target_nick s) [
      | none ↦
          send_numeric client.fd (codes "441")
            (target_nick ++ codes " " ++ channel_name ++ codes " :They aren't on that channel") s
      | some target ↦
          if not (has_member target.fd channel)
          then send_numeric client.fd (codes "441")
              (target_nick ++ codes " " ++ channel_name ++ codes " :They aren't on that channel") s
          else remove_member_from_channel channel_name target.fd
              (broadcast_to_channel channel (kick_line client channel_name target_nick rest) none s)
    ]

unfoldable pub handle_kick : ℕ → Command → Server → Server
unfolding kick_target find_channel has_member is_member_operator not_registered
handle_kick fd command s = with_client fd s λ client.
    if not client.registered then not_registered fd s else elim command.parameters [
      | channel_name ∷ target_nick ∷ rest ↦ elim (find_channel channel_name s) [
        | none ↦ send_numeric fd (codes "403") (channel_name ++ codes " :No such channel") s
        | some channel ↦
            if not (has_member client.fd channel)
            then send_numeric fd (codes "442")
                (channel_name ++ codes " :You're not on that channel") s
            else if not (is_member_operator client.fd channel)
            then send_numeric fd (codes "482")
                (channel_name ++ codes " :You're not channel operator") s
            else kick_target client channel_name target_nick rest channel s
      ]
      | _ ↦ send_numeric fd (codes "461") (codes "KICK :Not enough parameters") s
    ]
