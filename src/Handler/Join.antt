-- ===== src/Handler/Join.antt =====
-- JOIN (srcs/Command/Join.cpp).
use irc.Base.{
  ℕ, Bool, true, false, ◌||◌, ◌&&◌, not, [], ◌∷◌, ◌++◌, Option, none, some, ◌==◌, nat_ord, leb,
  if◌then◌else◌,
}
use irc.Map.{insert}
use irc.Text.{Text, codes, irc_case_fold, text_ord}
use irc.Channel.{
  Channel, has_member, add_member, has_topic, is_invited, remove_invite, member_count, new_channel,
}
use irc.Client.{Client, prefix}
use irc.Command.{Command}
use irc.Server.{Server, find_channel, modify_channel, with_client}
use irc.Server.Send.{send_numeric, broadcast_to_channel, send_channel_names}
use irc.Handler.Registration.{not_registered, second_or_empty}

unfoldable pub is_channel_name : Text → Bool
is_channel_name [] = false
is_channel_name (c ∷ rest) = c == b'#' || c == b'&'

-- What follows once the client is a member: the broadcast, the topic and the names.
unfoldable pub welcome_member : Client → Channel → Server → Server
unfolding has_topic
welcome_member client channel s =
    let line : Text = codes ":" ++ prefix client ++ codes " JOIN :" ++ channel.name in
    let joined = broadcast_to_channel channel line none s in
    send_channel_names client.fd channel (
      if has_topic channel
      then send_numeric client.fd (codes "332") (channel.name ++ codes " :" ++ channel.topic) joined
      else send_numeric client.fd (codes "331") (channel.name ++ codes " :No topic is set") joined)

unfoldable pub create_channel : Client → Text → Server → Server
unfolding add_member new_channel welcome_member
create_channel client channel_name s =
    let channel = (add_member client.fd true (new_channel channel_name)).0 in
    welcome_member client channel
      (record s { channels = insert (irc_case_fold channel_name) channel s.channels })

unfoldable pub admit : Client → Channel → Channel
unfolding add_member remove_invite
admit client channel = remove_invite client.nickname (add_member client.fd false channel).0

-- Why a client that is no member may not join: the numeric and the text.
unfoldable pub join_refusal : Client → Text → Channel → Option (Text × Text)
unfolding is_invited member_count
join_refusal client supplied_key channel =
    if channel.invite_only && not (is_invited client.nickname channel)
    then some (codes "473", codes " :Cannot join channel (+i)")
    else if channel.has_key && not (supplied_key == channel.key)
    then some (codes "475", codes " :Cannot join channel (+k)")
    else if channel.has_user_limit && leb channel.user_limit (member_count channel)
    then some (codes "471", codes " :Cannot join channel (+l)")
    else none

unfoldable pub join_channel : Client → Text → Text → Channel → Server → Server
unfolding has_member join_refusal admit welcome_member
join_channel client channel_name supplied_key channel s =
    if has_member client.fd channel then s else elim (join_refusal client supplied_key channel) [
      | some (numeric, text) ↦ send_numeric client.fd numeric (channel.name ++ text) s
      | none ↦
          welcome_member client (admit client channel)
            (modify_channel channel_name (admit client) s)
    ]

unfoldable pub handle_join : ℕ → Command → Server → Server
unfolding is_channel_name create_channel join_channel find_channel not_registered
handle_join fd command s = with_client fd s λ client.
    if not client.registered then not_registered fd s else elim command.parameters [
      | [] ↦ send_numeric fd (codes "461") (codes "JOIN :Not enough parameters") s
      | channel_name ∷ rest ↦
          if not (is_channel_name channel_name)
          then send_numeric fd (codes "403") (channel_name ++ codes " :No such channel") s
          else elim (find_channel channel_name s) [
            | none ↦ create_channel client channel_name s
            | some channel ↦ join_channel client channel_name (second_or_empty rest) channel s
          ]
    ]
