-- ===== src/Handler/Mode/Apply.antt =====
-- srcs/Command/ModeApply.cpp: one mode change applied to a channel. Each function finds the channel
-- anew, as its state is after the changes before.
use irc.Base.{
  ℕ, Bool, true, false, not, ◌&&◌, [], ◌∷◌, ◌++◌, none, some, ◌==◌, nat_ord, is_empty,
  if◌then◌else◌,
}
use irc.Text.{Text, codes, text_ord}
use irc.Number.{parse_positive_user_limit}
use irc.Channel.{
  Channel, set_invite_only, set_topic_restricted, set_key, remove_key, has_member,
  is_member_operator, set_member_operator, set_user_limit, remove_user_limit,
}
use irc.Client.{Client, prefix}
use irc.Server.{Server, find_channel, find_client_by_nickname, modify_channel}
use irc.Server.Send.{send_numeric, broadcast_to_channel}
use irc.Handler.Mode.Change.{ModeChange}

-- `a == b` on Booleans.
abbrev pub same : Bool → Bool → Bool
same true b = b
same false b = not b

unfoldable pub mode_line : Client → Channel → ModeChange → Text
mode_line client channel change =
    let line : Text =
      codes ":"
      ++ prefix client
      ++ codes " MODE "
      ++ channel.name
      ++ codes " "
      ++ (if change.adding then codes "+" else codes "-")
      ++ change.mode ∷ [] in
    if change.has_argument then line ++ codes " " ++ change.argument else line

unfoldable pub broadcast_mode_change : Client → Channel → ModeChange → Server → Server
unfolding mode_line
broadcast_mode_change client channel change s =
    broadcast_to_channel channel (mode_line client channel change) none s

-- Writes the channel and broadcasts the change.
unfoldable pub write_mode :
    Client → Text → (Channel → Channel) → ModeChange → Channel → Server → Server
unfolding broadcast_mode_change
write_mode client channel_name write change channel s =
    broadcast_mode_change client (write channel) change (modify_channel channel_name write s)

unfoldable pub apply_invite_only_mode : Client → Text → ModeChange → Channel → Server → Server
unfolding write_mode set_invite_only
apply_invite_only_mode client channel_name change channel s =
    if same channel.invite_only change.adding
    then s
    else write_mode client channel_name (set_invite_only change.adding) change channel s

unfoldable pub apply_topic_restricted_mode : Client → Text → ModeChange → Channel → Server → Server
unfolding write_mode set_topic_restricted
apply_topic_restricted_mode client channel_name change channel s =
    if same channel.topic_restricted change.adding
    then s
    else write_mode client channel_name (set_topic_restricted change.adding) change channel s

unfoldable pub apply_key_mode : Client → Text → ModeChange → Channel → Server → Server
unfolding write_mode set_key remove_key
apply_key_mode client channel_name change channel s =
    if change.adding
    then if is_empty change.argument
      then send_numeric client.fd (codes "696") (channel.name ++ codes " k :Invalid mode parameter")
          s
      else if channel.has_key && channel.key == change.argument
      then s
      else write_mode client channel_name (set_key change.argument) change channel s
    else if not channel.has_key
    then s
    else write_mode client channel_name remove_key change channel s

abbrev pub write_operator : ℕ → Bool → Channel → Channel
write_operator fd enabled channel = (set_member_operator fd enabled channel).0

unfoldable pub apply_operator_mode : Client → Text → ModeChange → Channel → Server → Server
unfolding write_mode find_client_by_nickname has_member is_member_operator set_member_operator
apply_operator_mode client channel_name change channel s =
    elim (find_client_by_nickname change.argument s) [
      | none ↦
          send_numeric client.fd (codes "401") (change.argument ++ codes " :No such nick/channel") s
      | some target ↦
          if not (has_member target.fd channel)
          then send_numeric client.fd (codes "441")
              (change.argument
                ++ codes " "
                ++ channel.name
                ++ codes " :They aren't on that channel")
              s
          else if same (is_member_operator target.fd channel) change.adding
          then s
          else write_mode client channel_name (write_operator target.fd change.adding) change
              channel s
    ]

unfoldable pub apply_user_limit_mode : Client → Text → ModeChange → Channel → Server → Server
unfolding write_mode set_user_limit remove_user_limit
apply_user_limit_mode client channel_name change channel s =
    if change.adding
    then elim (parse_positive_user_limit change.argument) [
      | none ↦
          send_numeric client.fd (codes "696")
            (channel.name ++ codes " l " ++ change.argument ++ codes " :Invalid mode parameter") s
      | some limit ↦
          if channel.has_user_limit && channel.user_limit == limit
          then s
          else write_mode client channel_name (set_user_limit limit) change channel s
    ]
    else if not channel.has_user_limit
    then s
    else write_mode client channel_name remove_user_limit change channel s

unfoldable pub apply_to_channel : Client → Text → ModeChange → Channel → Server → Server
unfolding apply_invite_only_mode apply_topic_restricted_mode apply_key_mode apply_operator_mode
    apply_user_limit_mode
apply_to_channel client channel_name change channel s =
    if change.mode == b'i'
    then apply_invite_only_mode client channel_name change channel s
    else if change.mode == b't'
    then apply_topic_restricted_mode client channel_name change channel s
    else if change.mode == b'k'
    then apply_key_mode client channel_name change channel s
    else if change.mode == b'o'
    then apply_operator_mode client channel_name change channel s
    else if change.mode == b'l'
    then apply_user_limit_mode client channel_name change channel s
    else send_numeric client.fd (codes "472")
        (change.mode ∷ [] ++ codes " :is unknown mode char to me") s

-- The dispatcher.
unfoldable pub apply_channel_mode_change : Client → Text → ModeChange → Server → Server
unfolding apply_to_channel
apply_channel_mode_change client channel_name change s = elim (find_channel channel_name s) [
  | none ↦ s
  | some channel ↦ apply_to_channel client channel_name change channel s
]
