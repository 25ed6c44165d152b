-- ===== src/Handler/Topic.antt =====
-- TOPIC (srcs/Command/Topic.cpp).
use irc.Base.{ℕ, ◌&&◌, not, [], ◌∷◌, ◌++◌, none, some, nat_ord, if◌then◌else◌}
use irc.Text.{Text, codes, text_ord}
use irc.Channel.{Channel, has_member, is_member_operator, has_topic, set_topic}
use irc.Client.{Client, prefix}
use irc.Command.{Command}
use irc.Server.{Server, find_channel, modify_channel, with_client}
use irc.Server.Send.{send_numeric, broadcast_to_channel}
use irc.Handler.Registration.{not_registered}

unfoldable pub show_topic : ℕ → Text → Channel → Server → Server
unfolding has_topic
show_topic fd channel_name channel s =
    if has_topic channel
    then send_numeric fd (codes "332") (channel_name ++ codes " :" ++ channel.topic) s
    else send_numeric fd (codes "331") (channel_name ++ codes " :No topic is set") s

unfoldable pub change_topic : Client → Text → Text → Channel → Server → Server
unfolding set_topic is_member_operator
change_topic client channel_name topic channel s =
    if channel.topic_restricted && not (is_member_operator client.fd channel)
    then send_numeric client.fd (codes "482")
        (channel_name ++ codes " :You're not channel operator") s
    else broadcast_to_channel (set_topic topic channel)
        (codes ":" ++ prefix client ++ codes " TOPIC " ++ channel_name ++ codes " :" ++ topic) none
        (modify_channel channel_name (set_topic topic) s)

unfoldable pub handle_topic : ℕ → Command → Server → Server
unfolding show_topic change_topic find_channel has_member not_registered
handle_topic fd command s = with_client fd s λ client.
    if not client.registered then not_registered fd s else elim command.parameters [
      | [] ↦ send_numeric fd (codes "461") (codes "TOPIC :Not enough parameters") s
      | channel_name ∷ rest ↦ elim (find_channel channel_name s) [
        | none ↦ send_numeric fd (codes "403") (channel_name ++ codes " :No such channel") s
        | some channel ↦
            if not (has_member client.fd channel)
            then send_numeric fd (codes "442")
                (channel_name ++ codes " :You're not on that channel") s
            else elim rest [
              | [] ↦ show_topic fd channel_name channel s
              | topic ∷ more ↦ change_topic client channel_name topic channel s
            ]
      ]
    ]
