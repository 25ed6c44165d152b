-- ===== src/Handler/Keeps/Channels.antt =====
-- PRIVMSG, JOIN, TOPIC, KICK and INVITE.
use irc.Base.{ℕ, true, not, ◌&&◌, List, none, nat_ord}
use irc.Map.{lookup}
use irc.Text.{Text, text_ord}
use irc.Channel.{
  Channel, has_member, has_topic, is_member_operator, is_empty_channel, set_topic, remove_member,
  add_member, new_channel,
}
use irc.Client.{Client}
use irc.Command.{Command}
use irc.Server.{Server, find_channel, find_client_by_nickname}
use irc.Server.Send.{send_numeric}
use irc.Server.Keeps.{
  IsKept, queue_line_keeps, send_numeric_keeps, broadcast_to_channel_keeps,
  send_channel_names_keeps,
}
use irc.Handler.Registration.{second_or_empty}
use irc.Handler.Privmsg.{starts_like_channel, message_channel, message_user, handle_privmsg}
use irc.Handler.Join.{
  is_channel_name, welcome_member, create_channel, join_refusal, join_channel, handle_join, admit,
}
use irc.Handler.Topic.{show_topic, change_topic, handle_topic}
use irc.Handler.Kick.{remove_member_from_channel, kick_target, handle_kick}
use irc.Handler.Invite.{invite_target, invite_checked, handle_invite}
use irc.Protocol.Rules.{by_if, by_option, by_list}
use irc.Handler.Keeps.Identity.{not_registered_keeps}

module _ (P : Server → Type 0) (kept : IsKept P) where
  -- A numeric reply, whatever is known in the branch.
  pub said :
      {A : Type 0} (fd : ℕ) (s : Server)
      → P s
      → (numeric text : Text) → A
      → P (send_numeric fd numeric text s)
  said fd s p numeric text known = send_numeric_keeps P kept fd numeric text s p

  message_channel_keeps :
      (c : Client) (target text : Text) (s : Server) → P s → P (message_channel c target text s)
  unfolding message_channel
  message_channel_keeps c target text s p =
      by_option P (find_channel target s) (said c.fd s p _ _) λ channel _.
        by_if P (not (has_member c.fd channel)) (said c.fd s p _ _)
          (λ _. broadcast_to_channel_keeps P kept channel _ _ s p)

  message_user_keeps :
      (c : Client) (nickname text : Text) (s : Server) → P s → P (message_user c nickname text s)
  unfolding message_user
  message_user_keeps c nickname text s p =
      by_option P (find_client_by_nickname nickname s) (said c.fd s p _ _)
        (λ target _. queue_line_keeps P kept target.fd _ s p)

  welcome_member_keeps :
      (c : Client) (channel : Channel) (s : Server) → P s → P (welcome_member c channel s)
  unfolding welcome_member
  welcome_member_keeps c channel s p =
      let joined = broadcast_to_channel_keeps P kept channel _ none s p in
      send_channel_names_keeps P kept c.fd channel _
        (by_if P (has_topic channel) (said c.fd _ joined _ _) (said c.fd _ joined _ _))

  join_channel_keeps :
      (c : Client) (name supplied : Text) (channel : Channel) (s : Server)
      → P s
      → P (join_channel c name supplied channel s)
  unfolding join_channel
  join_channel_keeps c name supplied channel s p =
      by_if P (has_member c.fd channel) (λ _. p)
        λ _.
          by_option P (join_refusal c supplied channel)
            (λ _. welcome_member_keeps c (admit c channel) _ (kept.shared _ _ s p))
            (λ refusal. said c.fd s p _ _)

  change_topic_keeps :
      (c : Client) (name topic : Text) (channel : Channel) (s : Server)
      → P s
      → P (change_topic c name topic channel s)
  unfolding change_topic
  change_topic_keeps c name topic channel s p =
      by_if P (channel.topic_restricted && not (is_member_operator c.fd channel))
        (said c.fd s p _ _)
        (λ _.
          broadcast_to_channel_keeps P kept (set_topic topic channel) _ _ _ (kept.shared _ _ s p))

  remove_member_from_channel_keeps :
      (name : Text) (fd : ℕ) (s : Server) → P s → P (remove_member_from_channel name fd s)
  unfolding remove_member_from_channel
  remove_member_from_channel_keeps name fd s p =
      by_option P (find_channel name s) (λ _. p)
        λ channel _.
          by_if P (not (is_empty_channel (remove_member fd channel))) (λ _. kept.shared _ _ s p)
            (λ _. kept.shared _ _ s p)

  kick_target_keeps :
      (c : Client) (name nick : Text) (rest : List Text) (channel : Channel) (s : Server)
      → P s
      → P (kick_target c name nick rest channel s)
  unfolding kick_target
  kick_target_keeps c name nick rest channel s p =
      by_option P (find_client_by_nickname nick s) (said c.fd s p _ _) λ target _.
        by_if P (not (has_member target.fd channel)) (said c.fd s p _ _) λ _.
          remove_member_from_channel_keeps name target.fd _
            (broadcast_to_channel_keeps P kept channel _ none s p)

  invite_checked_keeps :
      (c target : Client) (nick name : Text) (channel : Channel) (s : Server)
      → P s
      → P (invite_checked c target nick name channel s)
  unfolding invite_checked invite_target
  invite_checked_keeps c target nick name channel s p =
      by_if P (not (has_member c.fd channel)) (said c.fd s p _ _) λ _.
        by_if P (not (is_member_operator c.fd channel)) (said c.fd s p _ _) λ _.
          by_if P (has_member target.fd channel) (said c.fd s p _ _) λ _.
            queue_line_keeps P kept target.fd _ _
              (send_numeric_keeps P kept c.fd _ _ _ (kept.shared _ _ s p))

  module _ (fd : ℕ) (command : Command) (s : Server) (p : P s) where
    pub handle_privmsg_keeps : P (handle_privmsg fd command s)
    unfolding handle_privmsg
    handle_privmsg_keeps =
        by_option P (lookup fd s.clients) (λ _. p)
          λ c _.
            by_if P (not c.registered) (λ _. not_registered_keeps P kept fd s p)
              λ _. by_list P command.parameters (said fd s p _ _) λ target more _.
                by_list P more (said fd s p _ _) λ text rest _.
                  by_if P (starts_like_channel target)
                    (λ _. message_channel_keeps c target text s p)
                    (λ _. message_user_keeps c target text s p)

    pub handle_join_keeps : P (handle_join fd command s)
    unfolding handle_join create_channel
    handle_join_keeps =
        by_option P (lookup fd s.clients) (λ _. p)
          λ c _.
            by_if P (not c.registered) (λ _. not_registered_keeps P kept fd s p)
              λ _. by_list P command.parameters (said fd s p _ _) λ name rest _.
                by_if P (not (is_channel_name name)) (said fd s p _ _) λ _.
                  by_option P (find_channel name s)
                    (λ _.
                      welcome_member_keeps c (add_member c.fd true (new_channel name)).0 _
                        (kept.shared _ _ s p))
                    (λ channel _. join_channel_keeps c name (second_or_empty rest) channel s p)

    pub handle_topic_keeps : P (handle_topic fd command s)
    unfolding handle_topic show_topic
    handle_topic_keeps =
        by_option P (lookup fd s.clients) (λ _. p)
          λ c _.
            by_if P (not c.registered) (λ _. not_registered_keeps P kept fd s p)
              λ _. by_list P command.parameters (said fd s p _ _) λ name rest _.
                by_option P (find_channel name s) (said fd s p _ _) λ channel _.
                  by_if P (not (has_member c.fd channel)) (said fd s p _ _) λ _.
                    by_list P rest
                      (λ _. by_if P (has_topic channel) (said fd s p _ _) (said fd s p _ _))
                      (λ topic more _. change_topic_keeps c name topic channel s p)

    pub handle_kick_keeps : P (handle_kick fd command s)
    unfolding handle_kick
    handle_kick_keeps =
        by_option P (lookup fd s.clients) (λ _. p)
          λ c _.
            by_if P (not c.registered) (λ _. not_registered_keeps P kept fd s p)
              λ _. by_list P command.parameters (said fd s p _ _) λ name more _.
                by_list P more (said fd s p _ _) λ nick rest _.
                  by_option P (find_channel name s) (said fd s p _ _) λ channel _.
                    by_if P (not (has_member c.fd channel)) (said fd s p _ _) λ _.
                      by_if P (not (is_member_operator c.fd channel)) (said fd s p _ _)
                        (λ _. kick_target_keeps c name nick rest channel s p)

    pub handle_invite_keeps : P (handle_invite fd command s)
    unfolding handle_invite
    handle_invite_keeps =
        by_option P (lookup fd s.clients) (λ _. p)
          λ c _.
            by_if P (not c.registered) (λ _. not_registered_keeps P kept fd s p)
              λ _. by_list P command.parameters (said fd s p _ _) λ nick more _.
                by_list P more (said fd s p _ _) λ name rest _.
                  by_option P (find_client_by_nickname nick s) (said fd s p _ _) λ target _.
                    by_option P (find_channel name s) (said fd s p _ _)
                      (λ channel _. invite_checked_keeps c target nick name channel s p)
