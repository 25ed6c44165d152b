-- ===== src/Protocol/Topics.antt =====
-- What TOPIC with a topic does (srcs/Command/Topic.cpp).
use irc.Base.{
  ℕ, Bool, true, false, not, ◌&&◌, ◌≡◌, ap, ◌∙◌, ◌∷◌, ◌++◌, List, none, some, arith, nat_ord,
  if◌then◌else◌, Bool-cases, inl, inr,
}
use irc.Map.{lookup}
use irc.Text.{Text, codes, text_ord}
use irc.Channel.{Channel, has_member, is_member_operator, set_topic}
use irc.Client.{Client, prefix}
use irc.Command.{Command}
use irc.Server.{Server, find_channel, modify_channel}
use irc.Server.Send.{send_numeric}
use irc.Server.Send.Frames.{quiet, quiet-send_numeric, quiet-broadcast_to_channel}
use irc.Handler.Topic.{handle_topic, change_topic}
use irc.Protocol.Rules.{both_option}

-- Whether a client may set the topic of a channel: a member, and an operator where that is asked for.
unfoldable pub may_retitle : ℕ → Text → Server → Bool
unfolding find_channel
may_retitle fd name s = elim (find_channel name s) [
  | none ↦ false
  | some channel ↦
      has_member fd channel && not (channel.topic_restricted && not (is_member_operator fd channel))
]

module _ (c : Client) (name topic : Text) (s : Server) where
  Retitled : Bool → Server → Type 0
  Retitled may t =
      quiet t ≡ (if may then quiet (modify_channel name (set_topic topic) s) else quiet s)

  change_topic-Retitled :
      (channel : Channel)
      → Retitled
          (not (channel.topic_restricted && not (is_member_operator c.fd channel)))
          (change_topic c name topic channel s)
  unfolding change_topic Retitled
  change_topic-Retitled channel =
      elim (Bool-cases (channel.topic_restricted && not (is_member_operator c.fd channel))) [
        | inl barred ↦ ground (
          arith,
          barred,
          quiet-send_numeric c.fd (codes "482") (name ++ codes " :You're not channel operator") s,
        )
        | inr free ↦ ground (
          arith,
          free,
          quiet-broadcast_to_channel (set_topic topic channel)
              (codes ":" ++ prefix c ++ codes " TOPIC " ++ name ++ codes " :" ++ topic) none
              (modify_channel name (set_topic topic) s),
        )
      ]

-- TOPIC with a topic, by a registered client, sets the topic of the channel under the name when the client
-- is a member of it, and an operator if the channel restricts its topic, and changes nothing but pending
-- output else.
pub handle_topic_retitles :
    (c : Client) (command : Command) (s : Server) (name topic : Text) (more : List Text)
    → lookup c.fd s.clients ≡ some c
    → c.registered ≡ true
    → command.parameters ≡ name ∷ topic ∷ more
    → quiet (handle_topic c.fd command s) ≡ (
        if may_retitle c.fd name s
        then quiet (modify_channel name (set_topic topic) s)
        else quiet s)
unfolding handle_topic may_retitle Retitled
handle_topic_retitles c command s name topic more found r given =
    ap quiet sent
    ∙ both_option (Retitled c name topic s) (find_channel name s)
        (λ _. quiet-send_numeric c.fd _ _ s)
        λ channel _. elim (Bool-cases (has_member c.fd channel)) [
          | inl inside ↦ ground (arith, inside, change_topic-Retitled c name topic s channel)
          | inr outside ↦ ground (
            arith,
            outside,
            quiet-send_numeric c.fd (codes "442") (name ++ codes " :You're not on that channel") s,
          )
        ]
  where
    sent : handle_topic c.fd command s ≡ (elim (find_channel name s) [
      | none ↦ send_numeric c.fd (codes "403") (name ++ codes " :No such channel") s
      | some channel ↦
          if not (has_member c.fd channel)
          then send_numeric c.fd (codes "442") (name ++ codes " :You're not on that channel") s
          else change_topic c name topic channel s
    ])
    sent = ground (arith, found, r, given)
