-- ===== src/Protocol/Channels.antt =====
-- TOPIC, KICK and INVITE make the changes of the protocol only.
use irc.Base.{
  get_elem?, refl, ℕ, true, not, ◌&&◌, ◌≡◌, ap, ◌∙◌, [], ◌∷◌, ◌++◌, List, none, some, if◌then◌else◌,
  arith, nat_ord,
}
use irc.Map.{lookup}
use irc.Text.{Text, codes, text_ord}
use irc.Channel.{Channel, has_member, has_topic, is_member_operator, set_topic, add_invite}
use irc.Client.{Client}
use irc.Command.{Command}
use irc.Server.{Server, find_channel, find_client_by_nickname, modify_channel}
use irc.Server.Send.{broadcast_to_channel, send_numeric}
use irc.Server.Send.Frames.{
  quiet, core, quiet-send_numeric, quiet-queue_line, quiet-broadcast_to_channel,
}
use irc.Handler.Topic.{handle_topic, show_topic, change_topic}
use irc.Handler.Kick.{handle_kick, kick_line, kick_target, remove_member_from_channel}
use irc.Handler.Invite.{handle_invite, invite_checked}
use irc.Protocol.{retitle, kick, invite}
use irc.Protocol.Runs.{find_client_by_nickname-quiet, Runs, replied, acted, quiet-IsRegistered}
use irc.Protocol.Rules.{by_if, by_option, by_some, by_list}

module _ (c : Client) (command : Command) (s : Server) (found : lookup c.fd s.clients ≡ some c)
    (named : command.name ≡ codes "TOPIC") where
  abbrev Here : Server → Type 0
  Here = Runs c.fd command s

  show_topic-Acts : (name : Text) (channel : Channel) → Here (show_topic c.fd name channel s)
  unfolding show_topic
  show_topic-Acts name channel =
      by_if Here (has_topic channel) (λ _. replied c.fd command s c.fd _ _)
        (λ _. replied c.fd command s c.fd _ _)

  change_topic-Acts :
      (name topic : Text) (channel : Channel)
      → get_elem? command.parameters 0 ≡ some name
      → get_elem? command.parameters 1 ≡ some topic
      → c.registered ≡ true
      → find_channel name s ≡ some channel
      → has_member c.fd channel ≡ true
      → Here (change_topic c name topic channel s)
  unfolding change_topic find_channel quiet
  change_topic-Acts name topic channel given titled r e m =
      by_if Here (channel.topic_restricted && not (is_member_operator c.fd channel))
        (λ _. replied c.fd command s c.fd _ _)
        λ allowed.
          acted c.fd command s _
            (quiet-broadcast_to_channel _ _ none (modify_channel name (set_topic topic) s))
            (retitle (quiet s) (core c) name topic channel named given titled
              (quiet-IsRegistered c.fd s c found r) e m allowed)

  topic_given-Acts :
      (name : Text) (rest : List Text) (channel : Channel)
      → command.parameters ≡ name ∷ rest
      → c.registered ≡ true
      → find_channel name s ≡ some channel
      → has_member c.fd channel ≡ true
      → Here (elim rest [
        | [] ↦ show_topic c.fd name channel s
        | topic ∷ more ↦ change_topic c name topic channel s
      ])
  topic_given-Acts name rest channel given r e m =
      by_list Here rest (λ _. show_topic-Acts name channel)
        λ topic more t.
          change_topic-Acts name topic channel (rw given refl) (rw (given, t) refl) r e m

  pub handle_topic-Acts : Here (handle_topic c.fd command s)
  unfolding handle_topic
  handle_topic-Acts = by_some Here (lookup c.fd s.clients) _ _ found (
      by_if Here (not c.registered) (λ _. replied c.fd command s c.fd _ _)
        λ r.
          by_list Here command.parameters (λ _. replied c.fd command s c.fd _ _)
            λ name rest given.
              by_option Here (find_channel name s) (λ _. replied c.fd command s c.fd _ _)
                λ channel e.
                  by_if Here (not (has_member c.fd channel)) (λ _. replied c.fd command s c.fd _ _)
                    λ m.
                      topic_given-Acts name rest channel given (ground (arith, r)) e
                        (ground (arith, m)))

quiet-remove_member_from_channel :
    (name : Text) (fd : ℕ) (s : Server)
    → quiet (remove_member_from_channel name fd s) ≡ remove_member_from_channel name fd (quiet s)
unfolding remove_member_from_channel quiet
quiet-remove_member_from_channel name fd s = ground arith

quiet-removed :
    (name : Text) (fd : ℕ) (t s : Server)
    → quiet t ≡ quiet s
    → quiet (remove_member_from_channel name fd t) ≡ remove_member_from_channel name fd (quiet s)
quiet-removed name fd t s e =
    quiet-remove_member_from_channel name fd t ∙ ap (remove_member_from_channel name fd) e

module _ (c : Client) (command : Command) (s : Server)
    (found : lookup c.fd s.clients ≡ some c) where
  abbrev There : Server → Type 0
  There = Runs c.fd command s

  kick_target-Acts :
      (named : command.name ≡ codes "KICK") (name nick : Text) (rest : List Text)
      (channel : Channel)
      → get_elem? command.parameters 0 ≡ some name
      → get_elem? command.parameters 1 ≡ some nick
      → c.registered ≡ true
      → find_channel name s ≡ some channel
      → is_member_operator c.fd channel ≡ true
      → There (kick_target c name nick rest channel s)
  unfolding kick_target find_channel quiet
  kick_target-Acts named name nick rest channel first second r e o =
      by_option There (find_client_by_nickname nick s) (λ _. replied c.fd command s c.fd _ _)
        λ target t.
          by_if There (not (has_member target.fd channel)) (λ _. replied c.fd command s c.fd _ _)
            λ m.
              acted c.fd command s _
                (quiet-removed name target.fd
                  (broadcast_to_channel channel (kick_line c name nick rest) none s) s
                  (quiet-broadcast_to_channel channel (kick_line c name nick rest) none s))
                (kick (quiet s) (core c) name nick channel (core target) named first second
                  (quiet-IsRegistered c.fd s c found r) e o
                  (find_client_by_nickname-quiet nick s target t) (ground (arith, m)))

  kick_named-Acts :
      (named : command.name ≡ codes "KICK") (name nick : Text) (rest : List Text)
      → get_elem? command.parameters 0 ≡ some name
      → get_elem? command.parameters 1 ≡ some nick
      → c.registered ≡ true
      → There (elim (find_channel name s) [
        | none ↦ send_numeric c.fd (codes "403") (name ++ codes " :No such channel") s
        | some channel ↦
            if not (has_member c.fd channel)
            then send_numeric c.fd (codes "442") (name ++ codes " :You're not on that channel") s
            else if not (is_member_operator c.fd channel)
            then send_numeric c.fd (codes "482") (name ++ codes " :You're not channel operator") s
            else kick_target c name nick rest channel s
      ])
  kick_named-Acts named name nick rest first second r =
      by_option There (find_channel name s) (λ _. replied c.fd command s c.fd _ _)
        λ channel e.
          by_if There (not (has_member c.fd channel)) (λ _. replied c.fd command s c.fd _ _)
            λ m.
              by_if There (not (is_member_operator c.fd channel))
                (λ _. replied c.fd command s c.fd _ _)
                λ o.
                  kick_target-Acts named name nick rest channel first second r e (ground (arith, o))

  pub handle_kick-Acts : command.name ≡ codes "KICK" → There (handle_kick c.fd command s)
  unfolding handle_kick
  handle_kick-Acts named = by_some There (lookup c.fd s.clients) _ _ found (
      by_if There (not c.registered) (λ _. replied c.fd command s c.fd _ _)
        λ r.
          by_list There command.parameters (λ _. replied c.fd command s c.fd _ _)
            λ name more a.
              by_list There more (λ _. replied c.fd command s c.fd _ _)
                λ nick rest b.
                  kick_named-Acts named name nick rest (rw a refl) (rw (a, b) refl)
                    (ground (arith, r)))

  invite_checked-Acts :
      (named : command.name ≡ codes "INVITE") (target : Client) (name nick : Text)
      (channel : Channel)
      → get_elem? command.parameters 0 ≡ some nick
      → get_elem? command.parameters 1 ≡ some name
      → c.registered ≡ true
      → find_client_by_nickname nick s ≡ some target
      → find_channel name s ≡ some channel
      → There (invite_checked c target nick name channel s)
  unfolding invite_checked find_channel quiet
  invite_checked-Acts named target name nick channel first second r t e =
      by_if There (not (has_member c.fd channel)) (λ _. replied c.fd command s c.fd _ _)
        λ m.
          by_if There (not (is_member_operator c.fd channel)) (λ _. replied c.fd command s c.fd _ _)
            λ o.
              by_if There (has_member target.fd channel) (λ _. replied c.fd command s c.fd _ _)
                λ new.
                  acted c.fd command s _
                    (quiet-queue_line target.fd _ _
                      ∙ quiet-send_numeric c.fd _ _ (modify_channel name (add_invite nick) s))
                    (invite (quiet s) (core c) (core target) name nick channel named first second
                      (quiet-IsRegistered c.fd s c found r) e (ground (arith, o))
                      (find_client_by_nickname-quiet nick s target t) new)

  pub handle_invite-Acts : command.name ≡ codes "INVITE" → There (handle_invite c.fd command s)
  unfolding handle_invite
  handle_invite-Acts named = by_some There (lookup c.fd s.clients) _ _ found (
      by_if There (not c.registered) (λ _. replied c.fd command s c.fd _ _)
        λ r.
          by_list There command.parameters (λ _. replied c.fd command s c.fd _ _)
            λ nick more a.
              by_list There more (λ _. replied c.fd command s c.fd _ _)
                λ name rest b.
                  by_option There (find_client_by_nickname nick s)
                    (λ _. replied c.fd command s c.fd _ _)
                    λ target t.
                      by_option There (find_channel name s) (λ _. replied c.fd command s c.fd _ _)
                        λ channel e.
                          invite_checked-Acts named target name nick channel (rw a refl)
                            (rw (a, b) refl) (ground (arith, r)) t e)
