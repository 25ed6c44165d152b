-- ===== src/Protocol/Joining.antt =====
-- PRIVMSG and JOIN make the changes of the protocol only.
use irc.Base.{
  [], ◌⊎◌, inl, inr, Bool-cases, ◌==◌, ==_eq, ap, get_elem?, ◌∷◌, List, refl, false, true, not, ◌≡◌,
  ◌∙◌, none, some, arith, nat_ord,
}
use irc.Map.{lookup}
use irc.Text.{Text, codes, text_ord}
use irc.Channel.{Channel, has_member, has_topic, member_count}
use irc.Client.{Client}
use irc.Command.{Command}
use irc.Server.{Server, find_channel, find_client_by_nickname}
use irc.Server.Send.Frames.{
  quiet, core, quiet-send_numeric, quiet-queue_line, quiet-broadcast_to_channel,
  quiet-send_channel_names,
}
use irc.Protocol.{done, create, join, is_barred}
use irc.Protocol.Runs.{Runs, silent, replied, acted, quiet-IsRegistered}
use irc.Protocol.Rules.{by_if, by_option, by_some, by_list}
use irc.Handler.Privmsg.{handle_privmsg, message_channel, message_user, starts_like_channel}
use irc.Handler.Join.{
  handle_join, welcome_member, create_channel, join_channel, join_refusal, admit, is_channel_name,
}
use irc.Handler.Registration.{second_or_empty}

pub quiet-welcome_member :
    (c : Client) (channel : Channel) (s : Server) → quiet (welcome_member c channel s) ≡ quiet s
unfolding welcome_member
quiet-welcome_member c channel s =
    quiet-send_channel_names c.fd channel _
    ∙ by_if (λ t. quiet t ≡ quiet s) (has_topic channel)
        (λ _. quiet-send_numeric c.fd _ _ _ ∙ quiet-broadcast_to_channel channel _ none s)
        (λ _. quiet-send_numeric c.fd _ _ _ ∙ quiet-broadcast_to_channel channel _ none s)

is_channel_name_lem :
    (name : Text)
    → is_channel_name name ≡ true
    → (get_elem? name 0 ≡ some b'#') ⊎ (get_elem? name 0 ≡ some b'&')
unfolding is_channel_name
is_channel_name_lem [] h = absurd (ground (arith, h))
is_channel_name_lem (c ∷ rest) h = elim (Bool-cases (c == b'#')) [
  | inl hash ↦ inl (ap (λ d. some d) (==_eq c b'#' hash))
  | inr other ↦ inr (ap (λ d. some d) (==_eq c b'&' (ground (arith, h, other))))
]

unbarred_lem :
    (c : Client) (supplied : Text) (channel : Channel)
    → join_refusal c supplied channel ≡ none
    → is_barred c supplied channel ≡ false
unfolding is_barred join_refusal member_count
unbarred_lem c supplied channel e = ground (arith, e)

module _ (c : Client) (command : Command) (s : Server)
    (found : lookup c.fd s.clients ≡ some c) where
  abbrev Here : Server → Type 0
  Here = Runs c.fd command s

  message_channel-Acts : (target text : Text) → Here (message_channel c target text s)
  unfolding message_channel
  message_channel-Acts target text =
      by_option Here (find_channel target s) (λ _. replied c.fd command s c.fd _ _)
        λ channel e.
          by_if Here (not (has_member c.fd channel)) (λ _. replied c.fd command s c.fd _ _)
            λ m. silent c.fd command s _ (quiet-broadcast_to_channel channel _ _ s)

  message_user-Acts : (nickname text : Text) → Here (message_user c nickname text s)
  unfolding message_user
  message_user-Acts nickname text =
      by_option Here (find_client_by_nickname nickname s) (λ _. replied c.fd command s c.fd _ _)
        λ target e. silent c.fd command s _ (quiet-queue_line target.fd _ s)

  pub handle_privmsg-Acts : Here (handle_privmsg c.fd command s)
  unfolding handle_privmsg
  handle_privmsg-Acts = by_some Here (lookup c.fd s.clients) _ _ found (
      by_if Here (not c.registered) (λ _. replied c.fd command s c.fd _ _)
        λ r.
          by_list Here command.parameters (λ _. replied c.fd command s c.fd _ _)
            λ target more _.
              by_list Here more (λ _. replied c.fd command s c.fd _ _)
                λ text rest _.
                  by_if Here (starts_like_channel target) (λ _. message_channel-Acts target text)
                    (λ _. message_user-Acts target text))

  create_channel-Acts :
      (named : command.name ≡ codes "JOIN") (name : Text)
      → get_elem? command.parameters 0 ≡ some name
      → c.registered ≡ true
      → is_channel_name name ≡ true
      → find_channel name s ≡ none
      → Here (create_channel c name s)
  unfolding create_channel find_channel quiet
  create_channel-Acts named name given r n e = acted c.fd command s _ (quiet-welcome_member c _ _) (
      create (quiet s) (core c) name named given (quiet-IsRegistered c.fd s c found r)
        (is_channel_name_lem name n) e)

  join_channel-Acts :
      (named : command.name ≡ codes "JOIN") (name : Text) (rest : List Text) (channel : Channel)
      → command.parameters ≡ name ∷ rest
      → c.registered ≡ true
      → find_channel name s ≡ some channel
      → Here (join_channel c name (second_or_empty rest) channel s)
  unfolding join_channel find_channel quiet is_barred
  join_channel-Acts named name rest channel given r e =
      by_if Here (has_member c.fd channel) (λ _. done)
        λ m.
          by_option Here (join_refusal c (second_or_empty rest) channel)
            (λ open_to. acted c.fd command s _ (quiet-welcome_member c (admit c channel) _) (
              join (quiet s) (core c) name rest channel named given
                (quiet-IsRegistered c.fd s c found r) e m
                (unbarred_lem c (second_or_empty rest) channel open_to)))
            λ refusal _. replied c.fd command s c.fd _ _

  pub handle_join-Acts : command.name ≡ codes "JOIN" → Here (handle_join c.fd command s)
  unfolding handle_join
  handle_join-Acts named = by_some Here (lookup c.fd s.clients) _ _ found (
      by_if Here (not c.registered) (λ _. replied c.fd command s c.fd _ _)
        λ r.
          by_list Here command.parameters (λ _. replied c.fd command s c.fd _ _)
            λ name rest given.
              by_if Here (not (is_channel_name name)) (λ _. replied c.fd command s c.fd _ _)
                λ n.
                  by_option Here (find_channel name s)
                    (λ e.
                      create_channel-Acts named name (rw given refl) (ground (arith, r))
                        (ground (arith, n)) e)
                    λ channel e.
                      join_channel-Acts named name rest channel given (ground (arith, r)) e)
