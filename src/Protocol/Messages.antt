-- ===== src/Protocol/Messages.antt =====
-- Who receives a PRIVMSG (srcs/Command/Privmsg.cpp).
use irc.Base.{
  ℕ, true, false, ◌&&◌, ◌≡◌, refl, ap, ◌∙◌, ◌∷◌, ◌++◌, List, Option, none, some, arith, nat_ord,
  ◌==◌, ==_eq, if◌then◌else◌, Bool-cases, inl, inr,
}
use mathlib.Core.Option
use irc.Map.{lookup}
use irc.Map.Sorted.{Sorted}
use irc.Text.{Text, codes, text_ord, irc_case_fold}
use irc.Channel.{Channel, has_member}
use irc.Client.{Client}
use irc.Command.{Command}
use irc.Server.{Server, find_channel, find_client_by_nickname, find_client}
use irc.Server.Send.{send_numeric, numeric_line, crlf}
use irc.Server.Send.Frames.{quiet}
use irc.Server.Send.Delivery.{delivered, lookup-queue_line, lookup-broadcast_to_channel}
use irc.WellFormed.{IsWellFormed}
use irc.Protocol.Rules.{by_option, both_if, both_option}
use irc.Handler.Privmsg.{
  handle_privmsg, message_channel, message_user, message_line, starts_like_channel,
}

-- What a client with a descriptor becomes by a message of another client: a message to a channel is for
-- its members when the sender is one of them, any other is for the client with the nickname.
unfoldable pub heard_in_channel : Client → Text → Text → ℕ → Server → Option Client
unfolding find_channel
heard_in_channel c target text fd s = elim (find_channel target s) [
  | none ↦ lookup fd s.clients
  | some channel ↦
      if has_member c.fd channel && has_member fd channel
      then Option.map (delivered (message_line c target text ++ crlf)) (lookup fd s.clients)
      else lookup fd s.clients
]

unfoldable pub heard_by_name : Client → Text → Text → ℕ → Server → Option Client
unfolding find_client_by_nickname
heard_by_name c nickname text fd s = elim (find_client_by_nickname nickname s) [
  | none ↦ lookup fd s.clients
  | some target ↦
      if target.fd == fd
      then Option.map (delivered (message_line c target.nickname text ++ crlf))
          (lookup fd s.clients)
      else lookup fd s.clients
]

lookup-send_numeric_other :
    (fd g : ℕ) (numeric arguments : Text) (s : Server)
    → (g == fd) ≡ false
    → lookup g (send_numeric fd numeric arguments s).clients ≡ lookup g s.clients
unfolding send_numeric
lookup-send_numeric_other fd g numeric arguments s other =
    by_option (λ (t : Server). lookup g t.clients ≡ lookup g s.clients) (find_client fd s)
      (λ _. refl)
      λ c _.
        ground
          (arith, lookup-queue_line fd g (numeric_line c numeric arguments) s, ==_eq fd g, other)

module _ (c : Client) (s : Server) (g : ℕ) (other : (g == c.fd) ≡ false) where
  -- The client of the descriptor behind a handler.
  Becomes : Option Client → Server → Type 0
  Becomes o t = lookup g t.clients ≡ o

  message_channel-heard :
      (target text : Text)
      → IsWellFormed (quiet s)
      → Becomes (heard_in_channel c target text g s) (message_channel c target text s)
  unfolding message_channel heard_in_channel Becomes
  message_channel-heard target text w =
      both_option Becomes (find_channel target s)
        (λ _. lookup-send_numeric_other c.fd g _ _ s other)
        λ channel there. elim (Bool-cases (has_member c.fd channel)) [
          | inl inside ↦ ground (
            arith,
            inside,
            other,
            lookup-broadcast_to_channel channel (message_line c target text) (some c.fd) s g
                (ordered channel there),
          )
          | inr outside ↦ ground (
            arith,
            outside,
            lookup-send_numeric_other c.fd g (codes "404")
                (target ++ codes " :Cannot send to channel") s other,
          )
        ]
    where
      ordered : (channel : Channel) → find_channel target s ≡ some channel → Sorted channel.members
      ordered channel there =
          (w.channels (irc_case_fold target) channel (unfold quiet find_channel in there)).ordered

  message_user-heard :
      (nickname text : Text)
      → Becomes (heard_by_name c nickname text g s) (message_user c nickname text s)
  unfolding message_user heard_by_name Becomes
  message_user-heard nickname text =
      both_option Becomes (find_client_by_nickname nickname s)
        (λ _. lookup-send_numeric_other c.fd g _ _ s other)
        (λ target _. lookup-queue_line target.fd g (message_line c target.nickname text) s)

-- PRIVMSG by a registered client of a well-formed server, with a target and a text, changes another client
-- exactly when it is to hear the message: it gets the line once, or is to be disconnected when its output
-- would exceed 8 MiB, or is left as it is when its disconnection is requested already.
pub handle_privmsg_heard :
    (c : Client) (command : Command) (s : Server) (target text : Text) (rest : List Text) (g : ℕ)
    → lookup c.fd s.clients ≡ some c
    → c.registered ≡ true
    → command.parameters ≡ target ∷ text ∷ rest
    → (g == c.fd) ≡ false
    → IsWellFormed (quiet s)
    → lookup g (handle_privmsg c.fd command s).clients ≡ (
        if starts_like_channel target
        then heard_in_channel c target text g s
        else heard_by_name c target text g s)
unfolding handle_privmsg Becomes
handle_privmsg_heard c command s target text rest g found r given other w =
    ap (λ (t : Server). lookup g t.clients) sent
    ∙ both_if (λ o t. Becomes c s g other o t) (starts_like_channel target)
        (λ _. message_channel-heard c s g other target text w)
        (λ _. message_user-heard c s g other target text)
  where
    sent : handle_privmsg c.fd command s ≡ (
        if starts_like_channel target
        then message_channel c target text s
        else message_user c target text s)
    sent = ground (arith, found, r, given)
