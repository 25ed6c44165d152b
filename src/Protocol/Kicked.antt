-- ===== src/Protocol/Kicked.antt =====
-- What an accepted KICK does (srcs/Command/Kick.cpp).
use irc.Base.{
  ℕ, Option-cases, inl, inr, true, false, ◌≡◌, ◌∷◌, List, none, some, nat_ord, arith, subst,
  ==_refl,
}
use irc.Map.{lookup, member, modify}
use irc.Map.Laws.{lookup-modify, lookup-erase}
use irc.Text.{Text, irc_case_fold, text_ord}
use irc.Channel.{Channel, has_member, is_member_operator, remove_member}
use irc.Client.{Client}
use irc.Command.{Command}
use irc.Server.{Server, find_channel, find_client_by_nickname}
use irc.Server.Send.{broadcast_to_channel}
use irc.Handler.Kick.{handle_kick, kick_target, kick_line, remove_member_from_channel}

has_member-remove_member :
    (fd : ℕ) (channel : Channel) → has_member fd (remove_member fd channel) ≡ false
unfolding has_member remove_member member
has_member-remove_member fd channel = ground (arith, lookup-erase fd fd channel.members, ==_refl fd)

-- A channel found behind the removal of a member under the name does not have the member.
removed_is_gone :
    (name : Text) (fd : ℕ) (s : Server) (left : Channel)
    → find_channel name (remove_member_from_channel name fd s) ≡ some left
    → has_member fd left ≡ false
unfolding remove_member_from_channel find_channel
removed_is_gone name fd s left e = elim (Option-cases (lookup (irc_case_fold name) s.channels)) [
  | inl missing ↦ absurd (ground (arith, missing, e))
  | inr (channel, there) ↦
      let behind = modify (irc_case_fold name) (remove_member fd) s.channels in
      ground (
        arith,
        there,
        e,
        lookup-modify (irc_case_fold name) (irc_case_fold name) (remove_member fd) s.channels,
        lookup-erase (irc_case_fold channel.name) (irc_case_fold name) behind,
        ==_refl (irc_case_fold name),
        has_member-remove_member fd channel,
      )
]

-- KICK by a registered operator of a channel, of a client found by its nickname that is a member of it,
-- leaves no channel under the name that has the client as a member.
pub handle_kick_removes :
    (c target : Client) (command : Command) (s : Server) (name nick : Text) (rest : List Text)
    (channel left : Channel)
    → lookup c.fd s.clients ≡ some c
    → c.registered ≡ true
    → command.parameters ≡ name ∷ nick ∷ rest
    → find_channel name s ≡ some channel
    → has_member c.fd channel ≡ true
    → is_member_operator c.fd channel ≡ true
    → find_client_by_nickname nick s ≡ some target
    → has_member target.fd channel ≡ true
    → find_channel name (handle_kick c.fd command s) ≡ some left
    → has_member target.fd left ≡ false
unfolding handle_kick kick_target
handle_kick_removes c target command s name nick rest channel left found r given there inside op
      known member_of after =
    removed_is_gone name target.fd
      (broadcast_to_channel channel (kick_line c name nick rest) none s) left
      (subst (λ t. find_channel name t ≡ some left) kicked after)
  where
    kicked :
        handle_kick c.fd command s
        ≡ remove_member_from_channel name target.fd
            (broadcast_to_channel channel (kick_line c name nick rest) none s)
    kicked = ground (arith, found, r, given, there, inside, op, known, member_of)
