-- ===== src/Protocol/Admitting.antt =====
-- An accepted JOIN of a channel that exists (srcs/Command/Join.cpp).
use irc.Base.{true, false, ◌≡◌, ap, ◌∙◌, ◌∷◌, List, none, some, arith, nat_ord, ==_refl}
use irc.Map.{lookup, member}
use irc.Map.Laws.{lookup-modify, lookup-insert, lookup-erase}
use irc.Text.{Text, text_ord, irc_case_fold}
use irc.Channel.{
  Channel, Member, has_member, is_member_operator, is_invited, add_invite, remove_invite,
  add_member,
}
use irc.Client.{Client}
use irc.Command.{Command}
use irc.Server.{Server, find_channel, modify_channel}
use irc.Handler.Registration.{second_or_empty}
use irc.Handler.Join.{
  handle_join, join_channel, join_refusal, admit, welcome_member, is_channel_name,
}
use irc.Protocol.Founded.{welcome_member-channels}

-- JOIN of a channel that does not bar the client.
pub handle_join_admits :
    (c : Client) (command : Command) (s : Server) (name : Text) (rest : List Text)
    (channel : Channel)
    → lookup c.fd s.clients ≡ some c
    → c.registered ≡ true
    → command.parameters ≡ name ∷ rest
    → is_channel_name name ≡ true
    → find_channel name s ≡ some channel
    → has_member c.fd channel ≡ false
    → join_refusal c (second_or_empty rest) channel ≡ none
    → find_channel name (handle_join c.fd command s) ≡ some (admit c channel)
unfolding handle_join join_channel find_channel
handle_join_admits c command s name rest channel found r given begins there outside welcome =
    ap (λ (t : Server). lookup (irc_case_fold name) t.channels) joined
    ∙ ap (lookup (irc_case_fold name)) (welcome_member-channels c (admit c channel) admitted)
    ∙ ground (
      arith,
      lookup-modify (irc_case_fold name) (irc_case_fold name) (admit c) s.channels,
      there,
      ==_refl (irc_case_fold name),
    )
  where
    admitted : Server
    admitted = modify_channel name (admit c) s

    joined : handle_join c.fd command s ≡ welcome_member c (admit c channel) admitted
    joined = ground (arith, found, r, given, begins, there, outside, welcome)

-- The invited client may join, and is then a member without an invitation.
pub invited_lem :
    (nick : Text) (d : Client) (key : Text) (channel : Channel)
    → irc_case_fold d.nickname ≡ irc_case_fold nick
    → channel.has_key ≡ false
    → channel.has_user_limit ≡ false
    → join_refusal d key (add_invite nick channel) ≡ none
unfolding join_refusal add_invite is_invited member
invited_lem nick d key channel same keyless limitless = ground (
  arith,
  same,
  keyless,
  limitless,
  lookup-insert (irc_case_fold nick) (irc_case_fold d.nickname) tt channel.invited_users,
  ==_refl (irc_case_fold nick),
)

pub admit_lem :
    (d : Client) (channel : Channel)
    → has_member d.fd channel ≡ false
    → (has_member d.fd (admit d channel) ≡ true)
      × (is_member_operator d.fd (admit d channel) ≡ false)
      × (is_invited d.nickname (admit d channel) ≡ false)
unfolding admit has_member is_member_operator is_invited remove_invite add_member member
admit_lem d channel outside =
    let plain : Member = record { is_operator = false } in
    let here = lookup-insert d.fd d.fd plain channel.members in
    let key = irc_case_fold d.nickname in
    (
      ground (arith, outside, here, ==_refl d.fd),
      ground (arith, outside, here, ==_refl d.fd),
      ground (arith, outside, lookup-erase key key channel.invited_users, ==_refl key),
    )
