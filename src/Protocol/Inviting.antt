-- ===== src/Protocol/Inviting.antt =====
-- An accepted INVITE (srcs/Command/Invite.cpp) and the JOIN (srcs/Command/Join.cpp) behind it.
use irc.Base.{
  ℕ, true, false, ◌≡◌, ap, subst, ◌∙◌, ◌∷◌, List, some, arith, nat_ord, ==_eq, ==_refl,
  Option-cases, inl, inr,
}
use irc.Map.{lookup}
use irc.Map.Laws.{lookup-modify, lookup-map_values}
use irc.Text.{Text, text_ord, irc_case_fold, irc_equals}
use irc.Channel.{Channel, has_member, is_member_operator, is_invited, add_invite}
use irc.Client.{Client}
use irc.Command.{Command}
use irc.Server.{Server, find_channel, find_client_by_nickname, modify_channel}
use irc.Server.Send.Frames.{quiet, core, quiet-queue_line, quiet-send_numeric}
use irc.Handler.Registration.{second_or_empty}
use irc.Handler.Invite.{handle_invite, invite_checked, invite_target}
use irc.Handler.Join.{handle_join, admit, is_channel_name}
use irc.Protocol.Admitting.{handle_join_admits, invited_lem, admit_lem}
use irc.WellFormed.{IsWellFormed}
use irc.WellFormed.Unique.{find_sound}

quiet-invite_target :
    (c target : Client) (nick name : Text) (s : Server)
    → quiet (invite_target c target nick name s) ≡ quiet (modify_channel name (add_invite nick) s)
unfolding invite_target
quiet-invite_target c target nick name s =
    quiet-queue_line target.fd _ _
    ∙ quiet-send_numeric c.fd _ _ (modify_channel name (add_invite nick) s)

-- A client of a server that is the same without its pending output.
found_behind :
    (fd : ℕ) (c : Client) (s t : Server)
    → (quiet t).clients ≡ (quiet s).clients
    → lookup fd s.clients ≡ some c
    → (d : Client) × (lookup fd t.clients ≡ some d) × (core d ≡ core c)
unfolding quiet
found_behind fd c s t same found = elim (Option-cases (lookup fd t.clients)) [
  | inl missing ↦ absurd (
      ground (
        arith,
        missing,
        found,
        ap (lookup fd) same,
        lookup-map_values core fd s.clients,
        lookup-map_values core fd t.clients,
      ))
  | inr (d, there) ↦ (
    d,
    there,
    ground (
      arith,
      there,
      found,
      ap (lookup fd) same,
      lookup-map_values core fd s.clients,
      lookup-map_values core fd t.clients,
    ),
  )
]

invited_server :
    (c target : Client) (invite : Command) (s : Server) (nick name : Text) (more : List Text)
    (channel : Channel)
    → lookup c.fd s.clients ≡ some c
    → c.registered ≡ true
    → invite.parameters ≡ nick ∷ name ∷ more
    → find_client_by_nickname nick s ≡ some target
    → find_channel name s ≡ some channel
    → has_member c.fd channel ≡ true
    → is_member_operator c.fd channel ≡ true
    → has_member target.fd channel ≡ false
    → quiet (handle_invite c.fd invite s) ≡ quiet (modify_channel name (add_invite nick) s)
unfolding handle_invite invite_checked
invited_server c target invite s nick name more channel found r asks known there inside op outside =
    ap quiet sent ∙ quiet-invite_target c target nick name s
  where
    sent : handle_invite c.fd invite s ≡ invite_target c target nick name s
    sent = ground (arith, found, r, asks, known, there, inside, op, outside)

module _ (nick name : Text) (channel : Channel) (s t : Server)
    (loud : quiet t ≡ quiet (modify_channel name (add_invite nick) s)) where
  same_clients : (quiet t).clients ≡ (quiet s).clients
  unfolding quiet
  same_clients = ap (λ (v : Server). v.clients) loud

  listed : find_channel name s ≡ some channel → find_channel name t ≡ some (add_invite nick channel)
  unfolding find_channel quiet
  listed there =
      ap (λ (v : Server). lookup (irc_case_fold name) v.channels) loud
      ∙ ground (
        arith,
        lookup-modify (irc_case_fold name) (irc_case_fold name) (add_invite nick) s.channels,
        there,
        ==_refl (irc_case_fold name),
      )

-- A client with the same descriptor, nickname and registration joins.
joined_as :
    (d target : Client) (join : Command) (t : Server) (nick name : Text) (rest : List Text)
    (channel : Channel)
    → core d ≡ core target
    → lookup target.fd t.clients ≡ some d
    → irc_equals target.nickname nick ≡ true
    → target.registered ≡ true
    → join.parameters ≡ name ∷ rest
    → is_channel_name name ≡ true
    → find_channel name t ≡ some (add_invite nick channel)
    → has_member target.fd channel ≡ false
    → channel.has_key ≡ false
    → channel.has_user_limit ≡ false
    → (after : Channel) × (find_channel name (handle_join target.fd join t) ≡ some after)
      × (has_member target.fd after ≡ true)
      × (is_member_operator target.fd after ≡ false)
      × (is_invited target.nickname after ≡ false)
unfolding add_invite has_member irc_equals
joined_as d target join t nick name rest channel same here folded registered joins begins there
      outside keyless limitless =
    let fd : d.fd ≡ target.fd = ap (λ (e : Client). e.fd) same in
    let nickname : d.nickname ≡ target.nickname = ap (λ (e : Client). e.nickname) same in
    let invited = add_invite nick channel in
    let after = admit d invited in
    let apart : has_member d.fd invited ≡ false = ap (λ f. has_member f channel) fd ∙ outside in
    let facts = admit_lem d invited apart in
    let admitted : find_channel name (handle_join d.fd join t) ≡ some after =
      handle_join_admits d join t name rest invited (ap (λ f. lookup f t.clients) fd ∙ here)
        (ap (λ (e : Client). e.registered) same ∙ registered) joins begins there apart
        (invited_lem nick d (second_or_empty rest) channel
          (ap irc_case_fold nickname
            ∙ ==_eq (irc_case_fold target.nickname) (irc_case_fold nick) folded)
          keyless limitless) in
    (
      after,
      subst (λ f. find_channel name (handle_join f join t) ≡ some after) fd admitted,
      subst (λ f. has_member f after ≡ true) fd facts.0,
      subst (λ f. is_member_operator f after ≡ false) fd facts.1,
      subst (λ n. is_invited n after ≡ false) nickname facts.2,
    )

-- An INVITE by a registered operator of a channel without a key and a user limit, of a registered client
-- found by its nickname that is not in it, and a JOIN of the channel by that client behind it make the
-- client a member that is no operator and has no invitation any more, also when the channel is invite-only.
pub invited_client_joins :
    (c target : Client) (invite join : Command) (s : Server) (nick name : Text)
    (more rest : List Text) (channel : Channel)
    → lookup c.fd s.clients ≡ some c
    → c.registered ≡ true
    → invite.parameters ≡ nick ∷ name ∷ more
    → join.parameters ≡ name ∷ rest
    → is_channel_name name ≡ true
    → find_client_by_nickname nick s ≡ some target
    → target.registered ≡ true
    → find_channel name s ≡ some channel
    → has_member c.fd channel ≡ true
    → is_member_operator c.fd channel ≡ true
    → has_member target.fd channel ≡ false
    → channel.has_key ≡ false
    → channel.has_user_limit ≡ false
    → IsWellFormed (quiet s)
    → (after : Channel) × (find_channel name
          (handle_join target.fd join (handle_invite c.fd invite s))
        ≡ some after)
      × (has_member target.fd after ≡ true)
      × (is_member_operator target.fd after ≡ false)
      × (is_invited target.nickname after ≡ false)
invited_client_joins c target invite join s nick name more rest channel found r asks joins begins
      known registered there inside op outside keyless limitless w =
    let (at_target, named, folded) = find_sound s nick target w known in
    let loud =
      invited_server c target invite s nick name more channel found r asks known there inside op
        outside in
    let invited = handle_invite c.fd invite s in
    let (d, here, same) =
      found_behind target.fd target s invited (same_clients nick name channel s invited loud)
        at_target in
    joined_as d target join invited nick name rest channel same here folded registered joins begins
      (listed nick name channel s invited loud there) outside keyless limitless
