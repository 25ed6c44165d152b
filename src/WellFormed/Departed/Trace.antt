-- ===== src/WellFormed/Departed/Trace.antt =====
-- What is left of a client that has been removed (removeClient): nothing.
use irc.Base.{
  ℕ, Bool, refl, false, ◌≡◌, ap, subst, ◌∙◌, none, some, is_empty, nat_ord, arith, ==_refl,
}
use irc.Map.{lookup, member}
use irc.Map.Laws.{lookup-erase}
use irc.Text.{Text, text_ord, irc_case_fold}
use irc.Channel.{Channel, has_member, is_invited, remove_invite, remove_member}
use irc.Client.{Client}
use irc.Server.{Server}
use irc.Server.Send.Frames.{quiet, core, lookup-quiet}
use irc.Server.Cleanup.{cleanup_client_irc_state, leave_channel, leave_channels, release_nickname}
use irc.Connection.{remove_descriptor}
use irc.Protocol.Rules.{by_option}
use irc.WellFormed.{IsWellFormed}
use irc.WellFormed.Departed.{
  departed, quiet-remove_descriptor, lookup-leave_channels, lookup-departed,
}

-- What a removed client leaves in a channel: no membership, no invitation of its nickname.
leave_channel_gone :
    (fd : ℕ) (nickname : Text) (channel : Channel)
    → (has_member fd (leave_channel fd nickname channel) ≡ false)
      × (is_empty nickname ≡ false
          → is_invited nickname (leave_channel fd nickname channel) ≡ false)
unfolding leave_channel remove_member remove_invite has_member is_invited member
leave_channel_gone fd nickname channel = (
  ground (arith, lookup-erase fd fd channel.members, ==_refl fd),
  λ filled. ground (
    arith,
    lookup-erase (irc_case_fold nickname) (irc_case_fold nickname) channel.invited_users,
    ==_refl (irc_case_fold nickname),
  ),
)

channels-remove_descriptor :
    (c : Client) (s : Server)
    → lookup c.fd s.clients ≡ some c
    → ((remove_descriptor c.fd s).channels ≡ leave_channels c.fd c.nickname s.channels)
      × ((remove_descriptor c.fd s).nickname_index
          ≡ release_nickname c.fd c.nickname s.nickname_index)
      × (lookup c.fd (remove_descriptor c.fd s).clients ≡ none)
unfolding remove_descriptor cleanup_client_irc_state departed quiet
channels-remove_descriptor c s found =
    let e = quiet-remove_descriptor c s found in
    (
      ap (λ (v : Server). v.channels) e,
      ap (λ (v : Server). v.nickname_index) e,
      rw (found, remove_descriptor) (lookup-erase c.fd c.fd _ ∙ ground (arith, ==_refl c.fd)),
    )

-- Whether the channel under a key has a member, or a nickname among the invited.
unfoldable pub member_at : Text → ℕ → Server → Bool
unfolding has_member
member_at key fd s = elim (lookup key s.channels) [
  | none ↦ false
  | some channel ↦ has_member fd channel
]

unfoldable pub invited_at : Text → Text → Server → Bool
unfolding is_invited
invited_at key nickname s = elim (lookup key s.channels) [
  | none ↦ false
  | some channel ↦ is_invited nickname channel
]

module _ (c : Client) (s : Server) (found : lookup c.fd s.clients ≡ some c)
    (w : IsWellFormed (quiet s)) (filled : is_empty c.nickname ≡ false) where
  channels_no_trace :
      (key : Text) (channel : Channel)
      → lookup key (remove_descriptor c.fd s).channels ≡ some channel
      → (has_member c.fd channel ≡ false) × (is_invited c.nickname channel ≡ false)
  unfolding quiet
  channels_no_trace key channel there =
      let (cs, index, gone) = channels-remove_descriptor c s found in
      let (old, before, same, kept) =
        lookup-leave_channels c.fd c.nickname key s.channels channel w.channels_sorted
          (rw cs at there) in
      let (outside, uninvited) = leave_channel_gone c.fd c.nickname old in
      (
        subst (λ ch. has_member c.fd ch ≡ false) same outside,
        subst (λ ch. is_invited c.nickname ch ≡ false) same (uninvited filled),
      )

  -- A client with a nickname that is removed from a well-formed server is no client any more, its
  -- nickname is free, and no channel has it as a member or its nickname among the invited.
  pub remove_descriptor_no_trace :
      (lookup c.fd (remove_descriptor c.fd s).clients ≡ none)
      × (lookup (irc_case_fold c.nickname) (remove_descriptor c.fd s).nickname_index ≡ none)
      × ((key : Text) → member_at key c.fd (remove_descriptor c.fd s) ≡ false)
      × ((key : Text) → invited_at key c.nickname (remove_descriptor c.fd s) ≡ false)
  unfolding quiet member_at invited_at
  remove_descriptor_no_trace =
      let (cs, index, gone) = channels-remove_descriptor c s found in
      (
        gone,
        rw index (
            unfold departed in
            (lookup-departed (core c) (quiet s) (lookup-quiet c.fd s found) w
                (irc_case_fold c.nickname)
              ∙ ground (arith, filled, ==_refl (irc_case_fold c.nickname)))),
        λ key.
            by_option (λ b. b ≡ false) (lookup key (remove_descriptor c.fd s).channels) (λ _. refl)
              (λ channel there. (channels_no_trace key channel there).0),
        λ key.
            by_option (λ b. b ≡ false) (lookup key (remove_descriptor c.fd s).channels) (λ _. refl)
              (λ channel there. (channels_no_trace key channel there).1),
      )
