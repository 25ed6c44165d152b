-- ===== src/WellFormed/Channels.antt =====
-- Writes of one channel.
pub mod Removed
use irc.Base.{
  ℕ, Bool, true, false, ◌≡◌, refl, sym, ap, subst, ◌∙◌, [], ◌∷◌, some, inl, inr, is_empty, nat_ord,
  arith, ◌==◌, ==_eq, ==_refl, Bool-cases,
}
use irc.Map.{Map, lookup, member, modify, insert, erase}
use irc.Map.Laws.{lookup-modify, lookup-modify_cases, lookup-insert, lookup-erase}
use irc.Map.Sorted.{Sorted, modify-Sorted, insert-Sorted, erase-Sorted}
use irc.Text.{Text, text_ord, irc_case_fold}
use irc.Channel.{
  Channel, Member, has_member, is_member_operator, is_invited, add_invite, remove_invite,
  add_member, new_channel, remove_member, is_empty_channel, set_topic, set_invite_only,
  set_topic_restricted, set_key, remove_key, set_user_limit, remove_user_limit, set_member_operator,
}
use irc.Client.{Client}
use irc.Server.{Server, modify_channel, find_channel}
use irc.Handler.Join.{admit}
use irc.Handler.Kick.{remove_member_from_channel}
use irc.Protocol.Writing.{
  ModeWrite, write_of, invite_only, topic_restricted, key, no_key, no_limit, limit, operator,
}
use irc.WellFormed.{nickname_of, registered_at, IsChannel, IsWellFormed}

-- Other channels, each fit for the server as it is.
pub with_channels-IsWellFormed :
    (channels : Map Text Channel) (v : Server)
    → ((k : Text) (channel : Channel) → lookup k channels ≡ some channel → IsChannel v k channel)
    → Sorted channels
    → IsWellFormed v
    → IsWellFormed (record v { channels = channels })
unfolding registered_at nickname_of
with_channels-IsWellFormed channels v fit sorted w = record {
  clients = w.clients;
  clients_sorted = w.clients_sorted;
  index_sorted = w.index_sorted;
  channels_sorted = sorted;
  nicknames = record { sound = w.nicknames.sound; complete = w.nicknames.complete };
  channels = λ k channel e.
      let ok = fit k channel e in
      record {
        named = ok.named;
        inhabited = ok.inhabited;
        ordered = ok.ordered;
        members = ok.members;
        invites = ok.invites;
      };
}

-- A write that every channel of the server stands.
pub modify_channel-IsWellFormed :
    (name : Text) (f : Channel → Channel) (v : Server)
    → ((k : Text) (channel : Channel) → IsChannel v k channel → IsChannel v k (f channel))
    → IsWellFormed v
    → IsWellFormed (modify_channel name f v)
modify_channel-IsWellFormed name f v keeps w =
    with_channels-IsWellFormed _ v fit
      (modify-Sorted (irc_case_fold name) f v.channels w.channels_sorted) w
  where
    fit :
        (k : Text) (channel : Channel)
        → lookup k (modify (irc_case_fold name) f v.channels) ≡ some channel
        → IsChannel v k channel
    fit k channel e = elim (lookup-modify_cases (irc_case_fold name) k f v.channels channel e) [
      | inr old ↦ w.channels k channel old
      | inl (before, old, same, written) ↦
          subst (IsChannel v k) written (keeps k before (w.channels k before old))
    ]

-- A write that leaves the name, the members and the invitations alone.
same_people :
    (v : Server) (k : Text) (before after : Channel)
    → after.name ≡ before.name
    → after.members ≡ before.members
    → after.invited_users ≡ before.invited_users
    → IsChannel v k before
    → IsChannel v k after
unfolding has_member
same_people v k before after n m i ok = record {
  named = ap irc_case_fold n ∙ ok.named;
  inhabited = ap is_empty m ∙ ok.inhabited;
  ordered = subst Sorted (sym m) ok.ordered;
  members = λ fd h. ok.members fd (ap (member fd) (sym m) ∙ h);
  invites = λ name h. ok.invites name (ap (member name) (sym i) ∙ h);
}

-- The members are the old ones and registered clients, not fewer.
more_members :
    (v : Server) (k : Text) (before after : Channel)
    → after.name ≡ before.name
    → is_empty after.members ≡ false
    → Sorted after.members
    → ((fd : ℕ)
        → has_member fd after ≡ true
        → has_member fd before ≡ false
        → registered_at fd v ≡ true)
    → ((name : Text) → member name after.invited_users ≡ true → member name v.nickname_index ≡ true)
    → IsChannel v k before
    → IsChannel v k after
more_members v k before after n m sorted new i ok = record {
  named = ap irc_case_fold n ∙ ok.named;
  inhabited = m;
  ordered = sorted;
  members = λ fd h. elim (Bool-cases (has_member fd before)) [
    | inl old ↦ ok.members fd old
    | inr fresh ↦ new fd h fresh
  ];
  invites = i;
}

pub insert-nonempty : (fd : ℕ) (m : Member) (ms : Map ℕ Member) → is_empty (insert fd m ms) ≡ false
unfolding insert
insert-nonempty fd m [] = refl
insert-nonempty fd m ((g, n) ∷ ms) = ground arith

modify-nonempty :
    (fd : ℕ) (f : Member → Member) (ms : Map ℕ Member) → is_empty (modify fd f ms) ≡ is_empty ms
unfolding modify
modify-nonempty fd f [] = refl
modify-nonempty fd f ((g, n) ∷ ms) = ground arith

module _ (v : Server) (k : Text) (channel : Channel) (ok : IsChannel v k channel) where
  pub set_topic-IsChannel : (topic : Text) → IsChannel v k (set_topic topic channel)
  unfolding set_topic
  set_topic-IsChannel topic = same_people v k channel (set_topic topic channel) refl refl refl ok

  write_operator-IsChannel :
      (fd : ℕ) (enabled : Bool) → IsChannel v k (set_member_operator fd enabled channel).0
  unfolding set_member_operator has_member member
  write_operator-IsChannel fd enabled =
      more_members v k channel (set_member_operator fd enabled channel).0 (ground arith)
        (ground (
          arith,
          modify-nonempty fd (irc.Channel.set_operator enabled) channel.members,
          ok.inhabited,
        ))
        (ground
          (arith, modify-Sorted fd (irc.Channel.set_operator enabled) channel.members, ok.ordered))
        (λ g h fresh.
          absurd
            (ground (arith, lookup-modify fd g (irc.Channel.set_operator enabled) channel.members)))
        (λ name h. ok.invites name (ground arith)) ok

  pub write_of-IsChannel : (write : ModeWrite) → IsChannel v k (write_of write channel)
  unfolding set_invite_only set_topic_restricted set_key remove_key set_user_limit remove_user_limit
  write_of-IsChannel (invite_only enabled) = same_people v k channel _ refl refl refl ok
  write_of-IsChannel (topic_restricted enabled) = same_people v k channel _ refl refl refl ok
  write_of-IsChannel (key text) = same_people v k channel _ refl refl refl ok
  write_of-IsChannel no_key = same_people v k channel _ refl refl refl ok
  write_of-IsChannel no_limit = same_people v k channel _ refl refl refl ok
  write_of-IsChannel (limit count) = same_people v k channel _ refl refl refl ok
  write_of-IsChannel (operator fd enabled) = write_operator-IsChannel fd enabled

  pub add_invite-IsChannel :
      (nickname : Text)
      → member (irc_case_fold nickname) v.nickname_index ≡ true
      → IsChannel v k (add_invite nickname channel)
  unfolding add_invite has_member member
  add_invite-IsChannel nickname taken =
      more_members v k channel (add_invite nickname channel) refl ok.inhabited ok.ordered
        (λ g h fresh. absurd (ground arith))
        (λ name h. ground (
          arith,
          lookup-insert (irc_case_fold nickname) name tt channel.invited_users,
          ok.invites name,
          ==_eq (irc_case_fold nickname) name,
        ))
        ok

  pub admit-IsChannel : (c : Client) → registered_at c.fd v ≡ true → IsChannel v k (admit c channel)
  unfolding admit has_member member
  admit-IsChannel c r =
      more_members v k channel (admit c channel) (ground arith)
        (ground (
          arith,
          ok.inhabited,
          insert-nonempty c.fd (record { is_operator = false }) channel.members,
        ))
        (ground
          (arith, ok.ordered, insert-Sorted c.fd (record { is_operator = false }) channel.members))
        (λ g h fresh. ground (
          arith,
          ==_eq c.fd g,
          lookup-insert c.fd g (record { is_operator = false }) channel.members,
        ))
        (λ name h.
          ok.invites name
            (ground (arith, lookup-erase (irc_case_fold c.nickname) name channel.invited_users)))
        ok
