-- ===== src/WellFormed/Channels/Removed.antt =====
-- A channel that is made (JOIN) or loses a member (KICK) keeps the server well formed.
use irc.Base.{
  ℕ, true, false, ◌≡◌, refl, sym, ap, subst, ◌∙◌, some, inl, inr, nat_ord, arith, ◌==◌, ==_eq,
  ==_refl, Bool-cases,
}
use irc.Map.{Map, lookup, member, modify, insert, erase}
use irc.Map.Laws.{lookup-modify_cases, lookup-insert, lookup-erase}
use irc.Map.Sorted.{Sorted, modify-Sorted, insert-Sorted, erase-Sorted}
use irc.Text.{Text, text_ord, irc_case_fold}
use irc.Channel.{Channel, has_member, add_member, new_channel, remove_member, is_empty_channel}
use irc.Server.{Server, find_channel}
use irc.Handler.Kick.{remove_member_from_channel}
use irc.WellFormed.{registered_at, IsChannel, IsWellFormed}
use irc.WellFormed.Channels.{with_channels-IsWellFormed, more_members}

module _ (fd : ℕ) (name : Text) (v : Server) where
  abbrev created : Channel
  created = (add_member fd true (new_channel name)).0

  created-IsChannel : registered_at fd v ≡ true → IsChannel v (irc_case_fold name) created
  unfolding add_member new_channel has_member member insert lookup
  created-IsChannel r = record {
    named = refl;
    inhabited = refl;
    ordered = (tt, tt);
    members = λ g h. ground (arith, ==_eq fd g);
    invites = λ n h. absurd (ground arith);
  }

  pub create-IsWellFormed :
      registered_at fd v ≡ true
      → IsWellFormed v
      → IsWellFormed (record v {
        channels = insert (irc_case_fold name) (add_member fd true (new_channel name)).0 v.channels;
      })
  create-IsWellFormed r w =
      with_channels-IsWellFormed _ v fit
        (insert-Sorted (irc_case_fold name) created v.channels w.channels_sorted) w
    where
      fit :
          (k : Text) (channel : Channel)
          → lookup k
              (insert (irc_case_fold name) (add_member fd true (new_channel name)).0 v.channels)
            ≡ some channel
          → IsChannel v k channel
      fit k channel e = elim (Bool-cases (irc_case_fold name == k)) [
        | inl same ↦
            subst (λ j. IsChannel v j channel) (==_eq (irc_case_fold name) k same)
              (subst (IsChannel v (irc_case_fold name)) {x = created}
                (ground (
                  arith,
                  lookup-insert (irc_case_fold name) k (add_member fd true (new_channel name)).0
                      v.channels,
                ))
                (created-IsChannel r))
        | inr other ↦ w.channels k channel (
            ground (
              arith,
              lookup-insert (irc_case_fold name) k (add_member fd true (new_channel name)).0
                  v.channels,
            ))
      ]

module _ (v : Server) (w : IsWellFormed v) (name : Text) (fd : ℕ) (channel : Channel)
    (found : find_channel name v ≡ some channel) where
  abbrev key_of : Text
  key_of = irc_case_fold name

  abbrev left : Map Text Channel
  left = modify key_of (remove_member fd) v.channels

  remove_member-IsChannel :
      (k : Text) (before : Channel)
      → is_empty_channel (remove_member fd before) ≡ false
      → IsChannel v k before
      → IsChannel v k (remove_member fd before)
  unfolding remove_member is_empty_channel has_member member
  remove_member-IsChannel k before m ok =
      more_members v k before (remove_member fd before) refl m
        (erase-Sorted fd before.members ok.ordered)
        (λ g h fresh. absurd (ground (arith, lookup-erase fd g before.members))) ok.invites ok

  left-fits :
      (k : Text) (after : Channel)
      → (k ≡ key_of → is_empty_channel (remove_member fd channel) ≡ false)
      → lookup k left ≡ some after
      → IsChannel v k after
  unfolding find_channel
  left-fits k after m e =
      elim (lookup-modify_cases key_of k (remove_member fd) v.channels after e) [
        | inr old ↦ w.channels k after old
        | inl (before, old, same, written) ↦
            let it : before ≡ channel = ground (arith, ap (λ j. lookup j v.channels) same) in
            subst (IsChannel v k) written (
              remove_member-IsChannel k before
                (ap (λ b. is_empty_channel (remove_member fd b)) it ∙ m (sym same))
                (w.channels k before old))
      ]

  left-Sorted : Sorted left
  left-Sorted = modify-Sorted key_of (remove_member fd) v.channels w.channels_sorted

  emptied-fits :
      (k : Text) (after : Channel)
      → lookup k (erase (irc_case_fold channel.name) left) ≡ some after
      → IsChannel v k after
  unfolding find_channel
  emptied-fits k after e =
      let key_named = (w.channels key_of channel found).named in
      left-fits k after
        (λ here.
          absurd (ground (arith, lookup-erase (irc_case_fold channel.name) k left, ==_refl k)))
        (ground (arith, lookup-erase (irc_case_fold channel.name) k left))

  pub remove_member_from_channel-IsWellFormed : IsWellFormed (remove_member_from_channel name fd v)
  unfolding remove_member_from_channel
  remove_member_from_channel-IsWellFormed =
      elim (Bool-cases (is_empty_channel (remove_member fd channel))) [
        | inl empty ↦
            rw (found, empty, remove_member_from_channel)
              (with_channels-IsWellFormed _ v emptied-fits
                (erase-Sorted (irc_case_fold channel.name) left left-Sorted) w)
        | inr filled ↦
            rw (found, filled, remove_member_from_channel)
              (with_channels-IsWellFormed left v (λ k after. left-fits k after (λ _. filled))
                left-Sorted w)
      ]
