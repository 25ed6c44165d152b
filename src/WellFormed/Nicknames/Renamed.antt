-- ===== src/WellFormed/Nicknames/Renamed.antt =====
-- A server whose client has taken another nickname (NICK) is well formed.
use irc.Base.{
  ℕ, true, false, not, ◌≡◌, sym, ap, subst, ◌∙◌, some, inl, inr, is_empty, nat_ord, arith, ==_eq,
  ==_refl, if◌then◌else◌, Option-cases,
}
use irc.Map.{lookup, member, erase}
use irc.Map.Laws.{
  lookup-modify, lookup-modify_cases, lookup-insert, lookup-erase, lookup-map_values,
}
use irc.Map.Sorted.{Sorted, modify-Sorted, insert-Sorted, erase-Sorted, map_values-Sorted}
use mathlib.Core.Option
use irc.Text.{Text, text_ord, irc_case_fold}
use irc.Channel.{Channel, has_member, is_invited, add_invite, remove_invite}
use irc.Client.{Client, is_registration_ready, set_nickname, has_nickname}
use irc.Server.{Server}
use irc.Handler.Nick.{is_valid_nickname, in_use, forget_nickname, take_nickname, move_invite}
use irc.WellFormed.{registered_at, IsClient, IsChannel, IsWellFormed}
use irc.WellFormed.Nicknames.{
  is_valid_nickname-nonempty, clients-renamed, lookup-renamed, sound-renamed, complete-renamed,
}

module _ (fd : ℕ) (c : Client) (nickname : Text) (v : Server) where
  abbrev renamed_server : Server
  renamed_server = take_nickname fd nickname (forget_nickname c nickname v)

  abbrev moved : Channel → Channel
  moved channel =
      if not (is_empty c.nickname) then move_invite c.nickname nickname channel else channel

  pub channels-renamed :
      (key : Text) → lookup key renamed_server.channels ≡ Option.map moved (lookup key v.channels)
  unfolding take_nickname forget_nickname has_nickname
  channels-renamed key = elim (Option-cases (lookup key v.channels)) [
    | inl missing ↦
        ground (arith, lookup-map_values (move_invite c.nickname nickname) key v.channels)
    | inr (channel, found) ↦
        ground (arith, lookup-map_values (move_invite c.nickname nickname) key v.channels)
  ]

  registered_at-renamed : (g : ℕ) → registered_at g renamed_server ≡ registered_at g v
  unfolding registered_at set_nickname
  registered_at-renamed g =
      rw (clients-renamed fd c nickname v, registered_at)
        (elim (Option-cases (lookup g v.clients)) [
          | inl e ↦ ground (arith, lookup-modify fd g (set_nickname nickname) v.clients)
          | inr (b, e) ↦ ground (arith, lookup-modify fd g (set_nickname nickname) v.clients)
        ])

  invites-moved :
      (name : Text) (channel : Channel)
      → (member name channel.invited_users ≡ true → member name v.nickname_index ≡ true)
      → member name (moved channel).invited_users ≡ true
      → member name renamed_server.nickname_index ≡ true
  unfolding member move_invite is_invited add_invite remove_invite
  invites-moved name channel known h = ground (
    arith,
    lookup-renamed fd c nickname v name,
    lookup-insert (irc_case_fold nickname) name tt
        (erase (irc_case_fold c.nickname) channel.invited_users),
    lookup-erase (irc_case_fold c.nickname) name channel.invited_users,
    ==_eq (irc_case_fold c.nickname) name,
    ==_refl name,
  )

  moved-fields :
      (channel : Channel)
      → ((moved channel).name ≡ channel.name) × ((moved channel).members ≡ channel.members)
  unfolding move_invite add_invite remove_invite
  moved-fields channel = ground arith

  IsChannel-moved :
      (key : Text) (channel : Channel)
      → IsChannel v key channel
      → IsChannel renamed_server key (moved channel)
  unfolding has_member
  IsChannel-moved key channel ok = record {
    named = ap irc_case_fold (moved-fields channel).0 ∙ ok.named;
    inhabited = ap is_empty (moved-fields channel).1 ∙ ok.inhabited;
    ordered = subst Sorted (sym (moved-fields channel).1) ok.ordered;
    members = λ g m.
        registered_at-renamed g ∙ ok.members g (ap (member g) (sym (moved-fields channel).1) ∙ m);
    invites = λ name. invites-moved name channel (ok.invites name);
  }

  IsClient-renamed :
      (g : ℕ) (b : Client)
      → is_empty nickname ≡ false
      → ((a : Client) → lookup g v.clients ≡ some a → IsClient g a)
      → lookup g renamed_server.clients ≡ some b
      → IsClient g b
  unfolding set_nickname is_registration_ready
  IsClient-renamed g b filled ok e =
      elim (lookup-modify_cases fd g (set_nickname nickname) v.clients b
        (rw (clients-renamed fd c nickname v) at e)) [
          | inr old ↦ ok b old
          | inl (a, old, same, written) ↦ subst (IsClient g) written (record {
            keyed = (ok a old).keyed;
            ready = λ r. let was = (ok a old).ready r in ground arith;
          })
        ]

  index-renamed-Sorted : Sorted v.nickname_index → Sorted renamed_server.nickname_index
  unfolding take_nickname forget_nickname has_nickname
  index-renamed-Sorted sorted =
      insert-Sorted (irc_case_fold nickname) fd (forget_nickname c nickname v).nickname_index
        (ground (arith, erase-Sorted (irc_case_fold c.nickname) v.nickname_index))

  channels-renamed-Sorted : Sorted v.channels → Sorted renamed_server.channels
  unfolding take_nickname forget_nickname has_nickname
  channels-renamed-Sorted sorted =
      ground (arith, map_values-Sorted (move_invite c.nickname nickname) v.channels)

  -- A new nickname that is valid and not in use keeps the server well formed.
  pub rename-IsWellFormed :
      lookup fd v.clients ≡ some c
      → is_valid_nickname nickname ≡ true
      → in_use fd nickname v ≡ false
      → IsWellFormed v
      → IsWellFormed renamed_server
  rename-IsWellFormed found valid free w =
      let filled = is_valid_nickname-nonempty nickname valid in
      record {
        clients = λ g b. IsClient-renamed g b filled (w.clients g);
        nicknames = record {
          sound = sound-renamed fd c nickname v found filled free w.nicknames;
          complete = complete-renamed fd c nickname v found filled free w.nicknames;
        };
        clients_sorted =
            subst Sorted (sym (clients-renamed fd c nickname v))
              (modify-Sorted fd (set_nickname nickname) v.clients w.clients_sorted);
        index_sorted = index-renamed-Sorted w.index_sorted;
        channels_sorted = channels-renamed-Sorted w.channels_sorted;
        channels = λ key channel e. elim (Option-cases (lookup key v.channels)) [
          | inl missing ↦ absurd (ground (arith, channels-renamed key))
          | inr (old, there) ↦
              subst (IsChannel renamed_server key) (ground (arith, channels-renamed key))
                (IsChannel-moved key old (w.channels key old there))
        ];
      }
