-- ===== src/WellFormed/Departed.antt =====
-- A client that is removed (cleanupClientIrcState, removeClient): what is left of it, and the invariant.
pub mod Trace
use irc.Base.{
  ℕ, false, not, ◌&&◌, ◌≡◌, refl, ap, subst, ◌∙◌, [], ◌∷◌, none, some, inl, inr, is_empty, nat_ord,
  arith, ◌==◌, ==_eq, ==_refl, if◌then◌else◌, Bool-cases,
}
use irc.Map.{Map, lookup, member, erase}
use irc.Map.Laws.{lookup-erase, map_values-erase}
use irc.Map.Sorted.{Sorted, Above, lookup-Above, erase-Sorted}
use irc.Text.{Text, text_ord, irc_case_fold}
use irc.Channel.{Channel, has_member, is_invited, remove_invite, remove_member, is_empty_channel}
use irc.Client.{Client}
use irc.Server.{Server}
use irc.Server.Send.Frames.{quiet, core, lookup-quiet, quiet-send_to_all}
use irc.Server.Send.{send_to_all}
use irc.Server.Cleanup.{
  cleanup_client_irc_state, leave_channel, leave_channels, release_nickname, quit_line,
  quit_recipients,
}
use irc.Connection.{remove_descriptor}
use irc.Protocol.Rules.{by_if}
use irc.WellFormed.{nickname_of, registered_at, IsIndexed, IsChannel, IsWellFormed}

-- The server without the client.
unfoldable pub departed : Client → Server → Server
departed c v = record v {
  clients = erase c.fd v.clients;
  channels = leave_channels c.fd c.nickname v.channels;
  nickname_index = release_nickname c.fd c.nickname v.nickname_index;
  open_fds = erase c.fd v.open_fds;
}

told : Client → Server → Server
told c s =
    if c.registered then send_to_all (quit_line c) (quit_recipients c.fd s.channels []) s else s

quiet-told : (c : Client) (s : Server) → quiet (told c s) ≡ quiet s
unfolding told
quiet-told c s =
    by_if (λ t. quiet t ≡ quiet s) c.registered
      (λ _. quiet-send_to_all (quit_line c) (quit_recipients c.fd s.channels []) s) (λ _. refl)

quiet-departed : (c : Client) (s : Server) → quiet (departed c s) ≡ departed c (quiet s)
unfolding departed quiet
quiet-departed c s = rw (map_values-erase core c.fd s.clients)

pub quiet-remove_descriptor :
    (c : Client) (s : Server)
    → lookup c.fd s.clients ≡ some c
    → quiet (remove_descriptor c.fd s) ≡ departed c (quiet s)
unfolding remove_descriptor cleanup_client_irc_state
quiet-remove_descriptor c s found =
    rw (found, remove_descriptor)
      (unfold departed told in (quiet-departed c (told c s) ∙ ap (departed c) (quiet-told c s)))

Above-leave_channels :
    (k : Text) (fd : ℕ) (nickname : Text) (m : Map Text Channel)
    → Above k m
    → Above k (leave_channels fd nickname m)
unfolding leave_channels
Above-leave_channels k fd nickname [] a = tt
Above-leave_channels k fd nickname ((j, channel) ∷ m) a =
    ground (arith, Above-leave_channels k fd nickname m)

leave_channels-Sorted :
    (fd : ℕ) (nickname : Text) (m : Map Text Channel)
    → Sorted m
    → Sorted (leave_channels fd nickname m)
unfolding leave_channels
leave_channels-Sorted fd nickname [] s = tt
leave_channels-Sorted fd nickname ((j, channel) ∷ m) s =
    ground (arith, leave_channels-Sorted fd nickname m, Above-leave_channels j fd nickname m)

-- A channel that is left was there before, with the client.
pub lookup-leave_channels :
    (fd : ℕ) (nickname key : Text) (m : Map Text Channel) (left : Channel)
    → Sorted m
    → lookup key (leave_channels fd nickname m) ≡ some left
    → (channel : Channel) × (lookup key m ≡ some channel)
      × (leave_channel fd nickname channel ≡ left)
      × (is_empty_channel left ≡ false)
unfolding leave_channels lookup
lookup-leave_channels fd nickname key [] left s e = absurd (ground arith)
lookup-leave_channels fd nickname key ((j, channel) ∷ m) left s e =
    elim (Bool-cases (is_empty_channel (leave_channel fd nickname channel))) [
      | inl gone ↦
          let (old, there, same, filled) =
            lookup-leave_channels fd nickname key m left s.1 (ground arith) in
          (old, ground (arith, lookup-Above j m, ==_eq j key), same, filled)
      | inr kept ↦ elim (Bool-cases (j == key)) [
        | inl here ↦ (channel, ground arith, ground arith, ground arith)
        | inr other ↦
            let (old, there, same, filled) =
              lookup-leave_channels fd nickname key m left s.1 (ground arith) in
            (old, ground arith, same, filled)
      ]
    ]

module _ (c : Client) (v : Server) (found : lookup c.fd v.clients ≡ some c) where
  nickname_of_self : nickname_of c.fd v ≡ c.nickname
  unfolding nickname_of
  nickname_of_self = rw (found, nickname_of)

  nickname_of-departed :
      (g : ℕ) → nickname_of g (departed c v) ≡ (if c.fd == g then [] else nickname_of g v)
  unfolding nickname_of departed
  nickname_of-departed g = ground (arith, lookup-erase c.fd g v.clients)

  registered_at-departed :
      (g : ℕ) → registered_at g (departed c v) ≡ (if c.fd == g then false else registered_at g v)
  unfolding registered_at departed
  registered_at-departed g = ground (arith, lookup-erase c.fd g v.clients)

  module _ (w : IsWellFormed v) where
    lookup-departed :
        (key : Text)
        → lookup key (departed c v).nickname_index ≡ (
            if not (is_empty c.nickname) && irc_case_fold c.nickname == key
            then none
            else lookup key v.nickname_index)
    unfolding departed release_nickname
    lookup-departed key = ground (
      arith,
      w.nicknames.complete c.fd,
      nickname_of_self,
      ==_refl c.fd,
      lookup-erase (irc_case_fold c.nickname) key v.nickname_index,
    )

    departed-IsIndexed : IsIndexed (departed c v)
    departed-IsIndexed = record { sound = sound; complete = complete }
      where
        sound :
            (key : Text) (g : ℕ)
            → lookup key (departed c v).nickname_index ≡ some g
            → (irc_case_fold (nickname_of g (departed c v)) ≡ key)
              × (is_empty (nickname_of g (departed c v)) ≡ false)
        sound key g e = ground (
          arith,
          lookup-departed key,
          nickname_of-departed g,
          w.nicknames.sound key g,
          ==_eq c.fd g,
          nickname_of_self,
          ==_refl key,
        )

        complete :
            (g : ℕ)
            → is_empty (nickname_of g (departed c v)) ≡ false
            → lookup (irc_case_fold (nickname_of g (departed c v))) (departed c v).nickname_index
              ≡ some g
        complete g h =
            let name = irc_case_fold (nickname_of g v) in
            ground (
              arith,
              lookup-departed name,
              nickname_of-departed g,
              w.nicknames.complete g,
              w.nicknames.complete c.fd,
              nickname_of_self,
              ==_eq (irc_case_fold c.nickname) name,
              ==_refl g,
              ==_refl c.fd,
            )

    IsChannel-departed :
        (key : Text) (channel left : Channel)
        → IsChannel v key channel
        → leave_channel c.fd c.nickname channel ≡ left
        → is_empty_channel left ≡ false
        → IsChannel (departed c v) key left
    unfolding leave_channel remove_member remove_invite is_empty_channel has_member member
    IsChannel-departed key channel left ok same filled = record {
      named = ground (arith, ok.named);
      inhabited = filled;
      ordered = ground (arith, ok.ordered, erase-Sorted c.fd channel.members);
      members = λ g h.
          ground
            (arith, registered_at-departed g, ok.members g, lookup-erase c.fd g channel.members);
      invites = λ name h. ground (
        arith,
        lookup-departed name,
        ok.invites name,
        lookup-erase (irc_case_fold c.nickname) name channel.invited_users,
      );
    }

    index-departed-Sorted : Sorted (departed c v).nickname_index
    unfolding departed release_nickname
    index-departed-Sorted =
        ground (arith, w.index_sorted, erase-Sorted (irc_case_fold c.nickname) v.nickname_index)

    pub departed-IsWellFormed : IsWellFormed (departed c v)
    unfolding departed
    departed-IsWellFormed = record {
      clients = λ g b e. w.clients g b (ground (arith, lookup-erase c.fd g v.clients));
      nicknames = record {
        sound = departed-IsIndexed.sound;
        complete = departed-IsIndexed.complete;
      };
      clients_sorted = erase-Sorted c.fd v.clients w.clients_sorted;
      index_sorted = index-departed-Sorted;
      channels_sorted = leave_channels-Sorted c.fd c.nickname v.channels w.channels_sorted;
      channels = λ key left e.
          let (channel, there, same, filled) =
            lookup-leave_channels c.fd c.nickname key v.channels left w.channels_sorted e in
          IsChannel-departed key channel left (w.channels key channel there) same filled;
    }

departed-core : (c : Client) (v : Server) → departed (core c) v ≡ departed c v
unfolding departed
departed-core c v = refl

-- Removing a client of a well-formed server leaves it well formed.
pub remove_descriptor-IsWellFormed :
    (c : Client) (s : Server)
    → lookup c.fd s.clients ≡ some c
    → IsWellFormed (quiet s)
    → IsWellFormed (quiet (remove_descriptor c.fd s))
remove_descriptor-IsWellFormed c s found w =
    rw (quiet-remove_descriptor c s found, ← departed-core c (quiet s))
      (departed-IsWellFormed (core c) (quiet s) (lookup-quiet c.fd s found) w)
