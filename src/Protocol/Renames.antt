-- ===== src/Protocol/Renames.antt =====
-- What an accepted NICK does (srcs/Command/Nick.cpp).
use irc.Base.{
  [], ◌||◌, ℕ, true, false, not, ◌&&◌, ◌≡◌, refl, sym, ap, ◌∙◌, ◌∷◌, List, none, some, arith,
  nat_ord, ◌==◌, if◌then◌else◌, Option-cases, inl, inr, is_empty,
}
use mathlib.Core.Option
use irc.Map.{lookup, erase}
use irc.Map.Laws.{member-insert, member-erase, lookup-modify, lookup-map_values}
use irc.Text.{Text, text_ord, irc_case_fold}
use irc.Channel.{Channel, is_invited, add_invite, remove_invite}
use irc.WellFormed.Departed.Trace.{invited_at}
use irc.Client.{Client, has_nickname, set_registered, is_registration_ready}
use irc.Command.{Command}
use irc.Server.{Server, modify_client}
use irc.Server.Send.Frames.{quiet, core, quiet-send_to_all, quiet-send_welcome}
use irc.WellFormed.{nickname_of}
use irc.WellFormed.Nicknames.{lookup-renamed, nickname_of-renamed}
use irc.WellFormed.Nicknames.Renamed.{channels-renamed}
use irc.Protocol.Rules.{by_if, by_option}
use irc.Handler.Registration.{try_complete_registration}
use irc.Handler.Nick.{
  handle_nick, change_nickname, forget_nickname, take_nickname, is_valid_nickname, in_use,
  move_invite,
}

-- The same nicknames, index of them and channels.
record IsSame (s t : Server) : Type 0 where
  index : t.nickname_index ≡ s.nickname_index
  channels : t.channels ≡ s.channels
  nicknames : (fd : ℕ) → nickname_of fd t ≡ nickname_of fd s

nickname_of-quiet : (fd : ℕ) (s : Server) → nickname_of fd (quiet s) ≡ nickname_of fd s
unfolding nickname_of quiet
nickname_of-quiet fd s = elim (Option-cases (lookup fd s.clients)) [
  | inl missing ↦ ground (arith, missing, lookup-map_values core fd s.clients)
  | inr (c, found) ↦ ground (arith, found, lookup-map_values core fd s.clients)
]

silent-IsSame : (s t : Server) → quiet t ≡ quiet s → IsSame s t
unfolding quiet
silent-IsSame s t e = record {
  index = ap (λ (v : Server). v.nickname_index) e;
  channels = ap (λ (v : Server). v.channels) e;
  nicknames = λ fd. sym (nickname_of-quiet fd t) ∙ ap (nickname_of fd) e ∙ nickname_of-quiet fd s;
}

trans-IsSame : (s t u : Server) → IsSame s t → IsSame t u → IsSame s u
trans-IsSame s t u w v = record {
  index = v.index ∙ w.index;
  channels = v.channels ∙ w.channels;
  nicknames = λ fd. v.nicknames fd ∙ w.nicknames fd;
}

set_registered-IsSame : (fd : ℕ) (s : Server) → IsSame s (modify_client fd (set_registered true) s)
unfolding nickname_of set_registered
set_registered-IsSame fd s = record {
  index = refl;
  channels = refl;
  nicknames = λ g. elim (Option-cases (lookup g s.clients)) [
    | inl missing ↦ ground (arith, missing, lookup-modify fd g (set_registered true) s.clients)
    | inr (c, found) ↦ ground (arith, found, lookup-modify fd g (set_registered true) s.clients)
  ];
}

try_complete_registration-IsSame : (fd : ℕ) (s : Server) → IsSame s (try_complete_registration fd s)
unfolding try_complete_registration
try_complete_registration-IsSame fd s =
    by_option (IsSame s) (lookup fd s.clients) (λ _. itself)
      λ c _.
        by_if (IsSame s) c.registered (λ _. itself)
          λ _.
            by_if (IsSame s) (not (is_registration_ready c)) (λ _. itself)
              λ _.
                let set = modify_client fd (set_registered true) s in
                trans-IsSame s set _ (set_registered-IsSame fd s)
                  (silent-IsSame set _ (quiet-send_welcome fd set))
  where
    itself : IsSame s s
    itself = silent-IsSame s s refl

change_nickname-IsSame :
    (c : Client) (nickname : Text) (s : Server)
    → IsSame
        (take_nickname c.fd nickname (forget_nickname c nickname s))
        (change_nickname c nickname s)
unfolding change_nickname
change_nickname-IsSame c nickname s =
    let renamed = take_nickname c.fd nickname (forget_nickname c nickname s) in
    trans-IsSame renamed _ _
      (by_if (IsSame renamed) c.registered
        (λ _. silent-IsSame renamed _ (quiet-send_to_all _ _ renamed))
        (λ _. silent-IsSame renamed renamed refl))
      (try_complete_registration-IsSame c.fd _)

-- A channel without its invitations.
abbrev pub uninvited : Channel → Channel
uninvited channel = record channel { invited_users = [] }

is_invited-move_invite :
    (old new nickname : Text) (channel : Channel)
    → is_invited nickname (move_invite old new channel) ≡ (
        if is_invited old channel
        then irc_case_fold new == irc_case_fold nickname
          || not (irc_case_fold old == irc_case_fold nickname) && is_invited nickname channel
        else is_invited nickname channel)
unfolding move_invite add_invite remove_invite is_invited
is_invited-move_invite old new nickname channel = ground (
  arith,
  member-insert (irc_case_fold new) (irc_case_fold nickname) tt
      (erase (irc_case_fold old) channel.invited_users),
  member-erase (irc_case_fold old) (irc_case_fold nickname) channel.invited_users,
)

uninvited-move_invite :
    (old new : Text) (channel : Channel)
    → uninvited (move_invite old new channel) ≡ uninvited channel
unfolding move_invite add_invite remove_invite
uninvited-move_invite old new channel =
    by_if (λ ch. uninvited ch ≡ uninvited channel) (is_invited old channel) (λ _. refl) (λ _. refl)

module _ (c : Client) (nickname : Text) where
  abbrev moved_invite : Channel → Channel
  moved_invite channel =
      if not (is_empty c.nickname) then move_invite c.nickname nickname channel else channel

  invited_at-moved :
      (other_nickname key : Text) (s t : Server)
      → lookup key t.channels ≡ Option.map moved_invite (lookup key s.channels)
      → invited_at key other_nickname t ≡ (
          if not (is_empty c.nickname) && invited_at key c.nickname s
          then irc_case_fold nickname == irc_case_fold other_nickname
            || not (irc_case_fold c.nickname == irc_case_fold other_nickname)
              && invited_at key other_nickname s
          else invited_at key other_nickname s)
  unfolding invited_at
  invited_at-moved other_nickname key s t e = elim (Option-cases (lookup key s.channels)) [
    | inl missing ↦ ground (arith, e, missing)
    | inr (channel, found) ↦
        ground (arith, e, found, is_invited-move_invite c.nickname nickname other_nickname channel)
  ]

  uninvited-moved :
      (key : Text) (s t : Server)
      → lookup key t.channels ≡ Option.map moved_invite (lookup key s.channels)
      → Option.map uninvited (lookup key t.channels) ≡ Option.map uninvited (lookup key s.channels)
  uninvited-moved key s t e = elim (Option-cases (lookup key s.channels)) [
    | inl missing ↦ ground (arith, e, missing)
    | inr (channel, found) ↦
        rw (e, found)
          (ap (λ ch. some ch)
            (by_if (λ ch. uninvited ch ≡ uninvited channel) (not (is_empty c.nickname))
              (λ _. uninvited-move_invite c.nickname nickname channel) (λ _. refl)))
  ]

-- NICK with a valid nickname that no other client has and that is not the own one of the client
-- gives the client the nickname and leaves that of every other client, the index finds the client
-- under it, the old nickname is free unless it is the same up to case, in every channel an
-- invitation of the old nickname becomes one of the new and every other is as it was, and else no
-- channel changes.
pub handle_nick_renames :
    (c : Client) (command : Command) (s : Server) (nickname : Text) (rest : List Text)
    → lookup c.fd s.clients ≡ some c
    → command.parameters ≡ nickname ∷ rest
    → is_valid_nickname nickname ≡ true
    → in_use c.fd nickname s ≡ false
    → (has_nickname c && c.nickname == nickname) ≡ false
    → ((fd : ℕ)
        → nickname_of fd (handle_nick c.fd command s)
          ≡ (if c.fd == fd then nickname else nickname_of fd s))
      × ((key : Text)
          → lookup key (handle_nick c.fd command s).nickname_index ≡ (
              if irc_case_fold nickname == key
              then some c.fd
              else if not (is_empty c.nickname) && irc_case_fold c.nickname == key
              then none
              else lookup key s.nickname_index))
      × ((key other_nickname : Text)
          → invited_at key other_nickname (handle_nick c.fd command s) ≡ (
              if not (is_empty c.nickname) && invited_at key c.nickname s
              then irc_case_fold nickname == irc_case_fold other_nickname
                || not (irc_case_fold c.nickname == irc_case_fold other_nickname)
                  && invited_at key other_nickname s
              else invited_at key other_nickname s))
      × ((key : Text)
          → Option.map uninvited (lookup key (handle_nick c.fd command s).channels)
            ≡ Option.map uninvited (lookup key s.channels))
unfolding handle_nick
handle_nick_renames c command s nickname rest found given valid free other = (
  λ fd.
      ap (nickname_of fd) changed
      ∙ same.nicknames fd
      ∙ nickname_of-renamed c.fd c nickname s found fd,
  λ key.
      ap (λ (t : Server). lookup key t.nickname_index) changed
      ∙ ap (lookup key) same.index
      ∙ lookup-renamed c.fd c nickname s key,
  λ key other_nickname.
      invited_at-moved c nickname other_nickname key s (handle_nick c.fd command s) (moved key),
  λ key. uninvited-moved c nickname key s (handle_nick c.fd command s) (moved key),
)
  where
    changed : handle_nick c.fd command s ≡ change_nickname c nickname s
    changed = ground (arith, found, given, valid, free, other)

    same :
        IsSame
          (take_nickname c.fd nickname (forget_nickname c nickname s))
          (change_nickname c nickname s)
    same = change_nickname-IsSame c nickname s

    moved :
        (key : Text)
        → lookup key (handle_nick c.fd command s).channels
          ≡ Option.map
              (λ channel.
                if not (is_empty c.nickname)
                then move_invite c.nickname nickname channel
                else channel)
              (lookup key s.channels)
    moved key =
        ap (λ (t : Server). lookup key t.channels) changed
        ∙ ap (lookup key) same.channels
        ∙ channels-renamed c.fd c nickname s key
