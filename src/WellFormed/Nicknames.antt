-- ===== src/WellFormed/Nicknames.antt =====
-- NICK: the nickname index and the invitations follow the nickname.
pub mod Renamed
use irc.Base.{
  ℕ, Bool, true, false, not, ◌&&◌, ◌≡◌, sym, ap, subst, ◌∙◌, none, some, inl, inr, is_empty,
  nat_ord, arith, ◌==◌, ==_eq, ==_refl, if◌then◌else◌, Bool-cases, Option-cases,
}
use irc.Map.{lookup, member, modify, erase}
use irc.Map.Laws.{
  lookup-modify, lookup-modify_cases, lookup-insert, lookup-erase, lookup-map_values,
}
use irc.Map.Sorted.{Sorted, modify-Sorted, insert-Sorted, erase-Sorted, map_values-Sorted}
use mathlib.Core.Option
use irc.Text.{Text, text_ord, irc_case_fold}
use irc.Channel.{Channel, has_member, is_invited, add_invite, remove_invite}
use irc.Client.{Client, is_registration_ready, set_nickname, has_nickname}
use irc.Server.{Server}
use irc.Handler.Nick.{is_valid_nickname, in_use, forget_nickname, take_nickname, move_invite}
use irc.WellFormed.{nickname_of, registered_at, IsClient, IsIndexed, IsChannel, IsWellFormed}

pub is_valid_nickname-nonempty :
    (nickname : Text) → is_valid_nickname nickname ≡ true → is_empty nickname ≡ false
unfolding is_valid_nickname
is_valid_nickname-nonempty nickname h = ground arith

module _ (fd : ℕ) (c : Client) (nickname : Text) (v : Server) where
  abbrev renamed : Server
  renamed = take_nickname fd nickname (forget_nickname c nickname v)

  clients-renamed : renamed.clients ≡ modify fd (set_nickname nickname) v.clients
  unfolding take_nickname forget_nickname
  clients-renamed = ground arith

  abbrev old_key : Text → Bool
  old_key key = not (is_empty c.nickname) && irc_case_fold c.nickname == key

  pub lookup-renamed :
      (key : Text)
      → lookup key renamed.nickname_index ≡ (
          if irc_case_fold nickname == key
          then some fd
          else if old_key key
          then none
          else lookup key v.nickname_index)
  unfolding take_nickname forget_nickname has_nickname
  lookup-renamed key = ground (
    arith,
    lookup-insert (irc_case_fold nickname) key fd (forget_nickname c nickname v).nickname_index,
    lookup-erase (irc_case_fold c.nickname) key v.nickname_index,
  )

  module _ (found : lookup fd v.clients ≡ some c) where
    pub nickname_of-renamed :
        (g : ℕ) → nickname_of g renamed ≡ (if fd == g then nickname else nickname_of g v)
    unfolding nickname_of set_nickname
    nickname_of-renamed g =
        rw (clients-renamed, nickname_of)
          (elim (Option-cases (lookup g v.clients)) [
            | inl e ↦
                ground (arith, lookup-modify fd g (set_nickname nickname) v.clients, ==_eq fd g)
            | inr (b, e) ↦ ground (arith, lookup-modify fd g (set_nickname nickname) v.clients)
          ])

    nickname_of_self : nickname_of fd v ≡ c.nickname
    unfolding nickname_of
    nickname_of_self = rw (found, nickname_of)

    module _ (filled : is_empty nickname ≡ false) (free : in_use fd nickname v ≡ false)
        (w : IsIndexed v) where
      free_holder :
          (holder : ℕ)
          → lookup (irc_case_fold nickname) v.nickname_index ≡ some holder
          → holder ≡ fd
      unfolding in_use
      free_holder holder e = ==_eq holder fd (ground arith)

      sound-renamed :
          (key : Text) (g : ℕ)
          → lookup key renamed.nickname_index ≡ some g
          → (irc_case_fold (nickname_of g renamed) ≡ key)
            × (is_empty (nickname_of g renamed) ≡ false)
      sound-renamed key g e = elim (Bool-cases (irc_case_fold nickname == key)) [
        | inl new ↦ ground (
          arith,
          lookup-renamed key,
          nickname_of-renamed g,
          ==_eq (irc_case_fold nickname) key,
          ==_refl fd,
        )
        | inr other ↦ ground (
          arith,
          lookup-renamed key,
          nickname_of-renamed g,
          ==_eq fd g,
          ==_refl key,
          w.sound key g,
          nickname_of_self,
        )
      ]

      complete-renamed :
          (g : ℕ)
          → is_empty (nickname_of g renamed) ≡ false
          → lookup (irc_case_fold (nickname_of g renamed)) renamed.nickname_index ≡ some g
      complete-renamed g h = elim (Bool-cases (fd == g)) [
        | inl self ↦ ground (
          arith,
          nickname_of-renamed g,
          ==_eq fd g,
          lookup-renamed (irc_case_fold nickname),
          ==_refl (irc_case_fold nickname),
        )
        | inr other ↦
            let name = irc_case_fold (nickname_of g v) in
            ground (
              arith,
              nickname_of-renamed g,
              lookup-renamed name,
              w.complete g,
              w.complete fd,
              nickname_of_self,
              ==_eq (irc_case_fold nickname) name,
              ==_eq (irc_case_fold c.nickname) name,
              ==_refl g,
              ==_refl fd,
              free_holder g,
            )
      ]
