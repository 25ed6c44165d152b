-- ===== src/WellFormed/Unique.antt =====
-- What the invariant gives the look-up of a nickname (findClientByNickname, srcs/Server/ServerUtils.cpp).
use irc.Base.{
  ℕ, true, false, ◌≡◌, ◌∙◌, sym, some, nat_ord, arith, is_empty, ==_eq, ==_refl, Option-cases, inl,
  inr, ap, subst,
}
use mathlib.Core.Logic.{◌↔◌}
use irc.Map.{lookup}
use irc.Text.{Text, irc_case_fold, irc_equals, text_ord}
use irc.Client.{Client}
use irc.Server.{Server, find_client_by_nickname}
use irc.Server.Send.Frames.{quiet, core, lookup-quiet}
use irc.WellFormed.{nickname_of, IsWellFormed}

nickname_of-quiet :
    (fd : ℕ) (s : Server) (c : Client)
    → lookup fd s.clients ≡ some c
    → nickname_of fd (quiet s) ≡ c.nickname
unfolding nickname_of
nickname_of-quiet fd s c e = rw (lookup-quiet fd s e, nickname_of)

pub keyed_by :
    (fd : ℕ) (s : Server) (c : Client)
    → IsWellFormed (quiet s)
    → lookup fd s.clients ≡ some c
    → c.fd ≡ fd
keyed_by fd s c w e = (w.clients fd (core c) (lookup-quiet fd s e)).keyed

pub find_sound :
    (s : Server) (nickname : Text) (c : Client)
    → IsWellFormed (quiet s)
    → find_client_by_nickname nickname s ≡ some c
    → (lookup c.fd s.clients ≡ some c)
      × (is_empty c.nickname ≡ false)
      × (irc_equals c.nickname nickname ≡ true)
unfolding find_client_by_nickname irc_equals
find_sound s nickname c w found =
    elim (Option-cases (lookup (irc_case_fold nickname) s.nickname_index)) [
      | inl none_there ↦ absurd (ground (arith, none_there))
      | inr (fd, e) ↦
          let there : lookup fd s.clients ≡ some c = ground (arith, e) in
          let (folded, filled) =
            w.nicknames.sound (irc_case_fold nickname) fd (unfold quiet in e) in
          (
            subst (λ n. lookup n s.clients ≡ some c) (sym (keyed_by fd s c w there)) there,
            rw (nickname_of-quiet fd s c there) at filled,
            ground
                (arith, folded, nickname_of-quiet fd s c there, ==_refl (irc_case_fold nickname)),
          )
    ]

-- In a well-formed server a look-up by nickname finds a client exactly when the client is one of the
-- server, under its own descriptor, with a nickname that is not empty and equals the text up to case.
pub find_client_by_nickname_iff :
    (s : Server) (nickname : Text) (c : Client)
    → IsWellFormed (quiet s)
    → (find_client_by_nickname nickname s ≡ some c) ↔ (
        (lookup c.fd s.clients ≡ some c)
        × (is_empty c.nickname ≡ false)
        × (irc_equals c.nickname nickname ≡ true))
unfolding find_client_by_nickname irc_equals
find_client_by_nickname_iff s nickname c w = (
  find_sound s nickname c w,
  λ (there, filled, same).
      let key = nickname_of-quiet c.fd s c there in
      let indexed : lookup (irc_case_fold nickname) s.nickname_index ≡ some c.fd =
        subst (λ k. lookup k s.nickname_index ≡ some c.fd)
          (ap irc_case_fold key ∙ ==_eq (irc_case_fold c.nickname) (irc_case_fold nickname) same)
          (unfold quiet in w.nicknames.complete c.fd (rw key filled)) in
      ground (arith, there, indexed),
)
