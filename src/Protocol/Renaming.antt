-- ===== src/Protocol/Renaming.antt =====
-- NICK makes the changes of the protocol only.
use irc.Base.{
  ℕ, inl, Option-cases, ap, ==_eq, inr, get_elem?, true, false, not, ◌&&◌, ◌≡◌, refl, ◌∙◌, some,
  arith, nat_ord, ◌==◌,
}
use irc.Map.Laws.{map_values-modify}
use irc.Map.{lookup}
use irc.Text.{irc_case_fold, Text, codes, text_ord}
use irc.Client.{Client, has_nickname, set_nickname}
use irc.Command.{Command}
use irc.Server.{Server}
use irc.Server.Send.Frames.{quiet, core, lookup-quiet, quiet-send_to_all}
use irc.Protocol.{IsFree, done, rename, Acts-trans}
use irc.Protocol.Runs.{Runs, replied, acted}
use irc.Protocol.Rules.{by_if, by_some, by_list}
use irc.Handler.Nick.{
  handle_nick, change_nickname, forget_nickname, take_nickname, is_valid_nickname, in_use,
}
use irc.Protocol.Registering.{try_complete_registration-Acts}

quiet-take_nickname :
    (c : Client) (nickname : Text) (s : Server)
    → quiet (take_nickname c.fd nickname (forget_nickname c nickname s))
      ≡ take_nickname c.fd nickname (forget_nickname (core c) nickname (quiet s))
unfolding take_nickname forget_nickname quiet
quiet-take_nickname c nickname s =
    rw (map_values-modify core c.fd (set_nickname nickname) (set_nickname nickname) _ (λ c'. refl))
      (ground arith)

in_use-IsFree :
    (fd : ℕ) (nickname : Text) (v : Server) → in_use fd nickname v ≡ false → IsFree fd nickname v
unfolding in_use
in_use-IsFree fd nickname v h =
    elim (Option-cases (lookup (irc_case_fold nickname) v.nickname_index)) [
      | inl missing ↦ inl missing
      | inr (holder, e) ↦
          let same : (holder == fd) ≡ true = ground (arith, e, h) in
          inr (e ∙ ap (λ g. some g) (==_eq holder fd same))
    ]

module _ (c : Client) (command : Command) (s : Server)
    (found : lookup c.fd s.clients ≡ some c) where
  abbrev Here : Server → Type 0
  Here = Runs c.fd command s

  change_nickname-Acts :
      (named : command.name ≡ codes "NICK") (nickname : Text)
      → get_elem? command.parameters 0 ≡ some nickname
      → is_valid_nickname nickname ≡ true
      → in_use c.fd nickname s ≡ false
      → Here (change_nickname c nickname s)
  unfolding change_nickname in_use quiet
  change_nickname-Acts named nickname given valid free =
      Acts-trans
        (by_if Here c.registered
          (λ _. renamed _ (quiet-send_to_all _ _ _ ∙ quiet-take_nickname c nickname s))
          (λ _. renamed _ (quiet-take_nickname c nickname s)))
        (try_complete_registration-Acts c.fd command _ (inr (inr named)))
    where
      renamed :
          (t : Server)
          → quiet t ≡ take_nickname c.fd nickname (forget_nickname (core c) nickname (quiet s))
          → Here t
      renamed t e = acted c.fd command s t e (
          rename (quiet s) (core c) nickname named given (lookup-quiet c.fd s found) valid
            (in_use-IsFree c.fd nickname (quiet s) free))

  pub handle_nick-Acts : command.name ≡ codes "NICK" → Here (handle_nick c.fd command s)
  unfolding handle_nick
  handle_nick-Acts named = by_some Here (lookup c.fd s.clients) _ _ found (
      by_list Here command.parameters (λ _. replied c.fd command s c.fd _ _)
        λ nickname rest given.
          by_if Here (not (is_valid_nickname nickname)) (λ _. replied c.fd command s c.fd _ _)
            λ v.
              by_if Here (in_use c.fd nickname s) (λ _. replied c.fd command s c.fd _ _)
                λ u.
                  by_if Here (has_nickname c && c.nickname == nickname) (λ _. done)
                    λ _. change_nickname-Acts named nickname (rw given refl) (ground (arith, v)) u)
