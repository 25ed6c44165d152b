-- ===== src/WellFormed/Preserved.antt =====
-- Every change of the protocol keeps the invariant, so every command does.
use irc.Base.{false, inl, inr, ==_refl, List, ℕ, true, ◌≡◌, ap, ◌∙◌, some, nat_ord, arith}
use irc.Map.{lookup, member}
use irc.Text.{Text, irc_case_fold, text_ord}
use irc.Channel.{set_topic}
use irc.Client.{Client, is_registration_ready}
use irc.Handler.Mode.Change.{ModeChange}
use irc.Command.{Command}
use irc.Server.{Server, find_client_by_nickname}
use irc.Server.Send.Frames.{quiet}
use irc.Handler.Nick.{in_use}
use irc.Handler.Dispatch.{dispatch_command}
use irc.Protocol.{
  IsFree, Act, Acts, done, next, authenticate, describe, register, rename, create, join, retitle,
  change_mode, kick, invite, IsRegistered,
}
use irc.Protocol.Writing.{write_of, Wrote, idle, wrote, Writes, finished, behind}
use irc.Protocol.Commands.{dispatch_command-Acts}
use irc.WellFormed.{registered_at, IsWellFormed}
use irc.WellFormed.Clients.{
  set_password_accepted-IsWellFormed, set_user-IsWellFormed, set_registered-IsWellFormed,
}
use irc.WellFormed.Nicknames.Renamed.{rename-IsWellFormed}
use irc.WellFormed.Channels.Removed.{create-IsWellFormed, remove_member_from_channel-IsWellFormed}
use irc.WellFormed.Channels.{
  modify_channel-IsWellFormed, set_topic-IsChannel, write_of-IsChannel, add_invite-IsChannel,
  admit-IsChannel,
}

registered_at-IsRegistered :
    (fd : ℕ) (v : Server) (c : Client) → IsRegistered fd v c → registered_at fd v ≡ true
unfolding registered_at
registered_at-IsRegistered fd v c actor = rw (actor.found, registered_at) actor.registered

member-find_client_by_nickname :
    (nickname : Text) (v : Server) (target : Client)
    → find_client_by_nickname nickname v ≡ some target
    → member (irc_case_fold nickname) v.nickname_index ≡ true
unfolding find_client_by_nickname member
member-find_client_by_nickname nickname v target e = ground arith

Wrote-IsWellFormed :
    {name : Text} {change : ModeChange} {v u : Server}
    → Wrote name change v u
    → IsWellFormed v
    → IsWellFormed u
Wrote-IsWellFormed idle w = w
Wrote-IsWellFormed {name} {v = v} (wrote channel write e m) w =
    modify_channel-IsWellFormed name (write_of write) v
      (λ k before ok. write_of-IsChannel v k before ok write) w

Writes-IsWellFormed :
    {name : Text} {changes : List ModeChange} {v u : Server}
    → Writes name changes v u
    → IsWellFormed v
    → IsWellFormed u
Writes-IsWellFormed (finished v) w = w
Writes-IsWellFormed (behind change rest v t u first later) w =
    Writes-IsWellFormed later (Wrote-IsWellFormed first w)

IsFree-in_use :
    (fd : ℕ) (nickname : Text) (v : Server) → IsFree fd nickname v → in_use fd nickname v ≡ false
unfolding in_use
IsFree-in_use fd nickname v (inl missing) = ground (arith, missing)
IsFree-in_use fd nickname v (inr own) = ground (arith, own, ==_refl fd)

pub Act-IsWellFormed :
    {fd : ℕ} {command : Command} {v u : Server}
    → Act fd command v u
    → IsWellFormed v
    → IsWellFormed u
Act-IsWellFormed {fd} (authenticate v c named actor given) w =
    set_password_accepted-IsWellFormed fd v actor.found actor.unregistered w
Act-IsWellFormed {fd} (describe v c username realname named actor first fourth) w =
    set_user-IsWellFormed fd v username realname actor.found actor.unregistered w
Act-IsWellFormed {fd} (register v c may actor ready) w =
    set_registered-IsWellFormed fd v actor.found (unfold is_registration_ready in ready) w
Act-IsWellFormed {fd} (rename v c nickname named given found valid free) w =
    rename-IsWellFormed fd c nickname v found valid (IsFree-in_use fd nickname v free) w
Act-IsWellFormed {fd} (create v c name named given actor fits missing) w =
    create-IsWellFormed fd name v (registered_at-IsRegistered fd v c actor) w
Act-IsWellFormed {fd} (join v c name rest channel named given actor found fresh open_to) w =
    modify_channel-IsWellFormed name _ v
      (λ k before ok. admit-IsChannel v k before ok c (
        ap (λ d. registered_at d v) (w.clients fd c actor.found).keyed
        ∙ registered_at-IsRegistered fd v c actor))
      w
Act-IsWellFormed (retitle v c name topic channel named given titled actor found inside allowed) w =
    modify_channel-IsWellFormed name (set_topic topic) v
      (λ k before ok. set_topic-IsChannel v k before ok topic) w
Act-IsWellFormed
      (change_mode v u c name modes more channel changes named given actor found op read writes)
      ok =
    Writes-IsWellFormed writes ok
Act-IsWellFormed
      (kick v c name nickname channel target named first second actor found allowed known inside)
      w =
    remove_member_from_channel-IsWellFormed v w name target.fd channel found
Act-IsWellFormed
      (invite v c target name nickname channel named first second actor found allowed known outside)
      w =
    modify_channel-IsWellFormed name _ v
      (λ k before ok.
        add_invite-IsChannel v k before ok nickname
          (member-find_client_by_nickname nickname v target known))
      w

pub Acts-IsWellFormed :
    {fd : ℕ} {command : Command} {v u : Server}
    → Acts fd command v u
    → IsWellFormed v
    → IsWellFormed u
Acts-IsWellFormed done w = w
Acts-IsWellFormed (next before act) w = Act-IsWellFormed act (Acts-IsWellFormed before w)

-- Every command of a client of the server, valid or refused, keeps the server well formed.
pub dispatch_command-IsWellFormed :
    (c : Client) (command : Command) (s : Server)
    → lookup c.fd s.clients ≡ some c
    → IsWellFormed (quiet s)
    → IsWellFormed (quiet (dispatch_command c.fd command s))
dispatch_command-IsWellFormed c command s found =
    Acts-IsWellFormed (dispatch_command-Acts c command s found)
