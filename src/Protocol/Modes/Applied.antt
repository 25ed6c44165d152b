-- ===== src/Protocol/Modes/Applied.antt =====
-- The changes of an accepted MODE (srcs/Command/Mode.cpp), one behind the other, on one channel alone.
use irc.Base.{
  true, ◌≡◌, refl, subst, ap, ◌∙◌, [], ◌∷◌, List, some, arith, nat_ord, ◌==◌, if◌then◌else◌,
}
use irc.Map.{lookup}
use irc.Text.{Text, text_ord, irc_case_fold}
use irc.Channel.{Channel, is_member_operator}
use irc.Client.{Client}
use irc.Command.{Command}
use irc.Server.{Server, find_channel}
use irc.Handler.Mode.{handle_mode, change_modes, apply_changes}
use irc.Handler.Mode.Change.{ModeChange, is_channel_target, parse_channel_mode_changes}
use irc.Handler.Mode.Apply.{apply_channel_mode_change}
use irc.Protocol.Modes.{target_at, mode_effect, mode_effects}
use irc.Protocol.Modes.Written.{
  IsWritten, target_at-IsWritten, unwritten, found_written, IsWritten-trans,
}
use irc.Protocol.Modes.Each.{applied-IsWritten}

module _ (name : Text) where
  -- The effects depend on the clients and the index alone.
  mode_effects-IsWritten :
      (changes : List ModeChange) (old channel : Channel) (s t : Server)
      → IsWritten name old s t
      → mode_effects changes t channel ≡ mode_effects changes s channel
  unfolding mode_effects
  mode_effects-IsWritten [] old channel s t w = refl
  mode_effects-IsWritten (change ∷ rest) old channel s t w =
      mode_effects-IsWritten rest old _ s t w
      ∙ ap (λ g. mode_effects rest s (mode_effect g change channel))
          (target_at-IsWritten name change.argument old s t w)

  apply_changes-IsWritten :
      (c : Client) (changes : List ModeChange) (s : Server) (channel : Channel)
      → find_channel name s ≡ some channel
      → IsWritten name (mode_effects changes s channel) s (apply_changes c name changes s)
  unfolding apply_changes mode_effects
  apply_changes-IsWritten c [] s channel found = unwritten name s channel found s refl
  apply_changes-IsWritten c (change ∷ rest) s channel found =
      let first = applied-IsWritten name s channel found c change in
      let next = apply_channel_mode_change c name change s in
      let new = mode_effect (target_at change.argument s) change channel in
      IsWritten-trans name new _ s next _ first (
        subst (λ x. IsWritten name x next (apply_changes c name rest next))
          (mode_effects-IsWritten rest new new s next first)
          (apply_changes-IsWritten c rest next new (found_written name new s next first)))

-- MODE by a registered operator of a channel, with a mode string that is accepted, leaves under the
-- channel's name the channel with the effects of the changes in their order, and every other channel
-- as it was.
pub handle_mode_effects :
    (c : Client) (command : Command) (s : Server) (name modes : Text) (more : List Text)
    (channel : Channel) (changes : List ModeChange) (key : Text)
    → lookup c.fd s.clients ≡ some c
    → c.registered ≡ true
    → command.parameters ≡ name ∷ modes ∷ more
    → is_channel_target name ≡ true
    → find_channel name s ≡ some channel
    → is_member_operator c.fd channel ≡ true
    → parse_channel_mode_changes (name ∷ modes ∷ more) ≡ some changes
    → lookup key (handle_mode c.fd command s).channels ≡ (
        if irc_case_fold name == key
        then some (mode_effects changes s channel)
        else lookup key s.channels)
unfolding handle_mode change_modes
handle_mode_effects c command s name modes more channel changes key found r given begins there op
      read =
    let same_server : handle_mode c.fd command s ≡ apply_changes c name changes s =
      ground (arith, found, r, given, begins, there, op, read) in
    ap (λ (t : Server). lookup key t.channels) same_server
    ∙ (apply_changes-IsWritten name c changes s channel there).channels key
