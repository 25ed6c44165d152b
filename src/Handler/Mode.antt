-- ===== src/Handler/Mode.antt =====
-- MODE (srcs/Command/Mode.cpp): the mode string and its arguments, read into changes, and the handler.
-- The changes are applied in Apply.
pub mod Change
pub mod Apply
pub mod Scan
use irc.Base.{ℕ, Bool, true, false, not, [], ◌∷◌, ◌++◌, List, Option, none, some, if◌then◌else◌}
use irc.Text.{Text, codes}
use irc.Channel.{Channel, is_member_operator}
use irc.Client.{Client}
use irc.Command.{Command}
use irc.Server.{Server, find_channel, with_client}
use irc.Server.Send.{send_numeric}
use irc.Handler.Mode.Change.{ModeChange, is_channel_target, parse_channel_mode_changes}
use irc.Handler.Mode.Apply.{apply_channel_mode_change}
use irc.Handler.Registration.{not_registered}

unfoldable pub apply_changes : Client → Text → List ModeChange → Server → Server
apply_changes client channel_name [] s = s
apply_changes client channel_name (change ∷ rest) s =
    apply_changes client channel_name rest (apply_channel_mode_change client channel_name change s)

unfoldable pub change_modes : Client → List Text → Text → Channel → Server → Server
unfolding is_member_operator apply_changes
change_modes client parameters target channel s =
    if not (is_member_operator client.fd channel)
    then send_numeric client.fd (codes "482") (target ++ codes " :You're not channel operator") s
    else elim (parse_channel_mode_changes parameters) [
      | none ↦ s
      | some changes ↦ apply_changes client target changes s
    ]

unfoldable pub handle_mode : ℕ → Command → Server → Server
unfolding change_modes is_channel_target find_channel not_registered
handle_mode fd command s = with_client fd s λ client.
    if not client.registered then not_registered fd s else elim command.parameters [
      | [] ↦ send_numeric fd (codes "461") (codes "MODE :Not enough parameters") s
      | target ∷ rest ↦ if not (is_channel_target target) then s else elim (find_channel target s) [
        | none ↦ send_numeric fd (codes "403") (target ++ codes " :No such channel") s
        | some channel ↦ elim rest [
          | [] ↦ s
          | modes ∷ more ↦ change_modes client (target ∷ modes ∷ more) target channel s
        ]
      ]
    ]
