-- ===== src/Handler/Keeps/Dispatch.antt =====
-- The dispatch of a command, and a complete line.
use Prim.Native.String.{String}
use irc.Base.{ℕ, Bool, not, ◌==◌}
use irc.Text.{Text, codes, text_ord}
use irc.Command.{Command, parse}
use irc.Server.{Server}
use irc.Server.Keeps.{IsKept}
use irc.Handler.Dispatch.{handle_unknown_command, dispatch_command, handle_complete_line}
use irc.Protocol.Rules.{by_if}
use irc.Handler.Keeps.Identity.{
  handle_ping_keeps, handle_quit_keeps, handle_cap_keeps, handle_pass_keeps, handle_user_keeps,
  handle_nick_keeps,
}
use irc.Handler.Keeps.Channels.{
  said, handle_privmsg_keeps, handle_join_keeps, handle_topic_keeps, handle_kick_keeps,
  handle_invite_keeps,
}
use irc.Handler.Keeps.Modes.{handle_mode_keeps}

module _ (P : Server → Type 0) (kept : IsKept P) (fd : ℕ) where
  -- One test of the chain.
  named_or :
      (command : Command) (name : String) {x y : Server}
      → P x
      → P y
      → P (irc.Base.if◌then◌else◌ (command.name == codes name) x y)
  named_or command name p q = by_if P (command.name == codes name) (λ _. p) (λ _. q)

  dispatch_command_keeps :
      (command : Command) (s : Server) → P s → P (dispatch_command fd command s)
  unfolding dispatch_command handle_unknown_command
  dispatch_command_keeps command s p =
      named_or command "PING" (handle_ping_keeps P kept fd command s p) (
        named_or command "QUIT" (handle_quit_keeps P kept fd command s p) (
          named_or command "CAP" (handle_cap_keeps P kept fd command s p) (
            named_or command "PASS" (handle_pass_keeps P kept fd command s p) (
              named_or command "USER" (handle_user_keeps P kept fd command s p) (
                named_or command "NICK" (handle_nick_keeps P kept fd command s p) (
                  named_or command "PRIVMSG" (handle_privmsg_keeps P kept fd command s p) (
                    named_or command "JOIN" (handle_join_keeps P kept fd command s p) (
                      named_or command "TOPIC" (handle_topic_keeps P kept fd command s p) (
                        named_or command "KICK" (handle_kick_keeps P kept fd command s p) (
                          named_or command "INVITE" (handle_invite_keeps P kept fd command s p) (
                            named_or command "MODE" (handle_mode_keeps P kept fd command s p)
                              (said P kept fd s p _ _ tt))))))))))))

  pub handle_complete_line_keeps :
      (line : Text) (s : Server) → P s → P (handle_complete_line fd line s)
  unfolding handle_complete_line
  handle_complete_line_keeps line s p =
      by_if P (not (parse line).valid) (λ _. p) (λ _. dispatch_command_keeps (parse line) s p)
