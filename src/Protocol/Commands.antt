-- ===== src/Protocol/Commands.antt =====
-- The commands implement the protocol.
use Prim.Native.String.{String}
use irc.Base.{Bool, ◌≡◌, some, nat_ord, ◌==◌, ==_eq}
use irc.Map.{lookup}
use irc.Text.{codes, text_ord}
use irc.Client.{Client}
use irc.Command.{Command}
use irc.Server.{Server}
use irc.Server.Send.Frames.{quiet}
use irc.Handler.Dispatch.{dispatch_command}
use irc.Protocol.{Acts}
use irc.Protocol.Runs.{Runs, replied}
use irc.Protocol.Rules.{by_if}
use irc.Protocol.Registering.{
  handle_ping-Acts, handle_quit-Acts, handle_cap-Acts, handle_pass-Acts, handle_user-Acts,
}
use irc.Protocol.Renaming.{handle_nick-Acts}
use irc.Protocol.Joining.{handle_privmsg-Acts, handle_join-Acts}
use irc.Protocol.Channels.{handle_topic-Acts, handle_kick-Acts, handle_invite-Acts}
use irc.Protocol.Moding.{handle_mode-Acts}

-- Whatever the command of a client, the state that it leaves, apart from pending output, is reached by
-- changes that the protocol allows that client and that command.
pub dispatch_command-Acts :
    (c : Client) (command : Command) (s : Server)
    → lookup c.fd s.clients ≡ some c
    → Acts c.fd command (quiet s) (quiet (dispatch_command c.fd command s))
unfolding dispatch_command
dispatch_command-Acts c command s found =
    by_if Here (is "PING") (λ _. handle_ping-Acts c command s found)
      λ _.
        by_if Here (is "QUIT") (λ _. handle_quit-Acts c command s found)
          λ _.
            by_if Here (is "CAP") (λ _. handle_cap-Acts c command s found)
              λ _.
                by_if Here (is "PASS") (λ e. handle_pass-Acts c command s found (==_eq _ _ e))
                  λ _.
                    by_if Here (is "USER") (λ e. handle_user-Acts c command s found (==_eq _ _ e))
                      λ _.
                        by_if Here (is "NICK")
                          (λ e. handle_nick-Acts c command s found (==_eq _ _ e))
                          λ _.
                            by_if Here (is "PRIVMSG") (λ _. handle_privmsg-Acts c command s found)
                              λ _.
                                by_if Here (is "JOIN")
                                  (λ e. handle_join-Acts c command s found (==_eq _ _ e))
                                  λ _.
                                    by_if Here (is "TOPIC")
                                      (λ e. handle_topic-Acts c command s found (==_eq _ _ e))
                                      λ _.
                                        by_if Here (is "KICK")
                                          (λ e. handle_kick-Acts c command s found (==_eq _ _ e))
                                          λ _.
                                            by_if Here (is "INVITE")
                                              (λ e.
                                                handle_invite-Acts c command s found (==_eq _ _ e))
                                              λ _.
                                                by_if Here (is "MODE")
                                                  (λ e.
                                                    handle_mode-Acts c command (==_eq _ _ e) s
                                                      found)
                                                  λ _. replied c.fd command s c.fd _ _
  where
    Here : Server → Type 0
    Here = Runs c.fd command s

    is : String → Bool
    is name = command.name == codes name
