-- ===== src/Handler/Dispatch.antt =====
-- dispatchCommand and handleUnknownCommand (srcs/Server/ServerCommand.cpp), and handleCompleteLine
-- (srcs/Server/ServerSend.cpp).
use irc.Base.{ℕ, not, ◌++◌, ◌==◌, if◌then◌else◌}
use irc.Text.{Text, codes, text_ord}
use irc.Command.{Command, parse}
use irc.Server.{Server}
use irc.Server.Send.{send_numeric}
use irc.Handler.Registration.{handle_ping, handle_quit, handle_cap, handle_pass, handle_user}
use irc.Handler.Nick.{handle_nick}
use irc.Handler.Privmsg.{handle_privmsg}
use irc.Handler.Join.{handle_join}
use irc.Handler.Topic.{handle_topic}
use irc.Handler.Kick.{handle_kick}
use irc.Handler.Invite.{handle_invite}
use irc.Handler.Mode.{handle_mode}

unfoldable pub handle_unknown_command : ℕ → Command → Server → Server
handle_unknown_command fd command s =
    send_numeric fd (codes "421") (command.name ++ codes " :Unknown command") s

unfoldable pub dispatch_command : ℕ → Command → Server → Server
unfolding handle_unknown_command
dispatch_command fd command s =
    if command.name == codes "PING"
    then handle_ping fd command s
    else if command.name == codes "QUIT"
    then handle_quit fd command s
    else if command.name == codes "CAP"
    then handle_cap fd command s
    else if command.name == codes "PASS"
    then handle_pass fd command s
    else if command.name == codes "USER"
    then handle_user fd command s
    else if command.name == codes "NICK"
    then handle_nick fd command s
    else if command.name == codes "PRIVMSG"
    then handle_privmsg fd command s
    else if command.name == codes "JOIN"
    then handle_join fd command s
    else if command.name == codes "TOPIC"
    then handle_topic fd command s
    else if command.name == codes "KICK"
    then handle_kick fd command s
    else if command.name == codes "INVITE"
    then handle_invite fd command s
    else if command.name == codes "MODE"
    then handle_mode fd command s
    else handle_unknown_command fd command s

unfoldable pub handle_complete_line : ℕ → Text → Server → Server
unfolding dispatch_command
handle_complete_line fd line s =
    let command = parse line in if not command.valid then s else dispatch_command fd command s
