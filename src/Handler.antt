-- ===== src/Handler.antt =====
-- srcs/Command: one handler for each command, and srcs/Server/ServerCommand.cpp, which picks it.
-- A handler takes the descriptor of its client, the command and the server.
pub mod Registration
pub mod Nick
pub mod Privmsg
pub mod Join
pub mod Topic
pub mod Kick
pub mod Invite
pub mod Mode
pub mod Dispatch
pub mod Keeps
