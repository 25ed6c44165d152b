-- ===== src/Lib.antt =====
-- ft_irc: an IRC server on one poll() loop. The program's parts are the loop over the
-- descriptors, the connections with their buffers, the parser of command lines, the
-- handlers of the commands, and the state that these share: clients by descriptor, the
-- index of the folded nicknames, and the channels by folded name.
--
-- The model, by file of this library and path in the repository:
--   Map, Map/Laws, Map/Sorted          std::map and std::set as ordered association lists
--   Text                               std::string as codes; srcs/Utils.cpp (ircCaseFold)
--   Channel                            includes/Channel.hpp, srcs/Channel.cpp
--   Client                             includes/Client.hpp, srcs/Client.cpp, srcs/ClientRegister.cpp
--   Command                            srcs/Command/Command.cpp (Command::parse)
--   Number                             the number extractions of srcs/main.cpp (checkPort) and
--                                      srcs/Command/ModeApply.cpp (parsePositiveUserLimit)
--   Server                             includes/Server.hpp and the look-ups of srcs/Server/ServerUtils.cpp
--   Server/Send                        srcs/Server/ServerSend.cpp, broadcastToChannel, sendChannelNames
--   Server/Cleanup                     cleanupClientIrcState (srcs/Server/Server.cpp)
--   Handler/Registration               srcs/Command/Ping, Quit, Cap, Pass, User; tryCompleteRegistration
--   Handler/Nick, Privmsg, Join, Topic, Kick, Invite
--                                      srcs/Command/<the same name>.cpp
--   Handler/Mode, Mode/Change, Mode/Apply
--                                      srcs/Command/Mode.cpp and srcs/Command/ModeApply.cpp
--   Handler/Dispatch                   srcs/Server/ServerCommand.cpp, handleCompleteLine
--   Connection                         srcs/Server/ServerSocket.cpp, flushClientOutput, addPollFd
--   Loop                               Server::run, removeDisconnectedClients
--   Startup                            createListeningSocket, installSignalHandlers, the constructor and
--                                      the destructor of Server, main
-- The abstract view: Protocol is the step relation of what a client may change by a command, with
-- Protocol/Writing for the changes of a MODE,
-- WellFormed the invariant of the shared state, Polling the invariant of the entries that poll()
-- gets and of the sockets; the files under them are their proofs. Protocol/Modes,
-- Protocol/Messages and Protocol/Topics describe what MODE, PRIVMSG and TOPIC are to do apart from
-- their handlers, Number/Written how a number is spelled, and Protocol/Turns which commands are for
-- clients that are registered. Client/Fragments takes every line of an input, to compare it with
-- the arrival of the input in parts. Server/Keeps and Handler/Keeps are the rule that carries an
-- invariant of the writes to the commands. Tests applies the theorems to servers with two clients.
--
-- How the source is read. A Client & or Client * is the descriptor under which the map of the
-- clients holds the object, a Channel * is the folded name under which the map of the channels
-- holds it; a write through the pointer is a modify of that entry. A handler is a function from
-- the server before to the server after. Exceptions are the constructor thrown of Outcome. What
-- the system calls return is an argument: of one operation in Connection, of each round of the
-- loop in Loop (Io, System), of each call of poll() (Polled). accept() returns a descriptor that
-- is not open, or only one that no client has, which is a hypothesis where it is needed. The field
-- open_fds of a server holds the sockets of the process, which accept() and close() change. POLLIN
-- and POLLOUT in events are Booleans, an excluded descriptor -1 is none, unsigned long and
-- std::size_t have 64 bits, and streams read in the classic locale. The view quiet of a server
-- leaves out pending output, requests to disconnect and the interest in POLLOUT: sending changes
-- nothing else.
--
-- Fuel. The loop over the parameters of a line has one more than the size of the line, each
-- round takes a character. The loop over the lines of an input buffer has one more than its
-- size, each line takes its newline. The loop over the descriptors has two more than there are
-- entries: a round moves on or removes an entry, and one is accepted at most. The removal of
-- disconnected clients has one more than there are entries. Both stop where they are when the fuel
-- is used up; Polling/Fuel and WellFormed/Removal describe the loops without a fuel, by what they
-- end with. The loop of run is watched for a number of calls of poll(), which are numbered by how
-- many are watched behind them; Ran and Process tell whether the loop and main have ended by then.
--
-- Not modelled: the parameters of the system calls that make the listening socket (the address and
-- the port), handleSignal (the stop flag is an argument of each round), what is printed on the
-- standard streams and with the flag _debug, allocations that fail, and Member::_client, which is
-- NULL and never read.
pub mod Base
pub mod Map
pub mod Text
pub mod Channel
pub mod Client
pub mod Command
pub mod Number
pub mod Server
pub mod Handler
pub mod Connection
pub mod Loop
pub mod Protocol
pub mod WellFormed
pub mod Polling
pub mod Startup
pub mod Tests
