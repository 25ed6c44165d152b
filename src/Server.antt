-- ===== src/Server.antt =====
-- includes/Server.hpp, and the lookups of srcs/Server/ServerUtils.cpp. A `Client *` or `Client &` is
-- the descriptor under which `clients` holds the object, a `Channel *` is the folded name under which
-- `channels` holds it: a write through the pointer is a `modify` there. `_debug` is off, and what is
-- printed on the standard streams is left out.
pub mod Send
pub mod Cleanup
pub mod Keeps
use irc.Base.{ℕ, Bool, List, Option, none, some, ◌==◌, nat_ord, if◌then◌else◌}
use irc.Map.{Map, lookup, modify}
use irc.Text.{Text, irc_case_fold, text_ord}
use irc.Channel.{Channel}
use irc.Client.{Client}

pub record Events : Type 0 where
  pub pollin : Bool
  pub pollout : Bool
  pub pollerr : Bool
  pub pollnval : Bool
  pub pollhup : Bool

-- `struct pollfd`: `events` has POLLIN and POLLOUT at most, one Boolean for each.
pub record PollFd : Type 0 where
  pub fd : ℕ
  pub wants_in : Bool
  pub wants_out : Bool
  pub revents : Events

-- `open_fds` is not a member of the source's class: it is the set of the sockets that the process has
-- open, which accept(), close() and the destructors change.
pub record Server : Type 0 where
  pub listener_fd : ℕ
  pub password : Text
  pub poll_fds : List PollFd
  pub clients : Map ℕ Client
  pub nickname_index : Map Text ℕ
  pub channels : Map Text Channel
  pub open_fds : Map ℕ (Unit {0})

unfoldable pub find_client : ℕ → Server → Option Client
find_client fd s = lookup fd s.clients

unfoldable pub find_client_by_nickname : Text → Server → Option Client
unfolding find_client
find_client_by_nickname nickname s = elim (lookup (irc_case_fold nickname) s.nickname_index) [
  | none ↦ none
  | some fd ↦ find_client fd s
]

unfoldable pub find_channel : Text → Server → Option Channel
find_channel name s = lookup (irc_case_fold name) s.channels

abbrev pub modify_client : ℕ → (Client → Client) → Server → Server
modify_client fd f s = record s { clients = modify fd f s.clients }

-- The channel that `find_channel` finds under the name.
abbrev pub modify_channel : Text → (Channel → Channel) → Server → Server
modify_channel name f s = record s { channels = modify (irc_case_fold name) f s.channels }

-- The object behind a `Client &`.
abbrev pub with_client : ℕ → Server → (Client → Server) → Server
with_client fd s run = elim (lookup fd s.clients) [ none ↦ s | some client ↦ run client ]
