-- ===== src/Tests.antt =====
-- The servers on which the theorems are tried: two registered clients, alice (descriptor 4) and bob
-- (descriptor 5), and the channel #c, where alice is an operator and bob is a member.
pub mod State
pub mod Input
pub mod Access
pub mod Effects
pub mod Entries
pub mod Starting
pub mod Commands
use irc.Base.{ℕ, Bool, true, false, [], ◌∷◌, List, ◌≡◌, refl, nat_ord, Option, some, none}
use irc.Map.{Map, lookup}
use irc.Text.{Text, codes}
use irc.Channel.{Channel, Member}
use irc.Client.{Client}
use irc.Command.{Command}
use irc.Server.{Server, PollFd, Events}
use irc.Connection.{no_events, accepted, accept_failed, bytes}
use irc.Loop.{System}

abbrev pub named_client : ℕ → Text → Client
named_client fd nickname = record {
  nickname = nickname;
  username = b'u' ∷ [];
  realname = b'r' ∷ [];
  password_accepted = true;
  has_user = true;
  registered = true;
  fd = fd;
  output_buffer = [];
  input_buffer = [];
  disconnect_requested = false;
  disconnect_reason = [];
}

abbrev pub alice : Client
alice = named_client 4 (b'a' ∷ [])

abbrev pub bob : Client
bob = named_client 5 (b'B' ∷ [])

abbrev pub channel_name : Text
channel_name = b'#' ∷ b'c' ∷ []

abbrev pub both : Map ℕ Member
both = (4, record { is_operator = true }) ∷ (5, record { is_operator = false }) ∷ []

abbrev pub test_channel : Channel
test_channel = record {
  name = channel_name;
  topic = [];
  members = both;
  invited_users = [];
  invite_only = false;
  topic_restricted = false;
  has_key = false;
  key = [];
  has_user_limit = false;
  user_limit = 0;
}

abbrev pub polled : ℕ → PollFd
polled fd = record { fd = fd; wants_in = true; wants_out = false; revents = no_events }

abbrev pub test_server : Server
test_server = record {
  listener_fd = 3;
  password = b'p' ∷ [];
  poll_fds = polled 3 ∷ polled 4 ∷ polled 5 ∷ [];
  clients = (4, alice) ∷ (5, bob) ∷ [];
  nickname_index = (b'a' ∷ [], 4) ∷ (b'b' ∷ [], 5) ∷ [];
  channels = (channel_name, test_channel) ∷ [];
  open_fds = (3, tt) ∷ (4, tt) ∷ (5, tt) ∷ [];
}

abbrev pub command_of : Text → List Text → Command
command_of name parameters = record { valid = true; name = name; parameters = parameters }

-- Each descriptor is readable in each round: a connection is accepted unless descriptor 7 is in use,
-- and a client sends one line.
abbrev pub test_system : System
test_system round s = record {
  stop_requested = false;
  accepts = elim (lookup 7 s.clients) [ none ↦ accepted 7 true | some c ↦ accept_failed ];
  receives = bytes (codes "NICK z\n");
  sends = some 3;
}

abbrev pub readable : Events
readable = record no_events { pollin = true }
