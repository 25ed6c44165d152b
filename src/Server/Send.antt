-- ===== src/Server/Send.antt =====
-- srcs/Server/ServerSend.cpp and the broadcasts of srcs/Server/ServerUtils.cpp: what is queued for the
-- clients.
pub mod Frames
pub mod Delivery
use irc.Base.{
  ℕ, ◌*◌, ◌-◌, Bool, true, false, ◌||◌, not, [], ◌∷◌, ◌++◌, List, Option, none, some, ◌==◌, nat_ord,
  ltb, length, is_empty, if◌then◌else◌,
}
use irc.Map.{Map}
use irc.Text.{Text, codes}
use irc.Channel.{Channel, Member}
use irc.Client.{Client, append_output, output_size, request_disconnect, has_nickname, prefix}
use irc.Server.{Server, PollFd, find_client, modify_client}

abbrev pub max_pending_output : ℕ
max_pending_output = 8 * 1024 * 1024

-- `events |= POLLOUT` at the first entry of the descriptor.
unfoldable pub arm_pollout : ℕ → List PollFd → List PollFd
arm_pollout fd [] = []
arm_pollout fd (p ∷ rest) =
    if p.fd == fd then record p { wants_out = true } ∷ rest else p ∷ arm_pollout fd rest

pub exceeded : Text
exceeded = codes "Exceeded Client OutputBuffer"

unfoldable pub queue_raw : ℕ → Text → Server → Server × Bool
unfolding find_client arm_pollout output_size exceeded
queue_raw fd bytes s = elim (find_client fd s) [
  | none ↦ (s, false)
  | some client ↦
      if client.disconnect_requested
      then (s, false)
      else if length bytes == 0
      then (s, true)
      else if ltb max_pending_output (length bytes)
          || ltb (max_pending_output - length bytes) (output_size client)
      then (modify_client fd (request_disconnect exceeded) s, false)
      else (
        record s {
          clients = (modify_client fd (append_output bytes) s).clients;
          poll_fds = arm_pollout fd s.poll_fds;
        },
        true,
      )
]

abbrev pub crlf : Text
crlf = 13 ∷ 10 ∷ []

unfoldable pub queue_line : ℕ → Text → Server → Server × Bool
queue_line fd line s = queue_raw fd (line ++ crlf) s

-- The line of a numeric reply to the client.
unfoldable pub numeric_line : Client → Text → Text → Text
unfolding has_nickname
numeric_line client numeric arguments =
    let target : Text = if has_nickname client then client.nickname else codes "*" in
    let reply : Text = codes ":ircserv " ++ numeric ++ codes " " ++ target in
    if is_empty arguments then reply else reply ++ codes " " ++ arguments

unfoldable pub send_numeric : ℕ → Text → Text → Server → Server
unfolding find_client
send_numeric fd numeric arguments s = elim (find_client fd s) [
  | none ↦ s
  | some client ↦ (queue_line fd (numeric_line client numeric arguments) s).0
]

-- Queues the line for a descriptor that belongs to a client.
unfoldable pub send_to : ℕ → Text → Server → Server
unfolding find_client
send_to fd message s = elim (find_client fd s) [
  | none ↦ s
  | some client ↦ (queue_line fd message s).0
]

-- `excludeFd`: none stands for -1, which is no descriptor.
abbrev pub is_excluded : Option ℕ → ℕ → Bool
is_excluded none fd = false
is_excluded (some excluded) fd = fd == excluded

unfoldable pub broadcast_members : Option ℕ → Text → Map ℕ Member → Server → Server
unfolding send_to
broadcast_members exclude message [] s = s
broadcast_members exclude message ((fd, m) ∷ rest) s =
    broadcast_members exclude message rest
      (if is_excluded exclude fd then s else send_to fd message s)

unfoldable pub broadcast_to_channel : Channel → Text → Option ℕ → Server → Server
unfolding broadcast_members
broadcast_to_channel channel message exclude s = broadcast_members exclude message channel.members s

-- One line to each descriptor of a `std::set<int>`.
unfoldable pub send_to_all : Text → Map ℕ (Unit {0}) → Server → Server
unfolding send_to
send_to_all message [] s = s
send_to_all message ((fd, u) ∷ rest) s = send_to_all message rest (send_to fd message s)

unfoldable pub names_list : Server → Text → Map ℕ Member → Text
unfolding find_client
names_list s names [] = names
names_list s names ((fd, m) ∷ rest) =
    let next : Text = elim (find_client fd s) [
      | none ↦ names
      | some client ↦
          names
          ++ (if is_empty names then [] else codes " ")
          ++ (if m.is_operator then codes "@" else [])
          ++ client.nickname
    ] in
    names_list s next rest

unfoldable pub send_channel_names : ℕ → Channel → Server → Server
unfolding names_list
send_channel_names fd channel s =
    let names = names_list s [] channel.members in
    send_numeric fd (codes "366") (channel.name ++ codes " :End of /NAMES list")
      (send_numeric fd (codes "353") (codes "= " ++ channel.name ++ codes " :" ++ names) s)

-- `SendWelcome`
unfoldable pub send_welcome : ℕ → Server → Server
unfolding find_client prefix
send_welcome fd s = elim (find_client fd s) [
  | none ↦ s
  | some client ↦ send_numeric fd (codes "376") (codes ":End of MOTD command") (
      send_numeric fd (codes "001")
        (codes ":Welcome to this really awesome IRC server !" ++ prefix client) s)
]
