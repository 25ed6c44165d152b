-- ===== src/Server/Send/Frames.antt =====
-- Sending changes the pending output alone: the server without it, `quiet s`, stays as it was.
use irc.Base.{
  ℕ, ◌≡◌, refl, ◌∙◌, false, [], ◌∷◌, List, Option, some, inl, inr, map, arith, nat_ord,
  Option-cases,
}
use irc.Map.{Map, lookup, map_values}
use irc.Map.Laws.{map_values-modify_same, map_values-modify, lookup-map_values}
use irc.Text.{Text}
use irc.Channel.{Channel, Member}
use irc.Client.{Client, append_output, request_disconnect}
use irc.Server.{Server, PollFd, modify_client, find_client}
use irc.Server.Send.{
  arm_pollout, queue_raw, queue_line, send_numeric, send_to, broadcast_members,
  broadcast_to_channel, send_to_all, send_channel_names, send_welcome, exceeded,
}

-- A client without its pending output and its request to be disconnected.
abbrev pub core : Client → Client
core client = record client {
  output_buffer = [];
  disconnect_requested = false;
  disconnect_reason = [];
}

abbrev pub core_poll : PollFd → PollFd
core_poll p = record p { wants_out = false }

unfoldable pub quiet : Server → Server
quiet s = record s { clients = map_values core s.clients; poll_fds = map core_poll s.poll_fds }

core-append_output : (bytes : Text) (c : Client) → core (append_output bytes c) ≡ core c
unfolding append_output
core-append_output bytes c = refl

pub core-request_disconnect :
    (reason : Text) (c : Client) → core (request_disconnect reason c) ≡ core c
unfolding request_disconnect
core-request_disconnect reason c = refl

core_poll-arm_pollout :
    (fd : ℕ) (ps : List PollFd) → map core_poll (arm_pollout fd ps) ≡ map core_poll ps
unfolding arm_pollout
core_poll-arm_pollout fd [] = refl
core_poll-arm_pollout fd (p ∷ ps) = ground (arith, core_poll-arm_pollout fd ps)

pub quiet-modify_client :
    (fd : ℕ) (f : Client → Client) (s : Server)
    → ((c : Client) → core (f c) ≡ core c)
    → quiet (modify_client fd f s) ≡ quiet s
unfolding quiet
quiet-modify_client fd f s h = rw (map_values-modify_same core fd f s.clients h)

pub quiet-queue_raw :
    (fd : ℕ) (bytes : Text) (s : Server) → quiet (queue_raw fd bytes s).0 ≡ quiet s
unfolding queue_raw quiet
quiet-queue_raw fd bytes s = ground (
  arith,
  map_values-modify_same core fd (request_disconnect exceeded) s.clients
      (core-request_disconnect exceeded),
  map_values-modify_same core fd (append_output bytes) s.clients (core-append_output bytes),
  core_poll-arm_pollout fd s.poll_fds,
)

pub quiet-queue_line :
    (fd : ℕ) (line : Text) (s : Server) → quiet (queue_line fd line s).0 ≡ quiet s
unfolding queue_line
quiet-queue_line fd line s = quiet-queue_raw fd _ s

pub quiet-send_to : (fd : ℕ) (message : Text) (s : Server) → quiet (send_to fd message s) ≡ quiet s
unfolding send_to
quiet-send_to fd message s = ground (arith, quiet-queue_line fd message s)

pub quiet-send_numeric :
    (fd : ℕ) (numeric arguments : Text) (s : Server)
    → quiet (send_numeric fd numeric arguments s) ≡ quiet s
unfolding send_numeric
quiet-send_numeric fd numeric arguments s = elim (Option-cases (find_client fd s)) [
  | inl e ↦ rw (e, send_numeric)
  | inr (c, e) ↦ rw (e, send_numeric) (quiet-queue_line fd _ s)
]

quiet-broadcast_members :
    (exclude : Option ℕ) (message : Text) (ms : Map ℕ Member) (s : Server)
    → quiet (broadcast_members exclude message ms s) ≡ quiet s
unfolding broadcast_members
quiet-broadcast_members exclude message [] s = refl
quiet-broadcast_members exclude message ((fd, m) ∷ ms) s =
    quiet-broadcast_members exclude message ms _ ∙ ground (arith, quiet-send_to fd message s)

pub quiet-broadcast_to_channel :
    (channel : Channel) (message : Text) (exclude : Option ℕ) (s : Server)
    → quiet (broadcast_to_channel channel message exclude s) ≡ quiet s
unfolding broadcast_to_channel
quiet-broadcast_to_channel channel message exclude s =
    quiet-broadcast_members exclude message channel.members s

pub quiet-send_to_all :
    (message : Text) (fds : Map ℕ (Unit {0})) (s : Server)
    → quiet (send_to_all message fds s) ≡ quiet s
unfolding send_to_all
quiet-send_to_all message [] s = refl
quiet-send_to_all message ((fd, u) ∷ fds) s =
    quiet-send_to_all message fds _ ∙ quiet-send_to fd message s

pub quiet-send_channel_names :
    (fd : ℕ) (channel : Channel) (s : Server) → quiet (send_channel_names fd channel s) ≡ quiet s
unfolding send_channel_names
quiet-send_channel_names fd channel s = quiet-send_numeric fd _ _ _ ∙ quiet-send_numeric fd _ _ s

pub quiet-send_welcome : (fd : ℕ) (s : Server) → quiet (send_welcome fd s) ≡ quiet s
unfolding send_welcome
quiet-send_welcome fd s = elim (Option-cases (find_client fd s)) [
  | inl e ↦ rw (e, send_welcome)
  | inr (c, e) ↦ rw (e, send_welcome) (quiet-send_numeric fd _ _ _ ∙ quiet-send_numeric fd _ _ s)
]

-- A write of what `core` keeps.
pub quiet-modify_core :
    (fd : ℕ) (f : Client → Client) (s : Server)
    → ((c : Client) → core (f c) ≡ f (core c))
    → quiet (modify_client fd f s) ≡ modify_client fd f (quiet s)
unfolding quiet
quiet-modify_core fd f s h = rw (map_values-modify core fd f f s.clients h)

pub lookup-quiet :
    (fd : ℕ) {c : Client} (s : Server)
    → lookup fd s.clients ≡ some c
    → lookup fd (quiet s).clients ≡ some (core c)
unfolding quiet
lookup-quiet fd s e = rw (lookup-map_values core fd s.clients, e)

-- Every sender, for `simp`.
pub ruleset sending = (
  quiet-queue_raw, quiet-queue_line, quiet-send_to, quiet-send_numeric, quiet-broadcast_to_channel,
  quiet-send_to_all, quiet-send_channel_names, quiet-send_welcome,
)
