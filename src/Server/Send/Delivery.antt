-- ===== src/Server/Send/Delivery.antt =====
-- Who receives what: queueRaw (srcs/Server/ServerSend.cpp) and broadcastToChannel
-- (srcs/Server/ServerUtils.cpp), client by client.
use irc.Base.{
  ℕ, ◌+◌, ◌≤◌, not, ◌&&◌, ◌≡◌, refl, [], ◌∷◌, ◌++◌, length, Option, some, inl, inr, ◌==◌, ==_eq,
  nat_ord, arith, ltb, if◌then◌else◌, Option-cases, Bool-cases, length-append,
}
use mathlib.Core.Option
use irc.Map.{Map, lookup, member}
use irc.Map.Laws.{lookup-modify}
use irc.Map.Sorted.{Sorted, lookup-Above}
use irc.Text.{Text}
use irc.Channel.{Channel, Member, has_member}
use irc.Client.{Client, append_output, request_disconnect, output_size}
use irc.Server.{Server, find_client}
use irc.Server.Send.{
  max_pending_output, queue_raw, queue_line, send_to, broadcast_members, broadcast_to_channel,
  is_excluded, crlf, exceeded,
}

-- The client once the bytes are queued for it, or refused.
unfoldable pub delivered : Text → Client → Client
unfolding append_output request_disconnect
delivered bytes c =
    if c.disconnect_requested
    then c
    else if ltb max_pending_output (length c.output_buffer + length bytes)
    then request_disconnect exceeded c
    else append_output bytes c

pub lookup-queue_line :
    (fd g : ℕ) (line : Text) (s : Server)
    → lookup g (queue_line fd line s).0.clients ≡ (
        if fd == g
        then Option.map (delivered (line ++ crlf)) (lookup g s.clients)
        else lookup g s.clients)
unfolding queue_line queue_raw find_client output_size delivered
lookup-queue_line fd g line s = elim (Option-cases (lookup fd s.clients)) [
  | inl gone ↦ ground (arith, gone, ==_eq fd g)
  | inr (c, e) ↦ ground (
    arith,
    e,
    ==_eq fd g,
    length-append line crlf,
    lookup-modify fd g (append_output (line ++ crlf)) s.clients,
    lookup-modify fd g (request_disconnect exceeded) s.clients,
  )
]

lookup-send_to :
    (fd g : ℕ) (message : Text) (s : Server)
    → lookup g (send_to fd message s).clients ≡ (
        if fd == g
        then Option.map (delivered (message ++ crlf)) (lookup g s.clients)
        else lookup g s.clients)
unfolding send_to find_client
lookup-send_to fd g message s = elim (Option-cases (lookup fd s.clients)) [
  | inl gone ↦ ground (arith, gone, ==_eq fd g)
  | inr (c, e) ↦ rw (e, send_to, find_client) (lookup-queue_line fd g message s)
]

lookup-broadcast_members :
    (exclude : Option ℕ) (message : Text) (ms : Map ℕ Member) (s : Server) (g : ℕ)
    → Sorted ms
    → lookup g (broadcast_members exclude message ms s).clients ≡ (
        if member g ms && not (is_excluded exclude g)
        then Option.map (delivered (message ++ crlf)) (lookup g s.clients)
        else lookup g s.clients)
unfolding broadcast_members member lookup
lookup-broadcast_members exclude message [] s g sorted = refl
lookup-broadcast_members exclude message ((fd, m) ∷ ms) s g sorted =
    let rest =
      lookup-broadcast_members exclude message ms
        (if is_excluded exclude fd then s else send_to fd message s) g sorted.1 in
    elim (Bool-cases (fd == g)) [
      | inl same ↦ ground (
        arith,
        rest,
        same,
        ==_eq fd g same,
        lookup-Above fd ms sorted.0,
        lookup-send_to fd g message s,
      )
      | inr other ↦ ground (arith, rest, other, lookup-send_to fd g message s)
    ]

-- A broadcast to a channel whose members are in the order of their descriptors reaches each member that
-- is not excluded exactly once, and changes no other client: a member that is to be disconnected is left
-- as it is, one whose output would exceed 8 MiB is to be disconnected, any other gets the line behind
-- its output.
pub lookup-broadcast_to_channel :
    (channel : Channel) (message : Text) (exclude : Option ℕ) (s : Server) (g : ℕ)
    → Sorted channel.members
    → lookup g (broadcast_to_channel channel message exclude s).clients ≡ (
        if has_member g channel && not (is_excluded exclude g)
        then Option.map (delivered (message ++ crlf)) (lookup g s.clients)
        else lookup g s.clients)
unfolding broadcast_to_channel has_member
lookup-broadcast_to_channel channel message exclude s g sorted =
    lookup-broadcast_members exclude message channel.members s g sorted

delivered_bound :
    (bytes : Text) (c : Client)
    → length c.output_buffer ≤ max_pending_output
    → length (delivered bytes c).output_buffer ≤ max_pending_output
unfolding delivered append_output request_disconnect
delivered_bound bytes c h = ground (arith, h, length-append c.output_buffer bytes)

-- Broadcasting to a channel, whose members are in order, leaves no client with more than 8 MiB of
-- output that had 8 MiB at most before.
pub broadcast_to_channel_bound :
    (channel : Channel) (message : Text) (exclude : Option ℕ) (s : Server) (g : ℕ) (c d : Client)
    → Sorted channel.members
    → lookup g s.clients ≡ some c
    → length c.output_buffer ≤ max_pending_output
    → lookup g (broadcast_to_channel channel message exclude s).clients ≡ some d
    → length d.output_buffer ≤ max_pending_output
broadcast_to_channel_bound channel message exclude s g c d sorted before h after = ground (
  arith,
  before,
  after,
  h,
  delivered_bound (message ++ crlf) c h,
  lookup-broadcast_to_channel channel message exclude s g sorted,
)
