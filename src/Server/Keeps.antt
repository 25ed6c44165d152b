-- ===== src/Server/Keeps.antt =====
-- The writes that the senders (srcs/Server/ServerSend.cpp, srcs/Server/ServerUtils.cpp) and the handlers
-- of the commands are made of, and the rule that a property kept by these is kept by the senders.
use irc.Base.{
  ℕ, ◌+◌, ◌-◌, ◌≤◌, Bool, false, ◌||◌, ltb, length, arith, ◌==◌, true, ◌≡◌, [], ◌∷◌, Option, some,
  nat_ord,
}
use irc.Map.{Map, lookup, modify}
use irc.Text.{Text}
use irc.Channel.{Channel, Member}
use irc.Client.{Client, append_output, request_disconnect, output_size}
use irc.Server.{Server, modify_client, find_client}
use irc.Server.Send.{
  queue_raw, arm_pollout, max_pending_output, exceeded, queue_line, send_numeric, send_to,
  is_excluded, broadcast_members, broadcast_to_channel, send_to_all, send_channel_names,
  send_welcome,
}
use irc.Server.Cleanup.{cleanup_client_irc_state, quit_line, quit_recipients}
use irc.Protocol.Rules.{by_if, by_option}

-- A write of one client that leaves its descriptor and its buffers alone, and takes back no request to
-- disconnect it.
pub record IsCalm (f : Client → Client) : Type 0 where
  pub fd : (c : Client) → (f c).fd ≡ c.fd
  pub output : (c : Client) → (f c).output_buffer ≡ c.output_buffer
  pub input : (c : Client) → (f c).input_buffer ≡ c.input_buffer
  pub leaving : (c : Client) → c.disconnect_requested ≡ true → (f c).disconnect_requested ≡ true

-- The test for too much output is one for the sum.
room_lem :
    (most more now : ℕ) → (ltb most more || ltb (most - more) now) ≡ false → now + more ≤ most
room_lem most more now h = ground (arith, h)

-- What queue_raw may do: nothing, a request to disconnect, or more output in a buffer with room for it.
module _ (P : Server → Type 0) (fd : ℕ) (bytes : Text) (s : Server) where
  pub queue_raw_cases :
      P s
      → P (modify_client fd (request_disconnect exceeded) s)
      → ((c : Client)
          → lookup fd s.clients ≡ some c
          → length c.output_buffer + length bytes ≤ max_pending_output
          → P (record s {
            clients = modify fd (append_output bytes) s.clients;
            poll_fds = arm_pollout fd s.poll_fds;
          }))
      → P (queue_raw fd bytes s).0
  unfolding queue_raw find_client output_size
  queue_raw_cases unchanged cut appended =
      by_option First (find_client fd s) (λ _. unchanged)
        λ c found.
          by_if First c.disconnect_requested (λ _. unchanged)
            λ _.
              by_if First (length bytes == 0) (λ _. unchanged)
                λ _.
                  by_if First
                    (ltb max_pending_output (length bytes)
                      || ltb (max_pending_output - length bytes) (output_size c))
                    (λ _. cut)
                    λ h.
                      appended c found
                        (room_lem max_pending_output (length bytes) (output_size c) h)
    where
      First : Server × Bool → Type 0
      First result = P result.0

-- A property that no queued output, no calm write of a client and no write of the channels or of the
-- nickname index breaks.
pub record IsKept (P : Server → Type 0) : Type 0 where
  pub queued : (fd : ℕ) (bytes : Text) (s : Server) → P s → P (queue_raw fd bytes s).0
  pub written :
      (fd : ℕ) (f : Client → Client) (s : Server) → IsCalm f → P s → P (modify_client fd f s)
  pub shared :
      (channels : Map Text Channel) (index : Map Text ℕ) (s : Server)
      → P s
      → P (record s { channels = channels; nickname_index = index })

module _ (P : Server → Type 0) (kept : IsKept P) where
  pub queue_line_keeps : (fd : ℕ) (line : Text) (s : Server) → P s → P (queue_line fd line s).0
  unfolding queue_line
  queue_line_keeps fd line s p = kept.queued fd _ s p

  pub send_numeric_keeps :
      (fd : ℕ) (numeric arguments : Text) (s : Server)
      → P s
      → P (send_numeric fd numeric arguments s)
  unfolding send_numeric
  send_numeric_keeps fd numeric arguments s p =
      by_option P (find_client fd s) (λ _. p) (λ c _. queue_line_keeps fd _ s p)

  pub send_to_keeps : (fd : ℕ) (message : Text) (s : Server) → P s → P (send_to fd message s)
  unfolding send_to
  send_to_keeps fd message s p =
      by_option P (find_client fd s) (λ _. p) (λ c _. queue_line_keeps fd message s p)

  broadcast_members_keeps :
      (exclude : Option ℕ) (message : Text) (ms : Map ℕ Member) (s : Server)
      → P s
      → P (broadcast_members exclude message ms s)
  unfolding broadcast_members
  broadcast_members_keeps exclude message [] s p = p
  broadcast_members_keeps exclude message ((fd, m) ∷ ms) s p =
      broadcast_members_keeps exclude message ms _
        (by_if P (is_excluded exclude fd) (λ _. p) (λ _. send_to_keeps fd message s p))

  pub broadcast_to_channel_keeps :
      (channel : Channel) (message : Text) (exclude : Option ℕ) (s : Server)
      → P s
      → P (broadcast_to_channel channel message exclude s)
  unfolding broadcast_to_channel
  broadcast_to_channel_keeps channel message exclude s =
      broadcast_members_keeps exclude message channel.members s

  pub send_to_all_keeps :
      (message : Text) (fds : Map ℕ (Unit {0})) (s : Server) → P s → P (send_to_all message fds s)
  unfolding send_to_all
  send_to_all_keeps message [] s p = p
  send_to_all_keeps message ((fd, u) ∷ fds) s p =
      send_to_all_keeps message fds _ (send_to_keeps fd message s p)

  pub send_channel_names_keeps :
      (fd : ℕ) (channel : Channel) (s : Server) → P s → P (send_channel_names fd channel s)
  unfolding send_channel_names
  send_channel_names_keeps fd channel s p =
      send_numeric_keeps fd _ _ _ (send_numeric_keeps fd _ _ s p)

  pub send_welcome_keeps : (fd : ℕ) (s : Server) → P s → P (send_welcome fd s)
  unfolding send_welcome
  send_welcome_keeps fd s p =
      by_option P (find_client fd s) (λ _. p)
        (λ c _. send_numeric_keeps fd _ _ _ (send_numeric_keeps fd _ _ s p))

  pub cleanup_client_irc_state_keeps :
      (c : Client) (s : Server) → P s → P (cleanup_client_irc_state c s)
  unfolding cleanup_client_irc_state
  cleanup_client_irc_state_keeps c s p = kept.shared _ _ _ (
      by_if P c.registered
        (λ _. send_to_all_keeps (quit_line c) (quit_recipients c.fd s.channels []) s p) (λ _. p))
