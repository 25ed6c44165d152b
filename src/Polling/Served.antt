-- ===== src/Polling/Served.antt =====
-- Reading a connection (receiveFromClient of srcs/Server/ServerSocket.cpp) leaves the entries in order.
use irc.Base.{ℕ, zero, suc, Bool, false, ◌≡◌, refl, nat_ord}
use irc.Text.{Text}
use irc.Client.{Client, append_input, pop_line, input_size}
use irc.Server.{Server, find_client, modify_client}
use irc.Handler.Dispatch.{handle_complete_line}
use irc.Handler.Keeps.Dispatch.{handle_complete_line_keeps}
use irc.Connection.{
  Received, bytes, closed, recv_failed, serve_lines, receive_bytes, receive_from_client, set_input,
  disconnects,
}
use irc.Protocol.Rules.{by_option, by_bool}
use irc.Polling.{IsServing}
use irc.Polling.Sent.{modify_client-IsPolled, IsServing-IsKept}

module _ (index at left : ℕ) where
  -- A write of a client that keeps its output.
  pub modify_client-IsServing :
      (fd : ℕ) (f : Client → Client) (s : Server)
      → ((c : Client) → (f c).fd ≡ c.fd)
      → ((c : Client) → (f c).output_buffer ≡ c.output_buffer)
      → IsServing index at left s
      → IsServing index at left (modify_client fd f s)
  modify_client-IsServing fd f s fds same w = record {
    whole = modify_client-IsPolled fd f s fds same w.whole;
    here = w.here;
    other = w.other;
    bound = w.bound;
  }

  serve_lines-IsServing :
      (fuel fd : ℕ) (s : Server)
      → IsServing index at left s
      → IsServing index at left (serve_lines fuel fd s)
  unfolding serve_lines
  serve_lines-IsServing zero fd s w = w
  serve_lines-IsServing (suc fuel) fd s w =
      by_option P (find_client fd s) (λ _. w)
        λ c _.
          by_option P (pop_line c) (λ _. w)
            λ popped _.
              let rest = popped.1.input_buffer in
              let read = modify_client fd (set_input rest) s in
              let kept : P (handle_complete_line fd popped.0 read) =
                handle_complete_line_keeps P (IsServing-IsKept index at left) fd popped.0 read
                  (modify_client-IsServing fd (set_input rest) s (λ c. refl) (λ c. refl) w) in
              by_bool P (disconnects fd (handle_complete_line fd popped.0 read)) (λ _. kept)
                (λ _. serve_lines-IsServing fuel fd _ kept)
    where
      P : Server → Type 0
      P = IsServing index at left

  receive_bytes-IsServing :
      (fd : ℕ) (text : Text) (c : Client) (s : Server)
      → IsServing index at left s
      → IsServing index at left (receive_bytes fd text c s).0
  unfolding receive_bytes append_input
  receive_bytes-IsServing fd text c s w =
      serve_lines-IsServing (suc (input_size (append_input text c))) fd
        (modify_client fd (append_input text) s)
        (modify_client-IsServing fd (append_input text) s (λ c. refl) (λ c. refl) w)

  pub receive_from_client-IsServing :
      (fd : ℕ) (result : Received) (s : Server)
      → IsServing index at left s
      → IsServing index at left (receive_from_client fd result s).0
  unfolding receive_from_client
  receive_from_client-IsServing fd result s w =
      by_option First (find_client fd s) (λ _. w) λ c _. received result c
    where
      First : Server × Bool → Type 0
      First outcome = IsServing index at left outcome.0

      received :
          (r : Received) (c : Client)
          → First (elim r [
            | closed ↦ (s, false)
            | recv_failed ↦ (s, false)
            | bytes text ↦ receive_bytes fd text c s
          ])
      received closed c = w
      received recv_failed c = w
      received (bytes text) c = receive_bytes-IsServing fd text c s w
