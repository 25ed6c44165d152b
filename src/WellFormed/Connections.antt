-- ===== src/WellFormed/Connections.antt =====
-- What happens to connections keeps the server well formed: reading, writing and removing them.
use irc.Base.{
  ℕ, zero, suc, Bool, false, not, ◌≡◌, refl, sym, ap, subst, ◌∙◌, List, Option, some, inl, inr,
  nat_ord, arith, ==_refl, Option-cases, get_elem?,
}
use irc.Map.{Map, lookup}
use irc.Map.Laws.{lookup-modify}
use irc.Text.{Text, text_ord}
use irc.Client.{
  Client, has_output, input_size, append_input, consume_output, request_disconnect, pop_line,
  is_registration_ready,
}
use irc.Command.{parse}
use irc.Server.{Server, PollFd, find_client, modify_client}
use irc.Server.Send.Frames.{
  quiet, core, lookup-quiet, quiet-modify_client, core-request_disconnect, quiet-modify_core,
}
use irc.Handler.Dispatch.{handle_complete_line, dispatch_command}
use irc.Connection.{
  Received, bytes, closed, recv_failed, remove_descriptor, remove_client, serve_lines,
  receive_bytes, receive_from_client, flush_client_output, set_input, disconnects,
}
use irc.Protocol.Rules.{by_if, by_option, by_bool}
use irc.WellFormed.{nickname_of, registered_at, IsWellFormed}
use irc.WellFormed.Clients.{modify_client-IsWellFormed}
use irc.WellFormed.Preserved.{dispatch_command-IsWellFormed}
use irc.WellFormed.Departed.{remove_descriptor-IsWellFormed}

-- A server that is well formed without its pending output.
abbrev pub Fit : Server → Type 0
Fit s = IsWellFormed (quiet s)

other_polls-IsWellFormed :
    (v : Server) (polls : List PollFd) (fds : Map ℕ (Unit {0}))
    → IsWellFormed v
    → IsWellFormed (record v { poll_fds = polls; open_fds = fds })
unfolding nickname_of registered_at
other_polls-IsWellFormed v polls fds w = record {
  clients = w.clients;
  nicknames = record { sound = w.nicknames.sound; complete = w.nicknames.complete };
  clients_sorted = w.clients_sorted;
  index_sorted = w.index_sorted;
  channels_sorted = w.channels_sorted;
  channels = λ key channel e.
      let ok = w.channels key channel e in
      record {
        named = ok.named;
        inhabited = ok.inhabited;
        ordered = ok.ordered;
        members = ok.members;
        invites = ok.invites;
      };
}

pub other_polls-Fit :
    (s : Server) (polls : List PollFd) → Fit s → Fit (record s { poll_fds = polls })
unfolding quiet
other_polls-Fit s polls w = other_polls-IsWellFormed (quiet s) _ _ w

pub other_fds-Fit :
    (s : Server) (fds : Map ℕ (Unit {0})) → Fit s → Fit (record s { open_fds = fds })
unfolding quiet
other_fds-Fit s fds w = other_polls-IsWellFormed (quiet s) _ fds w

pub keyed_in : (fd : ℕ) (s : Server) (c : Client) → Fit s → lookup fd s.clients ≡ some c → c.fd ≡ fd
keyed_in fd s c w e = (w.clients fd (core c) (lookup-quiet fd s e)).keyed

-- Whatever the line, from a client of the server.
pub handle_complete_line-Fit :
    (fd : ℕ) (line : Text) (s : Server) (c : Client)
    → lookup fd s.clients ≡ some c
    → Fit s
    → Fit (handle_complete_line fd line s)
unfolding handle_complete_line
handle_complete_line-Fit fd line s c found w =
    by_if Fit (not (parse line).valid) (λ _. w)
      λ _.
        let e = keyed_in fd s c w found in
        subst (λ d. Fit (dispatch_command d (parse line) s)) e
          (dispatch_command-IsWellFormed c (parse line) s (ap (λ d. lookup d s.clients) e ∙ found)
            w)

-- A write of the buffers of one client.
buffers-Fit :
    (fd : ℕ) (f : Client → Client) (s : Server)
    → ((c : Client) → core (f c) ≡ f (core c))
    → ((c : Client)
        → ((f c).fd ≡ c.fd)
          × ((f c).nickname ≡ c.nickname)
          × ((f c).registered ≡ c.registered)
          × (is_registration_ready (f c) ≡ is_registration_ready c))
    → Fit s
    → Fit (modify_client fd f s)
buffers-Fit fd f s commutes same w = rw (quiet-modify_core fd f s commutes) (
    modify_client-IsWellFormed fd f (quiet s)
      (record {
        fd = λ c. (same c).0;
        nickname = λ c. (same c).1;
        registered = λ c h. (same c).2 ∙ h;
        ready = λ c _ was h. (same c).3 ∙ was (sym (same c).2 ∙ h);
      })
      w)

pub set_input-Fit :
    (fd : ℕ) (rest : Text) (s : Server) → Fit s → Fit (modify_client fd (set_input rest) s)
unfolding is_registration_ready
set_input-Fit fd rest s =
    buffers-Fit fd (set_input rest) s (λ c. refl) (λ c. (refl, refl, refl, refl))

append_input-Fit :
    (fd : ℕ) (received : Text) (s : Server)
    → Fit s
    → Fit (modify_client fd (append_input received) s)
unfolding is_registration_ready append_input
append_input-Fit fd received s =
    buffers-Fit fd (append_input received) s (λ c. refl) (λ c. (refl, refl, refl, refl))

quiet-consume_output :
    (fd count : ℕ) (s : Server) → quiet (modify_client fd (consume_output count) s) ≡ quiet s
quiet-consume_output fd count s =
    quiet-modify_client fd (consume_output count) s (unfold consume_output in λ c. ground arith)

pub found-set_input :
    (fd : ℕ) (rest : Text) (s : Server) (c : Client)
    → lookup fd s.clients ≡ some c
    → lookup fd (modify_client fd (set_input rest) s).clients ≡ some (set_input rest c)
found-set_input fd rest s c e =
    ground (arith, lookup-modify fd fd (set_input rest) s.clients, ==_refl fd)

-- The lines of one read, handled in order.
pub serve_lines-Fit : (fuel fd : ℕ) (s : Server) → Fit s → Fit (serve_lines fuel fd s)
unfolding serve_lines
serve_lines-Fit zero fd s w = w
serve_lines-Fit (suc fuel) fd s w =
    by_option Fit (find_client fd s) (λ _. w)
      λ c found.
        by_option Fit (pop_line c) (λ _. w)
          λ popped _.
            let rest = popped.1.input_buffer in
            let handled = handle_complete_line fd popped.0 (modify_client fd (set_input rest) s) in
            let kept : Fit handled =
              handle_complete_line-Fit fd popped.0 (modify_client fd (set_input rest) s)
                (set_input rest c) (found-set_input fd rest s c found)
                (set_input-Fit fd rest s w) in
            by_bool Fit (disconnects fd handled) (λ _. kept)
              (λ _. serve_lines-Fit fuel fd handled kept)

-- A result with its server.
abbrev FitFirst : Server × Bool → Type 0
FitFirst result = Fit result.0

receive_bytes-Fit :
    (fd : ℕ) (text : Text) (c : Client) (s : Server) → Fit s → Fit (receive_bytes fd text c s).0
unfolding receive_bytes
receive_bytes-Fit fd text c s w =
    serve_lines-Fit (suc (input_size (append_input text c))) fd
      (modify_client fd (append_input text) s) (append_input-Fit fd text s w)

-- A read of a connection, whatever arrives.
pub receive_from_client-Fit :
    (fd : ℕ) (result : Received) (s : Server) → Fit s → Fit (receive_from_client fd result s).0
unfolding receive_from_client
receive_from_client-Fit fd result s w =
    by_option FitFirst (find_client fd s) (λ _. w) λ c found. received result c
  where
    received :
        (r : Received) (c : Client)
        → FitFirst (elim r [
          | closed ↦ (s, false)
          | recv_failed ↦ (s, false)
          | bytes text ↦ receive_bytes fd text c s
        ])
    received closed c = w
    received recv_failed c = w
    received (bytes text) c = receive_bytes-Fit fd text c s w

-- A write to a connection, whatever is sent.
pub flush_client_output-Fit :
    (index fd : ℕ) (sent : Option ℕ) (s : Server)
    → Fit s
    → Fit (flush_client_output index fd sent s).0
unfolding flush_client_output
flush_client_output-Fit index fd sent s w =
    by_option FitFirst (find_client fd s) (λ _. w)
      λ c _.
        by_if FitFirst (not (has_output c)) (λ _. other_polls-Fit s _ w)
          λ _.
            by_option FitFirst sent
              (λ _.
                rw (quiet-modify_client fd (request_disconnect _) s (core-request_disconnect _)) w)
              λ count _.
                let left : Fit (modify_client fd (consume_output count) s) =
                  rw (quiet-consume_output fd count s) w in
                by_if Fit (has_output (consume_output count c)) (λ _. left)
                  (λ _. other_polls-Fit (modify_client fd (consume_output count) s) _ left)

remove_descriptor-Fit : (fd : ℕ) (s : Server) → Fit s → Fit (remove_descriptor fd s)
remove_descriptor-Fit fd s w = elim (Option-cases (find_client fd s)) [
  | inl missing ↦ unfold remove_descriptor in rw (missing, remove_descriptor) w
  | inr (c, found) ↦
      let e = keyed_in fd s c w (unfold find_client in found) in
      subst (λ d. Fit (remove_descriptor d s)) e
        (remove_descriptor-IsWellFormed c s
          (ap (λ d. lookup d s.clients) e ∙ unfold find_client in found) w)
]

-- The removal of the connection at an index.
pub remove_client-Fit : (index : ℕ) (s : Server) → Fit s → Fit (remove_client index s)
unfolding remove_client
remove_client-Fit index s w =
    by_option Fit (get_elem? s.poll_fds index) (λ _. w)
      λ p _. other_polls-Fit (remove_descriptor p.fd s) _ (remove_descriptor-Fit p.fd s w)
