-- ===== src/WellFormed/Drained.antt =====
-- The loop over the lines of a read (receiveFromClient, srcs/Server/ServerSocket.cpp) ends only when no
-- complete line is left or the disconnection of the client is requested.
use irc.Base.{
  ℕ, zero, suc, ◌<◌, ◌⊎◌, true, not, ◌≡◌, refl, ◌∙◌, ap, subst, none, some, nat_ord, arith, inl,
  inr, Option-cases, Bool-cases,
}
use irc.Map.{lookup}
use irc.Text.{Text}
use irc.Client.{Client, pop_line, input_size}
use irc.Client.Lines.{pop_line_shorter}
use irc.Command.{parse}
use irc.Server.{Server, find_client, modify_client}
use irc.Handler.Dispatch.{dispatch_command, handle_complete_line}
use irc.Connection.{serve_lines, set_input}
use irc.Protocol.Rules.{by_if}
use irc.Protocol.Kept.{input_at, dispatch_command-input_at}
use irc.WellFormed.Connections.{
  Fit, handle_complete_line-Fit, keyed_in, found-set_input, set_input-Fit,
}

handle_complete_line-input_at :
    (fd : ℕ) (line : Text) (s : Server) (c : Client) (g : ℕ)
    → lookup fd s.clients ≡ some c
    → Fit s
    → input_at g (handle_complete_line fd line s) ≡ input_at g s
unfolding handle_complete_line
handle_complete_line-input_at fd line s c g found w =
    by_if (λ t. input_at g t ≡ input_at g s) (not (parse line).valid) (λ _. refl)
      λ _.
        let e = keyed_in fd s c w found in
        subst (λ d. input_at g (dispatch_command d (parse line) s) ≡ input_at g s) e
          (dispatch_command-input_at c (parse line) s g (ap (λ d. lookup d s.clients) e ∙ found))

-- What has come of the loop: the client is to be disconnected, or has no complete line left.
abbrev IsDrained : ℕ → Server → Type 0
IsDrained fd s =
    (d : Client) × (lookup fd s.clients ≡ some d)
    × ((d.disconnect_requested ≡ true) ⊎ (pop_line d ≡ none))

handled_client :
    (fd : ℕ) (s t : Server) (c : Client)
    → lookup fd s.clients ≡ some c
    → input_at fd t ≡ input_at fd s
    → (d : Client) × (lookup fd t.clients ≡ some d) × (d.input_buffer ≡ c.input_buffer)
unfolding input_at
handled_client fd s t c found same = elim (Option-cases (lookup fd t.clients)) [
  | inl gone ↦ absurd (ground (arith, gone))
  | inr (d, there) ↦ (d, there, ground (arith, there))
]

-- On fuel above the size of the input of a client of a well-formed server, the loop ends with the
-- client still there, and either its disconnection is requested or no complete line is left.
pub serve_lines-IsDrained :
    (fuel fd : ℕ) (s : Server) (c : Client)
    → Fit s
    → lookup fd s.clients ≡ some c
    → input_size c < fuel
    → IsDrained fd (serve_lines fuel fd s)
unfolding serve_lines find_client input_size
serve_lines-IsDrained zero fd s c w found k = absurd (omega (arith, k))
serve_lines-IsDrained (suc fuel) fd s c w found k = elim (Option-cases (pop_line c)) [
  | inl no_line ↦ rw (found, serve_lines, find_client, no_line) (c, found, inr no_line)
  | inr ((line, popped), taken) ↦
      let read = modify_client fd (set_input popped.input_buffer) s in
      let there = found-set_input fd popped.input_buffer s c found in
      let fit = set_input-Fit fd popped.input_buffer s w in
      let handled = handle_complete_line fd line read in
      let kept =
        handle_complete_line-Fit fd line read (set_input popped.input_buffer c) there fit in
      let (d, after, same) =
        handled_client fd read handled (set_input popped.input_buffer c) there (
          handle_complete_line-input_at fd line read (set_input popped.input_buffer c) fd there
            fit) in
      elim (Bool-cases d.disconnect_requested) [
        | inl leaving ↦
            rw (found, serve_lines, find_client, taken, after, leaving) (d, after, inl leaving)
        | inr staying ↦
            rw (found, serve_lines, find_client, taken, after, staying)
              (serve_lines-IsDrained fuel fd handled d kept after
                (ground (arith, same, pop_line_shorter c popped line taken, k)))
      ]
]
