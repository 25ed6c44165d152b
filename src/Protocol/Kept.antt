-- ===== src/Protocol/Kept.antt =====
-- A part of the clients that registration and NICK do not write is kept by every command: here the
-- input that has not been handled yet.
use irc.Base.{
  ap, ℕ, true, ◌≡◌, refl, sym, ◌∙◌, Option, none, some, nat_ord, arith, ◌==◌, if◌then◌else◌,
}
use mathlib.Core.Option
use irc.Map.{lookup}
use irc.Map.Laws.{lookup-modify, lookup-map_values}
use irc.Text.{Text, text_ord}
use irc.Client.{Client, set_password_accepted, set_user, set_registered, set_nickname}
use irc.Command.{Command}
use irc.Server.{Server, modify_client}
use irc.Server.Send.Frames.{quiet, core}
use irc.Handler.Nick.{forget_nickname, take_nickname}
use irc.Handler.Kick.{remove_member_from_channel}
use irc.Handler.Dispatch.{dispatch_command}
use irc.Protocol.{
  Act, Acts, done, next, authenticate, describe, register, rename, create, join, retitle,
  change_mode, kick, invite,
}
use irc.Protocol.Writing.{Writes-rest}
use irc.Protocol.Commands.{dispatch_command-Acts}

-- The unhandled input of the client of the descriptor, if there is one.
unfoldable pub input_at : ℕ → Server → Option Text
input_at fd s = Option.map (λ (c : Client). c.input_buffer) (lookup fd s.clients)

input_at-modify_same :
    (g fd : ℕ) (f : Client → Client) (s : Server)
    → ((c : Client) → (f c).input_buffer ≡ c.input_buffer)
    → input_at g (modify_client fd f s) ≡ input_at g s
unfolding input_at
input_at-modify_same g fd f s same = go (lookup g s.clients) (lookup-modify fd g f s.clients)
  where
    go :
        (o : Option Client)
        → lookup g (modify_client fd f s).clients ≡ (if fd == g then Option.map f o else o)
        → Option.map (λ (c : Client). c.input_buffer) (lookup g (modify_client fd f s).clients)
          ≡ Option.map (λ (c : Client). c.input_buffer) o
    go none e = ground (arith, e)
    go (some c) e = ground (arith, e, same c)

renamed-input_at :
    (g fd : ℕ) (c : Client) (nickname : Text) (v : Server)
    → input_at g (take_nickname fd nickname (forget_nickname c nickname v)) ≡ input_at g v
unfolding take_nickname forget_nickname input_at set_nickname
renamed-input_at g fd c nickname v =
    ground (arith, input_at-modify_same g fd (set_nickname nickname) v (λ c. refl))

kicked-input_at :
    (g target : ℕ) (name : Text) (v : Server)
    → input_at g (remove_member_from_channel name target v) ≡ input_at g v
unfolding remove_member_from_channel input_at
kicked-input_at g target name v = ground arith

Act-input_at :
    (g : ℕ) {fd : ℕ} {command : Command} {v u : Server}
    → Act fd command v u
    → input_at g u ≡ input_at g v
Act-input_at g {fd} (authenticate v c named actor given) =
    input_at-modify_same g fd set_password_accepted v (λ c. unfold set_password_accepted in refl)
Act-input_at g {fd} (describe v c username realname named actor first fourth) =
    input_at-modify_same g fd (set_user username realname) v (λ c. unfold set_user in refl)
Act-input_at g {fd} (register v c may actor ready) =
    input_at-modify_same g fd (set_registered true) v (λ c. unfold set_registered in refl)
Act-input_at g {fd} (rename v c nickname named given found valid free) =
    renamed-input_at g fd c nickname v
Act-input_at g (create v c name named given actor fits missing) = unfold input_at in refl
Act-input_at g (join v c name rest channel named given actor found fresh open_to) =
    unfold input_at in refl
Act-input_at g (retitle v c name topic channel named given titled actor found inside allowed) =
    unfold input_at in refl
Act-input_at g
      (change_mode v w c name modes more channel changes named given actor found op read writes) =
    unfold input_at in
    ap (λ clients. Option.map (λ (c : Client). c.input_buffer) (lookup g clients))
      (Writes-rest writes).0
Act-input_at g
      (kick v c name nickname channel target named first second actor found allowed known inside) =
    kicked-input_at g target.fd name v
Act-input_at g
      (invite v c target name nickname channel named first second actor found allowed known
        outside) =
    unfold input_at in refl

Acts-input_at :
    (g : ℕ) {fd : ℕ} {command : Command} {v u : Server}
    → Acts fd command v u
    → input_at g u ≡ input_at g v
Acts-input_at g done = refl
Acts-input_at g (next before act) = Act-input_at g act ∙ Acts-input_at g before

input_at-quiet : (g : ℕ) (s : Server) → input_at g (quiet s) ≡ input_at g s
unfolding input_at quiet
input_at-quiet g s = ground (arith, lookup-map_values core g s.clients)

-- A command takes nothing from the input of any client, adds nothing, and removes no client.
pub dispatch_command-input_at :
    (c : Client) (command : Command) (s : Server) (g : ℕ)
    → lookup c.fd s.clients ≡ some c
    → input_at g (dispatch_command c.fd command s) ≡ input_at g s
dispatch_command-input_at c command s g found =
    sym (input_at-quiet g (dispatch_command c.fd command s))
    ∙ Acts-input_at g (dispatch_command-Acts c command s found)
    ∙ input_at-quiet g s
