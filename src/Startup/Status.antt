-- ===== src/Startup/Status.antt =====
-- The exit status of main (srcs/main.cpp).
use irc.Base.{ℕ, ◌<◌, true, ◌≡◌, refl, sym, subst, ap, [], List, some, nat_ord}
use irc.Map.{insert}
use irc.Text.{Text}
use irc.Server.{Server}
use irc.Connection.{normal, thrown, add_poll_fd, has_poll_fd}
use irc.Loop.{System, Polled, Ran, ended, unfinished, run, main_arguments, new_server}
use irc.Protocol.Rules.{by_some}
use irc.Polling.Lasting.{IsAccepted, IsPoll}
use irc.Polling.Stopping.{HasReturned, StopsAt, run-new_server-HasReturned}
use irc.Startup.{
  StartCalls, started, success, exited, install_signal_handlers, create_listening_socket,
  start_server, listening, finish, serve, main,
}
use irc.Startup.Sockets.{delete_server-closes}

-- Every call of the start succeeds.
pub record IsUp (fd : ℕ) (calls : StartCalls) : Type 0 where
  pub sigint : calls.sigint ≡ true
  pub sigterm : calls.sigterm ≡ true
  pub sigpipe : calls.sigpipe ≡ true
  pub socket : calls.socket ≡ some fd
  pub setsockopt : calls.setsockopt ≡ true
  pub fcntl : calls.fcntl ≡ true
  pub bind : calls.bind ≡ true
  pub listen : calls.listen ≡ true

start_server_lem :
    (password : Text) (fd : ℕ) (calls : StartCalls)
    → IsUp fd calls
    → start_server password calls [] ≡ started (new_server fd password)
unfolding start_server install_signal_handlers create_listening_socket listening add_poll_fd
    has_poll_fd new_server insert
start_server_lem password fd calls up =
    rw (up.sigint, up.sigterm, up.sigpipe, up.socket, up.setsockopt, up.fcntl, up.bind, up.listen)
      refl

finish_lem : (r : Ran) → HasReturned r → finish r ≡ exited success []
unfolding finish
finish_lem (ended (normal s)) w = ap (exited success) (delete_server-closes s w)
finish_lem (ended (thrown s)) h = elim h [ ]
finish_lem (unfinished s) h = elim h [ ]

-- With arguments that main accepts, when every call of the start succeeds, accept() fails or gives
-- descriptors that are not open and can be made non-blocking, and poll() fails only when the stop is
-- requested, main ends with success by the call of poll() before which the stop is requested or
-- which fails for it, and no socket is open behind it, whatever the clients send.
pub main_succeeds :
    (arguments : List Text) (accepted : ℕ × Text) (fd : ℕ) (calls : StartCalls) (polls call : ℕ)
    (io : ℕ → System) (poll : ℕ → Server → Polled)
    → main_arguments arguments ≡ some accepted
    → IsUp fd calls
    → ((call round : ℕ) (t : Server) → IsAccepted (io call round t).accepts t)
    → ((call : ℕ) (t : Server) → IsPoll (poll call t))
    → call < polls
    → ((t : Server) → StopsAt call io poll t)
    → main arguments calls polls io poll ≡ exited success []
unfolding main serve
main_succeeds arguments accepted fd calls polls call io poll e up ok served early stops =
    by_some (λ r. r ≡ exited success []) (main_arguments arguments) _ _ e
      (subst (λ r. serve polls io poll r ≡ exited success [])
        (sym (start_server_lem accepted.1 fd calls up))
        (finish_lem (run polls io poll (new_server fd accepted.1))
          (run-new_server-HasReturned fd accepted.1 polls call io poll ok served early stops)))
