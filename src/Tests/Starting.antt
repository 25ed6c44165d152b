-- ===== src/Tests/Starting.antt =====
-- Theorems on main, with the port 6667 and the password p.
use irc.Base.{
  arith, inr, ◌==◌, if◌then◌else◌, ℕ, true, false, [], ◌∷◌, List, ◌≡◌, refl, some, none, nat_ord,
  Option,
}
use irc.Text.{Text}
use irc.Number.{check_port, is_digit}
use irc.Server.{Server}
use irc.Loop.{Polled, ready, poll_failed, main_arguments}
use irc.Startup.{StartCalls, main, success, exited}
use irc.Startup.Sockets.{main_closes, IsClosed}
use irc.Polling.Lasting.{IsPoll}
use irc.Startup.Status.{main_succeeds}
use irc.Protocol.Rules.{by_if, by_some}
use irc.Tests.{readable}
use irc.Number.Bounds.{check_port_digits, value_of, are_digits}
use irc.Tests.Entries.{steady_system, seven-IsAccepted, steady_system-AcceptsUnused}

abbrev port_text : Text
port_text = b'6' ∷ b'6' ∷ b'6' ∷ b'7' ∷ []

abbrev test_arguments : List Text
test_arguments = port_text ∷ (b'p' ∷ []) ∷ []

abbrev test_calls : StartCalls
test_calls = record {
  sigint = true;
  sigterm = true;
  sigpipe = true;
  socket = some 3;
  setsockopt = true;
  fcntl = true;
  bind = true;
  listen = true;
}

abbrev test_poll : ℕ → Server → Polled
test_poll call s = ready (readable ∷ readable ∷ [])

abbrev busy_calls : StartCalls
busy_calls = record test_calls { bind = false }

main_closes_example : IsClosed (main test_arguments busy_calls 3 (λ _. steady_system) test_poll)
main_closes_example =
    main_closes 3 (λ _. steady_system) test_poll (λ _. steady_system-AcceptsUnused) test_arguments
      busy_calls

port_accepted : check_port port_text ≡ some 6667
unfolding value_of
port_accepted =
    check_port_digits b'6' (b'6' ∷ b'6' ∷ b'7' ∷ []) (unfold are_digits is_digit in refl)

arguments_accepted : main_arguments test_arguments ≡ some (6667, b'p' ∷ [])
unfolding main_arguments
arguments_accepted =
    by_some (λ (r : Option (ℕ × Text)). r ≡ some (6667, b'p' ∷ [])) (check_port port_text) none
      (λ value. some (value, b'p' ∷ [])) port_accepted refl

-- The third call of `poll()` is interrupted by the stop.
abbrev interrupted_poll : ℕ → Server → Polled
interrupted_poll call s = if call == 0 then poll_failed true else ready (readable ∷ readable ∷ [])

interrupted-IsPoll : (call : ℕ) (s : Server) → IsPoll (interrupted_poll call s)
interrupted-IsPoll call s = by_if IsPoll (call == 0) (λ _. refl) (λ _. tt)

main_succeeds_example :
    main test_arguments test_calls 3 (λ _. steady_system) interrupted_poll ≡ exited success []
main_succeeds_example =
    main_succeeds test_arguments (6667, b'p' ∷ []) 3 test_calls 3 0 (λ _. steady_system)
      interrupted_poll arguments_accepted
      (record {
        sigint = refl;
        sigterm = refl;
        sigpipe = refl;
        socket = refl;
        setsockopt = refl;
        fcntl = refl;
        bind = refl;
        listen = refl;
      })
      (λ _ _ t. seven-IsAccepted t) interrupted-IsPoll (omega arith) (λ _. inr refl)
