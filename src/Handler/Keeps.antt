-- ===== src/Handler/Keeps.antt =====
-- The handlers of the commands (srcs/Command) keep what queued output and calm writes keep.
pub mod Identity
pub mod Channels
pub mod Modes
pub mod Dispatch
use irc.Base.{ℕ, true, ◌≡◌, refl, nat_ord}
use irc.Text.{Text}
use irc.Client.{
  Client, request_disconnect, set_password_accepted, set_user, set_registered, set_nickname,
}
use irc.Server.Keeps.{IsCalm}

pub request_disconnect-IsCalm : (reason : Text) → IsCalm (request_disconnect reason)
unfolding request_disconnect
request_disconnect-IsCalm reason = record {
  fd = λ c. refl;
  output = λ c. refl;
  input = λ c. refl;
  leaving = λ c h. refl;
}

pub set_password_accepted-IsCalm : IsCalm set_password_accepted
unfolding set_password_accepted
set_password_accepted-IsCalm = record {
  fd = λ c. refl;
  output = λ c. refl;
  input = λ c. refl;
  leaving = λ c h. h;
}

pub set_user-IsCalm : (username realname : Text) → IsCalm (set_user username realname)
unfolding set_user
set_user-IsCalm username realname = record {
  fd = λ c. refl;
  output = λ c. refl;
  input = λ c. refl;
  leaving = λ c h. h;
}

pub set_registered-IsCalm : IsCalm (set_registered true)
unfolding set_registered
set_registered-IsCalm = record {
  fd = λ c. refl;
  output = λ c. refl;
  input = λ c. refl;
  leaving = λ c h. h;
}

pub set_nickname-IsCalm : (nickname : Text) → IsCalm (set_nickname nickname)
unfolding set_nickname
set_nickname-IsCalm nickname = record {
  fd = λ c. refl;
  output = λ c. refl;
  input = λ c. refl;
  leaving = λ c h. h;
}
