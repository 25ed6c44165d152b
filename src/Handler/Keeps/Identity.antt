-- ===== src/Handler/Keeps/Identity.antt =====
-- PING, QUIT, CAP, PASS, USER, NICK and the end of a registration.
use irc.Base.{ℕ, true, not, ◌&&◌, ◌==◌, nat_ord}
use irc.Map.{lookup}
use irc.Text.{Text, codes, text_ord}
use irc.Client.{
  Client, set_password_accepted, set_user, set_registered, set_nickname, is_registration_ready,
  has_nickname, request_disconnect,
}
use irc.Command.{Command}
use irc.Server.{Server, modify_client}
use irc.Server.Keeps.{
  IsKept, queue_line_keeps, send_numeric_keeps, send_welcome_keeps, send_to_all_keeps,
}
use irc.Handler.Registration.{
  try_complete_registration, handle_ping, handle_quit, handle_cap, handle_pass, handle_user,
  not_registered,
}
use irc.Handler.Nick.{
  is_valid_nickname, in_use, forget_nickname, take_nickname, change_nickname, handle_nick,
}
use irc.Protocol.Rules.{by_if, by_option, by_list}
use irc.Handler.Keeps.{
  request_disconnect-IsCalm, set_password_accepted-IsCalm, set_user-IsCalm, set_registered-IsCalm,
  set_nickname-IsCalm,
}

module _ (P : Server → Type 0) (kept : IsKept P) where
  try_complete_registration_keeps : (fd : ℕ) (s : Server) → P s → P (try_complete_registration fd s)
  unfolding try_complete_registration
  try_complete_registration_keeps fd s p =
      by_option P (lookup fd s.clients) (λ _. p)
        λ c _.
          by_if P c.registered (λ _. p)
            λ _.
              by_if P (not (is_registration_ready c)) (λ _. p)
                λ _.
                  send_welcome_keeps P kept fd _
                    (kept.written fd (set_registered true) s set_registered-IsCalm p)

  pub not_registered_keeps : (fd : ℕ) (s : Server) → P s → P (not_registered fd s)
  unfolding not_registered
  not_registered_keeps fd s p = send_numeric_keeps P kept fd _ _ s p

  module _ (fd : ℕ) (command : Command) (s : Server) (p : P s) where
    pub handle_ping_keeps : P (handle_ping fd command s)
    unfolding handle_ping
    handle_ping_keeps =
        by_list P command.parameters (λ _. queue_line_keeps P kept fd _ s p)
          (λ token rest _. queue_line_keeps P kept fd _ s p)

    pub handle_quit_keeps : P (handle_quit fd command s)
    unfolding handle_quit
    handle_quit_keeps =
        by_list P command.parameters
          (λ _. kept.written fd (request_disconnect _) s (request_disconnect-IsCalm _) p)
          (λ reason rest _.
            kept.written fd (request_disconnect _) s (request_disconnect-IsCalm _) p)

    pub handle_cap_keeps : P (handle_cap fd command s)
    unfolding handle_cap
    handle_cap_keeps =
        by_list P command.parameters (λ _. p)
          λ first rest _.
            by_if P (first == codes "LS") (λ _. queue_line_keeps P kept fd _ s p)
              λ _. by_if P (first == codes "REQ") (λ _. queue_line_keeps P kept fd _ s p) (λ _. p)

    pub handle_pass_keeps : P (handle_pass fd command s)
    unfolding handle_pass
    handle_pass_keeps =
        by_option P (lookup fd s.clients) (λ _. p)
          λ c _.
            by_if P c.registered (λ _. send_numeric_keeps P kept fd _ _ s p)
              λ _.
                by_list P command.parameters (λ _. send_numeric_keeps P kept fd _ _ s p)
                  λ supplied rest _.
                    by_if P (not (supplied == s.password))
                      (λ _. send_numeric_keeps P kept fd _ _ s p)
                      λ _.
                        try_complete_registration_keeps fd _
                          (kept.written fd set_password_accepted s set_password_accepted-IsCalm p)

    pub handle_user_keeps : P (handle_user fd command s)
    unfolding handle_user
    handle_user_keeps =
        by_option P (lookup fd s.clients) (λ _. p)
          λ c _.
            by_if P c.registered (λ _. send_numeric_keeps P kept fd _ _ s p)
              λ _. by_list P command.parameters refused λ username more _.
                by_list P more refused λ mode more _. by_list P more refused λ unused more _.
                  by_list P more refused λ realname rest _. try_complete_registration_keeps fd _ (
                    kept.written fd (set_user username realname) s
                      (set_user-IsCalm username realname) p)
      where
        refused :
            {A : Type 0}
            → A
            → P (
                irc.Server.Send.send_numeric fd
                  (codes "461")
                  (codes "USER :Not enough parameters")
                  s)
        refused _ = send_numeric_keeps P kept fd _ _ s p

  forget_nickname_keeps :
      (c : Client) (nickname : Text) (s : Server) → P s → P (forget_nickname c nickname s)
  unfolding forget_nickname
  forget_nickname_keeps c nickname s p =
      by_if P (has_nickname c) (λ _. kept.shared _ _ s p) (λ _. p)

  take_nickname_keeps :
      (fd : ℕ) (nickname : Text) (s : Server) → P s → P (take_nickname fd nickname s)
  unfolding take_nickname
  take_nickname_keeps fd nickname s p =
      kept.shared _ _ _ (kept.written fd (set_nickname nickname) s (set_nickname-IsCalm nickname) p)

  change_nickname_keeps :
      (c : Client) (nickname : Text) (s : Server) → P s → P (change_nickname c nickname s)
  unfolding change_nickname
  change_nickname_keeps c nickname s p =
      let renamed = take_nickname_keeps c.fd nickname _ (forget_nickname_keeps c nickname s p) in
      try_complete_registration_keeps c.fd _
        (by_if P c.registered (λ _. send_to_all_keeps P kept _ _ _ renamed) (λ _. renamed))

  pub handle_nick_keeps :
      (fd : ℕ) (command : Command) (s : Server) → P s → P (handle_nick fd command s)
  unfolding handle_nick
  handle_nick_keeps fd command s p =
      by_option P (lookup fd s.clients) (λ _. p)
        λ c _.
          by_list P command.parameters (λ _. send_numeric_keeps P kept fd _ _ s p)
            λ nickname rest _.
              by_if P (not (is_valid_nickname nickname)) (λ _. send_numeric_keeps P kept fd _ _ s p)
                λ _.
                  by_if P (in_use c.fd nickname s) (λ _. send_numeric_keeps P kept fd _ _ s p)
                    λ _.
                      by_if P (has_nickname c && c.nickname == nickname) (λ _. p)
                        (λ _. change_nickname_keeps c nickname s p)
