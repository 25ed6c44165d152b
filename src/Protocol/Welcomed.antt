-- ===== src/Protocol/Welcomed.antt =====
-- PASS, NICK and USER of a new connection, in this order (srcs/Command/Pass.cpp, Nick.cpp, User.cpp).
use irc.Base.{
  ℕ, true, false, ◌≡◌, refl, ap, ◌∙◌, [], ◌∷◌, List, some, arith, nat_ord, ==_refl, is_empty,
}
use irc.Map.{lookup}
use irc.Map.Laws.{lookup-modify}
use irc.Text.{Text, text_ord}
use irc.Client.{
  Client, new_client, set_password_accepted, set_nickname, set_user, is_registration_ready,
  has_nickname,
}
use irc.Command.{Command}
use irc.Server.{Server, modify_client}
use irc.Handler.Registration.{handle_pass, handle_user, try_complete_registration}
use irc.Handler.Nick.{
  handle_nick, change_nickname, forget_nickname, take_nickname, is_valid_nickname, in_use,
}
use irc.WellFormed.{registered_at}
use irc.WellFormed.Nicknames.{is_valid_nickname-nonempty}
use irc.Protocol.Founded.{registered_at-try_complete_registration}

-- A client that is not ready is not registered by the attempt.
waiting_lem :
    (fd : ℕ) (s : Server) (c : Client)
    → lookup fd s.clients ≡ some c
    → is_registration_ready c ≡ false
    → try_complete_registration fd s ≡ s
unfolding try_complete_registration
waiting_lem fd s c found waiting = ground (arith, found, waiting)

found-modify_client :
    (fd : ℕ) (f : Client → Client) (s : Server) (c : Client)
    → lookup fd s.clients ≡ some c
    → lookup fd (modify_client fd f s).clients ≡ some (f c)
found-modify_client fd f s c found =
    ground (arith, lookup-modify fd fd f s.clients, ==_refl fd, found)

pass_lem :
    (command : Command) (s : Server) (c : Client) (fd : ℕ) (rest : List Text)
    → lookup fd s.clients ≡ some c
    → c.registered ≡ false
    → c.nickname ≡ []
    → command.parameters ≡ s.password ∷ rest
    → handle_pass fd command s ≡ modify_client fd set_password_accepted s
unfolding handle_pass is_registration_ready set_password_accepted
pass_lem command s c fd rest found fresh nameless given =
    ground (arith, found, fresh, given, ==_refl s.password)
    ∙ waiting_lem fd (modify_client fd set_password_accepted s) (set_password_accepted c)
        (found-modify_client fd set_password_accepted s c found) (ground (arith, nameless))

nick_lem :
    (command : Command) (s : Server) (c : Client) (nickname : Text) (rest : List Text)
    → lookup c.fd s.clients ≡ some c
    → c.registered ≡ false
    → c.nickname ≡ []
    → c.has_user ≡ false
    → command.parameters ≡ nickname ∷ rest
    → is_valid_nickname nickname ≡ true
    → in_use c.fd nickname s ≡ false
    → handle_nick c.fd command s ≡ take_nickname c.fd nickname s
unfolding handle_nick change_nickname forget_nickname take_nickname has_nickname
    is_registration_ready set_nickname
nick_lem command s c nickname rest found fresh nameless userless given valid free =
    ground
      (arith, found, fresh, nameless, given, valid, free, is_valid_nickname-nonempty nickname valid)
    ∙ waiting_lem c.fd (take_nickname c.fd nickname s) (set_nickname nickname c)
        (ground
          (arith, lookup-modify c.fd c.fd (set_nickname nickname) s.clients, ==_refl c.fd, found))
        (ground (arith, userless))

user_lem :
    (command : Command) (s : Server) (c : Client) (fd : ℕ) (username mode unused realname : Text)
    (rest : List Text)
    → lookup fd s.clients ≡ some c
    → c.registered ≡ false
    → c.password_accepted ≡ true
    → is_empty c.nickname ≡ false
    → command.parameters ≡ username ∷ mode ∷ unused ∷ realname ∷ rest
    → registered_at fd (handle_user fd command s) ≡ true
unfolding handle_user is_registration_ready set_user
user_lem command s c fd username mode unused realname rest found fresh accepted named given =
    let described = modify_client fd (set_user username realname) s in
    let sent : handle_user fd command s ≡ try_complete_registration fd described =
      ground (arith, found, fresh, given) in
    ap (registered_at fd) sent
    ∙ registered_at-try_complete_registration fd described (set_user username realname c)
        (found-modify_client fd (set_user username realname) s c found)
    ∙ ground (arith, accepted, named)

-- A new connection that gives the password of the server by PASS, a valid nickname that is not in use by
-- NICK and the four parameters of USER is registered behind them.
pub new_client_registers :
    (pass nick user : Command) (s : Server) (fd : ℕ) (nickname username mode unused realname : Text)
    (first second third : List Text)
    → lookup fd s.clients ≡ some (new_client fd)
    → pass.parameters ≡ s.password ∷ first
    → nick.parameters ≡ nickname ∷ second
    → user.parameters ≡ username ∷ mode ∷ unused ∷ realname ∷ third
    → is_valid_nickname nickname ≡ true
    → in_use fd nickname s ≡ false
    → registered_at fd (handle_user fd user (handle_nick fd nick (handle_pass fd pass s))) ≡ true
unfolding new_client set_password_accepted in_use take_nickname set_nickname
new_client_registers pass nick user s fd nickname username mode unused realname first second third
      found passes names describes valid free =
    let accepted = modify_client fd set_password_accepted s in
    let client = set_password_accepted (new_client fd) in
    let here = found-modify_client fd set_password_accepted s (new_client fd) found in
    let passed = pass_lem pass s (new_client fd) fd first found refl refl passes in
    let named =
      nick_lem nick accepted client nickname second here refl refl refl names valid free in
    let renamed = take_nickname fd nickname accepted in
    ap (λ t. registered_at fd (handle_user fd user (handle_nick fd nick t))) passed
    ∙ ap (λ t. registered_at fd (handle_user fd user t)) named
    ∙ user_lem user renamed (set_nickname nickname client) fd username mode unused realname third
        (found-modify_client fd (set_nickname nickname) accepted client here) refl refl
        (is_valid_nickname-nonempty nickname valid) describes
