-- ===== src/Protocol/Privilege.antt =====
-- What a client that is no operator may not do: MODE, KICK and INVITE (srcs/Command).
use irc.Base.{
  true, false, not, ◌++◌, none, sym, subst, if◌then◌else◌, ◌≡◌, refl, some, nat_ord, arith, List,
  [], ◌∷◌,
}
use irc.Map.{lookup}
use irc.Text.{Text, text_ord, codes}
use irc.Channel.{Channel, member_count, has_member, is_member_operator}
use irc.Client.{Client}
use irc.Command.{Command}
use irc.Server.{Server, find_channel, find_client_by_nickname}
use irc.Server.Send.{send_numeric}
use irc.Server.Send.Frames.{quiet, quiet-send_numeric}
use irc.Handler.Mode.{handle_mode, change_modes}
use irc.Handler.Mode.Change.{is_channel_target}
use irc.Handler.Kick.{handle_kick}
use irc.Handler.Invite.{handle_invite, invite_checked}
use irc.Handler.Join.{handle_join, join_channel, join_refusal, is_channel_name, create_channel}
use irc.Handler.Registration.{second_or_empty}
use irc.Protocol.{is_barred}
use irc.Protocol.Rules.{by_if, by_option, by_some, by_list}

module _ (c : Client) (command : Command) (s : Server) (found : lookup c.fd s.clients ≡ some c)
    (powerless : (key : Text) (channel : Channel)
      → lookup key s.channels ≡ some channel
      → is_member_operator c.fd channel ≡ false) where
  -- Nothing but output.
  abbrev Same : Server → Type 0
  Same t = quiet t ≡ quiet s

  said : (numeric text : Text) → Same (send_numeric c.fd numeric text s)
  said numeric text = quiet-send_numeric c.fd numeric text s

  mode_refused : Same (handle_mode c.fd command s)
  unfolding handle_mode find_channel change_modes
  mode_refused = by_some Same (lookup c.fd s.clients) _ _ found (
      by_if Same (not c.registered) (λ _. said _ _)
        λ _.
          by_list Same command.parameters (λ _. said _ _)
            λ target rest _.
              by_if Same (not (is_channel_target target)) (λ _. refl)
                λ _.
                  by_option Same (find_channel target s) (λ _. said _ _)
                    λ channel e.
                      by_list Same rest (λ _. refl)
                        λ modes more _.
                          by_if Same (not (is_member_operator c.fd channel)) (λ _. said _ _)
                            (λ o. absurd (ground (arith, o, powerless _ channel e))))

  kick_refused : Same (handle_kick c.fd command s)
  unfolding handle_kick find_channel
  kick_refused = by_some Same (lookup c.fd s.clients) _ _ found (
      by_if Same (not c.registered) (λ _. said _ _)
        λ _.
          by_list Same command.parameters (λ _. said _ _)
            λ target rest _.
              by_list Same rest (λ _. said _ _)
                λ nick more _.
                  by_option Same (find_channel target s) (λ _. said _ _)
                    λ channel e.
                      by_if Same (not (has_member c.fd channel)) (λ _. said _ _)
                        λ _.
                          by_if Same (not (is_member_operator c.fd channel)) (λ _. said _ _)
                            (λ o. absurd (ground (arith, o, powerless _ channel e))))

  invite_refused : Same (handle_invite c.fd command s)
  unfolding handle_invite find_channel invite_checked
  invite_refused = by_some Same (lookup c.fd s.clients) _ _ found (
      by_if Same (not c.registered) (λ _. said _ _)
        λ _.
          by_list Same command.parameters (λ _. said _ _)
            λ nick rest _.
              by_list Same rest (λ _. said _ _)
                λ name more _.
                  by_option Same (find_client_by_nickname nick s) (λ _. said _ _)
                    λ target _.
                      by_option Same (find_channel name s) (λ _. said _ _)
                        λ channel e.
                          by_if Same (not (has_member c.fd channel)) (λ _. said _ _)
                            λ _.
                              by_if Same (not (is_member_operator c.fd channel)) (λ _. said _ _)
                                (λ o. absurd (ground (arith, o, powerless _ channel e))))

  -- MODE, KICK and INVITE from a client of the server that is an operator of no channel change nothing
  -- but pending output, whatever their parameters.
  pub operator_commands_refused :
      (quiet (handle_mode c.fd command s) ≡ quiet s)
      × (quiet (handle_kick c.fd command s) ≡ quiet s)
      × (quiet (handle_invite c.fd command s) ≡ quiet s)
  operator_commands_refused = (mode_refused, kick_refused, invite_refused)

barred_refusal :
    (c : Client) (supplied : Text) (channel : Channel)
    → is_barred c supplied channel ≡ true
    → (join_refusal c supplied channel ≡ none)
    → ⊥
unfolding is_barred join_refusal member_count
barred_refusal c supplied channel h e = ground (arith, h, e)

-- JOIN of a channel that bars the client, which is not in it, by an invitation that it does not have,
-- by a key that it does not give or by a user limit that is reached, changes nothing but pending output.
pub handle_join_barred :
    (c : Client) (command : Command) (s : Server) (name : Text) (rest : List Text)
    (channel : Channel)
    → lookup c.fd s.clients ≡ some c
    → command.parameters ≡ name ∷ rest
    → find_channel name s ≡ some channel
    → has_member c.fd channel ≡ false
    → is_barred c (second_or_empty rest) channel ≡ true
    → quiet (handle_join c.fd command s) ≡ quiet s
unfolding handle_join join_channel
handle_join_barred c command s name rest channel found given there outside barred =
    by_some Same (lookup c.fd s.clients) _ _ found (
      by_if Same (not c.registered) (λ _. quiet-send_numeric c.fd _ _ s)
        λ _.
          subst
            (λ ps. Same (elim ps [
              | [] ↦ send_numeric c.fd (codes "461") (codes "JOIN :Not enough parameters") s
              | channel_name ∷ more ↦
                  if not (is_channel_name channel_name)
                  then send_numeric c.fd (codes "403") (channel_name ++ codes " :No such channel") s
                  else elim (find_channel channel_name s) [
                    | none ↦ create_channel c channel_name s
                    | some open_to ↦ join_channel c channel_name (second_or_empty more) open_to s
                  ]
            ]))
            (sym given)
            (by_if Same (not (is_channel_name name)) (λ _. quiet-send_numeric c.fd _ _ s)
              λ _. by_some Same (find_channel name s) _ _ there (
                by_if Same (has_member c.fd channel) (λ _. refl)
                  λ _.
                    by_option Same (join_refusal c (second_or_empty rest) channel)
                      (λ e. absurd (barred_refusal c (second_or_empty rest) channel barred e))
                      (λ refusal _. quiet-send_numeric c.fd _ _ s))))
  where
    Same : Server → Type 0
    Same t = quiet t ≡ quiet s
