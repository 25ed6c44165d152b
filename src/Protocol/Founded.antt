-- ===== src/Protocol/Founded.antt =====
-- What an accepted first JOIN (srcs/Command/Join.cpp) and the end of a registration
-- (tryCompleteRegistration, srcs/Server/ServerCommand.cpp) do.
use irc.Base.{
  ℕ, true, not, ◌||◌, ◌&&◌, is_empty, ◌≡◌, refl, ap, ◌∙◌, ◌∷◌, List, none, some, nat_ord, arith,
  sym, ==_refl,
}
use irc.Map.{lookup, insert, member}
use irc.Map.Laws.{lookup-insert, lookup-modify, lookup-map_values}
use irc.Text.{Text, irc_case_fold, text_ord}
use irc.Channel.{Channel, is_member_operator, has_member, member_count, add_member, new_channel}
use irc.Client.{Client, set_registered, is_registration_ready}
use irc.Command.{Command}
use irc.Server.{Server, find_channel, modify_client}
use irc.Server.Send.{send_welcome}
use irc.Server.Send.Frames.{quiet, core, quiet-send_welcome}
use irc.Handler.Join.{handle_join, create_channel, welcome_member, is_channel_name}
use irc.WellFormed.{registered_at}
use irc.Protocol.Rules.{by_some, by_if}
use irc.Protocol.Joining.{quiet-welcome_member}
use irc.Handler.Registration.{try_complete_registration}

pub welcome_member-channels :
    (c : Client) (channel : Channel) (s : Server)
    → (welcome_member c channel s).channels ≡ s.channels
unfolding quiet
welcome_member-channels c channel s =
    ap (λ (v : Server). v.channels) (quiet-welcome_member c channel s)

-- JOIN by a registered client of a name that begins like that of a channel and that no channel has makes
-- a channel under the name with the client as its only member, an operator.
pub handle_join_founds :
    (c : Client) (command : Command) (s : Server) (name : Text) (rest : List Text)
    → lookup c.fd s.clients ≡ some c
    → c.registered ≡ true
    → command.parameters ≡ name ∷ rest
    → is_channel_name name ≡ true
    → find_channel name s ≡ none
    → (channel : Channel) × (find_channel name (handle_join c.fd command s) ≡ some channel)
      × (is_member_operator c.fd channel ≡ true)
      × (member_count channel ≡ 1)
unfolding handle_join create_channel find_channel is_member_operator member_count add_member
    new_channel has_member member insert lookup
handle_join_founds c command s name rest found r given begins missing =
    (founded, same_found, ground (arith, ==_refl c.fd), refl)
  where
    founded : Channel
    founded = (add_member c.fd true (new_channel name)).0

    made : Server
    made = record s { channels = insert (irc_case_fold name) founded s.channels }

    same : handle_join c.fd command s ≡ welcome_member c founded made
    same = ground (arith, found, r, given, begins, missing)

    same_found : find_channel name (handle_join c.fd command s) ≡ some founded
    same_found = rw same (
        ap (lookup (irc_case_fold name)) (welcome_member-channels c founded made)
        ∙ lookup-insert (irc_case_fold name) (irc_case_fold name) founded s.channels
        ∙ ground (arith, ==_refl (irc_case_fold name)))

registered_at-quiet : (fd : ℕ) (s : Server) → registered_at fd (quiet s) ≡ registered_at fd s
unfolding registered_at quiet
registered_at-quiet fd s = ground (arith, lookup-map_values core fd s.clients)

registered_at-set :
    (fd : ℕ) (s : Server) (c : Client)
    → lookup fd s.clients ≡ some c
    → registered_at fd (modify_client fd (set_registered true) s) ≡ true
unfolding registered_at set_registered
registered_at-set fd s c found =
    ground (arith, found, lookup-modify fd fd (set_registered true) s.clients, ==_refl fd)

registered_at-welcome :
    (fd : ℕ) (s : Server) → registered_at fd (send_welcome fd s) ≡ registered_at fd s
registered_at-welcome fd s =
    sym (registered_at-quiet fd (send_welcome fd s))
    ∙ ap (registered_at fd) (quiet-send_welcome fd s)
    ∙ registered_at-quiet fd s

-- Behind the attempt to complete a registration a client is registered exactly when it was before or
-- has given the password, a nickname that is not empty and a user.
pub registered_at-try_complete_registration :
    (fd : ℕ) (s : Server) (c : Client)
    → lookup fd s.clients ≡ some c
    → registered_at fd (try_complete_registration fd s)
      ≡ (c.registered || c.password_accepted && not (is_empty c.nickname) && c.has_user)
unfolding try_complete_registration registered_at is_registration_ready
registered_at-try_complete_registration fd s c found =
    by_some Here (lookup fd s.clients) _ _ found (
      by_if Here c.registered (λ r. ground (arith, found, r))
        λ r.
          by_if Here (not (is_registration_ready c)) (λ n. ground (arith, found, r, n))
            λ ready.
              registered_at-welcome fd (modify_client fd (set_registered true) s)
              ∙ registered_at-set fd s c found
              ∙ ground (arith, r, ready))
  where
    Here : Server → Type 0
    Here t =
        registered_at fd t
        ≡ (c.registered || c.password_accepted && not (is_empty c.nickname) && c.has_user)
