-- ===== src/Tests/Commands.antt =====
-- Theorems on MODE, NICK, PRIVMSG, TOPIC, INVITE and the registration, at the test server.
use irc.Base.{
  not, ◌||◌, ◌&&◌, ℕ, true, false, [], ◌∷◌, List, ◌≡◌, refl, none, some, nat_ord, arith, ◌==◌,
  if◌then◌else◌,
}
use mathlib.Core.Option
use irc.Map.{lookup, member, map_values}
use irc.Text.{Text, codes, irc_case_fold, fold_char, text_ord, compare_text}
use irc.Channel.{Channel, is_member_operator, has_member, is_invited, set_topic}
use irc.Client.{Client, is_registration_ready, new_client}
use irc.Command.{Command}
use irc.Server.{Server, find_channel, find_client_by_nickname, modify_channel}
use irc.Server.Send.Frames.{quiet}
use irc.Handler.Mode.{handle_mode}
use irc.Handler.Mode.Change.{ModeChange, is_channel_target, parse_channel_mode_changes}
use irc.Handler.Nick.{handle_nick, is_valid_nickname, in_use}
use irc.Handler.Privmsg.{handle_privmsg, starts_like_channel}
use irc.Handler.Invite.{handle_invite}
use irc.Handler.Join.{handle_join, is_channel_name}
use irc.WellFormed.{nickname_of, registered_at, IsWellFormed, IsChannel}
use irc.Protocol.Modes.{mode_effects}
use irc.Protocol.Modes.Applied.{handle_mode_effects}
use irc.WellFormed.Departed.Trace.{invited_at}
use irc.Protocol.Renames.{uninvited, handle_nick_renames}
use irc.Protocol.Messages.{heard_in_channel, handle_privmsg_heard}
use irc.Protocol.Topics.{handle_topic_retitles, may_retitle}
use irc.Protocol.Welcomed.{new_client_registers}
use irc.Handler.Topic.{handle_topic}
use irc.Handler.Registration.{handle_pass, handle_user}
use irc.Protocol.Inviting.{invited_client_joins}
use irc.Tests.{alice, bob, test_server, test_channel, command_of, channel_name}
use irc.Tests.State.{test_server-IsWellFormed, one_entry}

-- `+k-i x`
abbrev keyed : ModeChange
keyed = record { adding = true; mode = b'k'; has_argument = true; argument = b'x' ∷ [] }

abbrev opened : ModeChange
opened = record { adding = false; mode = b'i'; has_argument = false; argument = [] }

abbrev mode_parameters : List Text
mode_parameters = channel_name ∷ (b'+' ∷ b'k' ∷ b'-' ∷ b'i' ∷ []) ∷ (b'x' ∷ []) ∷ []

handle_mode_effects_example :
    lookup channel_name
      (handle_mode 4 (command_of (codes "MODE") mode_parameters) test_server).channels
    ≡ some (mode_effects (keyed ∷ opened ∷ []) test_server test_channel)
unfolding irc_case_fold fold_char compare_text
handle_mode_effects_example =
    handle_mode_effects alice (command_of (codes "MODE") mode_parameters) test_server channel_name
      (b'+' ∷ b'k' ∷ b'-' ∷ b'i' ∷ []) ((b'x' ∷ []) ∷ []) test_channel (keyed ∷ opened ∷ [])
      channel_name (unfold lookup in refl) refl refl (unfold is_channel_target in refl)
      (unfold find_channel lookup irc_case_fold fold_char compare_text in refl)
      (unfold is_member_operator lookup in refl) (unfold parse_channel_mode_changes in refl)

-- Alice is invited to a second channel.
abbrev inviting : Channel
inviting = record test_channel {
  name = b'&' ∷ [];
  members = [];
  invited_users = (b'a' ∷ [], tt) ∷ (b'b' ∷ [], tt) ∷ [];
}

abbrev inviting_server : Server
inviting_server = record test_server {
  channels = (channel_name, test_channel) ∷ (b'&' ∷ [], inviting) ∷ [];
}

abbrev nick_e : Command
nick_e = command_of (codes "NICK") ((b'e' ∷ []) ∷ [])

handle_nick_renames_example :
    ((fd : ℕ)
      → nickname_of fd (handle_nick 4 nick_e inviting_server)
        ≡ (if 4 == fd then b'e' ∷ [] else nickname_of fd inviting_server))
    × ((key : Text)
        → lookup key (handle_nick 4 nick_e inviting_server).nickname_index ≡ (
            if irc_case_fold (b'e' ∷ []) == key
            then some 4
            else if irc_case_fold (b'a' ∷ []) == key
            then none
            else lookup key inviting_server.nickname_index))
    × ((key other : Text)
        → invited_at key other (handle_nick 4 nick_e inviting_server) ≡ (
            if invited_at key (b'a' ∷ []) inviting_server
            then irc_case_fold (b'e' ∷ []) == irc_case_fold other
              || not (irc_case_fold (b'a' ∷ []) == irc_case_fold other)
                && invited_at key other inviting_server
            else invited_at key other inviting_server))
    × ((key : Text)
        → Option.map uninvited (lookup key (handle_nick 4 nick_e inviting_server).channels)
          ≡ Option.map uninvited (lookup key inviting_server.channels))
handle_nick_renames_example =
    handle_nick_renames alice nick_e inviting_server (b'e' ∷ []) [] (unfold lookup in refl) refl
      (unfold is_valid_nickname in refl)
      (unfold in_use lookup irc_case_fold fold_char compare_text in refl)
      (unfold irc.Client.has_nickname compare_text in refl)

abbrev hello : Text
hello = b'h' ∷ b'i' ∷ []

handle_privmsg_heard_example :
    lookup 5
      (handle_privmsg 4
        (command_of (codes "PRIVMSG") (channel_name ∷ hello ∷ []))
        test_server).clients
    ≡ heard_in_channel alice channel_name hello 5 test_server
unfolding starts_like_channel
handle_privmsg_heard_example =
    handle_privmsg_heard alice (command_of (codes "PRIVMSG") (channel_name ∷ hello ∷ []))
      test_server channel_name hello [] 5 (unfold lookup in refl) refl refl refl
      test_server-IsWellFormed

handle_topic_retitles_example :
    quiet (handle_topic 5 (command_of (codes "TOPIC") (channel_name ∷ hello ∷ [])) test_server)
    ≡ quiet (modify_channel channel_name (set_topic hello) test_server)
unfolding may_retitle find_channel lookup irc_case_fold fold_char compare_text has_member member
handle_topic_retitles_example =
    handle_topic_retitles bob (command_of (codes "TOPIC") (channel_name ∷ hello ∷ [])) test_server
      channel_name hello [] refl refl refl

-- A connection that has just been accepted.
abbrev greeted : Server
greeted = record test_server { clients = (7, new_client 7) ∷ [] }

new_client_registers_example :
    registered_at 7 (
      handle_user 7 (command_of (codes "USER") (hello ∷ hello ∷ hello ∷ hello ∷ [])) (
        handle_nick 7
          (command_of (codes "NICK") ((b'e' ∷ []) ∷ []))
          (handle_pass 7 (command_of (codes "PASS") ((b'p' ∷ []) ∷ [])) greeted)))
    ≡ true
new_client_registers_example =
    new_client_registers (command_of (codes "PASS") ((b'p' ∷ []) ∷ []))
      (command_of (codes "NICK") ((b'e' ∷ []) ∷ []))
      (command_of (codes "USER") (hello ∷ hello ∷ hello ∷ hello ∷ [])) greeted 7 (b'e' ∷ []) hello
      hello hello hello [] [] [] (unfold lookup in refl) refl refl refl
      (unfold is_valid_nickname in refl)
      (unfold in_use lookup irc_case_fold fold_char compare_text in refl)

-- Without bob in the channel, which is invite-only.
abbrev closed_channel : Channel
closed_channel = record test_channel {
  members = (4, record { is_operator = true }) ∷ [];
  invite_only = true;
}

abbrev closed_server : Server
closed_server = record test_server { channels = (channel_name, closed_channel) ∷ [] }

members_registered :
    (fd : ℕ) → has_member fd closed_channel ≡ true → registered_at fd (quiet closed_server) ≡ true
unfolding has_member member registered_at quiet map_values lookup
members_registered fd h = ground arith

closed_server-IsWellFormed : IsWellFormed (quiet closed_server)
unfolding quiet map_values nickname_of lookup irc_case_fold fold_char member is_registration_ready
    compare_text
closed_server-IsWellFormed =
    let w = test_server-IsWellFormed in
    record {
      clients = w.clients;
      nicknames = record { sound = w.nicknames.sound; complete = w.nicknames.complete };
      clients_sorted = w.clients_sorted;
      index_sorted = w.index_sorted;
      channels_sorted = (tt, tt);
      channels = one_entry (IsChannel (quiet closed_server)) channel_name closed_channel (record {
        named = refl;
        inhabited = refl;
        ordered = (tt, tt);
        members = members_registered;
        invites = λ name h. absurd (ground (arith, h));
      });
    }

invited_client_joins_example :
    (after : Channel) × (find_channel channel_name (
        handle_join 5 (command_of (codes "JOIN") (channel_name ∷ [])) (
          handle_invite 4
            (command_of (codes "INVITE") ((b'b' ∷ []) ∷ channel_name ∷ []))
            closed_server))
      ≡ some after)
    × (has_member 5 after ≡ true)
    × (is_member_operator 5 after ≡ false)
    × (is_invited (b'B' ∷ []) after ≡ false)
invited_client_joins_example =
    invited_client_joins alice bob (command_of (codes "INVITE") ((b'b' ∷ []) ∷ channel_name ∷ []))
      (command_of (codes "JOIN") (channel_name ∷ [])) closed_server (b'b' ∷ []) channel_name [] []
      closed_channel (unfold lookup in refl) refl refl refl (unfold is_channel_name in refl)
      (unfold find_client_by_nickname lookup irc_case_fold fold_char compare_text in refl) refl
      (unfold find_channel lookup irc_case_fold fold_char compare_text in refl)
      (unfold has_member member lookup in refl) (unfold is_member_operator lookup in refl)
      (unfold has_member member lookup in refl) refl refl closed_server-IsWellFormed
