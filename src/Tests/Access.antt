-- ===== src/Tests/Access.antt =====
-- Theorems on what the clients may do, at the test server.
use irc.Base.{ℕ, true, false, [], ◌∷◌, ◌≡◌, refl, some, none, ◌⊎◌, nat_ord, arith, get_elem?}
use mathlib.Core.Logic.{◌↔◌}
use irc.Map.{lookup, member}
use irc.Text.{Text, codes, irc_equals, irc_case_fold, fold_char, text_ord, compare_text}
use irc.Channel.{Channel, is_member_operator, has_member}
use irc.Client.{Client, pop_line, input_size}
use irc.Command.{Command}
use irc.Server.{Server, find_channel, find_client_by_nickname}
use irc.Server.Send.Frames.{quiet}
use irc.Handler.Dispatch.{dispatch_command}
use irc.Handler.Mode.{handle_mode}
use irc.Handler.Kick.{handle_kick}
use irc.Handler.Invite.{handle_invite}
use irc.Handler.Join.{handle_join}
use irc.Connection.{serve_lines}
use irc.Protocol.Access.{accepted_at, dispatch_command-accepted_at}
use irc.Protocol.Kept.{input_at, dispatch_command-input_at}
use irc.Server.Send.{send_numeric}
use irc.Protocol.Turns.{dispatch_command_out_of_turn, is_out_of_turn, is_one_of}
use irc.Protocol.Privilege.{operator_commands_refused, handle_join_barred}
use irc.Protocol.{is_barred}
use irc.WellFormed.Unique.{find_client_by_nickname_iff}
use irc.WellFormed.Drained.{serve_lines-IsDrained}
use irc.Tests.{alice, bob, test_server, test_channel, command_of, channel_name}
use irc.Tests.State.{test_server-IsWellFormed, one_entry}

-- A client that has not given the password.
abbrev guest : Client
guest = record bob { password_accepted = false; registered = false }

abbrev guest_server : Server
guest_server = record test_server { clients = (4, alice) ∷ (5, guest) ∷ [] }

guest_accepted :
    accepted_at 5 (dispatch_command 5 (command_of (codes "PASS") ((b'p' ∷ []) ∷ [])) guest_server)
    ≡ true
unfolding accepted_at dispatch_command lookup codes compare_text
    irc.Handler.Registration.handle_pass irc.Handler.Registration.try_complete_registration
    irc.Map.modify irc.Server.Send.send_welcome irc.Server.Send.send_numeric
    irc.Server.Send.queue_line irc.Server.Send.queue_raw irc.Server.Send.numeric_line
    irc.Client.append_output
guest_accepted = refl

dispatch_command-accepted_at_example :
    (◌≡◌ {A = ℕ} 5 5)
    × (codes "PASS" ≡ codes "PASS")
    × (get_elem? {A = Text} ((b'p' ∷ []) ∷ []) 0 ≡ some (b'p' ∷ []))
dispatch_command-accepted_at_example =
    dispatch_command-accepted_at guest (command_of (codes "PASS") ((b'p' ∷ []) ∷ [])) guest_server 5
      (unfold lookup in refl) (unfold accepted_at lookup in refl) guest_accepted

dispatch_command_out_of_turn_example :
    dispatch_command 5 (command_of (codes "JOIN") (channel_name ∷ [])) guest_server
    ≡ send_numeric 5 (codes "451") (codes ":You have not registered") guest_server
dispatch_command_out_of_turn_example =
    dispatch_command_out_of_turn 5 (command_of (codes "JOIN") (channel_name ∷ [])) guest_server
      guest (unfold lookup in refl) (unfold is_out_of_turn is_one_of compare_text codes in refl)

dispatch_command-input_at_example :
    input_at 4 (dispatch_command 5 (command_of (codes "QUIT") []) test_server)
    ≡ input_at 4 test_server
dispatch_command-input_at_example =
    dispatch_command-input_at bob (command_of (codes "QUIT") []) test_server 4
      (unfold lookup in refl)

bob_powerless :
    (key : Text) (channel : Channel)
    → lookup key test_server.channels ≡ some channel
    → is_member_operator 5 channel ≡ false
bob_powerless =
    one_entry (λ key channel. is_member_operator 5 channel ≡ false) channel_name test_channel
      (unfold is_member_operator lookup in refl)

abbrev kick_alice : Command
kick_alice = command_of (codes "KICK") (channel_name ∷ (b'a' ∷ []) ∷ [])

operator_commands_refused_example :
    (quiet (handle_mode 5 kick_alice test_server) ≡ quiet test_server)
    × (quiet (handle_kick 5 kick_alice test_server) ≡ quiet test_server)
    × (quiet (handle_invite 5 kick_alice test_server) ≡ quiet test_server)
operator_commands_refused_example =
    operator_commands_refused bob kick_alice test_server (unfold lookup in refl) bob_powerless

-- A third client, and the channel with a limit that is reached.
abbrev carol : Client
carol = record bob { fd = 6; nickname = b'd' ∷ [] }

abbrev full_channel : Channel
full_channel = record test_channel { has_user_limit = true; user_limit = 2 }

abbrev full_server : Server
full_server = record test_server {
  clients = (6, carol) ∷ [];
  channels = (channel_name, full_channel) ∷ [];
}

handle_join_barred_example :
    quiet (handle_join 6 (command_of (codes "JOIN") (channel_name ∷ [])) full_server)
    ≡ quiet full_server
handle_join_barred_example =
    handle_join_barred carol (command_of (codes "JOIN") (channel_name ∷ [])) full_server
      channel_name [] full_channel (unfold lookup in refl) refl
      (unfold find_channel lookup irc_case_fold fold_char compare_text in refl)
      (unfold has_member member lookup in refl) (unfold is_barred in refl)

find_client_by_nickname_iff_example :
    (find_client_by_nickname (b'b' ∷ []) test_server ≡ some bob) ↔ (
      (lookup 5 test_server.clients ≡ some bob)
      × (false ≡ false)
      × (irc_equals (b'B' ∷ []) (b'b' ∷ []) ≡ true))
find_client_by_nickname_iff_example =
    find_client_by_nickname_iff test_server (b'b' ∷ []) bob test_server-IsWellFormed

serve_lines-IsDrained_example :
    (d : Client) × (lookup 5 (serve_lines 1 5 test_server).clients ≡ some d)
    × ((d.disconnect_requested ≡ true) ⊎ (pop_line d ≡ none))
serve_lines-IsDrained_example =
    serve_lines-IsDrained 1 5 test_server bob test_server-IsWellFormed (unfold lookup in refl)
      (unfold input_size in omega arith)
