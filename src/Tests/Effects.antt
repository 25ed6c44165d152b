-- ===== src/Tests/Effects.antt =====
-- Theorems on what the commands do, at the test server.
use irc.Base.{◌&&◌, true, false, [], ◌∷◌, ◌++◌, length, ◌≡◌, ◌≤◌, refl, some, nat_ord, arith, ◌||◌}
use mathlib.Core.Option
use irc.Map.{lookup, member}
use irc.Map.Sorted.{Sorted}
use irc.Text.{codes, irc_case_fold, fold_char, text_ord, compare_text}
use irc.Channel.{Channel, is_member_operator, has_member, member_count}
use irc.Client.{Client, is_registration_ready, append_output}
use irc.Server.{Server, find_channel, find_client_by_nickname}
use irc.Server.Send.{broadcast_to_channel, crlf, max_pending_output}
use irc.Server.Send.Delivery.{delivered, lookup-broadcast_to_channel, broadcast_to_channel_bound}
use irc.Handler.Kick.{handle_kick}
use irc.Handler.Join.{handle_join}
use irc.Handler.Registration.{try_complete_registration}
use irc.Protocol.Founded.{handle_join_founds, registered_at-try_complete_registration}
use irc.Protocol.Kicked.{handle_kick_removes}
use irc.WellFormed.{registered_at}
use irc.WellFormed.{IsWellFormed}
use irc.Server.Send.Frames.{quiet}
use irc.Loop.{remove_disconnected_clients}
use irc.WellFormed.Removal.{Removes, remove_disconnected_clients-Removes}
use irc.Tests.{alice, bob, test_server, test_channel, command_of, channel_name}
use irc.Tests.State.{test_server-IsWellFormed}

both-Sorted : Sorted test_channel.members
both-Sorted = ((refl, tt), (tt, tt))

lookup-broadcast_to_channel_example :
    lookup 5 (broadcast_to_channel test_channel (codes "hi") (some 4) test_server).clients
    ≡ Option.map (delivered (codes "hi" ++ crlf)) (some bob)
unfolding lookup has_member
lookup-broadcast_to_channel_example =
    lookup-broadcast_to_channel test_channel (codes "hi") (some 4) test_server 5 both-Sorted

abbrev told_bob : Client
told_bob = record bob { output_buffer = codes "hi" ++ crlf }

bob_told :
    lookup 5 (broadcast_to_channel test_channel (codes "hi") (some 4) test_server).clients
    ≡ some told_bob
unfolding lookup broadcast_to_channel irc.Server.Send.queue_line irc.Server.Send.queue_raw codes
    irc.Map.modify append_output
bob_told = refl

broadcast_to_channel_bound_example : length told_bob.output_buffer ≤ max_pending_output
broadcast_to_channel_bound_example =
    broadcast_to_channel_bound test_channel (codes "hi") (some 4) test_server 5 bob told_bob
      both-Sorted (unfold lookup in refl) (omega arith) bob_told

abbrev left_channel : Channel
left_channel = record test_channel { members = (4, record { is_operator = true }) ∷ [] }

bob_kicked :
    find_channel channel_name
      (handle_kick 4 (command_of (codes "KICK") (channel_name ∷ (b'b' ∷ []) ∷ [])) test_server)
    ≡ some left_channel
unfolding find_channel lookup handle_kick compare_text irc_case_fold fold_char broadcast_to_channel
    irc.Server.Send.queue_line irc.Server.Send.queue_raw irc.Handler.Kick.kick_line codes
    irc.Client.prefix irc.Map.modify irc.Map.erase
bob_kicked = refl

handle_kick_removes_example : has_member 5 left_channel ≡ false
handle_kick_removes_example =
    handle_kick_removes alice bob (command_of (codes "KICK") (channel_name ∷ (b'b' ∷ []) ∷ []))
      test_server channel_name (b'b' ∷ []) [] test_channel left_channel (unfold lookup in refl) refl
      refl (unfold find_channel lookup irc_case_fold fold_char compare_text in refl)
      (unfold has_member member lookup in refl) (unfold is_member_operator lookup in refl)
      (unfold find_client_by_nickname lookup irc_case_fold fold_char compare_text in refl)
      (unfold has_member member lookup in refl) bob_kicked

handle_join_founds_example :
    (channel : Channel) × (find_channel
        (b'&' ∷ [])
        (handle_join 5 (command_of (codes "JOIN") ((b'&' ∷ []) ∷ [])) test_server)
      ≡ some channel)
    × (is_member_operator 5 channel ≡ true)
    × (member_count channel ≡ 1)
handle_join_founds_example =
    handle_join_founds bob (command_of (codes "JOIN") ((b'&' ∷ []) ∷ [])) test_server (b'&' ∷ []) []
      (unfold lookup in refl) refl refl (unfold irc.Handler.Join.is_channel_name in refl)
      (unfold find_channel lookup irc_case_fold fold_char compare_text in refl)

abbrev nearly : Client
nearly = record bob { registered = false }

abbrev nearly_server : Server
nearly_server = record test_server { clients = (5, nearly) ∷ [] }

registered_at-try_complete_registration_example :
    registered_at 5 (try_complete_registration 5 nearly_server) ≡ (false || true && true && true)
registered_at-try_complete_registration_example =
    registered_at-try_complete_registration 5 nearly_server nearly (unfold lookup in refl)

-- Bob is to be disconnected.
abbrev leaving : Client
leaving = record bob { disconnect_requested = true }

abbrev leaving_server : Server
leaving_server = record test_server { clients = (4, alice) ∷ (5, leaving) ∷ [] }

leaving_server-IsWellFormed : IsWellFormed (quiet leaving_server)
unfolding quiet irc.Map.map_values
leaving_server-IsWellFormed = test_server-IsWellFormed

remove_disconnected_clients-Removes_example :
    Removes 0 leaving_server (remove_disconnected_clients leaving_server)
remove_disconnected_clients-Removes_example =
    remove_disconnected_clients-Removes leaving_server leaving_server-IsWellFormed
