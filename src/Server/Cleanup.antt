-- ===== src/Server/Cleanup.antt =====
-- cleanupClientIrcState (srcs/Server/Server.cpp): every trace of a client outside `clients`.
use irc.Base.{ℕ, not, [], ◌∷◌, ◌++◌, none, some, ◌==◌, nat_ord, is_empty, if◌then◌else◌}
use irc.Map.{Map, lookup, insert, erase}
use irc.Text.{Text, codes, irc_case_fold, text_ord}
use irc.Channel.{Channel, Member, has_member, remove_invite, remove_member, is_empty_channel}
use irc.Client.{Client, prefix}
use irc.Server.{Server}
use irc.Server.Send.{send_to_all}

unfoldable pub insert_others : ℕ → Map ℕ Member → Map ℕ (Unit {0}) → Map ℕ (Unit {0})
insert_others fd [] recipients = recipients
insert_others fd ((other, m) ∷ rest) recipients =
    insert_others fd rest (if not (other == fd) then insert other tt recipients else recipients)

unfoldable pub quit_recipients : ℕ → Map Text Channel → Map ℕ (Unit {0}) → Map ℕ (Unit {0})
unfolding insert_others
quit_recipients fd [] recipients = recipients
quit_recipients fd ((key, channel) ∷ rest) recipients =
    quit_recipients fd rest
      (if has_member fd channel then insert_others fd channel.members recipients else recipients)

unfoldable pub quit_line : Client → Text
quit_line client =
    let reason : Text =
      if is_empty client.disconnect_reason
      then codes "Connection closed"
      else client.disconnect_reason in
    codes ":" ++ prefix client ++ codes " QUIT :" ++ reason

unfoldable pub leave_channel : ℕ → Text → Channel → Channel
unfolding remove_member remove_invite
leave_channel fd nickname channel =
    remove_member fd (if is_empty nickname then channel else remove_invite nickname channel)

-- Empty channels are deleted on the way.
unfoldable pub leave_channels : ℕ → Text → Map Text Channel → Map Text Channel
unfolding leave_channel is_empty_channel
leave_channels fd nickname [] = []
leave_channels fd nickname ((key, channel) ∷ rest) =
    let others = leave_channels fd nickname rest in
    let left = leave_channel fd nickname channel in
    if is_empty_channel left then others else (key, left) ∷ others

unfoldable pub release_nickname : ℕ → Text → Map Text ℕ → Map Text ℕ
release_nickname fd nickname index =
    if is_empty nickname then index else elim (lookup (irc_case_fold nickname) index) [
      | none ↦ index
      | some holder ↦ if holder == fd then erase (irc_case_fold nickname) index else index
    ]

unfoldable pub cleanup_client_irc_state : Client → Server → Server
unfolding quit_recipients quit_line leave_channels release_nickname
cleanup_client_irc_state client s =
    let told =
      if client.registered
      then send_to_all (quit_line client) (quit_recipients client.fd s.channels []) s
      else s in
    record told {
      channels = leave_channels client.fd client.nickname told.channels;
      nickname_index = release_nickname client.fd client.nickname told.nickname_index;
    }
