-- ===== src/Handler/Nick.antt =====
-- NICK (srcs/Command/Nick.cpp), with isValidNickname (srcs/Server/ServerUtils.cpp).
use irc.Base.{
  ℕ, Bool, false, ◌||◌, ◌&&◌, not, [], ◌∷◌, ◌++◌, none, some, ◌==◌, nat_ord, if◌then◌else◌,
}
use irc.Map.{Map, lookup, insert, erase, modify, map_values}
use irc.Text.{Text, codes, irc_case_fold, text_ord}
use irc.Channel.{Channel, Member, has_member, is_invited, add_invite, remove_invite}
use irc.Client.{Client, prefix, has_nickname, set_nickname}
use irc.Command.{Command}
use irc.Server.{Server, with_client}
use irc.Server.Send.{send_numeric, send_to_all}
use irc.Handler.Registration.{try_complete_registration}

unfoldable pub is_forbidden : ℕ → Bool
is_forbidden c = c == b' ' || c == b',' || c == b'\r' || c == b'\n' || c == b'\t'

unfoldable pub has_forbidden : Text → Bool
unfolding is_forbidden
has_forbidden [] = false
has_forbidden (c ∷ rest) = is_forbidden c || has_forbidden rest

unfoldable pub is_valid_nickname : Text → Bool
unfolding has_forbidden
is_valid_nickname [] = false
is_valid_nickname (c ∷ rest) =
    if c == b'#' || c == b'&' || c == b':' then false else not (has_forbidden (c ∷ rest))

unfoldable pub insert_members : Map ℕ Member → Map ℕ (Unit {0}) → Map ℕ (Unit {0})
insert_members [] recipients = recipients
insert_members ((fd, m) ∷ rest) recipients = insert_members rest (insert fd tt recipients)

-- The members of every channel that the client is in.
unfoldable pub nick_recipients : ℕ → Map Text Channel → Map ℕ (Unit {0}) → Map ℕ (Unit {0})
unfolding insert_members
nick_recipients fd [] recipients = recipients
nick_recipients fd ((key, channel) ∷ rest) recipients =
    nick_recipients fd rest
      (if has_member fd channel then insert_members channel.members recipients else recipients)

unfoldable pub move_invite : Text → Text → Channel → Channel
unfolding is_invited add_invite remove_invite
move_invite old new channel =
    if is_invited old channel then add_invite new (remove_invite old channel) else channel

-- The invitations and the index entry of the old nickname, if there is one.
unfoldable pub forget_nickname : Client → Text → Server → Server
unfolding move_invite has_nickname
forget_nickname client nickname s =
    if has_nickname client
    then record s {
      channels = map_values (move_invite client.nickname nickname) s.channels;
      nickname_index = erase (irc_case_fold client.nickname) s.nickname_index;
    }
    else s

unfoldable pub take_nickname : ℕ → Text → Server → Server
unfolding set_nickname
take_nickname fd nickname s = record s {
  clients = modify fd (set_nickname nickname) s.clients;
  nickname_index = insert (irc_case_fold nickname) fd s.nickname_index;
}

-- `oldPrefix` and `recipients` are filled for a registered client with a nickname only.
abbrev pub old_prefix : Client → Text
old_prefix client = if has_nickname client && client.registered then prefix client else []

abbrev pub recipients_of : Client → Server → Map ℕ (Unit {0})
recipients_of client s =
    if has_nickname client && client.registered
    then nick_recipients client.fd s.channels (insert client.fd tt [])
    else []

-- The index entry of the nickname belongs to another client.
unfoldable pub in_use : ℕ → Text → Server → Bool
in_use fd nickname s = elim (lookup (irc_case_fold nickname) s.nickname_index) [
  | none ↦ false
  | some holder ↦ not (holder == fd)
]

-- From the change of the nickname on: the client is as it was before.
unfoldable pub change_nickname : Client → Text → Server → Server
unfolding forget_nickname take_nickname
change_nickname client nickname s =
    let renamed = take_nickname client.fd nickname (forget_nickname client nickname s) in
    let line : Text = codes ":" ++ old_prefix client ++ codes " NICK :" ++ nickname in
    try_complete_registration client.fd
      (if client.registered then send_to_all line (recipients_of client s) renamed else renamed)

unfoldable pub handle_nick : ℕ → Command → Server → Server
unfolding change_nickname is_valid_nickname in_use has_nickname
handle_nick fd command s = with_client fd s λ client. elim command.parameters [
  | [] ↦ send_numeric fd (codes "431") (codes ":No nickname given") s
  | nickname ∷ rest ↦
      if not (is_valid_nickname nickname)
      then send_numeric fd (codes "432") (nickname ++ codes " :Erroneous nickname") s
      else if in_use client.fd nickname s
      then send_numeric fd (codes "433") (nickname ++ codes " :Nickname is already in use") s
      else if has_nickname client && client.nickname == nickname
      then s
      else change_nickname client nickname s
]
