-- ===== src/Protocol.antt =====
-- What the commands may do to the state of the server, as a step relation over servers without pending
-- output: the abstract protocol that the handlers of srcs/Command implement.
pub mod Writing
pub mod Rules
pub mod Commands
pub mod Access
pub mod Privilege
pub mod Turns
pub mod Kept
pub mod Founded
pub mod Kicked
pub mod Joining
pub mod Renaming
pub mod Renames
pub mod Moding
pub mod Welcomed
pub mod Topics
pub mod Inviting
pub mod Admitting
pub mod Messages
pub mod Modes
pub mod Runs
pub mod Channels
pub mod Registering
use irc.Protocol.Writing.{Writes}
use irc.Base.{
  ◌⊎◌, ℕ, Bool, true, false, not, ◌&&◌, ◌||◌, ◌==◌, ◌≡◌, refl, ◌∙◌, [], ◌∷◌, List, Option, none,
  some, get_elem?, is_empty, leb, length,
}
use irc.Map.{Map, lookup, insert}
use irc.Text.{Text, codes, irc_case_fold, text_ord}
use irc.Channel.{
  Channel, is_invited, has_member, is_member_operator, new_channel, add_member, set_topic,
  set_invite_only, set_topic_restricted, set_key, remove_key, set_user_limit, remove_user_limit,
  add_invite,
}
use irc.Client.{Client, set_password_accepted, set_user, set_registered}
use irc.Base.{nat_ord}
use irc.Command.{Command}
use irc.Server.{Server, find_channel, find_client_by_nickname, modify_client, modify_channel}
use irc.Handler.Nick.{is_valid_nickname, in_use, forget_nickname, take_nickname}
use irc.Handler.Join.{is_channel_name, admit}
use irc.Handler.Registration.{second_or_empty}
use irc.Number.{parse_positive_user_limit}
use irc.Handler.Mode.Change.{ModeChange, parse_channel_mode_changes}
use irc.Handler.Kick.{remove_member_from_channel}
use irc.Handler.Mode.Apply.{write_operator}

-- The modes of the channel that keep a client out: invitations only, a key, a user limit.
unfoldable pub is_barred : Client → Text → Channel → Bool
unfolding is_invited
is_barred c supplied channel =
    channel.invite_only && not (is_invited c.nickname channel)
    || channel.has_key && not (supplied == channel.key)
    || channel.has_user_limit && leb channel.user_limit (length channel.members)

-- The actor is the registered client of the descriptor.
pub record IsRegistered (fd : ℕ) (v : Server) (c : Client) : Type 0 where
  pub found : lookup fd v.clients ≡ some c
  pub registered : c.registered ≡ true

pub record IsUnregistered (fd : ℕ) (v : Server) (c : Client) : Type 0 where
  pub found : lookup fd v.clients ≡ some c
  pub unregistered : c.registered ≡ false

-- The index has no client under the nickname, or the one of the descriptor.
abbrev pub IsFree : ℕ → Text → Server → Type 0
IsFree fd nickname v =
    (lookup (irc_case_fold nickname) v.nickname_index ≡ none)
    ⊎ (lookup (irc_case_fold nickname) v.nickname_index ≡ some fd)

-- The commands that may complete a registration.
abbrev pub MayComplete : Command → Type 0
MayComplete command =
    (command.name ≡ codes "PASS") ⊎ (command.name ≡ codes "USER") ⊎ (command.name ≡ codes "NICK")

-- One change that the client of the descriptor may make by the command.
pub data Act (fd : ℕ) (command : Command) : Server → Server → Type 0 where
  authenticate :
      (v : Server) (c : Client)
      → command.name ≡ codes "PASS"
      → IsUnregistered fd v c
      → get_elem? command.parameters 0 ≡ some v.password
      → Act fd command v (modify_client fd set_password_accepted v)
  describe :
      (v : Server) (c : Client) (username realname : Text)
      → command.name ≡ codes "USER"
      → IsUnregistered fd v c
      → get_elem? command.parameters 0 ≡ some username
      → get_elem? command.parameters 3 ≡ some realname
      → Act fd command v (modify_client fd (set_user username realname) v)
  register :
      (v : Server) (c : Client)
      → MayComplete command
      → IsUnregistered fd v c
      → (c.password_accepted && not (is_empty c.nickname) && c.has_user) ≡ true
      → Act fd command v (modify_client fd (set_registered true) v)
  rename :
      (v : Server) (c : Client) (nickname : Text)
      → command.name ≡ codes "NICK"
      → get_elem? command.parameters 0 ≡ some nickname
      → lookup fd v.clients ≡ some c
      → is_valid_nickname nickname ≡ true
      → IsFree fd nickname v
      → Act fd command v (take_nickname fd nickname (forget_nickname c nickname v))
  create :
      (v : Server) (c : Client) (name : Text)
      → command.name ≡ codes "JOIN"
      → get_elem? command.parameters 0 ≡ some name
      → IsRegistered fd v c
      → (get_elem? name 0 ≡ some b'#') ⊎ (get_elem? name 0 ≡ some b'&')
      → find_channel name v ≡ none
      → Act fd command v (record v {
        channels = insert (irc_case_fold name) (add_member fd true (new_channel name)).0 v.channels;
      })
  join :
      (v : Server) (c : Client) (name : Text) (rest : List Text) (channel : Channel)
      → command.name ≡ codes "JOIN"
      → command.parameters ≡ name ∷ rest
      → IsRegistered fd v c
      → find_channel name v ≡ some channel
      → has_member fd channel ≡ false
      → is_barred c (second_or_empty rest) channel ≡ false
      → Act fd command v (modify_channel name (admit c) v)
  retitle :
      (v : Server) (c : Client) (name topic : Text) (channel : Channel)
      → command.name ≡ codes "TOPIC"
      → get_elem? command.parameters 0 ≡ some name
      → get_elem? command.parameters 1 ≡ some topic
      → IsRegistered fd v c
      → find_channel name v ≡ some channel
      → has_member fd channel ≡ true
      → (channel.topic_restricted && not (is_member_operator fd channel)) ≡ false
      → Act fd command v (modify_channel name (set_topic topic) v)
  change_mode :
      (v w : Server) (c : Client) (name modes : Text) (more : List Text) (channel : Channel)
      (changes : List ModeChange)
      → command.name ≡ codes "MODE"
      → command.parameters ≡ name ∷ modes ∷ more
      → IsRegistered fd v c
      → find_channel name v ≡ some channel
      → is_member_operator fd channel ≡ true
      → parse_channel_mode_changes (name ∷ modes ∷ more) ≡ some changes
      → Writes name changes v w
      → Act fd command v w
  kick :
      (v : Server) (c : Client) (name nickname : Text) (channel : Channel) (target : Client)
      → command.name ≡ codes "KICK"
      → get_elem? command.parameters 0 ≡ some name
      → get_elem? command.parameters 1 ≡ some nickname
      → IsRegistered fd v c
      → find_channel name v ≡ some channel
      → is_member_operator fd channel ≡ true
      → find_client_by_nickname nickname v ≡ some target
      → has_member target.fd channel ≡ true
      → Act fd command v (remove_member_from_channel name target.fd v)
  invite :
      (v : Server) (c target : Client) (name nickname : Text) (channel : Channel)
      → command.name ≡ codes "INVITE"
      → get_elem? command.parameters 0 ≡ some nickname
      → get_elem? command.parameters 1 ≡ some name
      → IsRegistered fd v c
      → find_channel name v ≡ some channel
      → is_member_operator fd channel ≡ true
      → find_client_by_nickname nickname v ≡ some target
      → has_member target.fd channel ≡ false
      → Act fd command v (modify_channel name (add_invite nickname) v)

-- Any number of changes, one after the other.
pub data Acts (fd : ℕ) (command : Command) (v : Server) : Server → Type 0 where
  done : Acts fd command v v
  next : {u w : Server} → Acts fd command v u → Act fd command u w → Acts fd command v w

pub Acts-trans :
    {fd : ℕ} {command : Command} {u v w : Server}
    → Acts fd command u v
    → Acts fd command v w
    → Acts fd command u w
Acts-trans a done = a
Acts-trans a (next b act) = next (Acts-trans a b) act
