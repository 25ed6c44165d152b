-- ===== src/Protocol/Writing.antt =====
-- What a MODE command may write to a channel (srcs/Command/ModeApply.cpp): the meaning of each change,
-- and the changes of a command in their order.
use irc.Base.{ℕ, Bool, true, false, ◌≡◌, refl, ◌∙◌, [], ◌∷◌, List, some, is_empty}
use irc.Text.{Text, text_ord}
use irc.Channel.{
  Channel, has_member, set_invite_only, set_topic_restricted, set_key, remove_key, set_user_limit,
  remove_user_limit,
}
use irc.Client.{Client}
use irc.Base.{nat_ord}
use irc.Server.{Server, find_channel, find_client_by_nickname, modify_channel}
use irc.Number.{parse_positive_user_limit}
use irc.Handler.Mode.Change.{ModeChange}
use irc.Handler.Mode.Apply.{write_operator}

-- The writes of MODE.
pub data ModeWrite : Type 0 where
  invite_only topic_restricted : Bool → ModeWrite
  key : Text → ModeWrite
  no_key no_limit : ModeWrite
  limit : ℕ → ModeWrite
  operator : ℕ → Bool → ModeWrite

abbrev pub write_of : ModeWrite → Channel → Channel
write_of (invite_only enabled) = set_invite_only enabled
write_of (topic_restricted enabled) = set_topic_restricted enabled
write_of (key text) = set_key text
write_of no_key = remove_key
write_of no_limit = remove_user_limit
write_of (limit count) = set_user_limit count
write_of (operator fd enabled) = write_operator fd enabled

-- What a change of a MODE command means: the write that its letter, its sign and its argument stand for.
unfoldable pub Means : Server → Channel → ModeChange → ModeWrite → Type 0
unfolding find_client_by_nickname
Means v channel change (invite_only enabled) = (change.mode ≡ b'i') × (change.adding ≡ enabled)
Means v channel change (topic_restricted enabled) = (change.mode ≡ b't') × (change.adding ≡ enabled)
Means v channel change (key text) =
    (change.mode ≡ b'k')
    × (change.adding ≡ true)
    × (change.argument ≡ text)
    × (is_empty text ≡ false)
Means v channel change no_key = (change.mode ≡ b'k') × (change.adding ≡ false)
Means v channel change (limit count) =
    (change.mode ≡ b'l')
    × (change.adding ≡ true)
    × (parse_positive_user_limit change.argument ≡ some count)
Means v channel change no_limit = (change.mode ≡ b'l') × (change.adding ≡ false)
Means v channel change (operator fd enabled) =
    (change.mode ≡ b'o')
    × (change.adding ≡ enabled)
    × (has_member fd channel ≡ true)
    × (target : Client) × (find_client_by_nickname change.argument v ≡ some target)
    × (target.fd ≡ fd)

-- One change writes what it means to the channel, or nothing.
pub data Wrote (name : Text) (change : ModeChange) (v : Server) : Server → Type 0 where
  idle : Wrote name change v v
  wrote :
      (channel : Channel) (write : ModeWrite)
      → find_channel name v ≡ some channel
      → Means v channel change write
      → Wrote name change v (modify_channel name (write_of write) v)

-- The changes of a command, each once and in their order.
pub data Writes (name : Text) : List ModeChange → Server → Server → Type 0 where
  finished : (v : Server) → Writes name [] v v
  behind :
      (change : ModeChange) (rest : List ModeChange) (v u w : Server)
      → Wrote name change v u
      → Writes name rest u w
      → Writes name (change ∷ rest) v w

-- The writes of MODE change channels alone.
Wrote-rest :
    {name : Text} {change : ModeChange} {v w : Server}
    → Wrote name change v w
    → (w.clients ≡ v.clients) × (w.password ≡ v.password)
Wrote-rest idle = (refl, refl)
Wrote-rest (wrote channel write e m) = (refl, refl)

pub Writes-rest :
    {name : Text} {changes : List ModeChange} {v w : Server}
    → Writes name changes v w
    → (w.clients ≡ v.clients) × (w.password ≡ v.password)
Writes-rest (finished v) = (refl, refl)
Writes-rest (behind change rest v u w first later) =
    let (clients, password) = Wrote-rest first in
    let (others, still) = Writes-rest later in (others ∙ clients, still ∙ password)
