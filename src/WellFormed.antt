-- ===== src/WellFormed.antt =====
-- The invariant of the server's state (includes/Server.hpp): clients stand under their own descriptors,
-- the nickname index is exactly the nicknames of the clients, and every channel stands under its folded
-- name, has a member, has registered clients only for members and invites taken nicknames only.
pub mod Clients
pub mod Nicknames
pub mod Channels
pub mod Preserved
pub mod Running
pub mod Arrived
pub mod Connections
pub mod Departed
pub mod Unique
pub mod Drained
pub mod Removal
use irc.Base.{ℕ, Bool, true, false, ◌≡◌, [], Option, none, some, is_empty, nat_ord}
use irc.Map.{lookup, member}
use irc.Map.Sorted.{Sorted}
use irc.Text.{Text, irc_case_fold, text_ord}
use irc.Channel.{Channel, has_member}
use irc.Client.{Client, is_registration_ready}
use irc.Server.{Server}

-- The nickname of the client of a descriptor, empty if there is none.
unfoldable pub nickname_of : ℕ → Server → Text
nickname_of fd v = elim (lookup fd v.clients) [ none ↦ [] | some c ↦ c.nickname ]

unfoldable pub registered_at : ℕ → Server → Bool
registered_at fd v = elim (lookup fd v.clients) [ none ↦ false | some c ↦ c.registered ]

pub record IsClient (fd : ℕ) (c : Client) : Type 0 where
  pub keyed : c.fd ≡ fd
  pub ready : c.registered ≡ true → is_registration_ready c ≡ true

pub record IsIndexed (v : Server) : Type 0 where
  pub sound :
      (key : Text) (fd : ℕ)
      → lookup key v.nickname_index ≡ some fd
      → (irc_case_fold (nickname_of fd v) ≡ key) × (is_empty (nickname_of fd v) ≡ false)
  pub complete :
      (fd : ℕ)
      → is_empty (nickname_of fd v) ≡ false
      → lookup (irc_case_fold (nickname_of fd v)) v.nickname_index ≡ some fd

pub record IsChannel (v : Server) (key : Text) (channel : Channel) : Type 0 where
  pub named : irc_case_fold channel.name ≡ key
  pub inhabited : is_empty channel.members ≡ false
  pub ordered : Sorted channel.members
  pub members : (fd : ℕ) → has_member fd channel ≡ true → registered_at fd v ≡ true
  pub invites :
      (name : Text) → member name channel.invited_users ≡ true → member name v.nickname_index ≡ true

pub record IsWellFormed (v : Server) : Type 0 where
  pub clients : (fd : ℕ) (c : Client) → lookup fd v.clients ≡ some c → IsClient fd c
  pub nicknames : IsIndexed v
  pub clients_sorted : Sorted v.clients
  pub index_sorted : Sorted v.nickname_index
  pub channels_sorted : Sorted v.channels
  pub channels :
      (key : Text) (channel : Channel)
      → lookup key v.channels ≡ some channel
      → IsChannel v key channel
