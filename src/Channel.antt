-- ===== src/Channel.antt =====
-- includes/Channel.hpp and srcs/Channel.cpp: a channel with its members by descriptor, its invited
-- nicknames (case folded) and its modes. `Member::_client` is always NULL and never read.
use irc.Base.{ℕ, Bool, true, false, not, [], is_empty, length, none, some, nat_ord, if◌then◌else◌}
use irc.Map.{Map, lookup, insert, erase, modify, member}
use irc.Text.{Text, irc_case_fold, text_ord}

pub record Member : Type 0 where
  pub is_operator : Bool

pub record Channel : Type 0 where
  pub name : Text
  pub topic : Text
  pub members : Map ℕ Member
  pub invited_users : Map Text (Unit {0})
  pub invite_only : Bool
  pub topic_restricted : Bool
  pub has_key : Bool
  pub key : Text
  pub has_user_limit : Bool
  pub user_limit : ℕ

unfoldable pub new_channel : Text → Channel
new_channel name = record {
  name = name;
  topic = [];
  members = [];
  invited_users = [];
  invite_only = false;
  topic_restricted = false;
  has_key = false;
  key = [];
  has_user_limit = false;
  user_limit = 0;
}

unfoldable pub set_topic : Text → Channel → Channel
set_topic topic channel = record channel { topic = topic }

unfoldable pub has_topic : Channel → Bool
has_topic channel = not (is_empty channel.topic)

unfoldable pub has_member : ℕ → Channel → Bool
unfolding member
has_member fd channel = member fd channel.members

-- The Boolean result says whether the member is new; no caller reads it.
unfoldable pub add_member : ℕ → Bool → Channel → Channel × Bool
unfolding has_member
add_member fd make_operator channel = if has_member fd channel then (channel, false) else (
  record channel { members = insert fd (record { is_operator = make_operator }) channel.members },
  true,
)

unfoldable pub remove_member : ℕ → Channel → Channel
remove_member fd channel = record channel { members = erase fd channel.members }

unfoldable pub is_member_operator : ℕ → Channel → Bool
is_member_operator fd channel = elim (lookup fd channel.members) [
  | none ↦ false
  | some m ↦ m.is_operator
]

abbrev pub set_operator : Bool → Member → Member
set_operator enabled m = record m { is_operator = enabled }

unfoldable pub set_member_operator : ℕ → Bool → Channel → Channel × Bool
set_member_operator fd enabled channel = elim (lookup fd channel.members) [
  | none ↦ (channel, false)
  | some m ↦ (record channel { members = modify fd (set_operator enabled) channel.members }, true)
]

unfoldable pub is_empty_channel : Channel → Bool
is_empty_channel channel = is_empty channel.members

unfoldable pub member_count : Channel → ℕ
member_count channel = length channel.members

unfoldable pub add_invite : Text → Channel → Channel
add_invite nickname channel = record channel {
  invited_users = insert (irc_case_fold nickname) tt channel.invited_users;
}

unfoldable pub remove_invite : Text → Channel → Channel
remove_invite nickname channel = record channel {
  invited_users = erase (irc_case_fold nickname) channel.invited_users;
}

unfoldable pub is_invited : Text → Channel → Bool
unfolding member
is_invited nickname channel = member (irc_case_fold nickname) channel.invited_users

unfoldable pub set_invite_only : Bool → Channel → Channel
set_invite_only enabled channel = record channel { invite_only = enabled }

unfoldable pub set_topic_restricted : Bool → Channel → Channel
set_topic_restricted enabled channel = record channel { topic_restricted = enabled }

unfoldable pub set_key : Text → Channel → Channel
set_key key channel = record channel { has_key = true; key = key }

unfoldable pub remove_key : Channel → Channel
remove_key channel = record channel { has_key = false; key = [] }

unfoldable pub set_user_limit : ℕ → Channel → Channel
set_user_limit limit channel = record channel { has_user_limit = true; user_limit = limit }

unfoldable pub remove_user_limit : Channel → Channel
remove_user_limit channel = record channel { has_user_limit = false; user_limit = 0 }
