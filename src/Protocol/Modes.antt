-- ===== src/Protocol/Modes.antt =====
-- What an accepted MODE (srcs/Command/Mode.cpp, srcs/Command/ModeApply.cpp) does to a channel: what each
-- mode means, written apart from the handlers.
pub mod Written
pub mod Flags
pub mod Each
pub mod Applied
use irc.Base.{
  ℕ, Bool, true, false, not, ◌&&◌, ◌≡◌, refl, sym, subst, ap, ◌∙◌, [], ◌∷◌, ◌++◌, List, Option,
  none, some, arith, nat_ord, Option-cases, Bool-cases, inl, inr, ◌==◌, ==_eq, ==_refl, is_empty,
  if◌then◌else◌,
}
use mathlib.Core.Option
use irc.Map.{Map, lookup, member, modify, map_values}
use irc.Map.Laws.{lookup-modify, lookup-map_values, modify_idle}
use irc.Text.{Text, codes, text_ord, irc_case_fold}
use irc.Channel.{
  Channel, Member, has_member, is_member_operator, set_operator, set_member_operator, set_key,
  remove_key, set_invite_only, set_topic_restricted, set_user_limit, remove_user_limit,
}
use irc.Client.{Client}
use irc.Command.{Command}
use irc.Number.{parse_positive_user_limit}
use irc.Server.{Server, find_channel, find_client_by_nickname, find_client, modify_channel}
use irc.Server.Send.{send_numeric}
use irc.Server.Send.Frames.{quiet, core, quiet-send_numeric, quiet-broadcast_to_channel}
use irc.Protocol.Rules.{by_if, by_option, by_some, both_if}
use irc.Handler.Mode.{handle_mode, change_modes, apply_changes}
use irc.Handler.Mode.Change.{ModeChange, is_channel_target, parse_channel_mode_changes}
use irc.Handler.Mode.Apply.{
  same, mode_line, write_mode, write_operator, apply_invite_only_mode, apply_topic_restricted_mode,
  apply_key_mode, apply_operator_mode, apply_user_limit_mode, apply_to_channel,
  apply_channel_mode_change,
}

-- The descriptor of the client with a nickname.
unfoldable pub target_at : Text → Server → Option ℕ
unfolding find_client_by_nickname
target_at nickname s = Option.map (λ (c : Client). c.fd) (find_client_by_nickname nickname s)

-- What each mode means for a channel.
abbrev pub key_effect : ModeChange → Channel → Channel
key_effect change channel =
    if change.adding
    then if is_empty change.argument
      then channel
      else record channel { has_key = true; key = change.argument }
    else if channel.has_key
    then record channel { has_key = false; key = [] }
    else channel

abbrev pub operator_effect : Option ℕ → Bool → Channel → Channel
operator_effect none enabled channel = channel
operator_effect (some fd) enabled channel = record channel {
  members = modify fd (set_operator enabled) channel.members;
}

abbrev pub limit_effect : ModeChange → Channel → Channel
limit_effect change channel =
    if change.adding
    then elim (parse_positive_user_limit change.argument) [
      | none ↦ channel
      | some limit ↦ record channel { has_user_limit = true; user_limit = limit }
    ]
    else if channel.has_user_limit
    then record channel { has_user_limit = false; user_limit = 0 }
    else channel

unfoldable pub mode_effect : Option ℕ → ModeChange → Channel → Channel
mode_effect target change channel =
    if change.mode == b'i'
    then record channel { invite_only = change.adding }
    else if change.mode == b't'
    then record channel { topic_restricted = change.adding }
    else if change.mode == b'k'
    then key_effect change channel
    else if change.mode == b'o'
    then operator_effect target change.adding channel
    else if change.mode == b'l'
    then limit_effect change channel
    else channel

unfoldable pub mode_effects : List ModeChange → Server → Channel → Channel
unfolding mode_effect target_at
mode_effects [] s channel = channel
mode_effects (change ∷ rest) s channel =
    mode_effects rest s (mode_effect (target_at change.argument s) change channel)
