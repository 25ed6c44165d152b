-- ===== src/Handler/Keeps/Modes.antt =====
-- MODE.
use irc.Base.{ℕ, not, ◌&&◌, [], ◌∷◌, List, none, ◌==◌, nat_ord, is_empty}
use irc.Map.{lookup}
use irc.Text.{Text, text_ord}
use irc.Number.{parse_positive_user_limit}
use irc.Channel.{
  Channel, has_member, is_member_operator, set_invite_only, set_topic_restricted, set_key,
  remove_key, set_user_limit, remove_user_limit,
}
use irc.Client.{Client}
use irc.Command.{Command}
use irc.Server.{Server, find_channel, find_client_by_nickname}
use irc.Server.Keeps.{IsKept, broadcast_to_channel_keeps}
use irc.Handler.Mode.{apply_changes, change_modes, handle_mode}
use irc.Handler.Mode.Change.{ModeChange, is_channel_target, parse_channel_mode_changes}
use irc.Handler.Mode.Apply.{
  same, write_operator, write_mode, broadcast_mode_change, apply_invite_only_mode,
  apply_topic_restricted_mode, apply_key_mode, apply_operator_mode, apply_user_limit_mode,
  apply_to_channel, apply_channel_mode_change,
}
use irc.Protocol.Rules.{by_if, by_option, by_list}
use irc.Handler.Keeps.Identity.{not_registered_keeps}
use irc.Handler.Keeps.Channels.{said}

module _ (P : Server → Type 0) (kept : IsKept P) where
  module _ (c : Client) (name : Text) (change : ModeChange) (s : Server) (p : P s) where
    wrote :
        {A : Type 0} (write : Channel → Channel) (channel : Channel)
        → A
        → P (write_mode c name write change channel s)
    unfolding write_mode broadcast_mode_change
    wrote write channel known =
        broadcast_to_channel_keeps P kept (write channel) _ none _ (kept.shared _ _ s p)

    apply_key_mode_keeps : (channel : Channel) → P (apply_key_mode c name change channel s)
    unfolding apply_key_mode
    apply_key_mode_keeps channel =
        by_if P change.adding
          (λ _. by_if P (is_empty change.argument) (said P kept c.fd s p _ _) (λ _.
            by_if P (channel.has_key && channel.key == change.argument) (λ _. p)
              (wrote (set_key change.argument) channel)))
          (λ _. by_if P (not channel.has_key) (λ _. p) (wrote remove_key channel))

    apply_operator_mode_keeps :
        (channel : Channel) → P (apply_operator_mode c name change channel s)
    unfolding apply_operator_mode
    apply_operator_mode_keeps channel =
        by_option P (find_client_by_nickname change.argument s) (said P kept c.fd s p _ _)
          λ target _. by_if P (not (has_member target.fd channel)) (said P kept c.fd s p _ _) λ _.
            by_if P (same (is_member_operator target.fd channel) change.adding) (λ _. p)
              (wrote (write_operator target.fd change.adding) channel)

    apply_user_limit_mode_keeps :
        (channel : Channel) → P (apply_user_limit_mode c name change channel s)
    unfolding apply_user_limit_mode
    apply_user_limit_mode_keeps channel =
        by_if P change.adding
          (λ _.
            by_option P (parse_positive_user_limit change.argument) (said P kept c.fd s p _ _)
              (λ limit _.
                by_if P (channel.has_user_limit && channel.user_limit == limit) (λ _. p)
                  (wrote (set_user_limit limit) channel)))
          (λ _. by_if P (not channel.has_user_limit) (λ _. p) (wrote remove_user_limit channel))

    apply_to_channel_keeps : (channel : Channel) → P (apply_to_channel c name change channel s)
    unfolding apply_to_channel apply_invite_only_mode apply_topic_restricted_mode
    apply_to_channel_keeps channel =
        by_if P (change.mode == b'i')
          (λ _.
            by_if P (same channel.invite_only change.adding) (λ _. p)
              (wrote (set_invite_only change.adding) channel))
          λ _.
            by_if P (change.mode == b't')
              (λ _.
                by_if P (same channel.topic_restricted change.adding) (λ _. p)
                  (wrote (set_topic_restricted change.adding) channel))
              λ _.
                by_if P (change.mode == b'k') (λ _. apply_key_mode_keeps channel)
                  λ _.
                    by_if P (change.mode == b'o') (λ _. apply_operator_mode_keeps channel)
                      λ _.
                        by_if P (change.mode == b'l') (λ _. apply_user_limit_mode_keeps channel)
                          (said P kept c.fd s p _ _)

    apply_channel_mode_change_keeps : P (apply_channel_mode_change c name change s)
    unfolding apply_channel_mode_change
    apply_channel_mode_change_keeps =
        by_option P (find_channel name s) (λ _. p) (λ channel _. apply_to_channel_keeps channel)

  apply_changes_keeps :
      (c : Client) (name : Text) (changes : List ModeChange) (s : Server)
      → P s
      → P (apply_changes c name changes s)
  unfolding apply_changes
  apply_changes_keeps c name [] s p = p
  apply_changes_keeps c name (change ∷ rest) s p =
      apply_changes_keeps c name rest _ (apply_channel_mode_change_keeps c name change s p)

  change_modes_keeps :
      (c : Client) (parameters : List Text) (target : Text) (channel : Channel) (s : Server)
      → P s
      → P (change_modes c parameters target channel s)
  unfolding change_modes
  change_modes_keeps c parameters target channel s p =
      by_if P (not (is_member_operator c.fd channel)) (said P kept c.fd s p _ _) λ _.
        by_option P (parse_channel_mode_changes parameters) (λ _. p)
          (λ changes _. apply_changes_keeps c target changes s p)

  pub handle_mode_keeps :
      (fd : ℕ) (command : Command) (s : Server) → P s → P (handle_mode fd command s)
  unfolding handle_mode
  handle_mode_keeps fd command s p =
      by_option P (lookup fd s.clients) (λ _. p)
        λ c _.
          by_if P (not c.registered) (λ _. not_registered_keeps P kept fd s p)
            λ _. by_list P command.parameters (said P kept fd s p _ _) λ target rest _.
              by_if P (not (is_channel_target target)) (λ _. p)
                λ _. by_option P (find_channel target s) (said P kept fd s p _ _) λ channel _.
                  by_list P rest (λ _. p)
                    λ modes more _. change_modes_keeps c (target ∷ modes ∷ more) target channel s p
