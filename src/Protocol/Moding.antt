-- ===== src/Protocol/Moding.antt =====
-- MODE makes the changes of the protocol only.
use irc.Base.{
  true, not, ◌&&◌, ◌≡◌, refl, [], ◌∷◌, List, none, some, arith, nat_ord, ◌==◌, ==_eq, is_empty,
}
use irc.Map.{lookup}
use irc.Text.{Text, codes, text_ord}
use irc.Channel.{Channel, has_member, is_member_operator}
use irc.Client.{Client}
use irc.Command.{Command}
use irc.Number.{parse_positive_user_limit}
use irc.Server.{Server, find_channel, find_client_by_nickname, modify_channel}
use irc.Server.Send.{send_numeric}
use irc.Server.Send.Frames.{quiet, core, quiet-send_numeric, quiet-broadcast_to_channel}
use irc.Protocol.{done, change_mode}
use irc.Protocol.Writing.{
  Means, Wrote, idle, wrote, Writes, finished, behind, ModeWrite, write_of, invite_only,
  topic_restricted, key, no_key, no_limit, limit, operator,
}
use irc.Protocol.Runs.{find_client_by_nickname-quiet, Runs, replied, acted, quiet-IsRegistered}
use irc.Protocol.Rules.{by_if, by_option, by_some, by_list}
use irc.Handler.Mode.{handle_mode, change_modes, apply_changes}
use irc.Handler.Mode.Change.{ModeChange, is_channel_target, parse_channel_mode_changes}
use irc.Handler.Mode.Apply.{
  same, mode_line, write_mode, apply_invite_only_mode, apply_topic_restricted_mode, apply_key_mode,
  apply_operator_mode, apply_user_limit_mode, apply_to_channel, apply_channel_mode_change,
}

module _ (c : Client) (s : Server) (name : Text) (change : ModeChange) (channel : Channel)
    (e : find_channel name s ≡ some channel) where
  abbrev Here : Server → Type 0
  Here t = Wrote name change (quiet s) (quiet t)

  answered : (numeric arguments : Text) → Here (send_numeric c.fd numeric arguments s)
  answered numeric arguments = rw (quiet-send_numeric c.fd numeric arguments s) idle

  write_mode-Wrote :
      (write : ModeWrite)
      → Means (quiet s) channel change write
      → Here (write_mode c name (write_of write) change channel s)
  unfolding write_mode find_channel quiet
  write_mode-Wrote write means =
      rw
        (quiet-broadcast_to_channel (write_of write channel)
          (mode_line c (write_of write channel) change) none
          (modify_channel name (write_of write) s))
        (wrote channel write e means)

  module _ (mode : change.mode ≡ b'i') where
    apply_invite_only_mode-Wrote : Here (apply_invite_only_mode c name change channel s)
    unfolding apply_invite_only_mode Means
    apply_invite_only_mode-Wrote =
        by_if Here (same channel.invite_only change.adding) (λ _. idle)
          λ _. write_mode-Wrote (invite_only change.adding) (mode, refl)

  module _ (mode : change.mode ≡ b't') where
    apply_topic_restricted_mode-Wrote : Here (apply_topic_restricted_mode c name change channel s)
    unfolding apply_topic_restricted_mode Means
    apply_topic_restricted_mode-Wrote =
        by_if Here (same channel.topic_restricted change.adding) (λ _. idle)
          λ _. write_mode-Wrote (topic_restricted change.adding) (mode, refl)

  module _ (mode : change.mode ≡ b'k') where
    apply_key_mode-Wrote : Here (apply_key_mode c name change channel s)
    unfolding apply_key_mode Means
    apply_key_mode-Wrote =
        by_if Here change.adding
          (λ adds.
            by_if Here (is_empty change.argument) (λ _. answered _ _)
              λ filled.
                by_if Here (channel.has_key && channel.key == change.argument) (λ _. idle)
                  λ _. write_mode-Wrote (key change.argument) (mode, adds, refl, filled))
          (λ removes.
            by_if Here (not channel.has_key) (λ _. idle)
              λ _. write_mode-Wrote no_key (mode, removes))

  module _ (mode : change.mode ≡ b'o') where
    apply_operator_mode-Wrote : Here (apply_operator_mode c name change channel s)
    unfolding apply_operator_mode Means
    apply_operator_mode-Wrote =
        by_option Here (find_client_by_nickname change.argument s) (λ _. answered _ _)
          λ target known.
            by_if Here (not (has_member target.fd channel)) (λ _. answered _ _)
              λ inside.
                by_if Here (same (is_member_operator target.fd channel) change.adding) (λ _. idle)
                  λ _. write_mode-Wrote (operator target.fd change.adding) (
                    mode,
                    refl,
                    ground (arith, inside),
                    core target,
                    find_client_by_nickname-quiet change.argument s target known,
                    refl,
                  )

  module _ (mode : change.mode ≡ b'l') where
    apply_user_limit_mode-Wrote : Here (apply_user_limit_mode c name change channel s)
    unfolding apply_user_limit_mode Means
    apply_user_limit_mode-Wrote =
        by_if Here change.adding
          (λ adds.
            by_option Here (parse_positive_user_limit change.argument) (λ _. answered _ _)
              λ count read.
                by_if Here (channel.has_user_limit && channel.user_limit == count) (λ _. idle)
                  λ _. write_mode-Wrote (limit count) (mode, adds, read))
          (λ removes.
            by_if Here (not channel.has_user_limit) (λ _. idle)
              λ _. write_mode-Wrote no_limit (mode, removes))

  apply_to_channel-Wrote : Here (apply_to_channel c name change channel s)
  unfolding apply_to_channel
  apply_to_channel-Wrote =
      by_if Here (change.mode == b'i') (λ m. apply_invite_only_mode-Wrote (==_eq _ _ m))
        λ _.
          by_if Here (change.mode == b't') (λ m. apply_topic_restricted_mode-Wrote (==_eq _ _ m))
            λ _.
              by_if Here (change.mode == b'k') (λ m. apply_key_mode-Wrote (==_eq _ _ m))
                λ _.
                  by_if Here (change.mode == b'o') (λ m. apply_operator_mode-Wrote (==_eq _ _ m))
                    λ _.
                      by_if Here (change.mode == b'l')
                        (λ m. apply_user_limit_mode-Wrote (==_eq _ _ m)) λ _. answered _ _

apply_channel_mode_change-Wrote :
    (c : Client) (name : Text) (change : ModeChange) (s : Server)
    → Wrote name change (quiet s) (quiet (apply_channel_mode_change c name change s))
unfolding apply_channel_mode_change
apply_channel_mode_change-Wrote c name change s =
    by_option (λ t. Wrote name change (quiet s) (quiet t)) (find_channel name s) (λ _. idle)
      λ channel e. apply_to_channel-Wrote c s name change channel e

apply_changes-Writes :
    (c : Client) (name : Text) (changes : List ModeChange) (s : Server)
    → Writes name changes (quiet s) (quiet (apply_changes c name changes s))
unfolding apply_changes
apply_changes-Writes c name [] s = finished (quiet s)
apply_changes-Writes c name (change ∷ rest) s =
    let t = apply_channel_mode_change c name change s in
    behind change rest (quiet s) (quiet t) _ (apply_channel_mode_change-Wrote c name change s)
      (apply_changes-Writes c name rest t)

module _ (c : Client) (command : Command) (named : command.name ≡ codes "MODE") (s : Server)
    (found : lookup c.fd s.clients ≡ some c) where
  abbrev There : Server → Type 0
  There = Runs c.fd command s

  change_modes-Acts :
      (target modes : Text) (more : List Text) (channel : Channel)
      → command.parameters ≡ target ∷ modes ∷ more
      → c.registered ≡ true
      → find_channel target s ≡ some channel
      → There (change_modes c (target ∷ modes ∷ more) target channel s)
  unfolding change_modes find_channel quiet
  change_modes-Acts target modes more channel given r e =
      by_if There (not (is_member_operator c.fd channel)) (λ _. replied c.fd command s c.fd _ _)
        λ op.
          by_option There (parse_channel_mode_changes (target ∷ modes ∷ more)) (λ _. done)
            λ changes read. acted c.fd command s _ refl (
              change_mode (quiet s) _ (core c) target modes more channel changes named given
                (quiet-IsRegistered c.fd s c found r) e (ground (arith, op)) read
                (apply_changes-Writes c target changes s))

  pub handle_mode-Acts : There (handle_mode c.fd command s)
  unfolding handle_mode
  handle_mode-Acts = by_some There (lookup c.fd s.clients) _ _ found (
      by_if There (not c.registered) (λ _. replied c.fd command s c.fd _ _)
        λ r.
          by_list There command.parameters (λ _. replied c.fd command s c.fd _ _)
            λ target rest given.
              by_if There (not (is_channel_target target)) (λ _. done)
                λ _.
                  by_option There (find_channel target s) (λ _. replied c.fd command s c.fd _ _)
                    λ channel e.
                      by_list There rest (λ _. done)
                        λ modes more moded.
                          change_modes-Acts target modes more channel (rw moded at given)
                            (ground (arith, r)) e)
