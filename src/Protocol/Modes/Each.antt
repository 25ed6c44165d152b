-- ===== src/Protocol/Modes/Each.antt =====
-- Each function of srcs/Command/ModeApply.cpp has the effect of its mode.
use irc.Base.{
  ℕ, true, not, ◌&&◌, ◌≡◌, refl, subst, ap, ◌++◌, Option, none, some, arith, nat_ord, ◌==◌, ==_eq,
  is_empty, if◌then◌else◌,
}
use mathlib.Core.Option
use irc.Text.{Text, codes, text_ord}
use irc.Channel.{
  Channel, has_member, is_member_operator, set_member_operator, set_key, remove_key,
  set_invite_only, set_topic_restricted, set_user_limit, remove_user_limit,
}
use irc.Client.{Client}
use irc.Number.{parse_positive_user_limit}
use irc.Server.{Server, find_channel, find_client_by_nickname}
use irc.Server.Send.{send_numeric}
use irc.Protocol.Rules.{by_if, by_some, both_if}
use irc.Handler.Mode.Change.{ModeChange}
use irc.Handler.Mode.Apply.{
  same, write_mode, write_operator, apply_invite_only_mode, apply_topic_restricted_mode,
  apply_key_mode, apply_operator_mode, apply_user_limit_mode, apply_to_channel,
  apply_channel_mode_change,
}
use irc.Protocol.Modes.{target_at, key_effect, operator_effect, limit_effect, mode_effect}
use irc.Protocol.Modes.Written.{IsWritten, write_or_not, refused, erased_or_not}
use irc.Protocol.Modes.Flags.{
  same_eq, flag, flag_absent, flag_idle, flag_writes, same_key, same_limit,
}

module _ (name : Text) (s : Server) (channel : Channel)
    (found : find_channel name s ≡ some channel) where
  abbrev W : Channel → Server → Type 0
  W x t = IsWritten name x s t

  module _ (c : Client) (change : ModeChange) where
    invite_only-IsWritten :
        W
          (record channel { invite_only = change.adding })
          (apply_invite_only_mode c name change channel s)
    unfolding apply_invite_only_mode set_invite_only
    invite_only-IsWritten =
        write_or_not name s channel found c (set_invite_only change.adding) change _
          (same channel.invite_only change.adding)
          (λ h.
            ap (λ v. record channel { invite_only = v })
              (same_eq channel.invite_only change.adding h))
          refl

    topic_restricted-IsWritten :
        IsWritten name
          (record channel { topic_restricted = change.adding })
          s
          (apply_topic_restricted_mode c name change channel s)
    unfolding apply_topic_restricted_mode set_topic_restricted
    topic_restricted-IsWritten =
        write_or_not name s channel found c (set_topic_restricted change.adding) change _
          (same channel.topic_restricted change.adding)
          (λ h.
            ap (λ v. record channel { topic_restricted = v })
              (same_eq channel.topic_restricted change.adding h))
          refl

    key-IsWritten :
        IsWritten name (key_effect change channel) s (apply_key_mode c name change channel s)
    unfolding apply_key_mode set_key remove_key
    key-IsWritten =
        both_if W change.adding
          (λ _.
            both_if W (is_empty change.argument) (λ _. refused name s channel found _ _ c.fd)
              λ _.
                write_or_not name s channel found c (set_key change.argument) change _
                  (channel.has_key && channel.key == change.argument)
                  (λ h.
                    same_key channel (ground (arith, h))
                      (ground (arith, h, ==_eq channel.key change.argument)))
                  refl)
          (λ _. erased_or_not name s channel found c remove_key change channel.has_key)

    operator-IsWritten :
        IsWritten name
          (operator_effect (target_at change.argument s) change.adding channel)
          s
          (apply_operator_mode c name change channel s)
    unfolding apply_operator_mode target_at set_member_operator
    operator-IsWritten = go (find_client_by_nickname change.argument s)
      where
        go :
            (o : Option Client)
            → W
                (operator_effect (Option.map (λ (d : Client). d.fd) o) change.adding channel)
                (elim o [
                  | none ↦
                      send_numeric c.fd
                        (codes "401")
                        (change.argument ++ codes " :No such nick/channel")
                        s
                  | some target ↦
                      if not (has_member target.fd channel)
                      then send_numeric c.fd
                          (codes "441")
                          (change.argument
                            ++ codes " "
                            ++ channel.name
                            ++ codes " :They aren't on that channel")
                          s
                      else if same (is_member_operator target.fd channel) change.adding
                      then s
                      else write_mode c name
                          (write_operator target.fd change.adding)
                          change
                          channel
                          s
                ])
        go none = refused name s channel found _ _ c.fd
        go (some target) =
            by_if (W (flag target.fd change.adding channel)) (not (has_member target.fd channel))
              (λ h.
                subst
                  (λ x. W x (
                    send_numeric c.fd (codes "441")
                      (change.argument
                        ++ codes " "
                        ++ channel.name
                        ++ codes " :They aren't on that channel")
                      s))
                  (flag_absent target.fd change.adding channel h)
                  (refused name s channel found _ _ c.fd))
              λ h.
                write_or_not name s channel found c (write_operator target.fd change.adding) change
                  _ (same (is_member_operator target.fd channel) change.adding)
                  (flag_idle target.fd change.adding channel (ground (arith, h)))
                  (flag_writes target.fd change.adding channel (ground (arith, h)))

    limit-IsWritten :
        IsWritten name
          (limit_effect change channel)
          s
          (apply_user_limit_mode c name change channel s)
    unfolding apply_user_limit_mode set_user_limit remove_user_limit
    limit-IsWritten =
        both_if W change.adding (λ _. given (parse_positive_user_limit change.argument))
          (λ _.
            erased_or_not name s channel found c remove_user_limit change channel.has_user_limit)
      where
        given :
            (o : Option ℕ)
            → W
                (elim o [
                  | none ↦ channel
                  | some limit ↦ record channel { has_user_limit = true; user_limit = limit }
                ])
                (elim o [
                  | none ↦
                      send_numeric c.fd
                        (codes "696")
                        (channel.name
                          ++ codes " l "
                          ++ change.argument
                          ++ codes " :Invalid mode parameter")
                        s
                  | some limit ↦
                      if channel.has_user_limit && channel.user_limit == limit
                      then s
                      else write_mode c name (set_user_limit limit) change channel s
                ])
        given none = refused name s channel found _ _ c.fd
        given (some limit) =
            write_or_not name s channel found c (set_user_limit limit) change _
              (channel.has_user_limit && channel.user_limit == limit)
              (λ h.
                same_limit channel (ground (arith, h))
                  (ground (arith, h, ==_eq channel.user_limit limit)))
              refl

    apply_to_channel-IsWritten :
        W
          (mode_effect (target_at change.argument s) change channel)
          (apply_to_channel c name change channel s)
    unfolding apply_to_channel mode_effect
    apply_to_channel-IsWritten =
        both_if W (change.mode == b'i') (λ _. invite_only-IsWritten)
          λ _.
            both_if W (change.mode == b't') (λ _. topic_restricted-IsWritten)
              λ _.
                both_if W (change.mode == b'k') (λ _. key-IsWritten)
                  λ _.
                    both_if W (change.mode == b'o') (λ _. operator-IsWritten)
                      λ _.
                        both_if W (change.mode == b'l') (λ _. limit-IsWritten)
                          (λ _. refused name s channel found _ _ c.fd)

    pub applied-IsWritten :
        W
          (mode_effect (target_at change.argument s) change channel)
          (apply_channel_mode_change c name change s)
    unfolding apply_channel_mode_change
    applied-IsWritten =
        by_some (IsWritten name (mode_effect (target_at change.argument s) change channel) s)
          (find_channel name s) _ _ found apply_to_channel-IsWritten
