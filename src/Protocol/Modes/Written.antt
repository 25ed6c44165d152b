-- ===== src/Protocol/Modes/Written.antt =====
-- The server that a change of a mode leaves (srcs/Command/ModeApply.cpp): another channel under the name.
use irc.Base.{
  ℕ, Bool, true, false, not, ◌≡◌, refl, sym, subst, ap, ◌∙◌, none, some, arith, nat_ord,
  Option-cases, inl, inr, ◌==◌, ==_eq, ==_refl, if◌then◌else◌,
}
use irc.Map.{lookup}
use irc.Map.Laws.{lookup-modify, lookup-map_values}
use irc.Text.{Text, text_ord, irc_case_fold}
use irc.Channel.{Channel}
use irc.Client.{Client}
use irc.Server.{Server, find_channel, find_client_by_nickname, find_client, modify_channel}
use irc.Server.Send.{send_numeric}
use irc.Server.Send.Frames.{quiet, core, quiet-send_numeric, quiet-broadcast_to_channel}
use irc.Protocol.Rules.{by_if}
use irc.Handler.Mode.Change.{ModeChange}
use irc.Handler.Mode.Apply.{mode_line, write_mode}
use irc.Protocol.Modes.{target_at}

-- The server with another channel under the name, apart from pending output.
pub record IsWritten (name : Text) (channel : Channel) (s t : Server) : Type 0 where
  pub channels :
      (key : Text)
      → lookup key t.channels
        ≡ (if irc_case_fold name == key then some channel else lookup key s.channels)
  pub index : t.nickname_index ≡ s.nickname_index
  pub clients : (quiet t).clients ≡ (quiet s).clients

target_at-quiet :
    (nickname : Text) (s : Server) → target_at nickname (quiet s) ≡ target_at nickname s
unfolding target_at find_client_by_nickname find_client quiet
target_at-quiet nickname s =
    elim (Option-cases (lookup (irc_case_fold nickname) s.nickname_index)) [
      | inl missing ↦ ground (arith, missing)
      | inr (fd, e) ↦ ground (arith, e, lookup-map_values core fd s.clients)
    ]

target_at_same :
    (nickname : Text) (s t : Server)
    → t.nickname_index ≡ s.nickname_index
    → t.clients ≡ s.clients
    → target_at nickname t ≡ target_at nickname s
unfolding target_at find_client_by_nickname find_client
target_at_same nickname s t index clients = ground (arith, index, clients)

module _ (name : Text) where
  pub target_at-IsWritten :
      (nickname : Text) (channel : Channel) (s t : Server)
      → IsWritten name channel s t
      → target_at nickname t ≡ target_at nickname s
  unfolding quiet
  target_at-IsWritten nickname channel s t w =
      sym (target_at-quiet nickname t)
      ∙ target_at_same nickname (quiet s) (quiet t) w.index w.clients
      ∙ target_at-quiet nickname s

  module _ (s : Server) (channel : Channel) (found : find_channel name s ≡ some channel) where
    -- A server with the same channels.
    pub unwritten : (t : Server) → quiet t ≡ quiet s → IsWritten name channel s t
    unfolding quiet find_channel
    unwritten t e = record {
      channels = λ key.
          ground (arith, ap (λ (v : Server). v.channels) e, found, ==_eq (irc_case_fold name) key);
      index = ap (λ (v : Server). v.nickname_index) e;
      clients = ap (λ (v : Server). v.clients) e;
    }

    pub written :
        (c : Client) (write : Channel → Channel) (change : ModeChange)
        → IsWritten name (write channel) s (write_mode c name write change channel s)
    unfolding write_mode find_channel quiet
    written c write change =
        let sent =
          quiet-broadcast_to_channel (write channel) (mode_line c (write channel) change) none
            (modify_channel name write s) in
        record {
          channels = λ key.
              ap (λ (v : Server). lookup key v.channels) sent
              ∙ ground (
                arith,
                lookup-modify (irc_case_fold name) key write s.channels,
                found,
                ==_eq (irc_case_fold name) key,
              );
          index = ap (λ (v : Server). v.nickname_index) sent;
          clients = ap (λ (v : Server). v.clients) sent;
        }

    -- Where the effect is the write, or nothing.
    pub write_or_not :
        (c : Client) (write : Channel → Channel) (change : ModeChange) (effect : Channel)
        (idle : Bool)
        → (idle ≡ true → effect ≡ channel)
        → effect ≡ write channel
        → IsWritten name effect s (if idle then s else write_mode c name write change channel s)
    write_or_not c write change effect idle kept done =
        by_if (IsWritten name effect s) idle
          (λ h. subst (λ x. IsWritten name x s s) (sym (kept h)) (unwritten s refl))
          λ _.
            subst (λ x. IsWritten name x s (write_mode c name write change channel s)) (sym done)
              (written c write change)

    pub refused :
        (numeric arguments : Text) (fd : ℕ)
        → IsWritten name channel s (send_numeric fd numeric arguments s)
    refused numeric arguments fd = unwritten _ (quiet-send_numeric fd numeric arguments s)

    pub erased_or_not :
        (c : Client) (write : Channel → Channel) (change : ModeChange) (has : Bool)
        → IsWritten name
            (if has then write channel else channel)
            s
            (if not has then s else write_mode c name write change channel s)
    erased_or_not c write change true = written c write change
    erased_or_not c write change false = unwritten s refl

  pub found_written :
      (channel : Channel) (s t : Server)
      → IsWritten name channel s t
      → find_channel name t ≡ some channel
  unfolding find_channel
  found_written channel s t w =
      ground (arith, w.channels (irc_case_fold name), ==_refl (irc_case_fold name))

  pub IsWritten-trans :
      (old channel : Channel) (s t u : Server)
      → IsWritten name old s t
      → IsWritten name channel t u
      → IsWritten name channel s u
  IsWritten-trans old channel s t u w v = record {
    channels = λ key. ground (arith, w.channels key, v.channels key);
    index = v.index ∙ w.index;
    clients = v.clients ∙ w.clients;
  }
