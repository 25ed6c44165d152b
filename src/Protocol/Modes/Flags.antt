-- ===== src/Protocol/Modes/Flags.antt =====
-- A mode that is set already (srcs/Command/ModeApply.cpp): writing it again changes nothing.
use irc.Base.{
  ℕ, Bool, true, false, not, ◌≡◌, refl, sym, ap, ◌∙◌, arith, nat_ord, Option-cases, inl, inr,
}
use irc.Map.{lookup, member, modify}
use irc.Map.Laws.{modify_idle}
use irc.Text.{Text, text_ord}
use irc.Channel.{Channel, has_member, is_member_operator, set_operator, set_member_operator}
use irc.Handler.Mode.Apply.{same, write_operator}

pub same_eq : (a b : Bool) → same a b ≡ true → b ≡ a
same_eq true b h = h
same_eq false b h = ground (arith, h)

abbrev pub flag : ℕ → Bool → Channel → Channel
flag fd enabled channel = record channel {
  members = modify fd (set_operator enabled) channel.members;
}

pub flag_absent :
    (fd : ℕ) (enabled : Bool) (channel : Channel)
    → not (has_member fd channel) ≡ true
    → channel ≡ flag fd enabled channel
unfolding has_member member
flag_absent fd enabled channel h = sym (
    ap (λ ms. record channel { members = ms })
      (modify_idle fd (set_operator enabled) channel.members λ m e. absurd (ground (arith, e, h))))

pub flag_idle :
    (fd : ℕ) (enabled : Bool) (channel : Channel)
    → has_member fd channel ≡ true
    → same (is_member_operator fd channel) enabled ≡ true
    → flag fd enabled channel ≡ channel
unfolding is_member_operator
flag_idle fd enabled channel h k =
    ap (λ ms. record channel { members = ms })
      (modify_idle fd (set_operator enabled) channel.members λ m e.
        ap (λ (v : Bool). set_operator v m) (same_eq m.is_operator enabled (ground (arith, e, k))))

pub flag_writes :
    (fd : ℕ) (enabled : Bool) (channel : Channel)
    → has_member fd channel ≡ true
    → flag fd enabled channel ≡ write_operator fd enabled channel
unfolding has_member member set_member_operator
flag_writes fd enabled channel h = elim (Option-cases (lookup fd channel.members)) [
  | inl missing ↦ absurd (ground (arith, missing, h))
  | inr (m, found) ↦ rw (found, write_operator, set_member_operator) refl
]

module _ (channel : Channel) where
  pub same_key :
      {key : Text}
      → channel.has_key ≡ true
      → channel.key ≡ key
      → record channel { has_key = true; key = key } ≡ channel
  same_key {key} h k =
      ap (λ v. record channel { has_key = v; key = key }) (sym h)
      ∙ ap (λ v. record channel { has_key = channel.has_key; key = v }) (sym k)

  pub same_limit :
      {limit : ℕ}
      → channel.has_user_limit ≡ true
      → channel.user_limit ≡ limit
      → record channel { has_user_limit = true; user_limit = limit } ≡ channel
  same_limit {limit} h k =
      ap (λ v. record channel { has_user_limit = v; user_limit = limit }) (sym h)
      ∙ ap (λ v. record channel { has_user_limit = channel.has_user_limit; user_limit = v }) (sym k)
