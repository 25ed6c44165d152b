-- ===== src/Number/Limits.antt =====
-- The texts that parsePositiveUserLimit (srcs/Command/ModeApply.cpp) accepts as a user limit.
use mathlib.Core.Logic.{◌↔◌}
use irc.Base.{
  ℕ, true, false, ◌&&◌, ◌≡◌, ◌≤◌, ◌<◌, sym, ap, ◌∙◌, [], ◌∷◌, ◌++◌, none, some, nat_ord, ltb, arith,
  Bool-cases, Option-cases, inl, inr, if◌then◌else◌,
}
use irc.Text.{Text}
use irc.Number.{
  word_bound, is_digit, is_space, skip_whitespace, extract_digits, extract_signed, extract_unsigned,
  has_extra, only_number, starts_with_digit, parse_positive_user_limit,
}
use irc.Number.Bounds.{are_digits, value_of}
use irc.Number.Written.{write_sign, are_blanks, no_extra, extract_digits_front}
use irc.Number.Split.{extra_blanks, extract_digits-Signed}

-- What an accepted user limit is spelled as, and its value.
pub record IsLimit (t : Text) (limit : ℕ) : Type 0 where
  pub first : ℕ
  pub digits : Text
  pub behind : Text
  pub numeric : are_digits (first ∷ digits) ≡ true
  pub blank_behind : are_blanks behind ≡ true
  pub spelled : t ≡ (first ∷ digits) ++ behind
  pub valued : value_of 0 (first ∷ digits) ≡ limit
  pub positive : 1 ≤ limit
  pub small : limit < word_bound

digit_first :
    (c : ℕ) (t : Text) → is_digit c ≡ true → extract_unsigned (c ∷ t) ≡ extract_digits (c ∷ t)
unfolding extract_unsigned extract_signed skip_whitespace is_space is_digit
digit_first c t h = ground (arith, h)

limit_written :
    (c : ℕ) (digits behind : Text)
    → are_digits (c ∷ digits) ≡ true
    → are_blanks behind ≡ true
    → parse_positive_user_limit ((c ∷ digits) ++ behind) ≡ (
        if ltb (value_of 0 (c ∷ digits)) word_bound && ltb 0 (value_of 0 (c ∷ digits))
        then some (value_of 0 (c ∷ digits))
        else none)
unfolding parse_positive_user_limit starts_with_digit only_number are_digits
limit_written c digits behind h k = ground (
  arith,
  h,
  digit_first c (digits ++ behind),
  extract_digits_front c digits behind h k,
  no_extra behind k,
)

IsLimit-parse_positive_user_limit :
    (t : Text) (limit : ℕ) → IsLimit t limit → parse_positive_user_limit t ≡ some limit
IsLimit-parse_positive_user_limit t limit w =
    ap parse_positive_user_limit w.spelled
    ∙ limit_written w.first w.digits w.behind w.numeric w.blank_behind
    ∙ ground (arith, w.valued, w.positive, w.small)

limit_read :
    (t : Text) (limit : ℕ)
    → parse_positive_user_limit t ≡ some limit
    → (value : ℕ) × (behind : Text) × (extract_digits t ≡ some (value, behind))
      × (has_extra behind ≡ false)
unfolding parse_positive_user_limit starts_with_digit only_number
limit_read [] limit e = absurd (ground (arith, e))
limit_read (c ∷ t) limit e = elim (Bool-cases (is_digit c)) [
  | inl digit ↦ elim (Option-cases (extract_digits (c ∷ t))) [
    | inl missing ↦ absurd (ground (arith, digit, digit_first c t digit, missing, e))
    | inr ((value, behind), read) ↦
        (value, behind, read, ground (arith, digit, digit_first c t digit, read, e))
  ]
  | inr other ↦ absurd (ground (arith, other, e))
]

limit_facts :
    (value limit : ℕ)
    → (if ltb value word_bound && ltb 0 value then some value else none) ≡ some limit
    → (value ≡ limit) × (1 ≤ limit) × (limit < word_bound)
limit_facts value limit e = (ground (arith, e), ground (arith, e), ground (arith, e))

parse_positive_user_limit-IsLimit :
    (t : Text) (limit : ℕ) → parse_positive_user_limit t ≡ some limit → IsLimit t limit
unfolding write_sign
parse_positive_user_limit-IsLimit t limit e =
    let (value, behind, read, plain) = limit_read t limit e in
    let (c, digits, numeric, split) = extract_digits-Signed t behind value read in
    let blank_behind = extra_blanks behind plain in
    let facts = limit_facts (value_of 0 (c ∷ digits)) limit (
      sym (limit_written c digits behind numeric blank_behind)
      ∙ ap parse_positive_user_limit (sym split)
      ∙ e) in
    record {
      first = c;
      digits = digits;
      behind = behind;
      numeric = numeric;
      blank_behind = blank_behind;
      spelled = split;
      valued = facts.0;
      positive = facts.1;
      small = facts.2;
    }

-- A text is accepted as a user limit, and read as a number, exactly when it is digits, one at least, and
-- blanks behind them, and the digits stand for this number, which is above 0 and below 2 ^ 64.
pub parse_positive_user_limit_iff :
    (t : Text) (limit : ℕ) → (parse_positive_user_limit t ≡ some limit) ↔ IsLimit t limit
parse_positive_user_limit_iff t limit =
    (parse_positive_user_limit-IsLimit t limit, IsLimit-parse_positive_user_limit t limit)
