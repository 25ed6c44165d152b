-- ===== src/Number/Split.antt =====
-- What an unsigned extraction takes from the front of a text, as srcs/main.cpp and
-- srcs/Command/ModeApply.cpp use it.
use irc.Base.{
  ℕ, ◌+◌, ◌-◌, ◌*◌, true, false, ◌==◌, ==_eq, ◌≡◌, refl, ap, ◌∙◌, [], ◌∷◌, ◌++◌, some, nat_ord,
  arith, Bool-cases, Option-cases, inl, inr,
}
use irc.Text.{Text}
use irc.Number.{
  is_digit, is_space, skip_whitespace, read_digits, extract_digits, extract_signed, negate,
  has_extra,
}
use irc.Number.Bounds.{are_digits}
use irc.Number.Written.{Sign, unsigned, plus, minus, are_blanks, write_sign}

pub split_blanks :
    (t : Text) → (before : Text) × (are_blanks before ≡ true) × (t ≡ before ++ skip_whitespace t)
unfolding are_blanks skip_whitespace
split_blanks [] = ([], refl, refl)
split_blanks (c ∷ t) = elim (Bool-cases (is_space c)) [
  | inl blank ↦
      let (before, blanks, e) = split_blanks t in
      (c ∷ before, rw blank blanks, rw blank (ap (λ r. c ∷ r) e))
  | inr other ↦ ([], refl, rw other refl)
]

pub extra_blanks : (t : Text) → has_extra t ≡ false → are_blanks t ≡ true
unfolding has_extra are_blanks skip_whitespace
extra_blanks [] h = refl
extra_blanks (c ∷ t) h = ground (arith, h, extra_blanks t)

split_digits :
    (value : ℕ) (t : Text)
    → (digits : Text) × (are_digits digits ≡ true) × (t ≡ digits ++ (read_digits value t).1)
unfolding are_digits read_digits
split_digits value [] = ([], refl, refl)
split_digits value (c ∷ t) = elim (Bool-cases (is_digit c)) [
  | inl digit ↦
      let (digits, all, e) = split_digits (value * 10 + (c - b'0')) t in
      (c ∷ digits, rw digit all, rw digit (ap (λ r. c ∷ r) e))
  | inr other ↦ ([], refl, rw other refl)
]

-- The front of a text that an extraction of digits takes, with a sign before it or none.
abbrev pub Signed : Sign → Text → Text → Type 0
Signed sign t behind =
    (c : ℕ) × (digits : Text) × (are_digits (c ∷ digits) ≡ true)
    × (t ≡ write_sign sign ((c ∷ digits) ++ behind))

digits_left :
    (c : ℕ) (t behind : Text) (value : ℕ)
    → is_digit c ≡ true
    → extract_digits (c ∷ t) ≡ some (value, behind)
    → (read_digits (0 * 10 + (c - b'0')) t).1 ≡ behind
unfolding extract_digits read_digits
digits_left c t behind value digit e = ground (arith, digit, e)

pub extract_digits-Signed :
    (t behind : Text) (value : ℕ)
    → extract_digits t ≡ some (value, behind)
    → Signed unsigned t behind
unfolding extract_digits are_digits write_sign
extract_digits-Signed [] behind value e = absurd (ground (arith, e))
extract_digits-Signed (c ∷ t) behind value e = elim (Bool-cases (is_digit c)) [
  | inl digit ↦
      let (digits, all, split) = split_digits (0 * 10 + (c - b'0')) t in
      (
        c,
        digits,
        ground (arith, digit, all),
        ap (λ r. c ∷ r) (split ∙ ap (λ r. digits ++ r) (digits_left c t behind value digit e)),
      )
  | inr other ↦ absurd (ground (arith, other, e))
]

signed_left :
    (t left behind : Text) (found value : ℕ)
    → extract_digits t ≡ some (found, left)
    → negate (extract_digits t) ≡ some (value, behind)
    → left ≡ behind
unfolding negate
signed_left t left behind found value taken e = ground (arith, taken, e)

sign_spelled : (c sign : ℕ) (t t' : Text) → (c == sign) ≡ true → t ≡ t' → c ∷ t ≡ sign ∷ t'
sign_spelled c sign t t' same e = cc (==_eq c sign same, e)

pub extract_signed-Signed :
    (t behind : Text) (value : ℕ)
    → extract_signed t ≡ some (value, behind)
    → (sign : Sign) × Signed sign t behind
unfolding extract_signed write_sign
extract_signed-Signed [] behind value e = absurd (ground (arith, e))
extract_signed-Signed (c ∷ t) behind value e = elim (Bool-cases (c == b'-')) [
  | inl dash ↦
      let negated : negate (extract_digits t) ≡ some (value, behind) = ground (arith, dash, e) in
      elim (Option-cases (extract_digits t)) [
        | inl missing ↦ absurd (unfold negate in ground (arith, missing, negated))
        | inr ((found, left), taken) ↦
            let (d, digits, all, split) = extract_digits-Signed t left found taken in
            let ends = signed_left t left behind found value taken negated in
            (
              minus,
              (
                d,
                digits,
                all,
                sign_spelled c b'-' t ((d ∷ digits) ++ behind) dash
                    (split ∙ ap (λ r. (d ∷ digits) ++ r) ends),
              ),
            )
      ]
  | inr other ↦ elim (Bool-cases (c == b'+')) [
    | inl sum ↦
        let (d, digits, all, split) =
          extract_digits-Signed t behind value (ground (arith, other, sum, e)) in
        (plus, (d, digits, all, sign_spelled c b'+' t ((d ∷ digits) ++ behind) sum split))
    | inr neither ↦
        (unsigned, extract_digits-Signed (c ∷ t) behind value (ground (arith, other, neither, e)))
  ]
]
