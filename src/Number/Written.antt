-- ===== src/Number/Written.antt =====
-- The texts that checkPort (srcs/main.cpp) reads as a number: blanks around digits with a sign, or none.
use irc.Base.{
  ℕ, ◌+◌, ◌-◌, ◌*◌, ◌%◌, Bool, true, false, ◌&&◌, ◌≡◌, refl, [], ◌∷◌, ◌++◌, none, some, nat_ord,
  ltb, arith, if◌then◌else◌,
}
use irc.Text.{Text}
use irc.Number.{
  word_bound, is_digit, is_space, skip_whitespace, read_digits, extract_digits, extract_signed,
  negate, has_extra,
}
use irc.Number.Bounds.{are_digits, value_of}

pub data Sign : Type 0 where
  unsigned : Sign
  plus : Sign
  minus : Sign

unfoldable pub are_blanks : Text → Bool
unfolding is_space
are_blanks [] = true
are_blanks (c ∷ rest) = is_space c && are_blanks rest

unfoldable pub write_sign : Sign → Text → Text
write_sign unsigned digits = digits
write_sign plus digits = b'+' ∷ digits
write_sign minus digits = b'-' ∷ digits

-- The value of an unsigned extraction: a minus sign negates modulo the width.
unfoldable pub signed_value : Sign → ℕ → ℕ
signed_value unsigned value = value
signed_value plus value = value
signed_value minus value = (word_bound - value) % word_bound

pub blanks_skipped :
    (blanks text : Text)
    → are_blanks blanks ≡ true
    → skip_whitespace (blanks ++ text) ≡ skip_whitespace text
unfolding skip_whitespace are_blanks
blanks_skipped [] text h = refl
blanks_skipped (c ∷ blanks) text h = ground (arith, h, blanks_skipped blanks text)

pub no_extra : (blanks : Text) → are_blanks blanks ≡ true → has_extra blanks ≡ false
unfolding has_extra skip_whitespace are_blanks
no_extra [] h = refl
no_extra (c ∷ blanks) h = ground (arith, h, no_extra blanks)

read_digits_blanks :
    (before : ℕ) (blanks : Text)
    → are_blanks blanks ≡ true
    → read_digits before blanks ≡ (before, blanks)
unfolding read_digits are_blanks is_space is_digit
read_digits_blanks before [] h = refl
read_digits_blanks before (c ∷ blanks) h = ground (arith, h)

read_digits_front :
    (before : ℕ) (digits blanks : Text)
    → are_digits digits ≡ true
    → are_blanks blanks ≡ true
    → read_digits before (digits ++ blanks) ≡ (value_of before digits, blanks)
unfolding read_digits are_digits value_of
read_digits_front before [] blanks h k = read_digits_blanks before blanks k
read_digits_front before (c ∷ digits) blanks h k =
    ground (arith, read_digits_front (before * 10 + (c - b'0')) digits blanks, h, k)

pub extract_digits_front :
    (c : ℕ) (digits blanks : Text)
    → are_digits (c ∷ digits) ≡ true
    → are_blanks blanks ≡ true
    → extract_digits ((c ∷ digits) ++ blanks) ≡ (
        if ltb (value_of 0 (c ∷ digits)) word_bound
        then some (value_of 0 (c ∷ digits), blanks)
        else none)
unfolding extract_digits are_digits
extract_digits_front c digits blanks h k =
    ground (arith, h, read_digits_front 0 (c ∷ digits) blanks h k)

pub extract_signed_front :
    (sign : Sign) (c : ℕ) (digits blanks : Text)
    → are_digits (c ∷ digits) ≡ true
    → are_blanks blanks ≡ true
    → extract_signed (write_sign sign ((c ∷ digits) ++ blanks)) ≡ (
        if ltb (value_of 0 (c ∷ digits)) word_bound
        then some (signed_value sign (value_of 0 (c ∷ digits)), blanks)
        else none)
unfolding extract_signed write_sign signed_value negate are_digits is_digit
extract_signed_front unsigned c digits blanks h k =
    ground (arith, h, extract_digits_front c digits blanks h k)
extract_signed_front plus c digits blanks h k = extract_digits_front c digits blanks h k
extract_signed_front minus c digits blanks h k =
    ground (arith, h, extract_digits_front c digits blanks h k)

pub sign_kept :
    (sign : Sign) (c : ℕ) (rest : Text)
    → is_digit c ≡ true
    → skip_whitespace (write_sign sign (c ∷ rest)) ≡ write_sign sign (c ∷ rest)
unfolding skip_whitespace is_space is_digit write_sign
sign_kept unsigned c rest h = ground (arith, h)
sign_kept plus c rest h = refl
sign_kept minus c rest h = refl
