-- ===== src/Number/Bounds.antt =====
-- The numbers that checkPort (srcs/main.cpp) and parsePositiveUserLimit (srcs/Command/ModeApply.cpp)
-- accept, against the value of a text of digits.
use irc.Base.{
  ℕ, ◌+◌, ◌-◌, ◌*◌, ◌≤◌, Bool, true, ◌&&◌, ◌≡◌, refl, [], ◌∷◌, none, some, nat_ord, leb, ltb, arith,
  if◌then◌else◌, Option-cases, inl, inr,
}
use irc.Text.{Text}
use irc.Number.{
  word_bound, is_digit, is_space, skip_whitespace, read_digits, extract_digits, extract_unsigned,
  has_extra, only_number, check_port, parse_positive_user_limit,
}

unfoldable pub are_digits : Text → Bool
unfolding is_digit
are_digits [] = true
are_digits (c ∷ rest) = is_digit c && are_digits rest

-- The decimal value of the digits, behind the value of the digits before them.
unfoldable pub value_of : ℕ → Text → ℕ
value_of before [] = before
value_of before (c ∷ rest) = value_of (before * 10 + (c - b'0')) rest

read_digits_all :
    (before : ℕ) (t : Text) → are_digits t ≡ true → read_digits before t ≡ (value_of before t, [])
unfolding read_digits are_digits value_of
read_digits_all before [] h = refl
read_digits_all before (c ∷ t) h = ground (arith, read_digits_all (before * 10 + (c - b'0')) t)

extract_unsigned_digits :
    (c : ℕ) (t : Text)
    → are_digits (c ∷ t) ≡ true
    → extract_unsigned (c ∷ t)
      ≡ (if ltb (value_of 0 (c ∷ t)) word_bound then some (value_of 0 (c ∷ t), []) else none)
unfolding extract_unsigned skip_whitespace is_space extract_digits is_digit are_digits
extract_unsigned_digits c t h = ground (arith, read_digits_all 0 (c ∷ t) h)

only_number_digits :
    (c : ℕ) (t : Text)
    → are_digits (c ∷ t) ≡ true
    → only_number (extract_unsigned (c ∷ t))
      ≡ (if ltb (value_of 0 (c ∷ t)) word_bound then some (value_of 0 (c ∷ t)) else none)
unfolding only_number has_extra skip_whitespace
only_number_digits c t h = ground (arith, extract_unsigned_digits c t h)

-- A text of digits, not empty, is a user limit exactly when its value is above 0 and below 2 ^ 64, and
-- is read as this value.
parse_positive_user_limit_digits :
    (c : ℕ) (t : Text)
    → are_digits (c ∷ t) ≡ true
    → parse_positive_user_limit (c ∷ t) ≡ (
        if ltb 0 (value_of 0 (c ∷ t)) && ltb (value_of 0 (c ∷ t)) word_bound
        then some (value_of 0 (c ∷ t))
        else none)
unfolding parse_positive_user_limit are_digits
parse_positive_user_limit_digits c t h = ground (arith, only_number_digits c t h)

-- A text of digits, not empty, is a port exactly when its value is from 1 to 65535, and is read as
-- this value.
pub check_port_digits :
    (c : ℕ) (t : Text)
    → are_digits (c ∷ t) ≡ true
    → check_port (c ∷ t) ≡ (
        if ltb 0 (value_of 0 (c ∷ t)) && leb (value_of 0 (c ∷ t)) 65535
        then some (value_of 0 (c ∷ t))
        else none)
unfolding check_port
check_port_digits c t h = ground (arith, only_number_digits c t h)

-- Whatever the text, an accepted port is from 1 to 65535.
check_port_bounds : (t : Text) (port : ℕ) → check_port t ≡ some port → (1 ≤ port) × (port ≤ 65535)
unfolding check_port
check_port_bounds t port e = elim (Option-cases (only_number (extract_unsigned t))) [
  | inl refused ↦ absurd (ground (arith, refused, e))
  | inr (value, read) ↦ (ground (arith, read, e), ground (arith, read, e))
]
